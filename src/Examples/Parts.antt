-- ===== src/Examples/Parts.antt =====
-- The operations of a pool, one by one, on small pools.
use integresql.Prelude.{
  ℕ, zero, suc, ◌<◌, ◌≡◌, refl, true, Option, none, some, List, [], ◌∷◌, ◌++◌, pos, codes, arith,
  take, get_elem?, replicate, ◌==◌, if◌then◌else◌, leb,
}
use integresql.Errors.{Err, ok, err, Outcome, done, blocked, panicked, test_db_in_use}
use mathlib.Core.List.{Permᴰ}
use integresql.Prelude.{Text}
use integresql.Prelude.Assoc.{Assoc, has_key}
use integresql.Prelude.Assoc.Order.{IsMap}
use integresql.Database.{DatabaseConfig, connection_string, TestDatabase}
use integresql.Database.Connection.{connection_string-perm}
use integresql.Pool.{HashPool, ExistingDb, task_extend, open_context, nil_context, new_hash_pool}
use integresql.Pool.Name.{make_db_name-injective}
use integresql.Pool.Channel.{
  exclude_id_from_channel, exclude_id_from_channel-without, send, send_task, drain, refill,
}
use integresql.Pool.Extend.{new_test_db}
use integresql.Pool.Recreate.{Attempt, recreate_test_database, begin_recreate}
use integresql.Pool.Lifecycle.{start, stop, stop_signal, finish_stop}
use integresql.Pool.Lifecycle.Tasks.{start-new_hash_pool}
use integresql.Pool.Removal.{
  remove_all, remove_stopped, remove_from, remove_step, shrink, drop_id, finish_removal,
}
use integresql.Pool.Recreate.{Weather, recreate_database_gracefully}
use integresql.Prelude.{set}
use integresql.Errors.{pool_full, driver}
use integresql.Pool.Effects.Moving.{renewed}
use integresql.Pool.Recreate.Undisturbed.{answered, recreate_database_gracefully-renews}
use integresql.Pool.Extend.Failing.{
  Failure, weathers, with_dbs, appended, extend_again, extend_again-fills,
}
use integresql.Pool.Extend.{extend}
use integresql.Pool.Removal.Once.{remove_all-never_twice, recreate-after-remove_all}
use integresql.Pool.Removal.Complete.{without_below, remove_stopped-all}
use integresql.Pool.Removal.Partial.{without_above, remove_stopped-stops}
use integresql.Pool.System.Reissue.{begin_recreate-not_exclusive}
use integresql.Examples.Runs.{cfg, template}

-- Two databases, the first one dirty.
unfoldable pub new_pool : HashPool
unfolding new_hash_pool
new_pool = new_hash_pool cfg template

unfoldable pub two_dbs : List ExistingDb
unfolding new_test_db new_pool new_hash_pool
two_dbs = new_test_db new_pool 0 ∷ new_test_db new_pool 1 ∷ []

unfoldable pub stopped_pool : HashPool
unfolding new_pool new_hash_pool two_dbs new_test_db
stopped_pool = record new_pool { dbs = two_dbs; dirty = 1 ∷ 0 ∷ [] }

unfoldable pub running_pool : HashPool
unfolding stopped_pool new_pool new_hash_pool two_dbs new_test_db
running_pool = record stopped_pool { running = true; worker_context = open_context }

abbrev pub refuse_first : TestDatabase → Option Err
refuse_first t = if t.id == 0 then some test_db_in_use else none

others :
    (i : ℕ) (c : ExistingDb)
    → 0 < i
    → get_elem? stopped_pool.dbs i ≡ some c
    → refuse_first c.test_database ≡ none
unfolding stopped_pool new_pool new_hash_pool two_dbs new_test_db
others zero c h e = absurd (omega arith)
others (suc zero) c h e = ground arith
others (suc (suc i)) c h e = ground arith

remove_stopped-stops_example :
    remove_stopped refuse_first stopped_pool
    ≡ done (
      record stopped_pool {
        dbs = take 1 two_dbs;
        dirty = without_above 0 1 (1 ∷ 0 ∷ []);
        ready = without_above 0 1 [];
      },
      err test_db_in_use,
    )
unfolding stopped_pool new_pool new_hash_pool two_dbs new_test_db
remove_stopped-stops_example =
    remove_stopped-stops refuse_first 0 (new_test_db new_pool 0) test_db_in_use refl 1 stopped_pool
      refl refl refl others (omega arith) (omega arith)

begin_recreate-not_exclusive_example :
    begin_recreate open_context 1 stopped_pool
    ≡ done (stopped_pool, ok (some (new_test_db new_pool 1)))
unfolding stopped_pool new_pool new_hash_pool two_dbs new_test_db
begin_recreate-not_exclusive_example =
    begin_recreate-not_exclusive stopped_pool 1 (new_test_db new_pool 1) refl refl refl

abbrev pool_of {ℓ} : {A : Type ℓ} → Outcome (HashPool × A) → HashPool
unfolding new_pool new_hash_pool
pool_of (done (p, r)) = p
pool_of blocked = new_pool
pool_of panicked = new_pool

abbrev left_pool : HashPool
unfolding running_pool stopped_pool new_pool new_hash_pool two_dbs new_test_db pool_of remove_all
    remove_stopped stop remove_from remove_step shrink drop_id exclude_id_from_channel drain refill
    finish_removal stop_signal finish_stop send_task send
left_pool = pool_of (remove_all (λ p. p) refuse_first running_pool)

remove_all-never_twice_example : remove_all (λ p. p) (λ t. none) left_pool ≡ blocked
unfolding left_pool running_pool stopped_pool new_pool new_hash_pool two_dbs new_test_db pool_of
    remove_all remove_stopped stop remove_from remove_step shrink drop_id exclude_id_from_channel
    drain refill finish_removal stop_signal finish_stop send_task send
remove_all-never_twice_example =
    remove_all-never_twice (λ p. p) (λ p. p) refuse_first (λ t. none) running_pool left_pool
      (err test_db_in_use) (λ x. refl) refl

exclude_id_from_channel-without_example :
    exclude_id_from_channel 3 1 (1 ∷ 2 ∷ 1 ∷ []) ≡ done (2 ∷ [])
exclude_id_from_channel-without_example =
    exclude_id_from_channel-without 3 1 (1 ∷ 2 ∷ 1 ∷ []) (omega arith)

abbrev free : Attempt
free = record { ctx_done = none; answer = none }

start-new_hash_pool_example : start (new_hash_pool cfg template) ≡ (
    if leb 1 3
    then done (record (new_hash_pool cfg template) {
      running = true;
      worker_context = open_context;
      tasks_chan = replicate 1 task_extend;
    })
    else blocked)
start-new_hash_pool_example = start-new_hash_pool cfg template

make_db_name-injective_example : (codes "a_001" ≡ codes "a_001") × (◌≡◌ {A = ℕ} 7 7)
make_db_name-injective_example =
    make_db_name-injective (codes "t_") (codes "a_001") (codes "a_001") 7 7 refl

abbrev with_params : Assoc Text → DatabaseConfig
with_params params = record template.config { additional_params = params }

abbrev mode : Text × Text
mode = (codes "sslmode", codes "require")

abbrev zone : Text × Text
zone = (codes "TimeZone", codes "UTC")

zone-mode-IsMap : IsMap (zone ∷ mode ∷ [])
unfolding has_key
zone-mode-IsMap = (refl, (refl, tt))

connection_string-perm_example :
    connection_string (with_params (zone ∷ mode ∷ []))
    ≡ connection_string (with_params (mode ∷ zone ∷ []))
connection_string-perm_example =
    connection_string-perm (with_params (zone ∷ mode ∷ [])) (mode ∷ zone ∷ []) zone-mode-IsMap
      ∣ Permᴰ.swap refl refl ∣₁

recreate-after-remove_all_example :
    begin_recreate nil_context 0 (record left_pool { dirty = [] }) ≡ panicked
unfolding left_pool running_pool stopped_pool new_pool new_hash_pool two_dbs new_test_db pool_of
    remove_all remove_stopped stop remove_from remove_step shrink drop_id exclude_id_from_channel
    drain refill finish_removal stop_signal finish_stop send_task send recreate_test_database
recreate-after-remove_all_example =
    recreate-after-remove_all (λ p. p) refuse_first running_pool left_pool
      (record left_pool { dirty = [] }) (err test_db_in_use) none (pos 0)
      (record { context = nil_context; id = 0 }) (λ x. refl) refl refl

remove_stopped-all_example :
    remove_stopped (λ t. none) stopped_pool
    ≡ done (
      record stopped_pool {
        dbs = [];
        dbs_cap = 0;
        dirty = without_below 2 (1 ∷ 0 ∷ []);
        ready = without_below 2 [];
        tasks_closed = true;
      },
      ok tt,
    )
unfolding stopped_pool new_pool new_hash_pool two_dbs new_test_db
remove_stopped-all_example =
    remove_stopped-all (λ t. none) 1 stopped_pool refl refl refl (λ i c at. refl) (omega arith)
      (omega arith)

recreate_database_gracefully-renews_example :
    recreate_database_gracefully (answered 2 none []) 1 stopped_pool
    ≡ done (
      record stopped_pool {
        dbs = set stopped_pool.dbs 1 (renewed (new_test_db new_pool 1));
        ready = stopped_pool.ready ++ 1 ∷ [];
      },
      ok tt,
    )
unfolding stopped_pool new_pool new_hash_pool two_dbs new_test_db
recreate_database_gracefully-renews_example =
    recreate_database_gracefully-renews 1 stopped_pool (new_test_db new_pool 1) refl refl refl
      (omega arith) 2 [] (omega arith)

-- The server refuses the statement.
abbrev two_failures : List Failure
two_failures =
    record { rounds_in_use = 1; reason = driver 1; fatal = refl; never_read = [] }
    ∷ record { rounds_in_use = 0; reason = driver 2; fatal = refl; never_read = [] }
    ∷ []

extend_again-fills_example :
    (extend_again (weathers two_failures) new_pool
      ≡ done (with_dbs new_pool (appended new_pool 0 2)))
    × ((later : Weather)
        → extend later (with_dbs new_pool (appended new_pool 0 2))
          ≡ done (with_dbs new_pool (appended new_pool 0 2), err pool_full))
unfolding new_pool new_hash_pool
extend_again-fills_example = extend_again-fills two_failures new_pool refl refl (omega arith)
