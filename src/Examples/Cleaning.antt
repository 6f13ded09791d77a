-- ===== src/Examples/Cleaning.antt =====
-- A database that changes hands while a worker sleeps.
use integresql.Prelude.{◌≡◌, refl, none, some, [], ◌∷◌, ◌++◌, arith, get_elem?, set, pos}
use integresql.Errors.{ok, done}
use integresql.Pool.{HashPool, new_hash_pool, db_dirty}
use integresql.Pool.Take.{on_ready, take_locked, issue, get_test_database}
use integresql.Pool.Give.{return_test_database, give_back}
use integresql.Pool.Channel.{send, send_task, exclude_id_from_channel, drain, refill}
use integresql.Pool.Extend.{new_test_db}
use integresql.Pool.Clean.{auto_clean_dirty}
use integresql.Pool.Clean.Lifetime.{cleaned_early}
use integresql.Pool.Effects.Moving.{renewed}
use integresql.Pool.Recreate.Undisturbed.{answered}
use integresql.Pool.{ExistingDb}
use integresql.Examples.Runs.{cfg, template, pool_of}

-- Issued at the time 5.
abbrev issued_db : ExistingDb
unfolding new_test_db new_hash_pool
issued_db = record (new_test_db (new_hash_pool cfg template) 0) {
  block_auto_clean_dirty_until = 255;
}

abbrev issued_pool : HashPool
unfolding issued_db new_hash_pool
issued_pool = record (new_hash_pool cfg template) { dbs = issued_db ∷ []; dirty = 0 ∷ [] }

abbrev given : HashPool
unfolding issued_pool issued_db new_test_db new_hash_pool pool_of return_test_database give_back
    send exclude_id_from_channel drain refill
given = pool_of (return_test_database none (pos 0) (record issued_pool { dirty = [] }))

abbrev issued_again : HashPool
unfolding given issued_pool issued_db new_test_db new_hash_pool pool_of return_test_database
    give_back send exclude_id_from_channel drain refill get_test_database take_locked issue
    integresql.Pool.Take.push_extend integresql.Pool.Take.push_auto_clean send_task
issued_again = pool_of (get_test_database on_ready 200 given)

-- The worker looks at the time 10 and wakes at 255; the second client is protected until 450.
cleaned_early_example :
    (get_elem? issued_again.dbs 0
      ≡ some (record issued_db { state = db_dirty; block_auto_clean_dirty_until = 450 }))
    × (auto_clean_dirty none (λ p. issued_again) 10 (answered 1 none []) issued_pool
        ≡ done (
          record issued_again {
            dbs = set issued_again.dbs 0 (
                renewed
                  (record issued_db { state = db_dirty; block_auto_clean_dirty_until = 450 }));
            ready = issued_again.ready ++ 0 ∷ [];
          },
          ok tt,
        ))
unfolding issued_again given issued_pool issued_db new_test_db new_hash_pool pool_of
    return_test_database give_back send exclude_id_from_channel drain refill get_test_database
    take_locked issue integresql.Pool.Take.push_extend integresql.Pool.Take.push_auto_clean
    send_task
cleaned_early_example =
    cleaned_early issued_pool 0 [] issued_db refl refl refl (omega arith) (omega arith) refl
      (λ p. issued_again) 10 200 1 given issued_again issued_db.test_database (omega arith) refl
      (omega arith) refl refl refl
