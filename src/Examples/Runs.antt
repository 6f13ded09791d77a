-- ===== src/Examples/Runs.antt =====
-- Runs of one pool, of at most two databases.
use integresql.Prelude.{◌≡◌, ◌≤◌, refl, false, none, some, [], pos, codes, arith, length, get_elem?}
use integresql.Errors.{ok, done, blocked, panicked, Outcome}
use integresql.Database.{Database}
use integresql.Pool.{HashPool, ExistingDb, PoolConfig, open_context, new_hash_pool, db_recreating}
use integresql.Pool.Take.{take_locked, issue}
use integresql.Pool.Extend.{append_db, new_test_db}
use integresql.Pool.Recreate.{
  recreate_test_database, begin_recreate, enter_recreating, move_to_ready,
}
use integresql.Pool.Lifecycle.{start}
use integresql.Pool.Channel.{exclude_id_from_channel, drain, refill, send, send_task}
use integresql.Pool.System.Safety.{SystemInv, Reach-SystemInv}
use integresql.Pool.System.Reissue.{race, reissued}
use integresql.Pool.System.Guarantees.{
  take_succeeds, move_to_ready_succeeds, return_succeeds, ready_ids, finished, returned, holders,
}
use integresql.Pool.System.RoundTrip.{visited_pool, take-then-return}
use integresql.Pool.Give.{return_test_database, find_db}
use integresql.Pool.Invariant.{tokens}
use integresql.Pool.Contract.{Allows}
use integresql.Pool.Contract.Simulation.{shelf}
use integresql.Pool.Contract.Refinement.{test_database_of, answers, Reach-refines}
use integresql.Pool.System.{
  System, Reach, NoRequests, started, later, request, receive, grow, begin, enter, recreate, finish,
  receive_task, take,
}

abbrev pub cfg : PoolConfig
cfg = record {
  initial_pool_size = 1;
  max_pool_size = 2;
  test_db_name_prefix = codes "t_";
  max_parallel_tasks = 1;
  test_database_retry_recreate_sleep_min = 250;
  test_database_retry_recreate_sleep_max = 3000;
  test_database_minimal_lifetime = 250;
  disable_worker_autostart = false;
}

abbrev pub template : Database
template = record {
  template_hash = codes "h";
  config = record {
    host = codes "127.0.0.1";
    port = pos 5432;
    username = codes "u";
    password = codes "";
    database = codes "template_h";
    additional_params = [];
  };
}

-- A state with the way to it.
record Run : Type 0 where
  last : System
  open last use *
  reach : Reach cfg template last

-- The worker has extended the pool by one database and waits at `MoveToReady`.
abbrev recreating_run : Run
unfolding start new_hash_pool append_db begin_recreate enter_recreating
    integresql.Pool.Lifecycle.push_extends send_task new_test_db
recreating_run = record {
  last = _;
  reach =
      later
        (later
          (later (later (later (started _ refl) (receive_task _ _ refl)) (grow _ 0 0 refl refl))
            (begin 0 0 _ _ refl refl))
          (enter 0 0 _ refl refl))
        (recreate 0 0 refl);
}

-- The client takes it with room in the channels.
abbrev offered_run : Run
unfolding move_to_ready send recreating_run start new_hash_pool append_db begin_recreate
    enter_recreating integresql.Pool.Lifecycle.push_extends send_task new_test_db
offered_run = record {
  last = _;
  reach = later (later recreating_run.reach (finish 0 0 _ _ refl refl)) (receive 0 [] refl);
}

-- The client has taken it.
abbrev taken_run : Run
unfolding take_locked issue integresql.Pool.Take.push_extend integresql.Pool.Take.push_auto_clean
    send offered_run recreating_run move_to_ready start new_hash_pool append_db begin_recreate
    enter_recreating integresql.Pool.Lifecycle.push_extends send_task new_test_db
taken_run = record { last = _; reach = later offered_run.reach (take 5 [] 0 [] _ _ refl refl) }

take_succeeds_example :
    (q : HashPool) × (take_locked 7 0 offered_run.pool
      ≡ done (q, ok (new_test_db offered_run.pool 0).test_database))
unfolding offered_run recreating_run move_to_ready send start new_hash_pool append_db begin_recreate
    enter_recreating integresql.Pool.Lifecycle.push_extends send_task new_test_db
take_succeeds_example = take_succeeds offered_run.reach 7 [] 0 [] refl (omega arith) (omega arith)

move_to_ready_succeeds_example :
    (d : ExistingDb) × (get_elem? recreating_run.pool.dbs 0 ≡ some d)
    × (move_to_ready open_context 0 recreating_run.pool
        ≡ done (finished 0 d recreating_run.pool, ok tt))
unfolding recreating_run start new_hash_pool append_db begin_recreate enter_recreating
    integresql.Pool.Lifecycle.push_extends send_task new_test_db
move_to_ready_succeeds_example = move_to_ready_succeeds recreating_run.reach 0 0 refl

offered_run-NoRequests : NoRequests offered_run.reach
unfolding offered_run recreating_run
offered_run-NoRequests = (((((((tt, tt), tt), tt), tt), tt), tt), tt)

taken_run-NoRequests : NoRequests taken_run.reach
unfolding taken_run
taken_run-NoRequests = (offered_run-NoRequests, tt)

return_succeeds_example :
    return_test_database none (pos 0) taken_run.pool
    ≡ done (returned none (find_db taken_run.pool (pos 0)) taken_run.pool)
return_succeeds_example = return_succeeds taken_run.reach none (pos 0) taken_run-NoRequests

ready_ids_example :
    (tokens taken_run.pool taken_run.pending 0 ≡ holders (get_elem? taken_run.pool.dbs 0))
    × (length taken_run.pool.dbs ≤ taken_run.pool.max_pool_size)
    × (length taken_run.pool.ready ≤ taken_run.pool.max_pool_size)
ready_ids_example = ready_ids taken_run.reach 0

Reach-SystemInv_example : SystemInv taken_run.last
Reach-SystemInv_example = Reach-SystemInv taken_run.reach

unfoldable pub pool_of {ℓ} : {A : Type ℓ} → Outcome (HashPool × A) → HashPool
unfolding new_hash_pool
pool_of (done (p, r)) = p
pool_of blocked = new_hash_pool cfg template
pool_of panicked = new_hash_pool cfg template

-- The first database has just been added, and its worker is about to begin.
abbrev grown_run : Run
unfolding start new_hash_pool append_db integresql.Pool.Lifecycle.push_extends send_task new_test_db
grown_run = record {
  last = _;
  reach = later (later (started _ refl) (receive_task _ _ refl)) (grow _ 0 0 refl refl);
}

reissued_example :
    race 5 9 0 grown_run.pool
    ≡ done (
        some (
          ok (new_test_db grown_run.pool 0).test_database,
          ok (new_test_db grown_run.pool 0).test_database,
        ))
unfolding grown_run start new_hash_pool append_db integresql.Pool.Lifecycle.push_extends send_task
    new_test_db
reissued_example =
    reissued 5 9 0 grown_run.pool (new_test_db grown_run.pool 0) refl refl refl refl refl refl
      (omega arith) (omega arith) (omega arith)

-- The lost state `recreating` at work, as a whole run: a client asks for the recreation of database
-- 0 while a worker is at it, both workers come as far as `MoveToReady`, the first one makes it ready,
-- a client takes it, the second one makes it ready again, and a second client takes it too.
abbrev shared_run : Run
unfolding recreate_test_database exclude_id_from_channel drain refill take_locked issue
    integresql.Pool.Take.push_extend integresql.Pool.Take.push_auto_clean send move_to_ready start
    new_hash_pool append_db begin_recreate enter_recreating integresql.Pool.Lifecycle.push_extends
    send_task new_test_db
shared_run =
    let grown = later (later (started _ refl) (receive_task _ _ refl)) (grow _ 0 0 refl refl) in
    let asked = later grown (request none (pos 0) _ _ 1 refl refl) in
    let begun = later (later asked (begin 0 0 _ _ refl refl)) (begin 0 1 _ _ refl refl) in
    let entered = later (later begun (enter 0 0 _ refl refl)) (enter 0 1 _ refl refl) in
    let tried = later (later entered (recreate 0 0 refl)) (recreate 0 1 refl) in
    let ready_once = later tried (finish 0 0 _ _ refl refl) in
    let first = later (later ready_once (receive 0 [] refl)) (take 5 [] 0 [] _ _ refl refl) in
    let ready_twice = later first (finish 0 1 _ _ refl refl) in
    record {
      last = _;
      reach = later (later ready_twice (receive 0 [] refl)) (take 9 [] 0 [] _ _ refl refl);
    }

Reach-refines_example :
    Allows (test_database_of cfg template) 2 (answers shared_run.reach) (shelf shared_run.pool)
Reach-refines_example = Reach-refines shared_run.reach

take-then-return_example :
    (d : ExistingDb) × (get_elem? offered_run.pool.dbs 0 ≡ some d)
    × (return_test_database none
          (pos (new_test_db offered_run.pool 0).test_database.id)
          taken_run.pool
        ≡ done (visited_pool offered_run.pool 5 0 d, ok tt))
unfolding taken_run take_locked issue integresql.Pool.Take.push_extend
    integresql.Pool.Take.push_auto_clean send offered_run recreating_run move_to_ready start
    new_hash_pool append_db begin_recreate enter_recreating integresql.Pool.Lifecycle.push_extends
    send_task new_test_db
take-then-return_example =
    take-then-return offered_run.reach offered_run-NoRequests 5 [] 0 [] taken_run.pool
      (new_test_db offered_run.pool 0).test_database refl refl
