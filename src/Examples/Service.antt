-- ===== src/Examples/Service.antt =====
-- Collections, managers and requests, of one template.
use integresql.Prelude.{
  ℕ, ◌≡◌, ◌≢◌, ◌⊎◌, ◌≤◌, refl, true, false, none, some, [], ◌∷◌, Text, codes, arith, get_elem?,
}
use integresql.Prelude.Assoc.{lookup, insert, remove}
use integresql.Errors.{
  Err, Result, ok, err, Outcome, done, blocked, panicked, test_db_in_use, template_not_found,
  template_already_initialized,
}
use integresql.Database.{Database, TestDatabase}
use integresql.Prelude.{replicate}
use integresql.Pool.{
  open_context, task_extend, HashPool, ExistingDb, PoolConfig, db_ready, new_hash_pool,
}
use integresql.Pool.Take.{on_ready, on_timeout, take_locked, issue, push_extend, push_auto_clean}
use integresql.Pool.Channel.{send, send_task}
use integresql.Pool.Extend.{new_test_db}
use integresql.Pool.Lifecycle.{start, push_extends}
use integresql.Templates.{
  add, push, new_collection, Template, Collection, new_template, template_init, template_finalized,
  template_discarded, fetch, remove_unsafe, pop, set_state, wait_until_finalized,
}
use integresql.Templates.Sharing.{InHeap, Pushed, push_lem}
use integresql.Templates.Discarding.{remove_all-discards, discarded}
use integresql.Pools.{
  PoolCollection, with_pool, init_hash_pool, store, remove_all_with_hash, forget,
}
use integresql.Manager.{Manager, ManagerConfig, Postgres}
use integresql.Manager.Config.{new}
use integresql.Manager.Sizes.{new-starts}
use integresql.Manager.Statements.{
  make_template_database_name, drop_and_create_database, create_database, drop_database,
  drop_test_pool_db,
}
use integresql.Manager.Rounds.{initialize-then-finalize}
use integresql.Manager.Calls.{
  template_config, initialize_template_database, initialized, discard_template,
  discard_template_database,
}
use integresql.Manager.Requests.{
  get_again, get_database, finalized_template, finalize_locked, finalize_template_database,
}
use integresql.Manager.Phases.{get_database-finalized, discard-then-finalize}
use integresql.Api.{get_test_database}
use integresql.Api.Statuses.{get_test_database-never_gone}
use integresql.Examples.Runs.{cfg, template}
use integresql.Examples.Parts.{running_pool, stopped_pool, new_pool, two_dbs}

abbrev hash : Text
hash = codes "h"

-- A pool with one ready database.
abbrev ready_db : ExistingDb
unfolding new_test_db new_pool new_hash_pool
ready_db = record (new_test_db new_pool 0) { state = db_ready }

abbrev ready_pool : HashPool
unfolding ready_db new_test_db new_pool new_hash_pool
ready_pool = record new_pool { dbs = ready_db ∷ []; ready = 0 ∷ [] }

abbrev pools : PoolCollection
unfolding ready_pool ready_db new_test_db new_pool new_hash_pool
pools = record { config = cfg; pools = (hash, ready_pool) ∷ [] }

abbrev fresh : Template
unfolding new_template
fresh = new_template hash template.config

abbrev sealed : Template
unfolding fresh new_template
sealed = record fresh { state = template_finalized }

abbrev holding : Template → Collection
holding t = record { heap = t ∷ []; templates = (hash, 0) ∷ [] }

abbrev manager_config : ManagerConfig
manager_config = record {
  manager_database_config = template.config;
  template_database_template = codes "template0";
  database_prefix = codes "integresql";
  template_database_prefix = codes "template";
  test_database_owner = [];
  test_database_owner_password = [];
  template_finalize_timeout = 300;
  test_database_get_timeout = 60;
  pool_config = record cfg { initial_pool_size = 5 };
}

abbrev manager : Collection → PoolCollection → Manager
manager templates pools = record {
  config = manager_config;
  connected = true;
  templates = templates;
  pools = pools;
}

abbrev pg : Postgres
pg = record {
  open_connection = none;
  ping = none;
  close_connection = none;
  databases_like = λ name. ok [];
  exec_drop = λ name. none;
  exec_create = λ name owner source. none;
  accessed_by_others = λ e. false;
  select_database = λ name. ok (some true);
  count_connected = λ name. ok (some 0);
}

abbrev no_pools : PoolCollection
no_pools = record { config = cfg; pools = [] }

empty-InHeap : InHeap new_collection
unfolding new_collection lookup
empty-InHeap = record { below = λ k a e. absurd cc }

push_lem_example :
    Pushed
      (codes "g")
      template.config
      (push hash template.config new_collection).1
      (push (codes "g") template.config (push hash template.config new_collection).1)
push_lem_example =
    push_lem (codes "g") template.config (push hash template.config new_collection).1
      (push_lem hash template.config new_collection empty-InHeap).in_heap

remove_all-discards_example :
    (get_elem? (integresql.Templates.remove_all (holding sealed)).heap 0 ≡ some (discarded sealed))
    × (fetch (integresql.Templates.remove_all (holding sealed)) (codes "g") ≡ none)
unfolding fetch lookup sealed fresh new_template
remove_all-discards_example = remove_all-discards (holding sealed) hash (codes "g") 0 sealed refl

new-starts_example :
    (1 ≤ (new manager_config).config.pool_config.initial_pool_size)
    × (((new manager_config).config.pool_config.initial_pool_size ≤ 2)
        × (c : PoolCollection) × (p : HashPool) × (init_hash_pool template
              (new manager_config).pools
            ≡ done c)
        × (lookup template.template_hash c.pools ≡ some p)
        × (p.running ≡ true)
        × (p.worker_context ≡ open_context)
        × (p.tasks_chan
            ≡ replicate (new manager_config).config.pool_config.initial_pool_size task_extend))
new-starts_example = new-starts manager_config template (omega arith) refl

abbrev without_sealed : Manager
unfolding sealed fresh new_template
without_sealed = manager (record { heap = discarded sealed ∷ []; templates = [] }) no_pools

discard-then-finalize_example :
    (finalize_template_database hash without_sealed ≡ done (without_sealed, err template_not_found))
    × ((held : Template) × (get_elem? without_sealed.templates.heap 0 ≡ some held)
        × (finalize_locked 0 held without_sealed
            ≡ done (without_sealed, err integresql.Errors.template_discarded)))
unfolding without_sealed fetch lookup sealed fresh new_template discard_template_database
    discard_template pop remove_unsafe remove set_state remove_all_with_hash drop_database
    drop_test_pool_db
discard-then-finalize_example =
    discard-then-finalize pg (λ p. p) hash (manager (holding sealed) no_pools) without_sealed 0
      sealed refl refl

get_test_database-never_gone_example : ◌≢◌ {A = ℕ} 500 410
unfolding get_test_database get_database finalized_template fetch lookup wait_until_finalized sealed
    fresh new_template
get_test_database-never_gone_example =
    get_test_database-never_gone none on_ready on_timeout 5 hash
      (manager (holding (discarded sealed)) no_pools)
      (manager (holding (discarded sealed)) no_pools) 500 tt tt refl

abbrev manager_of {ℓ} : {A : Type ℓ} → Outcome (Manager × A) → Manager
manager_of (done (m, r)) = m
manager_of blocked = manager (holding fresh) no_pools
manager_of panicked = manager (holding fresh) no_pools

get_database-finalized_example :
    (true ≡ true)
    × ((a : ℕ) × (t : Template) × (fetch (holding sealed) hash ≡ some (a, t))
        × ((t.state ≡ template_finalized) ⊎ (none ≡ some template_finalized)))
unfolding get_database finalized_template wait_until_finalized get_again
    integresql.Pools.get_test_database with_pool integresql.Pool.Take.get_test_database take_locked
    issue push_extend push_auto_clean send send_task fetch lookup insert sealed fresh new_template
    pools ready_pool ready_db new_test_db new_pool new_hash_pool
get_database-finalized_example =
    get_database-finalized none on_ready on_timeout 5 hash (manager (holding sealed) pools)
      (manager_of (get_database none on_ready on_timeout 5 hash (manager (holding sealed) pools)))
      ready_db.test_database refl

abbrev collection_of {ℓ} : {A : Type ℓ} → Outcome (PoolCollection × A) → PoolCollection
collection_of (done (c, r)) = c
collection_of blocked = no_pools
collection_of panicked = no_pools

-- A collection with the pools of two templates, of which a client takes a database from the first.
abbrev two_pools : PoolCollection
unfolding ready_pool ready_db running_pool stopped_pool new_pool new_hash_pool two_dbs new_test_db
two_pools = record { config = cfg; pools = (hash, ready_pool) ∷ (codes "g", running_pool) ∷ [] }

abbrev take_one : HashPool → Outcome (HashPool × Result TestDatabase)
unfolding integresql.Pool.Take.get_test_database
take_one = integresql.Pool.Take.get_test_database on_ready 5

abbrev one_taken : PoolCollection
unfolding take_one two_pools with_pool integresql.Pool.Take.get_test_database take_locked issue
    push_extend push_auto_clean send send_task lookup insert ready_pool ready_db running_pool
    stopped_pool new_pool new_hash_pool two_dbs new_test_db
one_taken = collection_of (with_pool hash take_one two_pools)

abbrev empty_manager : Manager
unfolding new_collection
empty_manager = manager new_collection no_pools

abbrev created : Database
unfolding template_config make_template_database_name new_collection
created = record { template_hash = hash; config = template_config empty_manager hash }

abbrev initialised_manager : Manager
unfolding empty_manager created new_collection template_config make_template_database_name push
    fetch add new_template lookup insert
initialised_manager = record empty_manager {
  templates = (push hash (template_config empty_manager hash) new_collection).1;
}

abbrev finalised_manager : Manager
unfolding initialised_manager empty_manager created new_collection template_config
    make_template_database_name push fetch add new_template lookup insert finalize_template_database
    finalize_locked init_hash_pool start push_extends send_task send new_hash_pool set_state
finalised_manager = manager_of (finalize_template_database hash initialised_manager)

initialize-then-finalize_example :
    (created ≡ created)
    × (finalize_template_database hash finalised_manager
        ≡ done (finalised_manager, err template_already_initialized))
    × (initialize_template_database pg (λ p. p) hash finalised_manager
        ≡ done (finalised_manager, err template_already_initialized))
unfolding finalised_manager initialised_manager empty_manager created new_collection template_config
    make_template_database_name push fetch add new_template lookup insert finalize_template_database
    finalize_locked init_hash_pool start push_extends send_task send new_hash_pool set_state
    initialize_template_database drop_and_create_database drop_database create_database
    remove_all_with_hash initialized
initialize-then-finalize_example =
    initialize-then-finalize pg (λ p. p) hash empty_manager initialised_manager finalised_manager
      created created empty-InHeap refl refl
