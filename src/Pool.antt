-- ===== src/Pool.antt =====
-- pkg/pool/pool.go: the state of a `HashPool` and its channels. The operations are in the modules
-- below. A buffered channel is the list of what it holds, oldest first; times and durations are
-- numbers of nanoseconds.
pub mod Name
pub mod Channel
pub mod Take
pub mod Give
pub mod Recreate
pub mod Clean
pub mod Extend
pub mod Lifecycle
pub mod Removal
pub mod Effects
pub mod Invariant
pub mod System
pub mod Contract
pub mod Workers
use integresql.Prelude.{
  ℕ, ◌+◌, ◌^◌, ◌%◌, Text, Bool, true, false, Option, none, some, List, [], get_elem?, if◌then◌else◌,
}
use integresql.Errors.{Err, Outcome, done, blocked, panicked, ◌>>=◌}
use integresql.Database.{Database, TestDatabase}

pub data DbState : Type 0 where
  db_ready : DbState
  db_dirty : DbState
  db_recreating : DbState

pub record ExistingDb : Type 0 where
  pub state : DbState
  pub test_database : TestDatabase
  pub open test_database use {id, config, template_hash}
  pub block_auto_clean_dirty_until : ℕ
  -- a `uint`, of 64 bits
  pub generation : ℕ

pub data WorkerTask : Type 0 where
  task_stop : WorkerTask
  task_extend : WorkerTask
  task_auto_clean_dirty : WorkerTask

pub record PoolConfig : Type 0 where
  pub initial_pool_size : ℕ
  pub max_pool_size : ℕ
  pub test_db_name_prefix : Text
  pub max_parallel_tasks : ℕ
  pub test_database_retry_recreate_sleep_min : ℕ
  pub test_database_retry_recreate_sleep_max : ℕ
  pub test_database_minimal_lifetime : ℕ
  pub disable_worker_autostart : Bool

-- A `context.Context`, by what a call of it does now: on the nil interface it panics.
pub data Context : Type 0 where
  nil_context : Context
  open_context : Context
  ended_context : Err → Context

pub record HashPool : Type 0 where
  pub dbs : List ExistingDb
  -- `cap(pool.dbs)`
  pub dbs_cap : ℕ
  pub ready : List ℕ
  pub dirty : List ℕ
  -- how many tokens the channel `recreating` holds
  pub recreating : ℕ
  pub template_db : Database
  pub pool_config : PoolConfig
  pub open pool_config use *
  -- whether somebody holds the write lock for good
  pub locked : Bool
  pub tasks_chan : List WorkerTask
  pub tasks_closed : Bool
  pub running : Bool
  pub worker_context : Context

unfoldable pub new_hash_pool : PoolConfig → Database → HashPool
new_hash_pool cfg template_db = record {
  dbs = [];
  dbs_cap = cfg.max_pool_size;
  ready = [];
  dirty = [];
  recreating = 0;
  template_db = template_db;
  pool_config = cfg;
  locked = false;
  tasks_chan = [];
  tasks_closed = false;
  running = false;
  worker_context = nil_context;
}

-- `pool.Lock()`, where whoever else takes the lock gives it back.
pub lock : HashPool → Outcome HashPool
lock p = if p.locked then blocked else done p

-- The operand of `pool.dbs[id]`: an index out of range panics.
pub index_db : HashPool → ℕ → Outcome ExistingDb
index_db p i = elim (get_elem? p.dbs i) [ none ↦ panicked | some d ↦ done d ]

abbrev pub is_ready : DbState → Bool
is_ready db_ready = true
is_ready _ = false

abbrev pub is_dirty : DbState → Bool
is_dirty db_dirty = true
is_dirty _ = false
