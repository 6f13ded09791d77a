-- ===== src/Pool/Take.antt =====
-- `HashPool.GetTestDatabase` of pkg/pool/pool.go.
use integresql.Prelude.{
  ℕ, ◌+◌, none, some, [], ◌∷◌, ltb, leb, ◌&&◌, length, get_elem?, set, if◌then◌else◌,
}
use integresql.Errors.{
  Err, Result, ok, err, invalid_index, invalid_state, get_timeout, Outcome, done, blocked, ◌>>=◌,
}
use integresql.Database.{TestDatabase}
use integresql.Pool.{
  HashPool, ExistingDb, db_dirty, task_extend, task_auto_clean_dirty, lock, is_ready,
}
use integresql.Pool.Channel.{send, send_task}

-- Which case of the `select` runs.
pub data Selected : Type 0 where
  on_timeout : Selected
  on_ctx_done : Err → Selected
  on_ready : Selected

-- `if len(pool.dbs) < pool.PoolConfig.MaxPoolSize { … }`
unfoldable pub push_extend : HashPool → Outcome HashPool
push_extend p = if ltb (length p.dbs) p.max_pool_size then send_task p task_extend else done p

-- `if len(pool.dbs) >= … && (len(pool.ready)+len(pool.recreating)) < pool.InitialPoolSize { … }`
unfoldable pub push_auto_clean : HashPool → Outcome HashPool
push_auto_clean p =
    if leb p.max_pool_size (length p.dbs) && ltb (length p.ready + p.recreating) p.initial_pool_size
    then send_task p task_auto_clean_dirty
    else done p

-- Behind the checks: flag the database, and ask the workers for another.
unfoldable pub issue : ℕ → ℕ → ExistingDb → HashPool → Outcome (HashPool × Result TestDatabase)
unfolding push_extend push_auto_clean
issue now index d p = do
  let flagged = record d {
    state = db_dirty;
    block_auto_clean_dirty_until = now + p.test_database_minimal_lifetime;
  }
  dirty' ← send p.max_pool_size index p.dirty
  extended ← push_extend (record p { dbs = set p.dbs index flagged; dirty = dirty' })
  cleaned ← push_auto_clean extended
  done (cleaned, ok flagged.test_database)

-- From `pool.Lock()` on, with the index that came from the channel `ready`.
unfoldable pub take_locked : ℕ → ℕ → HashPool → Outcome (HashPool × Result TestDatabase)
unfolding lock
take_locked now index p0 = do
  p ← lock p0
  elim (get_elem? p.dbs index) [
    | none ↦ done (p, err invalid_index)
    | some d ↦ if is_ready d.state then issue now index d p else done (p, err invalid_state)
  ]

unfoldable pub get_test_database :
    Selected → ℕ → HashPool → Outcome (HashPool × Result TestDatabase)
unfolding take_locked issue
get_test_database on_timeout now p = done (p, err get_timeout)
get_test_database (on_ctx_done e) now p = done (p, err e)
get_test_database on_ready now p = elim p.ready [
  | [] ↦ blocked
  | index ∷ rest ↦ take_locked now index (record p { ready = rest })
]
