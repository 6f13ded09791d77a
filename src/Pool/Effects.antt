-- ===== src/Pool/Effects.antt =====
-- What the critical sections of pkg/pool/pool.go change, read off from their results.
pub mod Taking
pub mod Moving
pub mod Starting
use integresql.Prelude.{ℕ, ◌≡◌, refl, ◌∙◌, List, arith}
use integresql.Errors.{Outcome, done}
use integresql.Pool.{HashPool, ExistingDb}

-- What no section changes while the pool runs.
pub record Frame (p q : HashPool) : Type 0 where
  pub config : q.pool_config ≡ p.pool_config
  pub capacity : q.dbs_cap ≡ p.dbs_cap
  pub template : q.template_db ≡ p.template_db
  pub lock_kept : q.locked ≡ p.locked
  pub open_kept : q.tasks_closed ≡ p.tasks_closed

-- The three fields that hold the databases.
pub record Effect (p q : HashPool) (dbs' : List ExistingDb) (ready' dirty' : List ℕ) : Type 0 where
  pub frame : Frame p q
  pub dbs_after : q.dbs ≡ dbs'
  pub ready_after : q.ready ≡ ready'
  pub dirty_after : q.dirty ≡ dirty'
