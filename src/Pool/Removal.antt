-- ===== src/Pool/Removal.antt =====
-- `HashPool.RemoveAll` of pkg/pool/pool.go.
pub mod Once
pub mod Partial
pub mod Complete
use integresql.Prelude.{
  ℕ, zero, suc, ◌-◌, true, Option, none, some, [], ◌∷◌, ltb, length, take, if◌then◌else◌,
}
use integresql.Errors.{Err, Result, ok, err, Outcome, done, panicked, ◌>>=◌}
use integresql.Database.{TestDatabase}
use integresql.Pool.{HashPool, lock, index_db}
use integresql.Pool.Channel.{exclude_id_from_channel}
use integresql.Pool.Lifecycle.{stop}

-- `pool.dbs = pool.dbs[:len(pool.dbs)-1]`, unless one alone is left.
unfoldable pub shrink : HashPool → HashPool
shrink p = if ltb 1 (length p.dbs) then record p { dbs = take (length p.dbs - 1) p.dbs } else p

unfoldable pub drop_id : ℕ → HashPool → Outcome HashPool
drop_id id p = do
  dirty' ← exclude_id_from_channel p.max_pool_size id p.dirty
  ready' ← exclude_id_from_channel p.max_pool_size id p.ready
  done (record p { dirty = dirty'; ready = ready' })

-- The body of the loop behind `removeFunc`; `rest` is the rest of the loop.
unfoldable pub remove_step :
    Option Err
    → ℕ
    → HashPool
    → (HashPool → Outcome (HashPool × Result (Unit {0})))
    → Outcome (HashPool × Result (Unit {0}))
remove_step (some e) id p rest = done (p, err e)
remove_step none id p rest = drop_id id (shrink p) >>= rest

-- The loop from the last database to the first; the number is `id + 1`. `remove` is what
-- `removeFunc` returns for a database.
unfoldable pub remove_from :
    (TestDatabase → Option Err) → ℕ → HashPool → Outcome (HashPool × Result (Unit {0}))
unfolding index_db
remove_from remove zero p = done (p, ok tt)
remove_from remove (suc id) p =
    index_db p id >>= λ d. remove_step (remove d.test_database) id p (remove_from remove id)

-- `close(pool.tasksChan)`; to close it twice panics.
close_all : HashPool → Outcome HashPool
close_all p =
    if p.tasks_closed
    then panicked
    else done (record p { dbs = []; dbs_cap = 0; tasks_closed = true })

-- Behind the loop.
unfoldable pub finish_removal :
    HashPool × Result (Unit {0}) → Outcome (HashPool × Result (Unit {0}))
unfolding close_all
finish_removal (p, err e) = done (p, err e)
finish_removal (p, ok u) = close_all p >>= λ q. done (q, ok tt)

-- From `pool.Lock()` on.
unfoldable pub remove_stopped :
    (TestDatabase → Option Err) → HashPool → Outcome (HashPool × Result (Unit {0}))
unfolding lock
remove_stopped remove p0 = do
  p ← lock p0
  elim p.dbs [
    | [] ↦ done (p, ok tt)
    | d ∷ ds ↦ remove_from remove (length p.dbs) p >>= finish_removal
  ]

unfoldable pub remove_all :
    (HashPool → HashPool)
    → (TestDatabase → Option Err)
    → HashPool
    → Outcome (HashPool × Result (Unit {0}))
remove_all quiesce remove p = stop quiesce p >>= remove_stopped remove
