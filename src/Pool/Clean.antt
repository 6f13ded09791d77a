-- ===== src/Pool/Clean.antt =====
-- `HashPool.autoCleanDirty` of pkg/pool/pool.go.
pub mod Lifetime
use integresql.Prelude.{
  ℕ, ◌-◌, Bool, ◌&&◌, Option, none, some, [], ◌∷◌, leb, ◌==◌, get_elem?, if◌then◌else◌,
}
use integresql.Errors.{Err, Result, ok, err, invalid_index, Outcome, done, ◌>>=◌}
use integresql.Pool.{HashPool, lock, index_db, is_dirty}
use integresql.Pool.Recreate.{Weather, recreate_database_gracefully}

-- After the look at the database: clean at once, or sleep first and come back with its generation.
pub data Plan : Type 0 where
  immediately : Plan
  after_sleep : (blocked_until generation : ℕ) → Plan

unfoldable pub look : ℕ → ℕ → HashPool → Outcome (Result Plan)
unfolding lock
look now id p0 = do
  p ← lock p0
  done (elim (get_elem? p.dbs id) [
    | none ↦ err invalid_index
    | some d ↦
        if leb d.block_auto_clean_dirty_until now
        then ok immediately
        else ok (after_sleep (d.block_auto_clean_dirty_until - now) d.generation)
  ])

-- After the sleep: whether the database still is what it was.
unfoldable pub look_again : ℕ → ℕ → HashPool → Outcome Bool
unfolding lock index_db
look_again id generation p0 = do
  p ← lock p0
  d ← index_db p id
  done (d.generation == generation && is_dirty d.state)

-- `asleep` is what the other goroutines make of the pool during the sleep.
unfoldable pub clean :
    (HashPool → HashPool) → ℕ → Weather → ℕ → HashPool → Outcome (HashPool × Result (Unit {0}))
unfolding look look_again recreate_database_gracefully
clean asleep now w id p = do
  plan ← look now id p
  elim plan [
    | err e ↦ done (p, err e)
    | ok immediately ↦ recreate_database_gracefully w id p
    | ok (after_sleep time generation) ↦ do
      let woken = asleep p
      same ← look_again id generation woken
      if same then recreate_database_gracefully w id woken else done (woken, ok tt)
  ]

-- `chosen` is the error of the context if the `select` takes the case of `ctx.Done()`.
unfoldable pub auto_clean_dirty :
    Option Err
    → (HashPool → HashPool)
    → ℕ
    → Weather
    → HashPool
    → Outcome (HashPool × Result (Unit {0}))
unfolding clean
auto_clean_dirty chosen asleep now w p = elim chosen [
  | some e ↦ done (p, err e)
  | none ↦ elim p.dirty [
    | [] ↦ done (p, ok tt)
    | id ∷ rest ↦ clean asleep now w id (record p { dirty = rest })
  ]
]
