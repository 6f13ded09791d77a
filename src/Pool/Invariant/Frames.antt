-- ===== src/Pool/Invariant/Frames.antt =====
-- What no step of a running pool changes.
use integresql.Prelude.{
  ℕ, ◌≡◌, inl, inr, Option, List, ℤ, pos, negsuc, arith, get_elem?, Option-cases,
}
use integresql.Errors.{Err, Result, done}
use integresql.Database.{TestDatabase}
use integresql.Pool.{HashPool, Context}
use integresql.Pool.Take.{take_locked}
use integresql.Pool.Give.{return_test_database}
use integresql.Pool.Recreate.{
  Goroutine, recreate_test_database, enter_recreating, leave_recreating, move_to_ready,
}
use integresql.Pool.Extend.{append_db}
use integresql.Pool.Channel.{exclude_id_from_channel-without}
use integresql.Pool.Effects.{Frame}
use integresql.Pool.Effects.Taking.{issue-Effect}
use integresql.Pool.Effects.Moving.{give_back-Effect, return_test_database-cases}
use integresql.Pool.Invariant.{Inv}

pub Frame-trans : {p q r : HashPool} → Frame p q → Frame q r → Frame p r
Frame-trans f g = ground arith

module _ (p q : HashPool) where
  pub take_locked-Frame :
      (now i : ℕ) (r : Result TestDatabase) → take_locked now i p ≡ done (q, r) → Frame p q
  unfolding take_locked
  take_locked-Frame now i r h = elim (Option-cases (get_elem? p.dbs i)) [
    | inl out ↦ ground arith
    | inr (d, e) ↦ ground (arith, issue-Effect now i d p q r)
  ]

  pub append_db-Frame : (r : Result ℕ) → append_db p ≡ done (q, r) → Frame p q
  unfolding append_db
  append_db-Frame r h = ground arith

  pub move_to_ready-Frame :
      (ctx : Context) (i : ℕ) (r : Result (Unit {0}))
      → move_to_ready ctx i p ≡ done (q, r)
      → Frame p q
  unfolding move_to_ready integresql.Pool.Channel.send
  move_to_ready-Frame ctx i r h = ground arith

  pub enter_recreating-Same : enter_recreating p ≡ done q → Frame p q × (q.dbs ≡ p.dbs)
  unfolding enter_recreating
  enter_recreating-Same h = ground arith

  pub leave_recreating-Same : leave_recreating p ≡ done q → Frame p q × (q.dbs ≡ p.dbs)
  unfolding leave_recreating
  leave_recreating-Same h = ground arith

  pub recreate_test_database-Same :
      (pending : List ℕ) (ctx_err : Option Err) (id : ℤ) (r : Result Goroutine)
      → Inv p pending
      → recreate_test_database ctx_err id p ≡ done (q, r)
      → Frame p q × (q.dbs ≡ p.dbs)
  unfolding recreate_test_database
  recreate_test_database-Same pending ctx_err (negsuc n) r v h = ground arith
  recreate_test_database-Same pending ctx_err (pos n) r v h =
      ground (arith, exclude_id_from_channel-without p.max_pool_size n p.dirty v.dirty_room)

  pub return_test_database-Frame :
      (pending : List ℕ) (ctx_err : Option Err) (id : ℤ) (r : Result (Unit {0}))
      → Inv p pending
      → return_test_database ctx_err id p ≡ done (q, r)
      → Frame p q
  return_test_database-Frame pending ctx_err id r v h =
      elim (return_test_database-cases ctx_err id p q r v.unlocked h) [
        | inl same ↦ ground arith
        | inr (i, d, e, dirt, given) ↦ (give_back-Effect i d p q r v.dirty_room given).0.frame
      ]
