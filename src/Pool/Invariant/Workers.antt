-- ===== src/Pool/Invariant/Workers.antt =====
-- The steps of workers and of `RecreateTestDatabase`, which write no database.
use integresql.Prelude.{
  ℕ, ◌<◌, ◌≡◌, refl, sym, subst, inl, inr, Option, none, some, List, ◌∷◌, ℤ, pos, negsuc, arith,
  length, get_elem?, Option-cases, Bool-cases, ltb, ltb→lt, ltb→le,
}
use integresql.Prelude.Counting.{without, length-without-le}
use integresql.Prelude.Lists.{get_elem?-lt}
use integresql.Errors.{Err, Result, ok, done}
use integresql.Pool.{HashPool, ExistingDb, WorkerTask, Context}
use integresql.Pool.Channel.{exclude_id_from_channel-without}
use integresql.Pool.Recreate.{
  Goroutine, enter_recreating, leave_recreating, recreate_test_database, begin_recreate,
}
use integresql.Pool.Effects.{Effect}
use integresql.Pool.Effects.Moving.{begin_recreate-unchanged}
use integresql.Pool.Invariant.{Inv, Kept, Kept-refl, same-Kept}
use integresql.Pool.Invariant.Sections.{dirty-Kept, count-without_le}

module _ {p q : HashPool} (pending : List ℕ) (v : Inv p pending) where
  idle-Kept : Effect p q p.dbs p.ready p.dirty → Kept p q pending
  idle-Kept effect =
      same-Kept pending pending v effect (λ j. refl) (λ j h. (v.beyond j h).1) v.dirty_room

  pub enter_recreating-Kept : enter_recreating p ≡ done q → Kept p q pending
  unfolding enter_recreating
  enter_recreating-Kept h = idle-Kept (ground arith)

  pub leave_recreating-Kept : leave_recreating p ≡ done q → Kept p q pending
  unfolding leave_recreating
  leave_recreating-Kept h = idle-Kept (ground arith)

  pub begin_recreate-Kept :
      (ctx : Context) (id : ℕ) (r : Result (Option ExistingDb))
      → begin_recreate ctx id p ≡ done (q, r)
      → Kept p q pending
  begin_recreate-Kept ctx id r h =
      subst (λ x. Kept p x pending) (sym (begin_recreate-unchanged ctx id p q r h)) (Kept-refl v)

  pub recreate_test_database-Kept :
      (ctx_err : Option Err) (id : ℤ) (g : Goroutine)
      → recreate_test_database ctx_err id p ≡ done (q, ok g)
      → Kept p q pending × (g.id < length q.dbs)
  unfolding recreate_test_database
  recreate_test_database-Kept ctx_err (negsuc n) g h = absurd (ground arith)
  recreate_test_database-Kept (some e) (pos n) g h = absurd (ground arith)
  recreate_test_database-Kept none (pos n) g h = elim (Option-cases (get_elem? p.dbs n)) [
    | inl out ↦ absurd (ground arith)
    | inr (d, e) ↦ (
      same-Kept pending pending {ready' = p.ready} {dirty' = without n p.dirty} v
          (ground (arith, exclude_id_from_channel-without p.max_pool_size n p.dirty v.dirty_room))
          (λ j. refl) (λ j h. omega (arith, (v.beyond j h).1, count-without_le j n p.dirty))
          (omega (arith, v.dirty_room, length-without-le n p.dirty)),
      ground (
        arith,
        exclude_id_from_channel-without p.max_pool_size n p.dirty v.dirty_room,
        get_elem?-lt p.dbs n d e,
      ),
    )
  ]

module _ {p : HashPool} (pending : List ℕ) (v : Inv p pending) where
  pub receive_task-Kept : (rest : List WorkerTask) → Kept p (record p { tasks_chan = rest }) pending
  receive_task-Kept rest = idle-Kept pending v (ground arith)

  pub fetch-Kept :
      (i : ℕ) (rest : List ℕ)
      → p.dirty ≡ i ∷ rest
      → Kept p (record p { dirty = rest }) pending × (i < length p.dbs)
  fetch-Kept i rest e = (
    dirty-Kept pending rest v (λ j. ground arith) (ground arith),
    elim (Bool-cases (ltb i (length p.dbs))) [
      | inl inside ↦ ltb→lt _ _ inside
      | inr outside ↦ absurd (ground (arith, v.beyond i (ltb→le _ _ outside)))
    ],
  )
