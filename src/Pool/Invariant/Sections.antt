-- ===== src/Pool/Invariant/Sections.antt =====
-- Every critical section of a running pool keeps the invariant.
use integresql.Prelude.{
  ℕ, ◌+◌, ◌≤◌, ◌<◌, ◌≡◌, refl, sym, ◌∙◌, subst, inl, inr, true, false, some, Option, List, [], ◌∷◌,
  ◌++◌, arith, length, get_elem?, set, ◌==◌, Bool-cases, if◌then◌else◌, ltb→lt, ℤ, ltb→le, ltb,
  Option-cases,
}
use integresql.Prelude.Counting.{
  count, count-append, length-le_of_count, without, length-without-le,
}
use integresql.Prelude.Lists.{get_elem?-lt, get_elem?-of_lt, length-append}
use integresql.Errors.{Result, ok, Err, done}
use integresql.Database.{TestDatabase}
use integresql.Pool.{HashPool, ExistingDb, db_ready, is_ready, is_dirty, open_context}
use integresql.Pool.Take.{issue, take_locked}
use integresql.Pool.Give.{give_back, return_test_database}
use integresql.Pool.Recreate.{move_to_ready}
use integresql.Pool.Extend.{id-new_test_db}
use integresql.Pool.Effects.{Frame}
use integresql.Pool.Effects.Taking.{issue-Effect, take_locked-ready, flagged}
use integresql.Pool.Effects.Moving.{
  give_back-Effect, renewed, move_to_ready-already, move_to_ready-moves, return_test_database-cases,
}
use integresql.Pool.Invariant.{Inv, tokens-le_one, Kept, Kept-refl, write-Kept, same-Kept}

Frame-refl : (p : HashPool) → Frame p p
Frame-refl p = ground arith

count-middle :
    (j i : ℕ) (xs ys : List ℕ)
    → count j (xs ++ i ∷ ys) ≡ (if j == i then 1 else 0) + count j (xs ++ ys)
count-middle j i xs ys = ground (arith, count-append j xs (i ∷ ys), count-append j xs ys)

count-snoc :
    (j i : ℕ) (xs : List ℕ) → count j (xs ++ i ∷ []) ≡ (if j == i then 1 else 0) + count j xs
count-snoc j i xs = ground (arith, count-append j xs (i ∷ []))

pub count-without_le : (j i : ℕ) (xs : List ℕ) → count j (without i xs) ≤ count j xs
count-without_le j i [] = omega arith
count-without_le j i (x ∷ xs) = ground (arith, count-without_le j i xs)

module _ {p : HashPool} where
  -- `index = <-pool.ready`
  pub receive-Kept :
      (pending : List ℕ) (i : ℕ) (rest : List ℕ)
      → Inv p pending
      → p.ready ≡ i ∷ rest
      → Kept p (record p { ready = rest }) (i ∷ pending)
  receive-Kept pending i rest v e =
      same-Kept pending (i ∷ pending) {ready' = rest} {dirty' = p.dirty} v (ground arith)
        (λ j. ground arith) (λ j h. (v.beyond j h).1) v.dirty_room

  -- Whoever has received an id finds the database there, and ready.
  pub pending-ready :
      (xs : List ℕ) (i : ℕ) (ys : List ℕ)
      → Inv p (xs ++ i ∷ ys)
      → (d : ExistingDb) × (get_elem? p.dbs i ≡ some d) × (is_ready d.state ≡ true)
  pending-ready xs i ys v = elim (Option-cases (get_elem? p.dbs i)) [
    | inl out ↦ elim (Bool-cases (ltb i (length p.dbs))) [
      | inl inside ↦
          let (d, e) = get_elem?-of_lt p.dbs i (ltb→lt _ _ inside) in absurd (cc (out, e))
      | inr outside ↦
          absurd (ground (arith, v.beyond i (ltb→le _ _ outside), count-middle i i xs ys))
    ]
    | inr (d, e) ↦ (d, e, ground (arith, v.stored i d e, count-middle i i xs ys))
  ]

  pub take_locked-Kept :
      (now : ℕ) (xs : List ℕ) (i : ℕ) (ys : List ℕ) (q : HashPool) (r : Result TestDatabase)
      → Inv p (xs ++ i ∷ ys)
      → take_locked now i p ≡ done (q, r)
      → Kept p q (xs ++ ys)
  take_locked-Kept now xs i ys q r v h =
      let (d, e, s) = pending-ready xs i ys v in
      let taken : issue now i d p ≡ done (q, r) =
        sym (take_locked-ready now i p v.unlocked d e s) ∙ h in
      let (effect, _, fits) = issue-Effect now i d p q r taken in
      write-Kept (xs ++ i ∷ ys) (xs ++ ys) i d (flagged p now d) v e effect refl (λ x. cc)
        (ground (arith, v.stored i d e, count-middle i i xs ys))
        (λ j off. ground (arith, count-middle j i xs ys))
        (λ j le. ground (arith, count-snoc j i p.dirty, v.beyond j le, get_elem?-lt p.dbs i d e))
        (omega (arith, length-append p.dirty (i ∷ [])))

  give_back-Kept :
      (pending : List ℕ) (i : ℕ) (d : ExistingDb) (q : HashPool) (r : Result (Unit {0}))
      → Inv p pending
      → get_elem? p.dbs i ≡ some d
      → is_dirty d.state ≡ true
      → give_back i d p ≡ done (q, r)
      → Kept p q pending
  give_back-Kept pending i d q r v e s h =
      let (effect, _) = give_back-Effect i d p q r v.dirty_room h in
      write-Kept pending pending i d (record d { state = db_ready }) v e effect refl (λ x. cc)
        (ground (arith, v.stored i d e, count-snoc i i p.ready))
        (λ j off. ground (arith, count-snoc j i p.ready))
        (λ j le. ground (arith, count-without_le j i p.dirty, v.beyond j le))
        (omega (arith, length-without-le i p.dirty, v.dirty_room))

  pub return_test_database-Kept :
      (pending : List ℕ) (ctx_err : Option Err) (id : ℤ) (q : HashPool) (r : Result (Unit {0}))
      → Inv p pending
      → return_test_database ctx_err id p ≡ done (q, r)
      → Kept p q pending
  return_test_database-Kept pending ctx_err id q r v h =
      elim (return_test_database-cases ctx_err id p q r v.unlocked h) [
        | inl same ↦ subst (λ x. Kept p x pending) (sym same) (Kept-refl v)
        | inr (i, d, e, s, given) ↦ give_back-Kept pending i d q r v e s given
      ]

  -- While a database is not ready there is room for its id.
  pub ready-room :
      (pending : List ℕ) (i : ℕ) (d : ExistingDb)
      → Inv p pending
      → get_elem? p.dbs i ≡ some d
      → is_ready d.state ≡ false
      → length p.ready < p.max_pool_size
  ready-room pending i d v e s = omega (
    arith,
    v.room,
    length-le_of_count (length p.dbs) (i ∷ p.ready)
        (λ j. ground (arith, v.stored i d e, tokens-le_one v j))
        (λ j le. ground (arith, v.beyond j le, get_elem?-lt p.dbs i d e)),
  )

  pub move_to_ready-done :
      (pending : List ℕ) (i : ℕ) (d : ExistingDb)
      → Inv p pending
      → get_elem? p.dbs i ≡ some d
      → is_ready d.state ≡ false
      → move_to_ready open_context i p
        ≡ done (record p { dbs = set p.dbs i (renewed d); ready = p.ready ++ i ∷ [] }, ok tt)
  move_to_ready-done pending i d v e s =
      move_to_ready-moves i p v.unlocked d e s (ready-room pending i d v e s)
      ∙ ground (arith, v.stored i d e, id-new_test_db p i)

  renewed-Kept :
      (pending : List ℕ) (i : ℕ) (d : ExistingDb)
      → Inv p pending
      → get_elem? p.dbs i ≡ some d
      → is_ready d.state ≡ false
      → Kept p (record p { dbs = set p.dbs i (renewed d); ready = p.ready ++ i ∷ [] }) pending
  renewed-Kept pending i d v e s =
      write-Kept pending pending {ready' = p.ready ++ i ∷ []} {dirty' = p.dirty} i d (renewed d) v e
        (ground arith) refl (λ x. cc) (ground (arith, v.stored i d e, count-snoc i i p.ready))
        (λ j off. ground (arith, count-snoc j i p.ready)) (λ j le. (v.beyond j le).1) v.dirty_room

  pub move_to_ready-Kept :
      (pending : List ℕ) (i : ℕ) (q : HashPool) (r : Result (Unit {0}))
      → Inv p pending
      → i < length p.dbs
      → move_to_ready open_context i p ≡ done (q, r)
      → Kept p q pending
  move_to_ready-Kept pending i q r v lt h =
      let (d, e) = get_elem?-of_lt p.dbs i lt in
      elim (Bool-cases (is_ready d.state)) [
        | inl s ↦
            subst (λ x. Kept p x pending)
              (ground (arith, move_to_ready-already i p v.unlocked d e s)) (Kept-refl v)
        | inr s ↦
            subst (λ x. Kept p x pending) (ground (arith, move_to_ready-done pending i d v e s))
              (renewed-Kept pending i d v e s)
      ]

  -- A section that only takes ids out of the channel `dirty`.
  pub dirty-Kept :
      (pending dirty' : List ℕ)
      → Inv p pending
      → ((j : ℕ) → count j dirty' ≤ count j p.dirty)
      → length dirty' ≤ length p.dirty
      → Kept p (record p { dirty = dirty' }) pending
  dirty-Kept pending dirty' v fewer shorter =
      same-Kept pending pending {ready' = p.ready} {dirty' = dirty'} v (ground arith) (λ j. refl)
        (λ j le. omega (arith, (v.beyond j le).1, fewer j)) (omega (arith, v.dirty_room))
