-- ===== src/Pool/Contract/Simulation.antt =====
-- What the critical sections of pkg/pool/pool.go do to the shelf that a pool stands for.
use integresql.Prelude.{
  ℕ, ◌<◌, ◌≡◌, refl, sym, ◌∙◌, inl, inr, true, false, Option, none, some, List, [], ◌∷◌, ◌++◌, ℤ,
  arith, length, get_elem?, set, ◌==◌, if◌then◌else◌, Bool-cases, ltb,
}
use integresql.Prelude.Lists.{
  length-set, get_elem?-set_self, get_elem?-set_ne, get_elem?-lt, get_elem?-of_lt, get_elem?-of_le,
  length-append, get_elem?-append_lt, get_elem?-append_length,
}
use integresql.Errors.{Err, Result, ok, done}
use integresql.Database.{TestDatabase}
use integresql.Pool.{HashPool, ExistingDb, db_ready, is_ready, open_context}
use integresql.Pool.Take.{issue, take_locked}
use integresql.Pool.Give.{return_test_database}
use integresql.Pool.Recreate.{move_to_ready}
use integresql.Pool.Extend.{append_db, new_test_db}
use integresql.Pool.Effects.Taking.{issue-Effect, take_locked-ready, flagged}
use integresql.Pool.Effects.Moving.{
  give_back-Effect, renewed, move_to_ready-already, return_test_database-cases, append_db-full,
  append_db-room,
}
use integresql.Pool.Invariant.{Inv}
use integresql.Pool.Invariant.Sections.{pending-ready, move_to_ready-done}
use integresql.Pool.Contract.{
  Availability, missing, available, in_use, Shelf, Changes, Internal, stay, add, restore, Serving,
}

abbrev pub availability : Option ExistingDb → Availability
availability none = missing
availability (some d) = if is_ready d.state then available else in_use

-- The shelf that a pool stands for.
abbrev pub shelf : HashPool → Shelf
shelf p = record { size = length p.dbs; use_of = λ i. availability (get_elem? p.dbs i) }

-- A section that leaves the databases alone.
pub same-Internal : (p q : HashPool) → q.dbs ≡ p.dbs → Internal p.max_pool_size (shelf p) (shelf q)
same-Internal p q e = stay (ground arith) (λ j. rw e)

-- A section that writes one database.
wrote-Changes :
    (p q : HashPool) (i : ℕ) (d d' : ExistingDb)
    → get_elem? p.dbs i ≡ some d
    → q.dbs ≡ set p.dbs i d'
    → Changes i (availability (some d')) (shelf p) (shelf q)
wrote-Changes p q i d d' found e = record {
  here_and_elsewhere = λ j. elim (Bool-cases (i == j)) [
    | inl at ↦ ground (arith, get_elem?-set_self p.dbs i d' (get_elem?-lt p.dbs i d found))
    | inr off ↦ ground (arith, get_elem?-set_ne p.dbs i j d')
  ];
}

restored :
    (p q : HashPool) (i : ℕ) (d d' : ExistingDb)
    → get_elem? p.dbs i ≡ some d
    → is_ready d.state ≡ false
    → is_ready d'.state ≡ true
    → q.dbs ≡ set p.dbs i d'
    → Internal p.max_pool_size (shelf p) (shelf q)
restored p q i d d' found old new e =
    restore i (ground arith) (ground (arith, length-set p.dbs i d')) (
      let c = wrote-Changes p q i d d' found e in
      record { here_and_elsewhere = λ j. ground (arith, c.here_and_elsewhere j) })

module _ (pending : List ℕ) (p : HashPool) (v : Inv p pending) where
  pub give-Internal :
      (ctx_err : Option Err) (id : ℤ) (q : HashPool) (r : Result (Unit {0}))
      → return_test_database ctx_err id p ≡ done (q, r)
      → Internal p.max_pool_size (shelf p) (shelf q)
  give-Internal ctx_err id q r h = elim (return_test_database-cases ctx_err id p q r v.unlocked h) [
    | inl same ↦ same-Internal p q (ground arith)
    | inr (i, d, e, dirt, given) ↦
        let (effect, _) = give_back-Effect i d p q r v.dirty_room given in
        restored p q i d (record d { state = db_ready }) e (ground arith) refl effect.dbs_after
  ]

  pub finish-Internal :
      (i : ℕ) (q : HashPool) (r : Result (Unit {0}))
      → i < length p.dbs
      → move_to_ready open_context i p ≡ done (q, r)
      → Internal p.max_pool_size (shelf p) (shelf q)
  finish-Internal i q r lt h =
      let (d, e) = get_elem?-of_lt p.dbs i lt in
      elim (Bool-cases (is_ready d.state)) [
        | inl s ↦ same-Internal p q (ground (arith, move_to_ready-already i p v.unlocked d e s))
        | inr s ↦
            restored p q i d (renewed d) e s refl
              (ground (arith, move_to_ready-done pending i d v e s))
      ]

  grow-Changes :
      (q : HashPool)
      → q.dbs ≡ p.dbs ++ new_test_db p (length p.dbs) ∷ []
      → Changes (length p.dbs) in_use (shelf p) (shelf q)
  unfolding new_test_db
  grow-Changes q e = record {
    here_and_elsewhere = λ j. elim (Bool-cases (length p.dbs == j)) [
      | inl at ↦ ground (arith, get_elem?-append_length p.dbs [] (new_test_db p (length p.dbs)))
      | inr off ↦ elim (Bool-cases (ltb j (length p.dbs))) [
        | inl old ↦ ground (arith, get_elem?-append_lt p.dbs (new_test_db p (length p.dbs) ∷ []) j)
        | inr past ↦ ground (
          arith,
          get_elem?-of_le p.dbs j,
          get_elem?-of_le (p.dbs ++ new_test_db p (length p.dbs) ∷ []) j,
          length-append p.dbs (new_test_db p (length p.dbs) ∷ []),
        )
      ]
    ];
  }

  pub grow-Internal :
      (q : HashPool) (r : Result ℕ)
      → append_db p ≡ done (q, r)
      → Internal p.max_pool_size (shelf p) (shelf q)
  grow-Internal q r h = elim (Bool-cases (length p.dbs == p.dbs_cap)) [
    | inl full ↦ same-Internal p q (ground (arith, append_db-full p v.unlocked (ground arith)))
    | inr free ↦
        let grown : q.dbs ≡ p.dbs ++ new_test_db p (length p.dbs) ∷ [] =
          ground (arith, append_db-room p v.unlocked (ground arith)) in
        add (ground (arith, v.room, v.capacity))
          (ground (arith, length-append p.dbs (new_test_db p (length p.dbs) ∷ [])))
          (grow-Changes q grown)
  ]

-- Whoever has received an id is handed the database of that id.
pub take-Serving :
    (now : ℕ) (xs : List ℕ) (i : ℕ) (ys : List ℕ) (p q : HashPool) (r : Result TestDatabase)
    → Inv p (xs ++ i ∷ ys)
    → take_locked now i p ≡ done (q, r)
    → Serving i (shelf p) (shelf q) × (r ≡ ok (new_test_db p i).test_database)
take-Serving now xs i ys p q r v h =
    let (d, e, s) = pending-ready xs i ys v in
    let taken : issue now i d p ≡ done (q, r) =
      sym (take_locked-ready now i p v.unlocked d e s) ∙ h in
    let (effect, result, _) = issue-Effect now i d p q r taken in
    (
      record {
        was = ground arith;
        same_size = ground (arith, length-set p.dbs i (flagged p now d));
        now = wrote-Changes p q i d (flagged p now d) e effect.dbs_after;
      },
      ground (arith, v.stored i d e),
    )
