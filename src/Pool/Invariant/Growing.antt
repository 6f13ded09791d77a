-- ===== src/Pool/Invariant/Growing.antt =====
-- `extend` keeps the invariant: the new database stands at the end, dirty, with no id in a channel.
use native.Mathlib.Decide.{ℕ_discrete}
use integresql.Prelude.{
  ℕ, ◌<◌, ◌≡◌, ◌≢◌, subst, inl, inr, some, List, [], ◌∷◌, ◌++◌, arith, length, get_elem?, ◌==◌,
  Bool-cases, ltb,
}
use integresql.Prelude.Lists.{
  get_elem?-lt, length-append, get_elem?-append_lt, get_elem?-append_length,
}
use integresql.Errors.{ok, Result, done}
use integresql.Pool.{HashPool, ExistingDb, db_recreating}
use integresql.Pool.Extend.{append_db, new_test_db}
use integresql.Pool.Effects.Moving.{append_db-full, append_db-room}
use integresql.Pool.Invariant.{Inv, Kept, Kept-refl, weight, tokens, new_test_db-Frame}

abbrev pub appended : HashPool → HashPool
appended p = record p { dbs = p.dbs ++ new_test_db p (length p.dbs) ∷ [] }

module _ {p : HashPool} where
  appended-at :
      (pending : List ℕ)
      → Inv p pending
      → (j : ℕ) (e : ExistingDb) → get_elem? (appended p).dbs j ≡ some e
      → (e.test_database ≡ (new_test_db p j).test_database)
        × (e.state ≢ db_recreating)
        × (tokens p pending j ≡ weight e.state)
  unfolding new_test_db
  appended-at pending v j e g = elim (Bool-cases (ltb j (length p.dbs))) [
    | inl old ↦
        ground
          (arith, v.stored j e, get_elem?-append_lt p.dbs (new_test_db p (length p.dbs) ∷ []) j)
    | inr late ↦ elim (Bool-cases (length p.dbs == j)) [
      | inl last ↦
          ground
            (arith, v.beyond j, get_elem?-append_length p.dbs [] (new_test_db p (length p.dbs)))
      | inr past ↦ ground (
        arith,
        get_elem?-lt (appended p).dbs j e,
        length-append p.dbs (new_test_db p (length p.dbs) ∷ []),
      )
    ]
  ]

  appended-Inv :
      (pending : List ℕ) → Inv p pending → length p.dbs ≢ p.dbs_cap → Inv (appended p) pending
  appended-Inv pending v free = record {
    stored = λ j e g. ground (
      arith,
      appended-at pending v j e g,
      new_test_db-Frame {p = p} {q = appended p} (ground arith) j,
    );
    beyond =
        λ j h. ground (arith, v.beyond j, length-append p.dbs (new_test_db p (length p.dbs) ∷ []));
    room =
        omega (
          arith,
          v.room,
          v.capacity,
          free,
          length-append p.dbs (new_test_db p (length p.dbs) ∷ []),
        );
    dirty_room = v.dirty_room;
    capacity = v.capacity;
    unlocked = v.unlocked;
    tasks_open = v.tasks_open;
  }

  pub append_db-Kept :
      (pending : List ℕ) (q : HashPool) (r : Result ℕ)
      → Inv p pending
      → append_db p ≡ done (q, r)
      → Kept p q pending
  append_db-Kept pending q r v h = elim (ℕ_discrete (length p.dbs) p.dbs_cap) [
    | yes full ↦
        subst (λ x. Kept p x pending) (ground (arith, append_db-full p v.unlocked full))
          (Kept-refl v)
    | no free ↦
        subst (λ x. Kept p x pending) (ground (arith, append_db-room p v.unlocked free))
          (record {
            inv = appended-Inv pending v free;
            grown = omega (arith, length-append p.dbs (new_test_db p (length p.dbs) ∷ []));
          })
  ]

  -- The number that comes back is that of a database of the pool.
  pub append_db-index :
      (pending : List ℕ) (q : HashPool) (index : ℕ)
      → Inv p pending
      → append_db p ≡ done (q, ok index)
      → index < length q.dbs
  append_db-index pending q index v h = elim (ℕ_discrete (length p.dbs) p.dbs_cap) [
    | yes full ↦ absurd (ground (arith, append_db-full p v.unlocked full))
    | no free ↦ ground (
      arith,
      append_db-room p v.unlocked free,
      length-append p.dbs (new_test_db p (length p.dbs) ∷ []),
    )
  ]
