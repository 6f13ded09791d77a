-- ===== src/Manager/Phases.antt =====
-- The phases of a template: initialised, finalised, discarded.
use integresql.Prelude.{
  ℕ, ◌≡◌, ◌⊎◌, refl, inl, inr, true, Option, none, some, Text, arith, text_eq_refl, get_elem?,
  if◌then◌else◌, Option-cases, Bool-cases,
}
use integresql.Prelude.Assoc.{lookup-remove}
use integresql.Errors.{
  Result-cases, Err, Result, ok, err, manager_not_ready, template_already_initialized,
  template_not_found, unknown_hash, errors_is, Outcome, done, panicked, ◌>>=◌, >>=-eq-done,
  invalid_template_state,
}
use integresql.Database.{TestDatabase}
use integresql.Pool.{HashPool}
use integresql.Pool.Take.{Selected}
use integresql.Templates.{
  TemplateState, Template, template_discarded, template_finalized, set_state, wait_until_finalized,
  fetch, Collection, pop, remove_unsafe,
}
use integresql.Templates.Discarding.{discarded, set_state_self}
use integresql.Pools.{PoolCollection, remove_all_with_hash}
use integresql.Manager.{Manager, Postgres}
use integresql.Manager.Statements.{drop_test_pool_db}
use integresql.Manager.Calls.{discard_template, discard_template_database}
use integresql.Manager.Requests.{
  finalize_locked, finalize_template_database, finalized_template, get_database,
}

-- What the checks at the head of a call have seen.
finalized_template_lem :
    (woken : Option TemplateState) (hash : Text) (m : Manager) (t : Template)
    → finalized_template woken hash m ≡ ok t
    → (m.connected ≡ true)
      × ((a : ℕ) × (fetch m.templates hash ≡ some (a, t)))
      × (wait_until_finalized woken t.state ≡ template_finalized)
unfolding finalized_template
finalized_template_lem woken hash m t h = elim (Option-cases (fetch m.templates hash)) [
  | inl e ↦ absurd (ground arith)
  | inr ((a, u), e) ↦ (ground arith, (a, ground arith), ground arith)
]

woken-or_finalized :
    (woken : Option TemplateState) (s : TemplateState)
    → wait_until_finalized woken s ≡ template_finalized
    → (s ≡ template_finalized) ⊎ (woken ≡ some template_finalized)
unfolding wait_until_finalized
woken-or_finalized woken template_finalized h = inl refl
woken-or_finalized none s h = inl h
woken-or_finalized (some w) s h = inr (ground arith)

-- Whatever becomes of the pools: a call of `GetTestDatabase` that returns a database found the
-- manager connected and the template finalised, or waited for the template and was woken with that
-- state.
pub get_database-finalized :
    (woken : Option TemplateState) (selected again : Selected) (now : ℕ) (hash : Text)
    (m n : Manager) (test_db : TestDatabase)
    → get_database woken selected again now hash m ≡ done (n, ok test_db)
    → (m.connected ≡ true)
      × ((a : ℕ) × (t : Template) × (fetch m.templates hash ≡ some (a, t))
          × ((t.state ≡ template_finalized) ⊎ (woken ≡ some template_finalized)))
unfolding get_database
get_database-finalized woken selected again now hash m n test_db h =
    elim (Result-cases (finalized_template woken hash m)) [
      | inl (t, e) ↦
          let (up, (a, found), waited) = finalized_template_lem woken hash m t e in
          (up, (a, t, found, woken-or_finalized woken t.state waited))
      | inr (e, failed) ↦ absurd (ground arith)
    ]

abbrev behind_removal :
    Postgres
    → Text
    → Manager
    → PoolCollection × Result (Unit {0})
    → Outcome (Manager × Result (Unit {0}))
behind_removal pg hash m r = elim r.1 [
  | ok u ↦ discard_template pg hash (record m { pools = r.0 })
  | err e ↦
      if errors_is e unknown_hash
      then discard_template pg hash (record m { pools = r.0 })
      else done (record m { pools = r.0 }, err e)
]

behind_removal_lem :
    (pg : Postgres) (hash : Text) (m n : Manager) (c : PoolCollection) (r : Result (Unit {0}))
    → behind_removal pg hash m (c, r) ≡ done (n, ok tt)
    → discard_template pg hash (record m { pools = c }) ≡ done (n, ok tt)
behind_removal_lem pg hash m n c (ok u) h = h
behind_removal_lem pg hash m n c (err e) h = ground arith

-- What is left behind `RemoveAllWithHash` of a discard that succeeds.
discarding :
    (pg : Postgres) (quiesce : HashPool → HashPool) (hash : Text) (m n : Manager)
    → discard_template_database pg quiesce hash m ≡ done (n, ok tt)
    → (c : PoolCollection) × (m.connected ≡ true)
      × (discard_template pg hash (record m { pools = c }) ≡ done (n, ok tt))
unfolding discard_template_database
discarding pg quiesce hash m n h = elim (Bool-cases m.connected) [
  | inl up ↦
      let run : (remove_all_with_hash quiesce (drop_test_pool_db pg) hash m.pools
            >>= behind_removal pg hash m)
          ≡ done (n, ok tt) =
        ground arith in
      let ((c, r), removed, rest) =
        >>=-eq-done (remove_all_with_hash quiesce (drop_test_pool_db pg) hash m.pools)
          (behind_removal pg hash m) run in
      (c, up, behind_removal_lem pg hash m n c r rest)
  | inr down ↦ absurd (ground arith)
]

-- The collection behind a discard.
abbrev without_template : Text → ℕ → Collection → Collection
unfolding remove_unsafe
without_template hash a c = record (remove_unsafe hash c) {
  heap = set_state a template_discarded c.heap;
}

discard_template-templates :
    (pg : Postgres) (hash : Text) (m n : Manager) (a : ℕ) (t : Template)
    → fetch m.templates hash ≡ some (a, t)
    → discard_template pg hash m ≡ done (n, ok tt)
    → (n.templates ≡ without_template hash a m.templates) × (n.connected ≡ m.connected)
unfolding discard_template pop without_template remove_unsafe
discard_template-templates pg hash m n a t e h = ground arith

fetch-heap :
    (c : Collection) (hash : Text) (a : ℕ) (t : Template)
    → fetch c hash ≡ some (a, t)
    → get_elem? c.heap a ≡ some t
unfolding fetch
fetch-heap c hash a t e = ground arith

fetch-without_template :
    (c : Collection) (hash : Text) (a : ℕ) → fetch (without_template hash a c) hash ≡ none
unfolding fetch without_template remove_unsafe
fetch-without_template c hash a =
    ground (arith, lookup-remove hash hash c.templates, text_eq_refl hash)

-- After a call of `DiscardTemplateDatabase` that succeeds, no call of `FinalizeTemplateDatabase`
-- does: one that looks the hash up does not find it, and one that fetched the template before
-- finds it discarded. Neither changes anything.
pub discard-then-finalize :
    (pg : Postgres) (quiesce : HashPool → HashPool) (hash : Text) (m n : Manager) (a : ℕ)
    (t : Template)
    → fetch m.templates hash ≡ some (a, t)
    → discard_template_database pg quiesce hash m ≡ done (n, ok tt)
    → (finalize_template_database hash n ≡ done (n, err template_not_found))
      × ((held : Template) × (get_elem? n.templates.heap a ≡ some held)
          × (finalize_locked a held n ≡ done (n, err integresql.Errors.template_discarded)))
unfolding finalize_template_database finalize_locked without_template remove_unsafe
discard-then-finalize pg quiesce hash m n a t e h =
    let (c, up, run) = discarding pg quiesce hash m n h in
    let (gone, same) = discard_template-templates pg hash (record m { pools = c }) n a t e run in
    (
      ground (arith, fetch-without_template m.templates hash a, gone, same, up),
      (
        discarded t,
        rw gone (set_state_self a m.templates.heap t (fetch-heap m.templates hash a t e)),
        refl,
      ),
    )
