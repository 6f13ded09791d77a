-- ===== src/Api/Repeats.antt =====
-- Repeated requests.
use integresql.Prelude.{ℕ, ◌≡◌, refl, inl, inr, true, some, Text, arith, Option-cases, Bool-cases}
use integresql.Errors.{Result, ok, Outcome, done, ◌>>=◌, >>=-eq-done}
use integresql.Database.{Database}
use integresql.Templates.{
  Template, TemplateState, template_finalized, template_init, template_discarded, set_state, fetch,
}
use integresql.Templates.Discarding.{fetch-set_state}
use integresql.Pools.{PoolCollection, init_hash_pool}
use integresql.Manager.{Manager}
use integresql.Manager.Requests.{finalize_locked, finalize_template_database}
use integresql.Api.{finalize_status, put_finalize_template}

-- The template of the hash is finalised.
record Finalized (hash : Text) (m : Manager) : Type 0 where
  address : ℕ
  template : Template
  connected : m.connected ≡ true
  found : fetch m.templates hash ≡ some (address, template)
  state : template.state ≡ template_finalized

abbrev sealed : ℕ → Template → Manager → PoolCollection → Outcome (Manager × Result Database)
unfolding set_state
sealed a t m pools = done (
  record m {
    pools = pools;
    templates = record m.templates { heap = set_state a template_finalized m.templates.heap };
  },
  ok t.database,
)

sealed-Finalized :
    (hash : Text) (a : ℕ) (t : Template) (m n : Manager) (pools : PoolCollection)
    (r : Result Database)
    → m.connected ≡ true
    → fetch m.templates hash ≡ some (a, t)
    → t.state ≡ template_init
    → sealed a t m pools ≡ done (n, r)
    → Finalized hash n
unfolding sealed set_state
sealed-Finalized hash a t m n pools r up e s h = record {
  address = a;
  template = record t { state = template_finalized };
  connected = ground arith;
  found = ground (arith, fetch-set_state m.templates hash a t e s);
  state = refl;
}

finalize_locked-Finalized :
    (hash : Text) (a : ℕ) (t : Template) (m n : Manager) (r : Result Database) (s : TemplateState)
    → m.connected ≡ true
    → fetch m.templates hash ≡ some (a, t)
    → t.state ≡ s
    → finalize_locked a t m ≡ done (n, r)
    → finalize_status r ≡ 204
    → Finalized hash n
unfolding finalize_locked sealed set_state
finalize_locked-Finalized hash a t m n r template_finalized up e s h g = record {
  address = a;
  template = t;
  connected = ground arith;
  found = ground arith;
  state = s;
}
finalize_locked-Finalized hash a t m n r template_discarded up e s h g = absurd (ground arith)
finalize_locked-Finalized hash a t m n r template_init up e s h g =
    let run : (init_hash_pool t.database m.pools >>= sealed a t m) ≡ done (n, r) = ground arith in
    let (pools, started, same) =
      >>=-eq-done (init_hash_pool t.database m.pools) (sealed a t m) run in
    sealed-Finalized hash a t m n pools r up e s same

finalize-Finalized :
    (hash : Text) (m n : Manager) (r : Result Database)
    → finalize_template_database hash m ≡ done (n, r)
    → finalize_status r ≡ 204
    → Finalized hash n
unfolding finalize_template_database
finalize-Finalized hash m n r h g = elim (Bool-cases m.connected) [
  | inr down ↦ absurd (ground arith)
  | inl up ↦ elim (Option-cases (fetch m.templates hash)) [
    | inl e ↦ absurd (ground arith)
    | inr ((a, t), e) ↦ finalize_locked-Finalized hash a t m n r t.state up e refl (ground arith) g
  ]
]

Finalized-answer :
    (hash : Text) (n : Manager) → Finalized hash n → put_finalize_template hash n ≡ done (n, 204)
unfolding put_finalize_template finalize_template_database finalize_locked
Finalized-answer hash n f = ground (arith, f.connected, f.found, f.state)

abbrev answered : Manager × Result Database → Outcome (Manager × ℕ)
answered r = done (r.0, finalize_status r.1)

-- Finalising over HTTP can be repeated: when it was answered with 204, it is again, and the second
-- request changes nothing.
pub put_finalize_template-repeat :
    (hash : Text) (m n : Manager)
    → put_finalize_template hash m ≡ done (n, 204)
    → put_finalize_template hash n ≡ done (n, 204)
unfolding put_finalize_template
put_finalize_template-repeat hash m n h =
    let ((o, r), called, same) = >>=-eq-done (finalize_template_database hash m) answered h in
    Finalized-answer hash n (finalize-Finalized hash m n r (ground arith) (ground arith))
