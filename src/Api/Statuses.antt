-- ===== src/Api/Statuses.antt =====
-- What the statuses tell a client.
use integresql.Prelude.{
  ℕ, ◌≡◌, ◌≢◌, inl, inr, Bool, false, Option, Text, arith, get_elem?, Option-cases, Bool-cases,
}
use integresql.Prelude.Lists.{List-cases}
use integresql.Prelude.Assoc.{lookup}
use integresql.Errors.{
  Err, Result, ok, err, template_already_initialized, template_discarded, Result-cases,
  unknown_hash, errors_is, Outcome, done, ◌>>=◌, >>=-eq-done,
}
use integresql.Database.{TestDatabase}
use integresql.Pool.{HashPool}
use integresql.Pool.Take.{Selected, on_timeout, on_ctx_done, on_ready, take_locked, issue}
use integresql.Templates.{Template, TemplateState, wait_until_finalized}
use integresql.Pools.{PoolCollection, store, with_pool, init_hash_pool}
use integresql.Manager.{Manager}
use integresql.Manager.Requests.{finalized_template, get_again, get_database, with_pools}
use integresql.Api.{get_status, get_test_database}

-- No error that the call can get from elsewhere is the one for a discarded template.
abbrev pub IsForeign : Selected → Type 0
IsForeign on_timeout = Unit {0}
IsForeign (on_ctx_done e) = errors_is e integresql.Errors.template_discarded ≡ false
IsForeign on_ready = Unit {0}

abbrev is_gone {ℓ} : {A : Type ℓ} → Result A → Bool
is_gone (ok a) = false
is_gone (err e) = errors_is e integresql.Errors.template_discarded

issue-ok :
    (now i : ℕ) (d : integresql.Pool.ExistingDb) (p q : HashPool) (r : Result TestDatabase)
    → issue now i d p ≡ done (q, r)
    → is_gone r ≡ false
unfolding issue integresql.Pool.Take.push_extend integresql.Pool.Take.push_auto_clean
    integresql.Pool.Channel.send integresql.Pool.Channel.send_task
issue-ok now i d p q r h = ground arith

take-not_gone :
    (now i : ℕ) (p q : HashPool) (r : Result TestDatabase)
    → take_locked now i p ≡ done (q, r)
    → is_gone r ≡ false
unfolding take_locked
take-not_gone now i p q r h = elim (Option-cases (get_elem? p.dbs i)) [
  | inl e ↦ ground arith
  | inr (d, e) ↦ ground (arith, issue-ok now i d p q r)
]

pool-not_gone :
    (selected : Selected) (now : ℕ) (p q : HashPool) (r : Result TestDatabase)
    → IsForeign selected
    → integresql.Pool.Take.get_test_database selected now p ≡ done (q, r)
    → is_gone r ≡ false
unfolding integresql.Pool.Take.get_test_database
pool-not_gone on_timeout now p q r f h = ground arith
pool-not_gone (on_ctx_done e) now p q r f h = ground arith
pool-not_gone on_ready now p q r f h = elim (List-cases p.ready) [
  | inl e ↦ ground arith
  | inr (i, rest, e) ↦ ground (arith, take-not_gone now i (record p { ready = rest }) q r)
]

abbrev kept :
    Text
    → PoolCollection
    → HashPool × Result TestDatabase
    → Outcome (PoolCollection × Result TestDatabase)
kept hash c r = done (store hash c r.0, r.1)

abbrev answered : Manager × Result TestDatabase → Outcome (Manager × ℕ)
answered r = done (r.0, get_status r.1)

pools-not_gone :
    (selected : Selected) (now : ℕ) (hash : Text) (c d : PoolCollection) (r : Result TestDatabase)
    → IsForeign selected
    → integresql.Pools.get_test_database selected now hash c ≡ done (d, r)
    → is_gone r ≡ false
unfolding integresql.Pools.get_test_database with_pool
pools-not_gone selected now hash c d r f h = elim (Option-cases (lookup hash c.pools)) [
  | inl e ↦ ground arith
  | inr (p, e) ↦
      let run : (integresql.Pool.Take.get_test_database selected now p >>= kept hash c)
          ≡ done (d, r) =
        ground arith in
      let ((q, s), called, stored) =
        >>=-eq-done (integresql.Pool.Take.get_test_database selected now p) (kept hash c) run in
      ground (arith, pool-not_gone selected now p q s f called)
]

again-not_gone :
    (again : Selected) (now : ℕ) (t : Template) (m n : Manager) (c : PoolCollection)
    (r s : Result TestDatabase)
    → IsForeign again
    → is_gone r ≡ false
    → get_again again now t m (c, r) ≡ done (n, s)
    → is_gone s ≡ false
unfolding get_again
again-not_gone again now t m n c (ok db) s f g h = ground arith
again-not_gone again now t m n c (err e) s f g h = elim (Bool-cases (errors_is e unknown_hash)) [
  | inl unknown ↦
      let run : (init_hash_pool t.database c
            >>= integresql.Pools.get_test_database again now t.database.template_hash
            >>= with_pools m)
          ≡ done (n, s) =
        ground arith in
      let ((d, s'), asked, same) =
        >>=-eq-done
          (init_hash_pool t.database c
            >>= integresql.Pools.get_test_database again now t.database.template_hash)
          (with_pools m) run in
      let (x, started, got) =
        >>=-eq-done (init_hash_pool t.database c)
          (integresql.Pools.get_test_database again now t.database.template_hash) asked in
      ground (arith, pools-not_gone again now t.database.template_hash x d s' f got)
  | inr known ↦ ground arith
]

checks-not_gone :
    (woken : Option TemplateState) (hash : Text) (m : Manager)
    → is_gone (finalized_template woken hash m) ≡ false
unfolding finalized_template wait_until_finalized
checks-not_gone woken hash m = ground arith

get_database-not_gone :
    (woken : Option TemplateState) (selected again : Selected) (now : ℕ) (hash : Text)
    (m n : Manager) (r : Result TestDatabase)
    → IsForeign selected
    → IsForeign again
    → get_database woken selected again now hash m ≡ done (n, r)
    → is_gone r ≡ false
unfolding get_database
get_database-not_gone woken selected again now hash m n r f g h =
    elim (Result-cases (finalized_template woken hash m)) [
      | inl (t, e) ↦
          let run : (integresql.Pools.get_test_database selected now t.database.template_hash
                  m.pools
                >>= get_again again now t m)
              ≡ done (n, r) =
            ground arith in
          let ((c, s), asked, rest) =
            >>=-eq-done
              (integresql.Pools.get_test_database selected now t.database.template_hash m.pools)
              (get_again again now t m) run in
          again-not_gone again now t m n c s r g
            (pools-not_gone selected now t.database.template_hash m.pools c s f asked) rest
      | inr (e, failed) ↦ ground (arith, checks-not_gone woken hash m)
    ]

status-not_gone : (r : Result TestDatabase) → is_gone r ≡ false → get_status r ≢ 410
status-not_gone (ok t) g = omega arith
status-not_gone (err e) g = ground arith

-- A request for a test database is never answered with 410 Gone, discarded templates included, as
-- long as the context of the request does not itself end with the error for a discarded template.
pub get_test_database-never_gone :
    (woken : Option TemplateState) (selected again : Selected) (now : ℕ) (hash : Text)
    (m n : Manager) (status : ℕ)
    → IsForeign selected
    → IsForeign again
    → get_test_database woken selected again now hash m ≡ done (n, status)
    → status ≢ 410
unfolding get_test_database
get_test_database-never_gone woken selected again now hash m n status f g h =
    let ((o, r), called, same) =
      >>=-eq-done (get_database woken selected again now hash m) answered h in
    ground (
      arith,
      status-not_gone r (get_database-not_gone woken selected again now hash m o r f g called),
    )
