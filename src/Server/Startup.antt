-- ===== src/Server/Startup.antt =====
-- The start of the server: `InitManager` of internal/api/server.go and `Init` of
-- internal/router/router.go.
use integresql.Prelude.{
  ℕ, zero, suc, ◌+◌, ◌<◌, ◌≤◌, ◌≡◌, ◌≢◌, refl, ◌∙◌, ap, subst, true, false, Option, none, some,
  List, Text, arith, ◌⊎◌, inl, inr, Option-cases,
}
use integresql.Errors.{Err, ok}
use integresql.Manager.{Manager, ManagerConfig, Postgres}
use integresql.Manager.Config.{new}
use integresql.Manager.Statements.{unmanaged_pattern, drop_unmanaged}
use integresql.Manager.Calls.{connect, drop_leftovers, initialize}
use integresql.Util.{succeeded}
use integresql.Util.Retrying.{after_calls, AllFail, FirstSuccess, retry-succeeds}
use integresql.Server.{Server, ready, start, error_of, attempt, managed, init_manager, init_router}

-- Leftovers are looked for without a change of the manager.
pub drop_leftovers-same : (pg : Postgres) (m : Manager) → (drop_leftovers pg m).0 ≡ m
unfolding drop_leftovers
drop_leftovers-same pg m = ground arith

initialize-connected :
    (pg : Postgres) (m : Manager)
    → error_of (initialize pg m).1 ≡ none
    → (initialize pg m).0.connected ≡ true
unfolding initialize connect
initialize-connected pg m h =
    ground (arith, drop_leftovers-same pg m, drop_leftovers-same pg (record m { connected = true }))

after_calls-last {ℓ} :
    {S : Type ℓ} (f : S → S × Option Err) (n : ℕ) (s : S)
    → after_calls f (suc n) s ≡ (f (after_calls f n s)).0
after_calls-last f zero s = refl
after_calls-last f (suc n) s = after_calls-last f n (f s).0

-- The rounds of `Retry` in `InitManager`.
abbrev pub round : ManagerConfig → (ℕ → Postgres) → ℕ → (ℕ × Manager) × Option Err
round config answers n = attempt answers (after_calls (attempt answers) n (0, new config))

success-ready :
    (config : ManagerConfig) (answers : ℕ → Postgres) (n : ℕ)
    → (round config answers n).1 ≡ none
    → (after_calls (attempt answers) (suc n) (0, new config)).1.connected ≡ true
unfolding initialize
success-ready config answers n good =
    let (i, m) = after_calls (attempt answers) n (0, new config) in
    rw (after_calls-last (attempt answers) n (0, new config))
      (initialize-connected (answers i) m good)

-- The database server cannot be reached: `sql.Open` fails, or the ping does.
abbrev pub IsDown : Postgres → Type 0
IsDown pg = (pg.open_connection ≢ none) ⊎ (pg.ping ≢ none)

-- While the server cannot be reached, a round changes nothing but its number.
unreachable :
    (answers : ℕ → Postgres) (i : ℕ) (m : Manager)
    → m.connected ≡ false
    → IsDown (answers i)
    → (attempt answers (i, m)).0 ≡ (i + 1, m)
unfolding initialize connect
unreachable answers i m off (inl bad) = elim (Option-cases (answers i).open_connection) [
  | inl e ↦ absurd (bad e)
  | inr (e, h) ↦ ground (arith, h)
]
unreachable answers i m off (inr bad) = elim (Option-cases (answers i).ping) [
  | inl e ↦ absurd (bad e)
  | inr (e, h) ↦ ground (arith, h)
]

init_manager-succeeded :
    (config : ManagerConfig) (answers : ℕ → Postgres) (n : ℕ) (s : Server)
    → FirstSuccess (attempt answers) 30 n (0, new config)
    → init_manager config answers s ≡ (
      record s { manager = some (after_calls (attempt answers) (suc n) (0, new config)).1 },
      succeeded,
    )
unfolding init_manager
init_manager-succeeded config answers n s v =
    ap (managed s) (retry-succeeds (attempt answers) 30 n (0, new config) v)

managed-starts :
    (m : Manager) (served : Option Err) (s : Server)
    → m.connected ≡ true
    → start served (init_router (record s { manager = some m })) ≡ some served
unfolding start ready init_router
managed-starts m served s h = ground arith

initialize-refused :
    (pg : Postgres) (m : Manager)
    → m.connected ≡ false
    → IsDown pg
    → error_of (initialize pg m).1 ≢ none
unfolding initialize connect
initialize-refused pg m off (inl bad) q = elim (Option-cases pg.open_connection) [
  | inl e ↦ bad e
  | inr (e, h) ↦ ground (arith, h)
]
initialize-refused pg m off (inr bad) q = elim (Option-cases pg.ping) [
  | inl e ↦ bad e
  | inr (e, h) ↦ ground (arith, h)
]

initialize-works :
    (pg : Postgres) (m : Manager) (names : List Text)
    → m.connected ≡ false
    → pg.open_connection ≡ none
    → pg.ping ≡ none
    → pg.databases_like (unmanaged_pattern m) ≡ ok names
    → drop_unmanaged pg names ≡ none
    → error_of (initialize pg m).1 ≡ none
unfolding initialize connect drop_leftovers unmanaged_pattern
initialize-works pg m names off opens pings listed dropped = ground (arith, listed, dropped)

-- The rounds in which the server cannot be reached, and the one in which it answers.
module _ (config : ManagerConfig) (answers : ℕ → Postgres) (n : ℕ)
    (down : (i : ℕ) → i < n → IsDown (answers i)) (opens : (answers n).open_connection ≡ none)
    (pings : (answers n).ping ≡ none) where
  waiting : (i : ℕ) → i ≤ n → after_calls (attempt answers) i (0, new config) ≡ (i, new config)
  unfolding new
  waiting zero h = refl
  waiting (suc i) h =
      let number : i + 1 ≡ suc i = omega arith in
      let earlier : i ≤ n = omega (arith, h) in
      after_calls-last (attempt answers) i (0, new config)
      ∙ ap (λ t. (attempt answers t).0) (waiting i earlier)
      ∙ unreachable answers i (new config) refl (down i (omega (arith, h)))
      ∙ ap (λ (k : ℕ). (k, new config)) number

  refused : AllFail (attempt answers) n (0, new config)
  unfolding initialize connect new
  refused i h q =
      initialize-refused (answers i) (new config) refl (down i h)
        (subst (λ t. (attempt answers t).1 ≡ none) (waiting i (omega arith)) q)

  -- A database server that cannot be reached at first, for fewer than 30 rounds in which
  -- `sql.Open` or the ping fails, does not keep the server from starting: once the connection is
  -- opened and answers the ping, and the leftover databases, if there are any, can be listed and
  -- dropped, `InitManager` succeeds, and behind `Init` the server is ready, so that `Start` returns
  -- what Echo returns.
  pub init_manager-outlasts :
      (names : List Text) (served : Option Err) (s : Server)
      → n < 30
      → (answers n).databases_like (unmanaged_pattern (new config)) ≡ ok names
      → drop_unmanaged (answers n) names ≡ none
      → ((init_manager config answers s).1 ≡ succeeded)
        × (start served (init_router (init_manager config answers s).0) ≡ some served)
  unfolding initialize connect drop_leftovers new unmanaged_pattern
  init_manager-outlasts names served s h listed dropped =
      let v : FirstSuccess (attempt answers) 30 n (0, new config) = record {
        in_time = h;
        earlier = refused;
        good =
            ap (λ t. (attempt answers t).1) (waiting n (omega arith))
            ∙ initialize-works (answers n) (new config) names refl opens pings listed dropped;
      } in
      let done = init_manager-succeeded config answers n s v in
      let up = managed-starts _ served s (success-ready config answers n v.good) in
      (ap (λ r. r.1) done, ap (λ r. start served (init_router r.0)) done ∙ up)
