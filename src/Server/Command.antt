-- ===== src/Server/Command.antt =====
-- cmd/server/main.go, from the configuration to the end of the process.
use integresql.Prelude.{
  ℕ, zero, suc, ◌+◌, ◌∙◌, ap, [], Bool, true, Option, none, some, if◌then◌else◌, ◌≡◌, refl, inl,
  inr, arith, Bool-cases, Option-cases,
}
use integresql.Errors.{Err, Outcome, done, ◌>>=◌}
use integresql.Pool.{HashPool}
use integresql.Manager.{Manager, ManagerConfig, Postgres}
use integresql.Manager.Calls.{connect, initialize, close_db, disconnect}
use integresql.Manager.Config.{new}
use integresql.Util.Retrying.{after_calls, retry_lem}
use integresql.Server.Startup.{drop_leftovers-same}
use integresql.Pools.{PoolCollection, each_pool, stop_all}
use integresql.Util.{RetryEnd, succeeded, failing}
use integresql.Server.Config.{ServerConfig}
use integresql.Server.{
  Server, new_server, attempt, init_manager, init_router, start, shutdown, ready,
}

-- How the process ends: `main` returns, or `log.Fatal` ends it with a message.
pub data Exit : Type 0 where
  returned : Exit
  no_manager : Option Err → Exit
  not_ready : Exit
  not_started : Err → Exit
  not_shut_down : Err → Exit

-- What the goroutine of `Start` makes of its error.
abbrev start_ended : (Err → Bool) → Option (Option Err) → Option Exit
start_ended server_closed none = some not_ready
start_ended server_closed (some none) = none
start_ended server_closed (some (some e)) = if server_closed e then none else some (not_started e)

abbrev shutdown_ended : (Err → Bool) → Option Err → Exit
shutdown_ended server_closed none = returned
shutdown_ended server_closed (some e) = if server_closed e then returned else not_shut_down e

-- When the goroutine of `Start` comes to look whether the server is ready: before the signal, or
-- behind the signal when `Shutdown` has disconnected the manager, or not before `main` returns.
pub data Order : Type 0 where
  before_signal : Order
  behind_disconnect : Order
  too_late : Order

-- The goroutine has ended the process, or leaves its end to `main`.
abbrev or_else : Option Exit → Outcome Exit → Outcome Exit
or_else none by_main = by_main
or_else (some exit) by_main = done exit

-- Behind `router.Init`. `echo_start` is what `Echo.Start` returns before the process ends, and none
-- if it returns nothing until then, or nil.
unfoldable serve :
    (Err → Bool)
    → Postgres
    → (HashPool → HashPool)
    → Order
    → Option Err
    → Option Err
    → Server
    → Outcome Exit
unfolding start shutdown
serve server_closed pg quiesce before_signal echo_start echo_shutdown s =
    or_else (start_ended server_closed (start echo_start s))
      (shutdown pg quiesce echo_shutdown s >>= λ r. done (shutdown_ended server_closed r.1))
serve server_closed pg quiesce behind_disconnect echo_start echo_shutdown s =
    shutdown pg quiesce echo_shutdown s >>= λ r.
    or_else (start_ended server_closed (start echo_start r.0))
      (done (shutdown_ended server_closed r.1))
serve server_closed pg quiesce too_late echo_start echo_shutdown s =
    shutdown pg quiesce echo_shutdown s >>= λ r. done (shutdown_ended server_closed r.1)

-- Behind `InitManager`.
abbrev with_manager :
    (Err → Bool)
    → Postgres
    → (HashPool → HashPool)
    → Order
    → Option Err
    → Option Err
    → Server × RetryEnd
    → Outcome Exit
unfolding init_router serve
with_manager server_closed pg quiesce order echo_start echo_shutdown (s, failing e) =
    done (no_manager e)
with_manager server_closed pg quiesce order echo_start echo_shutdown (s, succeeded) =
    serve server_closed pg quiesce order echo_start echo_shutdown (init_router s)

-- `answers` is PostgreSQL at the start, and `pg` at the end.
unfoldable pub main :
    (Err → Bool)
    → (ℕ → Postgres)
    → Postgres
    → (HashPool → HashPool)
    → Order
    → Option Err
    → Option Err
    → ServerConfig
    → ManagerConfig
    → Outcome Exit
unfolding new_server init_manager with_manager
main server_closed answers pg quiesce order echo_start echo_shutdown config manager_config =
    with_manager server_closed pg quiesce order echo_start echo_shutdown
      (init_manager manager_config answers (new_server config))

-- `Initialize` keeps the pools, of which there are none yet.
initialize-pools : (pg : Postgres) (m : Manager) → (initialize pg m).0.pools ≡ m.pools
unfolding initialize connect
initialize-pools pg m =
    ground (arith, drop_leftovers-same pg m, drop_leftovers-same pg (record m { connected = true }))

after_calls-pools :
    (answers : ℕ → Postgres) (n i : ℕ) (m : Manager)
    → (after_calls (attempt answers) n (i, m)).1.pools ≡ m.pools
unfolding attempt
after_calls-pools answers zero i m = refl
after_calls-pools answers (suc n) i m =
    after_calls-pools answers n (i + 1) (initialize (answers i) m).0
    ∙ initialize-pools (answers i) m

-- `Shutdown` before any pool is there returns, and then the server is not ready.
serve-late :
    (server_closed : Err → Bool) (pg : Postgres) (quiesce : HashPool → HashPool)
    (echo_start echo_shutdown : Option Err) (s : Server) (m : Manager)
    → m.pools.pools ≡ []
    → serve server_closed pg quiesce behind_disconnect echo_start echo_shutdown
        (init_router (record s { manager = some m }))
      ≡ done not_ready
unfolding serve init_router shutdown disconnect close_db stop_all each_pool start ready
serve-late server_closed pg quiesce echo_start echo_shutdown s m none_there =
    elim (Bool-cases m.connected) [
      | inl on ↦ elim (Option-cases pg.close_connection) [
        | inl e ↦ ground arith
        | inr (x, e) ↦ ground arith
      ]
      | inr off ↦ ground arith
    ]

-- How the process ends when the goroutine of `Start` runs late.
abbrev pub late_exit : RetryEnd → Exit
late_exit succeeded = not_ready
late_exit (failing e) = no_manager e

-- When the goroutine of `Start` comes to run only behind the signal, when `Shutdown` has
-- disconnected the manager, then the process never returns from `main`, even if `Shutdown` was
-- without an error: `log.Fatal` ends it, because the manager could not be started, or because the
-- server is not ready.
pub main-late :
    (server_closed : Err → Bool) (answers : ℕ → Postgres) (pg : Postgres)
    (quiesce : HashPool → HashPool) (echo_start echo_shutdown : Option Err) (config : ServerConfig)
    (manager_config : ManagerConfig)
    → main server_closed answers pg quiesce behind_disconnect echo_start echo_shutdown config
        manager_config
      ≡ done (late_exit (init_manager manager_config answers (new_server config)).1)
unfolding main with_manager init_manager new
main-late server_closed answers pg quiesce echo_start echo_shutdown config manager_config =
    elim (retry_lem (attempt answers) 30 (0, new manager_config)) [
      | inl (n, v, e) ↦ rw e (
          serve-late server_closed pg quiesce echo_start echo_shutdown (new_server config) _ (
            ap (λ (c : PoolCollection). c.pools)
              (after_calls-pools answers (suc n) 0 (new manager_config))))
      | inr (fails, e) ↦ rw e refl
    ]
