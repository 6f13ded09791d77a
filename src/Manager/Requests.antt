-- ===== src/Manager/Requests.antt =====
-- The calls of pkg/manager/manager.go that use a template. `woken` is what the wait for a template
-- ends with: the state that it reads when it is woken, or nothing when the time is up.
use integresql.Prelude.{ℕ, ℤ, Option, none, some, Text, if◌then◌else◌}
use integresql.Errors.{
  Err, Result, ok, err, manager_not_ready, template_already_initialized, template_not_found,
  template_discarded, invalid_template_state, unknown_hash, errors_is, Outcome, done, ◌>>=◌,
}
use integresql.Database.{Database, TestDatabase}
use integresql.Pool.{HashPool}
use integresql.Pool.Take.{Selected}
use integresql.Pool.Recreate.{Goroutine}
use integresql.Templates.{
  TemplateState, Template, template_init, template_discarded, template_finalized, set_state,
  wait_until_finalized, fetch,
}
use integresql.Pools.{
  PoolCollection, init_hash_pool, get_test_database, return_test_database, recreate_test_database,
  remove_all_with_hash,
}
use integresql.Manager.{Manager, Postgres}
use integresql.Manager.Statements.{drop_test_pool_db}

-- From `GetStateWithLock` on, with the pointer at hand. The database that the source returns
-- together with `ErrTemplateAlreadyInitialized` is left out, since no caller looks at it.
unfoldable pub finalize_locked : ℕ → Template → Manager → Outcome (Manager × Result Database)
unfolding set_state
finalize_locked a t m = elim t.state [
  | template_finalized ↦ done (m, err template_already_initialized)
  | template_discarded ↦ done (m, err integresql.Errors.template_discarded)
  | template_init ↦ init_hash_pool t.database m.pools >>= λ pools. done (
    record m {
      pools = pools;
      templates = record m.templates { heap = set_state a template_finalized m.templates.heap };
    },
    ok t.database,
  )
]

unfoldable pub finalize_template_database : Text → Manager → Outcome (Manager × Result Database)
unfolding finalize_locked fetch
finalize_template_database hash m =
    if m.connected
    then elim (fetch m.templates hash) [
      | none ↦ done (m, err template_not_found)
      | some (a, t) ↦ finalize_locked a t m
    ]
    else done (m, err manager_not_ready)

-- The checks that three of the calls begin with, and the template that they find.
unfoldable pub finalized_template : Option TemplateState → Text → Manager → Result Template
unfolding fetch wait_until_finalized
finalized_template woken hash m =
    if m.connected
    then elim (fetch m.templates hash) [
      | none ↦ err template_not_found
      | some (a, t) ↦ elim (wait_until_finalized woken t.state) [
        | template_finalized ↦ ok t
        | template_init ↦ err invalid_template_state
        | template_discarded ↦ err invalid_template_state
      ]
    ]
    else err manager_not_ready

abbrev pub with_pools {ℓ} :
    {A : Type ℓ} → Manager → PoolCollection × Result A → Outcome (Manager × Result A)
with_pools m (pools, r) = done (record m { pools = pools }, r)

-- What follows the first `m.pool.GetTestDatabase`: without a pool a new one is made and asked.
-- `again` is the case of that second wait.
unfoldable pub get_again :
    Selected
    → ℕ
    → Template
    → Manager
    → PoolCollection × Result TestDatabase
    → Outcome (Manager × Result TestDatabase)
unfolding init_hash_pool get_test_database
get_again again now t m (pools, ok test_db) = with_pools m (pools, ok test_db)
get_again again now t m (pools, err e) =
    if errors_is e unknown_hash
    then (init_hash_pool t.database pools
        >>= get_test_database again now t.database.template_hash
        >>= with_pools m)
    else with_pools m (pools, err e)

unfoldable pub get_database :
    Option TemplateState
    → Selected
    → Selected
    → ℕ
    → Text
    → Manager
    → Outcome (Manager × Result TestDatabase)
unfolding finalized_template get_again get_test_database
get_database woken selected again now hash m = elim (finalized_template woken hash m) [
  | err e ↦ done (m, err e)
  | ok t ↦
      get_test_database selected now t.database.template_hash m.pools >>= get_again again now t m
]

unfoldable pub return_database :
    Option TemplateState → Option Err → Text → ℤ → Manager → Outcome (Manager × Result (Unit {0}))
unfolding finalized_template return_test_database
return_database woken ctx_err hash id m = elim (finalized_template woken hash m) [
  | err e ↦ done (m, err e)
  | ok t ↦ return_test_database ctx_err hash id m.pools >>= with_pools m
]

unfoldable pub recreate_database :
    Option TemplateState → Option Err → Text → ℤ → Manager → Outcome (Manager × Result Goroutine)
unfolding finalized_template recreate_test_database
recreate_database woken ctx_err hash id m = elim (finalized_template woken hash m) [
  | err e ↦ done (m, err e)
  | ok t ↦ recreate_test_database ctx_err hash id m.pools >>= with_pools m
]

abbrev cleared :
    Manager → PoolCollection × Result (Unit {0}) → Outcome (Manager × Result (Unit {0}))
cleared m (pools, ok u) = with_pools m (pools, ok u)
cleared m (pools, err e) =
    with_pools m (pools, if errors_is e unknown_hash then err template_not_found else err e)

unfoldable pub clear_tracked_test_databases :
    Postgres → (HashPool → HashPool) → Text → Manager → Outcome (Manager × Result (Unit {0}))
unfolding remove_all_with_hash drop_test_pool_db
clear_tracked_test_databases pg quiesce hash m =
    if m.connected
    then (remove_all_with_hash quiesce (drop_test_pool_db pg) hash m.pools >>= cleared m)
    else done (m, err manager_not_ready)

unfoldable pub reset_all_tracking :
    Postgres → (HashPool → HashPool) → Manager → Outcome (Manager × Result (Unit {0}))
unfolding drop_test_pool_db
reset_all_tracking pg quiesce m =
    if m.connected
    then (integresql.Pools.remove_all quiesce (drop_test_pool_db pg) m.pools
        >>= with_pools (record m { templates = integresql.Templates.remove_all m.templates }))
    else done (m, err manager_not_ready)
