-- ===== src/Manager/Calls.antt =====
-- The calls of pkg/manager/manager.go. Of the arguments, `pg` is PostgreSQL, `quiesce` what the
-- workers of a pool do to it until they have stopped, and `woken` what a wait for a template ends
-- with.
use integresql.Prelude.{Bool, true, false, Option, none, some, Text, [], if◌then◌else◌}
use integresql.Errors.{
  Err, Result, ok, err, manager_not_ready, template_already_initialized, template_discarded,
  already_connected, not_connected, unknown_hash, errors_is, Outcome, done, panicked, ◌>>=◌,
}
use integresql.Database.{DatabaseConfig, Database}
use integresql.Pool.{HashPool}
use integresql.Templates.{template_discarded, set_state, push, remove_unsafe, pop}
use integresql.Pools.{PoolCollection, remove_all_with_hash, stop_all}
use integresql.Manager.{Manager, Postgres}
use integresql.Manager.Statements.{
  drop_database, drop_and_create_database, drop_test_pool_db, make_template_database_name,
  unmanaged_pattern, drop_unmanaged,
}

unfoldable pub connect : Postgres → Manager → Manager × Result (Unit {0})
connect pg m = if m.connected then (m, err already_connected) else elim pg.open_connection [
  | some e ↦ (m, err e)
  | none ↦ elim pg.ping [ some e ↦ (m, err e) | none ↦ (record m { connected = true }, ok tt) ]
]

-- Behind `m.pool.Stop()`.
unfoldable pub close_db : Option Err → Bool → Manager → Manager × Result (Unit {0})
close_db (some e) false m = (m, err e)
close_db (some e) true m = (record m { connected = false }, ok tt)
close_db none ignore m = (record m { connected = false }, ok tt)

unfoldable pub disconnect :
    Postgres → (HashPool → HashPool) → Bool → Manager → Outcome (Manager × Result (Unit {0}))
unfolding stop_all close_db
disconnect pg quiesce ignore m =
    if m.connected
    then (stop_all quiesce m.pools >>= λ pools.
        done (close_db pg.close_connection ignore (record m { pools = pools })))
    else done (m, err not_connected)

unfoldable pub reconnect :
    Postgres → (HashPool → HashPool) → Bool → Manager → Outcome (Manager × Result (Unit {0}))
unfolding disconnect connect
reconnect pg quiesce ignore m = disconnect pg quiesce ignore m >>= λ r. elim r.1 [
  | ok u ↦ done (connect pg r.0)
  | err e ↦ if ignore then done (connect pg r.0) else done (r.0, err e)
]

-- Behind the connection.
unfoldable pub drop_leftovers : Postgres → Manager → Manager × Result (Unit {0})
unfolding unmanaged_pattern drop_unmanaged
drop_leftovers pg m = elim (pg.databases_like (unmanaged_pattern m)) [
  | err e ↦ (m, err e)
  | ok names ↦ elim (drop_unmanaged pg names) [ some e ↦ (m, err e) | none ↦ (m, ok tt) ]
]

unfoldable pub initialize : Postgres → Manager → Manager × Result (Unit {0})
unfolding connect drop_leftovers
initialize pg m =
    if m.connected
    then drop_leftovers pg m
    else (let r = connect pg m in elim r.1 [ err e ↦ (r.0, err e) | ok u ↦ drop_leftovers pg r.0 ])

-- The configuration of a new template.
unfoldable pub template_config : Manager → Text → DatabaseConfig
unfolding make_template_database_name
template_config m hash = record m.config.manager_database_config {
  database = make_template_database_name m hash;
  additional_params = [];
}

-- Behind `RemoveAllWithHash`.
unfoldable pub initialized :
    Text → DatabaseConfig → Manager → PoolCollection × Result (Unit {0}) → Manager × Result Database
unfolding remove_unsafe
initialized hash config m (pools, ok u) =
    (record m { pools = pools }, ok (record { template_hash = hash; config = config }))
initialized hash config m (pools, err e) =
    if errors_is e unknown_hash
    then (record m { pools = pools }, ok (record { template_hash = hash; config = config }))
    else (record m { pools = pools; templates = remove_unsafe hash m.templates }, err e)

unfoldable pub initialize_template_database :
    Postgres → (HashPool → HashPool) → Text → Manager → Outcome (Manager × Result Database)
unfolding template_config push drop_and_create_database initialized remove_all_with_hash
    drop_test_pool_db
initialize_template_database pg quiesce hash m =
    if m.connected
    then (let config = template_config m hash in
        let pushed = push hash config m.templates in
        if pushed.0
        then elim (drop_and_create_database pg m config.database
            m.config.manager_database_config.username m.config.template_database_template) [
              | some e ↦ done (record m { templates = remove_unsafe hash pushed.1 }, err e)
              | none ↦ remove_all_with_hash quiesce (drop_test_pool_db pg) hash m.pools >>= λ r.
                  done (initialized hash config (record m { templates = pushed.1 }) r)
            ]
        else done (m, err template_already_initialized))
    else done (m, err manager_not_ready)

-- Behind `RemoveAllWithHash`. The code reads the name of the template before it looks whether
-- there is one: without one it panics, so that what it does then is never reached.
unfoldable pub discard_template : Postgres → Text → Manager → Outcome (Manager × Result (Unit {0}))
unfolding pop set_state drop_database
discard_template pg hash m =
    let popped = pop hash m.templates in
    elim popped.0 [
      | none ↦ panicked
      | some (a, t) ↦
          let templates = record popped.1 { heap = set_state a template_discarded popped.1.heap } in
          elim (drop_database pg t.database.config.database) [
            | none ↦ done (record m { templates = templates }, ok tt)
            | some e ↦ done (record m { templates = templates }, err e)
          ]
    ]

unfoldable pub discard_template_database :
    Postgres → (HashPool → HashPool) → Text → Manager → Outcome (Manager × Result (Unit {0}))
unfolding discard_template remove_all_with_hash drop_test_pool_db
discard_template_database pg quiesce hash m =
    if m.connected
    then (remove_all_with_hash quiesce (drop_test_pool_db pg) hash m.pools >>= λ r. elim r.1 [
      | ok u ↦ discard_template pg hash (record m { pools = r.0 })
      | err e ↦
          if errors_is e unknown_hash
          then discard_template pg hash (record m { pools = r.0 })
          else done (record m { pools = r.0 }, err e)
    ])
    else done (m, err manager_not_ready)
