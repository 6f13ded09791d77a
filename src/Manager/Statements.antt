-- ===== src/Manager/Statements.antt =====
-- The statements that pkg/manager/manager.go sends to PostgreSQL.
use integresql.Prelude.{
  ltb, Bool, true, false, Option, none, some, Text, codes, List, [], ◌∷◌, ◌++◌, if◌then◌else◌,
}
use integresql.Errors.{Err, Result, ok, err, manager_not_ready, test_db_in_use}
use integresql.Database.{TestDatabase}
use integresql.Manager.{Manager, Postgres}

unfoldable pub check_database_exists : Postgres → Text → Result Bool
check_database_exists pg name = elim (pg.select_database name) [
  | err e ↦ err e
  | ok none ↦ ok false
  | ok (some exists) ↦ ok exists
]

unfoldable pub check_database_connected : Postgres → Text → Result Bool
check_database_connected pg name = elim (pg.count_connected name) [
  | err e ↦ err e
  | ok none ↦ ok false
  | ok (some n) ↦ ok (ltb 0 n)
]

unfoldable pub create_database : Postgres → Text → Text → Text → Option Err
create_database pg name owner template = pg.exec_create name owner template

unfoldable pub drop_database : Postgres → Text → Option Err
drop_database pg name = elim (pg.exec_drop name) [
  | none ↦ none
  | some e ↦ if pg.accessed_by_others e then some test_db_in_use else some e
]

unfoldable pub drop_and_create_database : Postgres → Manager → Text → Text → Text → Option Err
unfolding create_database drop_database
drop_and_create_database pg m name owner template =
    if m.connected
    then elim (drop_database pg name) [
      | some e ↦ some e
      | none ↦ create_database pg name owner template
    ]
    else some manager_not_ready

-- `recreateTestPoolDB`
unfoldable pub recreate_test_pool_db : Postgres → Manager → TestDatabase → Text → Option Err
unfolding check_database_connected drop_and_create_database
recreate_test_pool_db pg m test_db template_name =
    elim (check_database_connected pg test_db.config.database) [
      | err e ↦ some e
      | ok true ↦ some test_db_in_use
      | ok false ↦
          drop_and_create_database pg m test_db.config.database m.config.test_database_owner
            template_name
    ]

-- `dropTestPoolDB`
unfoldable pub drop_test_pool_db : Postgres → TestDatabase → Option Err
unfolding drop_database
drop_test_pool_db pg test_db = drop_database pg test_db.config.database

unfoldable pub make_template_database_name : Manager → Text → Text
make_template_database_name m hash =
    m.config.database_prefix ++ codes "_" ++ m.config.template_database_prefix ++ codes "_" ++ hash

-- The pattern of `Initialize`: `%s_%s_%%`.
unfoldable pub unmanaged_pattern : Manager → Text
unmanaged_pattern m =
    m.config.database_prefix ++ codes "_" ++ m.config.pool_config.test_db_name_prefix ++ codes "_%"

-- The loop of `Initialize`, without the phrase check of `dropDatabase`.
unfoldable pub drop_unmanaged : Postgres → List Text → Option Err
drop_unmanaged pg [] = none
drop_unmanaged pg (name ∷ names) = elim (pg.exec_drop name) [
  | some e ↦ some e
  | none ↦ drop_unmanaged pg names
]
