-- ===== src/Api.antt =====
-- The handlers of internal/api/templates/templates.go, down to the status of the answer. Echo is a
-- parameter: what it makes of the body and of the path.
pub mod Statuses
pub mod Repeats
use integresql.Prelude.{ℕ, ℤ, true, false, Option, none, some, Text, [], ◌∷◌, if◌then◌else◌}
use integresql.Errors.{
  Err, Result, ok, err, manager_not_ready, template_already_initialized, template_not_found,
  test_not_found, template_discarded, test_db_in_use, errors_is, Outcome, done, ◌>>=◌,
}
use integresql.Database.{Database, TestDatabase}
use integresql.Pool.{HashPool}
use integresql.Pool.Take.{Selected}
use integresql.Pool.Recreate.{Goroutine}
use integresql.Templates.{TemplateState}
use integresql.Manager.{Manager, Postgres}
use integresql.Manager.Calls.{initialize_template_database, discard_template_database}
use integresql.Manager.Requests.{
  finalize_template_database, get_database, return_database, recreate_database,
}

abbrev pub initialize_status : Result Database → ℕ
initialize_status (ok db) = 200
initialize_status (err e) =
    if errors_is e manager_not_ready
    then 503
    else (if errors_is e template_already_initialized then 423 else 500)

-- `bind` is the status of an error of `c.Bind`.
unfoldable pub post_initialize_template :
    Postgres → (HashPool → HashPool) → Option ℕ → Text → Manager → Outcome (Manager × ℕ)
unfolding initialize_template_database
post_initialize_template pg quiesce (some s) hash m = done (m, s)
post_initialize_template pg quiesce none [] m = done (m, 400)
post_initialize_template pg quiesce none (c ∷ hash) m =
    initialize_template_database pg quiesce (c ∷ hash) m >>= λ r. done (r.0, initialize_status r.1)

abbrev pub finalize_status : Result Database → ℕ
finalize_status (ok db) = 204
finalize_status (err e) =
    if errors_is e template_already_initialized
    then 204
    else (if errors_is e manager_not_ready
        then 503
        else (if errors_is e template_not_found then 404 else 500))

unfoldable pub put_finalize_template : Text → Manager → Outcome (Manager × ℕ)
unfolding finalize_template_database
put_finalize_template hash m =
    finalize_template_database hash m >>= λ r. done (r.0, finalize_status r.1)

abbrev pub discard_status : Result (Unit {0}) → ℕ
discard_status (ok u) = 204
discard_status (err e) =
    if errors_is e manager_not_ready
    then 503
    else (if errors_is e template_not_found then 404 else 500)

unfoldable pub delete_discard_template :
    Postgres → (HashPool → HashPool) → Text → Manager → Outcome (Manager × ℕ)
unfolding discard_template_database
delete_discard_template pg quiesce hash m =
    discard_template_database pg quiesce hash m >>= λ r. done (r.0, discard_status r.1)

abbrev pub get_status : Result TestDatabase → ℕ
get_status (ok test_db) = 200
get_status (err e) =
    if errors_is e manager_not_ready
    then 503
    else (if errors_is e template_not_found
        then 404
        else (if errors_is e template_discarded then 410 else 500))

unfoldable pub get_test_database :
    Option TemplateState → Selected → Selected → ℕ → Text → Manager → Outcome (Manager × ℕ)
unfolding get_database
get_test_database woken selected again now hash m =
    get_database woken selected again now hash m >>= λ r. done (r.0, get_status r.1)

abbrev pub unlock_status {ℓ} : {A : Type ℓ} → Result A → ℕ
unlock_status (ok u) = 204
unlock_status (err e) =
    if errors_is e manager_not_ready
    then 503
    else (if errors_is e template_not_found
        then 404
        else (if errors_is e test_not_found
            then 404
            else (if errors_is e test_db_in_use then 423 else 500)))

-- `id` is what `strconv.Atoi` makes of the path.
unfoldable pub post_unlock_test_database :
    Option TemplateState → Option Err → Text → Option ℤ → Manager → Outcome (Manager × ℕ)
unfolding return_database
post_unlock_test_database woken ctx_err hash none m = done (m, 400)
post_unlock_test_database woken ctx_err hash (some id) m =
    return_database woken ctx_err hash id m >>= λ r. done (r.0, unlock_status r.1)

unfoldable pub post_recreate_test_database :
    Option TemplateState → Option Err → Text → Option ℤ → Manager → Outcome (Manager × ℕ)
unfolding recreate_database
post_recreate_test_database woken ctx_err hash none m = done (m, 400)
post_recreate_test_database woken ctx_err hash (some id) m =
    recreate_database woken ctx_err hash id m >>= λ r. done (r.0, unlock_status r.1)
