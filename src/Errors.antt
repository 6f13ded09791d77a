-- ===== src/Errors.antt =====
-- The `error` values of pkg/pool/pool.go, pkg/pool/pool_collection.go, pkg/manager/manager.go and
-- pkg/util/wait.go, and what a call may come to.
use integresql.Prelude.{ℕ, ◌+◌, ◌≡◌, refl, ◌⊎◌, inl, inr, Bool, true, false, ◌==◌}

pub data Err : Type 0 where
  -- pkg/pool
  pool_full invalid_state invalid_index get_timeout test_db_in_use unknown_hash : Err
  -- pkg/manager
  manager_not_ready template_already_initialized template_not_found test_not_found : Err
  template_discarded invalid_template_state already_connected not_connected : Err
  -- pkg/util
  wait_timeout : Err
  -- of package context
  canceled deadline_exceeded : Err
  -- any error of the database driver
  driver : ℕ → Err

-- The error values are compared by identity.
abbrev pub err_code : Err → ℕ
err_code pool_full = 0
err_code invalid_state = 1
err_code invalid_index = 2
err_code get_timeout = 3
err_code test_db_in_use = 4
err_code unknown_hash = 5
err_code manager_not_ready = 6
err_code template_already_initialized = 7
err_code template_not_found = 8
err_code test_not_found = 9
err_code template_discarded = 10
err_code invalid_template_state = 11
err_code already_connected = 12
err_code not_connected = 13
err_code wait_timeout = 14
err_code canceled = 15
err_code deadline_exceeded = 16
err_code (driver n) = 17 + n

-- `errors.Is`; no error of the program wraps another of these.
abbrev pub errors_is : Err → Err → Bool
errors_is a b = err_code a == err_code b

-- What a Go function with an `error` result returns.
pub data Result {ℓ} (A : Type ℓ) : Type ℓ where
  ok : A → Result A
  err : Err → Result A

-- What a call comes to: it returns, it waits for a lock or a channel, or it panics.
pub data Outcome {ℓ} (A : Type ℓ) : Type ℓ where
  done : A → Outcome A
  blocked : Outcome A
  panicked : Outcome A

infixl 5 ◌>>=◌
abbrev pub ◌>>=◌ {ℓ κ} : {A : Type ℓ} {B : Type κ} → Outcome A → (A → Outcome B) → Outcome B
done a >>= f = f a
blocked >>= f = blocked
panicked >>= f = panicked

-- The error part of a pair `(state, result)`.
abbrev pub is_ok {ℓ} : {A : Type ℓ} → Result A → Bool
is_ok (ok a) = true
is_ok (err e) = false

-- Inversion of a bind that returns.
pub >>=-eq-done {ℓ κ} :
    {A : Type ℓ} {B : Type κ} (m : Outcome A) (f : A → Outcome B) {b : B}
    → (m >>= f) ≡ done b
    → (a : A) × (m ≡ done a) × (f a ≡ done b)
>>=-eq-done (done a) f h = (a, refl, h)
>>=-eq-done blocked f h = cc
>>=-eq-done panicked f h = cc

pub Result-cases {ℓ} :
    {A : Type ℓ} (r : Result A) → ((a : A) × (r ≡ ok a)) ⊎ ((e : Err) × (r ≡ err e))
Result-cases (ok a) = inl (a, refl)
Result-cases (err e) = inr (e, refl)
