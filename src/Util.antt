-- ===== src/Util.antt =====
-- pkg/util/retry.go and pkg/util/wait.go. The clock and the scheduler are arguments.
pub mod Retrying
pub mod Environment
pub mod Context
use integresql.Prelude.{ℕ, zero, suc, ◌+◌, Bool, Option, none, some, if◌then◌else◌}
use integresql.Errors.{Err, Result, ok, err, wait_timeout}

-- How `Retry` ends: with nil, or with an error that wraps the last one, if there is one.
pub data RetryEnd : Type 0 where
  succeeded : RetryEnd
  failing : Option Err → RetryEnd

pub record Retried {ℓ} (S : Type ℓ) : Type ℓ where
  pub state : S
  pub sleeps : ℕ
  pub ending : RetryEnd

-- The loop with `left` rounds to go, after the error `last`.
unfoldable pub retry_loop {ℓ} :
    {S : Type ℓ} → ℕ → ℕ → Option Err → (S → S × Option Err) → S → Retried S
retry_loop zero slept last f s = record { state = s; sleeps = slept; ending = failing last }
retry_loop (suc left) slept last f s = elim (f s).1 [
  | none ↦ record { state = (f s).0; sleeps = slept; ending = succeeded }
  | some e ↦ retry_loop left (slept + 1) (some e) f (f s).0
]

-- `Retry(attempts, sleep, f)` for a function that acts on a state.
unfoldable pub retry {ℓ} : {S : Type ℓ} → ℕ → (S → S × Option Err) → S → Retried S
unfolding retry_loop
retry attempts f s = retry_loop attempts 0 none f s

-- `WaitWithTimeout` and `WaitWithCancellableCtx`: `arrived` says that the `select` takes the result
-- of the operation, and not the timeout or the end of the context. `empty` is the zero value.
unfoldable pub wait {ℓ} : {A : Type ℓ} → A → Bool → A × Option Err → A × Option Err
wait empty arrived answer = if arrived then answer else (empty, some wait_timeout)
