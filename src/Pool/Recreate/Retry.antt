-- ===== src/Pool/Recreate/Retry.antt =====
-- The retry loop of `recreateDatabaseGracefully`.
use integresql.Prelude.{
  ℕ, zero, suc, ◌+◌, ◌≤◌, ◌≡◌, none, some, List, [], ◌∷◌, ◌++◌, arith, replicate,
}
use native.Mathlib.Nat.{add-zero}
use integresql.Errors.{test_db_in_use}
use integresql.Pool.{PoolConfig}
use integresql.Pool.Recreate.{Attempt, backoff, recreate_loop}

-- The sleeps of `n` rounds after the first `tries`.
abbrev pub backoffs : PoolConfig → ℕ → ℕ → List ℕ
backoffs cfg tries zero = []
backoffs cfg tries (suc n) = backoff cfg (tries + 1) ∷ backoffs cfg (tries + 1) n

abbrev pub in_use : Attempt
in_use = record { ctx_done = none; answer = some test_db_in_use }

shift : (m n : ℕ) → m + 1 + n ≡ m + suc n
shift m n = omega arith

-- While the database is still in use the loop goes on, for any number of rounds; it then does
-- what the next rounds say, with the number of tries counted on.
pub recreate_loop-in_use :
    (cfg : PoolConfig) (n tries : ℕ) (rest : List Attempt)
    → recreate_loop cfg tries (replicate n in_use ++ rest)
      ≡ (let r = recreate_loop cfg (tries + n) rest in (r.0, backoffs cfg tries n ++ r.1))
unfolding recreate_loop
recreate_loop-in_use cfg zero tries rest = rw (add-zero tries)
recreate_loop-in_use cfg (suc n) tries rest =
    ground (arith, recreate_loop-in_use cfg n (tries + 1) rest, shift tries n)

-- Every sleep is at most the maximal one, and a later sleep is never shorter.
pub backoff_bounds :
    (cfg : PoolConfig) (m n : ℕ)
    → m ≤ n
    → (backoff cfg m ≤ backoff cfg n) × (backoff cfg n ≤ cfg.test_database_retry_recreate_sleep_max)
unfolding backoff
backoff_bounds cfg m n h = grind arith
