-- ===== src/Pool/Contract.antt =====
-- What a pool of pkg/pool/pool.go promises to its clients, without channels, workers or locks: a
-- shelf of at most so many databases, each of them available or in use. Nothing of this is code.
pub mod Simulation
pub mod Refinement
use integresql.Prelude.{ℕ, suc, ◌<◌, ◌≡◌, List, [], ◌∷◌, ◌==◌, if◌then◌else◌}
use integresql.Errors.{Result, ok}
use integresql.Database.{TestDatabase}

pub data Availability : Type 0 where
  missing : Availability
  available : Availability
  in_use : Availability

pub record Shelf : Type 0 where
  pub size : ℕ
  pub use_of : ℕ → Availability

-- One place of the shelf changes.
pub record Changes (i : ℕ) (to : Availability) (a b : Shelf) : Type 0 where
  pub here_and_elsewhere : (j : ℕ) → b.use_of j ≡ (if i == j then to else a.use_of j)

-- What may happen unseen: nothing, a new database at the end, or a database that becomes available
-- again.
pub data Internal (max : ℕ) (a b : Shelf) : Type 0 where
  stay : b.size ≡ a.size → ((j : ℕ) → b.use_of j ≡ a.use_of j) → Internal max a b
  add : a.size < max → b.size ≡ suc a.size → Changes a.size in_use a b → Internal max a b
  restore :
      (i : ℕ) → a.use_of i ≡ in_use → b.size ≡ a.size → Changes i available a b → Internal max a b

-- A database is handed out.
pub record Serving (i : ℕ) (a b : Shelf) : Type 0 where
  pub was : a.use_of i ≡ available
  pub same_size : b.size ≡ a.size
  pub now : Changes i in_use a b

-- The answers that clients may have got, latest first, and what the shelf is like then.
pub data Allows (name : ℕ → TestDatabase) (max : ℕ)
    : List (Result TestDatabase) → Shelf → Type 0 where
  opened : (a : Shelf) → a.size ≡ 0 → ((j : ℕ) → a.use_of j ≡ missing) → Allows name max [] a
  internally :
      {answers : List (Result TestDatabase)} {a b : Shelf}
      → Allows name max answers a
      → Internal max a b
      → Allows name max answers b
  serving :
      {answers : List (Result TestDatabase)} {a b : Shelf}
      → Allows name max answers a
      → (i : ℕ) → Serving i a b
      → Allows name max (ok (name i) ∷ answers) b
