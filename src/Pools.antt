-- ===== src/Pools.antt =====
-- `PoolCollection` of pkg/pool/pool_collection.go, between two critical sections of its pools. The
-- mutex of the collection is free whenever a call begins.
pub mod Isolation
use integresql.Prelude.{ℕ, ℤ, Option, none, some, [], ◌∷◌, Text, if◌then◌else◌}
use integresql.Prelude.Assoc.{Assoc, lookup, remove, insert}
use integresql.Errors.{Err, Result, ok, err, unknown_hash, Outcome, done, ◌>>=◌}
use integresql.Database.{Database, TestDatabase}
use integresql.Pool.{HashPool, PoolConfig, new_hash_pool}
use integresql.Pool.Name.{make_db_name}
use integresql.Pool.Take.{Selected}
use integresql.Pool.Recreate.{Goroutine, Weather}
use integresql.Pool.Extend.{extend}
use integresql.Pool.Lifecycle.{start, stop}

pub record PoolCollection : Type 0 where
  pub config : PoolConfig
  pub pools : Assoc HashPool

unfoldable pub new_pool_collection : PoolConfig → PoolCollection
new_pool_collection cfg = record { config = cfg; pools = [] }

-- `c.pools[hash] = p`
abbrev pub store : Text → PoolCollection → HashPool → PoolCollection
store hash c p = record c { pools = insert hash p c.pools }

-- `InitHashPool`; a pool that has the hash already is overwritten.
unfoldable pub init_hash_pool : Database → PoolCollection → Outcome PoolCollection
unfolding new_hash_pool
init_hash_pool template_db c = do
  let pool = new_hash_pool c.config template_db
  started ← if c.config.disable_worker_autostart then done pool else start pool
  done (store template_db.template_hash c started)

-- `getPool`, and then an operation of the pool.
unfoldable pub with_pool {ℓ} :
    {A : Type ℓ}
    → Text
    → (HashPool → Outcome (HashPool × Result A))
    → PoolCollection
    → Outcome (PoolCollection × Result A)
with_pool hash f c = elim (lookup hash c.pools) [
  | none ↦ done (c, err unknown_hash)
  | some p ↦ f p >>= λ r. done (store hash c r.0, r.1)
]

unfoldable pub get_test_database :
    Selected → ℕ → Text → PoolCollection → Outcome (PoolCollection × Result TestDatabase)
unfolding with_pool
get_test_database selected now hash =
    with_pool hash (integresql.Pool.Take.get_test_database selected now)

unfoldable pub return_test_database :
    Option Err → Text → ℤ → PoolCollection → Outcome (PoolCollection × Result (Unit {0}))
unfolding with_pool
return_test_database ctx_err hash id =
    with_pool hash (integresql.Pool.Give.return_test_database ctx_err id)

unfoldable pub recreate_test_database :
    Option Err → Text → ℤ → PoolCollection → Outcome (PoolCollection × Result Goroutine)
unfolding with_pool
recreate_test_database ctx_err hash id =
    with_pool hash (integresql.Pool.Recreate.recreate_test_database ctx_err id)

unfoldable pub extend_pool :
    Weather → Database → PoolCollection → Outcome (PoolCollection × Result (Unit {0}))
unfolding with_pool
extend_pool w template_db = with_pool template_db.template_hash (extend w)

-- Behind `pool.RemoveAll`.
unfoldable pub forget :
    Text → PoolCollection → HashPool × Result (Unit {0}) → PoolCollection × Result (Unit {0})
forget hash c (p, err e) = (store hash c p, err e)
forget hash c (p, ok u) = (record c { pools = remove hash c.pools }, ok tt)

-- The source holds the mutex of the collection until this returns: a call that is `blocked` keeps
-- it for good.
unfoldable pub remove_all_with_hash :
    (HashPool → HashPool)
    → (TestDatabase → Option Err)
    → Text
    → PoolCollection
    → Outcome (PoolCollection × Result (Unit {0}))
unfolding forget
remove_all_with_hash quiesce removed hash c = elim (lookup hash c.pools) [
  | none ↦ done (c, err unknown_hash)
  | some p ↦ integresql.Pool.Removal.remove_all quiesce removed p >>= λ r. done (forget hash c r)
]

-- The loop of `RemoveAll` over the map as it was when it began; it ends at the first error.
unfoldable pub remove_each :
    (HashPool → HashPool)
    → (TestDatabase → Option Err)
    → Assoc HashPool
    → PoolCollection
    → Outcome (PoolCollection × Result (Unit {0}))
unfolding forget
remove_each quiesce removed [] c = done (c, ok tt)
remove_each quiesce removed ((hash, p) ∷ m) c =
    integresql.Pool.Removal.remove_all quiesce removed p >>= λ r.
    let left = forget hash c r in
    elim left.1 [ err e ↦ done (left.0, err e) | ok u ↦ remove_each quiesce removed m left.0 ]

unfoldable pub remove_all :
    (HashPool → HashPool)
    → (TestDatabase → Option Err)
    → PoolCollection
    → Outcome (PoolCollection × Result (Unit {0}))
unfolding remove_each
remove_all quiesce removed c = remove_each quiesce removed c.pools c

-- The loops of `Start` and `Stop`.
unfoldable pub each_pool : (HashPool → Outcome HashPool) → Assoc HashPool → Outcome (Assoc HashPool)
each_pool f [] = done []
each_pool f ((hash, p) ∷ m) = f p >>= λ q. each_pool f m >>= λ rest. done ((hash, q) ∷ rest)

unfoldable pub start_all : PoolCollection → Outcome PoolCollection
unfolding each_pool
start_all c = each_pool start c.pools >>= λ m. done (record c { pools = m })

unfoldable pub stop_all : (HashPool → HashPool) → PoolCollection → Outcome PoolCollection
unfolding each_pool
stop_all quiesce c = each_pool (stop quiesce) c.pools >>= λ m. done (record c { pools = m })

-- `MakeDBName`
unfoldable pub make_name : PoolCollection → Text → ℕ → Text
unfolding make_db_name
make_name c hash id = make_db_name c.config.test_db_name_prefix hash id
