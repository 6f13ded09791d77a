-- ===== src/Pools/Isolation.antt =====
-- What a call on one pool does to the collection.
use integresql.Prelude.{Text}
use integresql.Errors.{Result, Outcome, done}
use integresql.Pool.{HashPool}
use integresql.Pools.{PoolCollection, store}

abbrev stored {ℓ} :
    {A : Type ℓ} → Text → PoolCollection → HashPool × Result A → Outcome (PoolCollection × Result A)
stored hash c r = done (store hash c r.0, r.1)
