-- ===== src/Pool/Extend.antt =====
-- `HashPool.extend` of pkg/pool/pool.go.
pub mod Failing
use integresql.Prelude.{ℕ, ◌≡◌, refl, zero, [], ◌∷◌, ◌++◌, ◌==◌, length, if◌then◌else◌}
use integresql.Errors.{Result, ok, err, pool_full, Outcome, done, ◌>>=◌}
use integresql.Pool.{HashPool, ExistingDb, db_dirty, lock}
use integresql.Pool.Name.{make_db_name}
use integresql.Pool.Recreate.{Weather, recreate_database_gracefully}

-- The database number `index` as it is appended; it starts dirty.
unfoldable pub new_test_db : HashPool → ℕ → ExistingDb
unfolding make_db_name
new_test_db p index = record {
  state = db_dirty;
  test_database = record {
    database = record {
      template_hash = p.template_db.template_hash;
      config = record p.template_db.config {
        database = make_db_name p.test_db_name_prefix p.template_db.template_hash index;
      };
    };
    id = index;
  };
  block_auto_clean_dirty_until = zero;
  generation = zero;
}

pub id-new_test_db : (p : HashPool) (index : ℕ) → (new_test_db p index).id ≡ index
unfolding new_test_db
id-new_test_db p index = refl

-- The critical section: the index of the new database.
unfoldable pub append_db : HashPool → Outcome (HashPool × Result ℕ)
unfolding lock
append_db p0 = do
  p ← lock p0
  let index = length p.dbs
  done (
      if index == p.dbs_cap
      then (p, err pool_full)
      else (record p { dbs = p.dbs ++ new_test_db p index ∷ [] }, ok index))

unfoldable pub extend : Weather → HashPool → Outcome (HashPool × Result (Unit {0}))
unfolding append_db recreate_database_gracefully
extend w p = do
  appended ← append_db p
  elim appended.1 [
    | err e ↦ done (appended.0, err e)
    | ok index ↦ recreate_database_gracefully w index appended.0
  ]
