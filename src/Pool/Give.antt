-- ===== src/Pool/Give.antt =====
-- `HashPool.ReturnTestDatabase` of pkg/pool/pool.go.
use integresql.Prelude.{ℕ, ℤ, pos, negsuc, Option, none, some, get_elem?, set, if◌then◌else◌}
use integresql.Errors.{Err, Result, ok, err, invalid_index, Outcome, done, ◌>>=◌}
use integresql.Pool.{HashPool, ExistingDb, db_ready, lock, is_dirty}
use integresql.Pool.Channel.{send, exclude_id_from_channel}

-- `id < 0 || id >= len(pool.dbs)`, and the database behind a valid id.
abbrev pub find_db : HashPool → ℤ → Option (ℕ × ExistingDb)
find_db p (pos n) = elim (get_elem? p.dbs n) [ none ↦ none | some d ↦ some (n, d) ]
find_db p (negsuc n) = none

-- Behind the checks.
unfoldable pub give_back : ℕ → ExistingDb → HashPool → Outcome (HashPool × Result (Unit {0}))
give_back id d p = do
  dirty' ← exclude_id_from_channel p.max_pool_size id p.dirty
  ready' ← send p.max_pool_size id p.ready
  done (
    record p { dbs = set p.dbs id (record d { state = db_ready }); dirty = dirty'; ready = ready' },
    ok tt,
  )

-- `ctx_err` is what `ctx.Err()` says.
unfoldable pub return_test_database :
    Option Err → ℤ → HashPool → Outcome (HashPool × Result (Unit {0}))
unfolding lock
return_test_database ctx_err id p0 = do
  p ← lock p0
  elim ctx_err [
    | some e ↦ done (p, err e)
    | none ↦ elim (find_db p id) [
      | none ↦ done (p, err invalid_index)
      | some (n, d) ↦ if is_dirty d.state then give_back n d p else done (p, ok tt)
    ]
  ]
