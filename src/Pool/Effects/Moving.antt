-- ===== src/Pool/Effects/Moving.antt =====
-- `ReturnTestDatabase`, the sections of `recreateDatabaseGracefully`, and `extend`.
use integresql.Prelude.{
  ℕ, ◌+◌, ◌^◌, ◌%◌, ◌≤◌, ◌<◌, ◌≡◌, ◌⊎◌, inl, inr, true, false, ℤ, pos, negsuc, Option, none, some,
  [], ◌∷◌, ◌++◌, arith, length, get_elem?, set, Option-cases, Bool-cases, ◌≢◌,
}
use integresql.Prelude.Counting.{without}
use integresql.Prelude.Lists.{set-set, set-get_elem?}
use integresql.Errors.{Result, ok, err, Err, done, pool_full, invalid_index}
use integresql.Pool.{
  HashPool, ExistingDb, Context, open_context, db_ready, db_recreating, is_ready, is_dirty,
}
use integresql.Pool.Channel.{send, send_done, exclude_id_from_channel-without}
use integresql.Pool.Give.{find_db, give_back, return_test_database}
use integresql.Pool.Recreate.{mark, begin_recreate, move_to_ready}
use integresql.Pool.Extend.{new_test_db, append_db}
use integresql.Pool.Effects.{Effect}

-- The database as it comes out of a recreation.
abbrev pub renewed : ExistingDb → ExistingDb
renewed d = record d { generation = (d.generation + 1) % 2 ^ 64; state = db_ready }

pub give_back-Effect :
    (id : ℕ) (d : ExistingDb) (p q : HashPool) (r : Result (Unit {0}))
    → length p.dirty ≤ p.max_pool_size
    → give_back id d p ≡ done (q, r)
    → Effect p q
        (set p.dbs id (record d { state = db_ready }))
        (p.ready ++ id ∷ [])
        (without id p.dirty)
      × (r ≡ ok tt)
unfolding give_back send
give_back-Effect id d p q r h e =
    ground (arith, exclude_id_from_channel-without p.max_pool_size id p.dirty)

-- The write of the state `recreating` is undone at once: the pool stays as it was.
pub mark-unchanged :
    (id : ℕ) (p q : HashPool) (r : Result (Option ExistingDb)) → mark id p ≡ done (q, r) → q ≡ p
unfolding mark
mark-unchanged id p q r h = elim (Option-cases (get_elem? p.dbs id)) [
  | inl out ↦ ground arith
  | inr (d, e) ↦
      ground
        (arith, set-set p.dbs id (record d { state = db_recreating }) d, set-get_elem? p.dbs id d)
]

pub begin_recreate-unchanged :
    (ctx : Context) (id : ℕ) (p q : HashPool) (r : Result (Option ExistingDb))
    → begin_recreate ctx id p ≡ done (q, r)
    → q ≡ p
unfolding begin_recreate
begin_recreate-unchanged ctx id p q r h = ground (arith, mark-unchanged id p q r)

module _ (id : ℕ) (p : HashPool) (unlocked : p.locked ≡ false) where
  pub mark-dirty :
      (d : ExistingDb)
      → get_elem? p.dbs id ≡ some d
      → is_dirty d.state ≡ true
      → mark id p ≡ done (p, ok (some d))
  unfolding mark
  mark-dirty d e h =
      ground
        (arith, set-set p.dbs id (record d { state = db_recreating }) d, set-get_elem? p.dbs id d)

  pub move_to_ready-already :
      (d : ExistingDb)
      → get_elem? p.dbs id ≡ some d
      → is_ready d.state ≡ true
      → move_to_ready open_context id p ≡ done (p, ok tt)
  unfolding move_to_ready
  move_to_ready-already d e h = ground arith

  pub move_to_ready-moves :
      (d : ExistingDb)
      → get_elem? p.dbs id ≡ some d
      → is_ready d.state ≡ false
      → length p.ready < p.max_pool_size
      → move_to_ready open_context id p
        ≡ done (record p { dbs = set p.dbs id (renewed d); ready = p.ready ++ d.id ∷ [] }, ok tt)
  unfolding move_to_ready
  move_to_ready-moves d e h room = ground (arith, send_done p.max_pool_size d.id p.ready)

module _ (p : HashPool) (unlocked : p.locked ≡ false) where
  pub append_db-full : length p.dbs ≡ p.dbs_cap → append_db p ≡ done (p, err pool_full)
  unfolding append_db
  append_db-full h = ground arith

  pub append_db-room :
      length p.dbs ≢ p.dbs_cap
      → append_db p
        ≡ done (record p { dbs = p.dbs ++ new_test_db p (length p.dbs) ∷ [] }, ok (length p.dbs))
  unfolding append_db
  append_db-room h = ground arith

-- A call of `ReturnTestDatabase` that returns has changed nothing, or has given a dirty database
-- back.
pub return_test_database-cases :
    (ctx_err : Option Err) (id : ℤ) (p q : HashPool) (r : Result (Unit {0}))
    → p.locked ≡ false
    → return_test_database ctx_err id p ≡ done (q, r)
    → (q ≡ p)
      ⊎ ((i : ℕ) × (d : ExistingDb) × (get_elem? p.dbs i ≡ some d)
          × (is_dirty d.state ≡ true)
          × (give_back i d p ≡ done (q, r)))
unfolding return_test_database
return_test_database-cases (some e) id p q r u h = inl (ground arith)
return_test_database-cases none (negsuc n) p q r u h = inl (ground arith)
return_test_database-cases none (pos n) p q r u h = elim (Option-cases (get_elem? p.dbs n)) [
  | inl out ↦ inl (ground arith)
  | inr (d, e) ↦ elim (Bool-cases (is_dirty d.state)) [
    | inl dirt ↦ inr (n, d, e, dirt, ground arith)
    | inr clean ↦ inl (ground arith)
  ]
]

pub give_back-done :
    (id : ℕ) (d : ExistingDb) (p : HashPool)
    → length p.dirty ≤ p.max_pool_size
    → length p.ready < p.max_pool_size
    → give_back id d p
      ≡ done (
        record p {
          dbs = set p.dbs id (record d { state = db_ready });
          dirty = without id p.dirty;
          ready = p.ready ++ id ∷ [];
        },
        ok tt,
      )
unfolding give_back
give_back-done id d p dirty_room ready_room = rw (
  exclude_id_from_channel-without p.max_pool_size id p.dirty dirty_room,
  send_done p.max_pool_size id p.ready ready_room,
)

module _ (p : HashPool) (unlocked : p.locked ≡ false) where
  pub return_test_database-vanished :
      (e : Err) (id : ℤ) → return_test_database (some e) id p ≡ done (p, err e)
  unfolding return_test_database
  return_test_database-vanished e id = ground arith

  pub return_test_database-unknown :
      (id : ℤ) → find_db p id ≡ none → return_test_database none id p ≡ done (p, err invalid_index)
  unfolding return_test_database
  return_test_database-unknown id h = ground arith

  pub return_test_database-not_dirty :
      (id : ℤ) (n : ℕ) (d : ExistingDb)
      → find_db p id ≡ some (n, d)
      → is_dirty d.state ≡ false
      → return_test_database none id p ≡ done (p, ok tt)
  unfolding return_test_database
  return_test_database-not_dirty id n d h s = ground arith

  pub return_test_database-dirty :
      (id : ℤ) (n : ℕ) (d : ExistingDb)
      → find_db p id ≡ some (n, d)
      → is_dirty d.state ≡ true
      → return_test_database none id p ≡ give_back n d p
  unfolding return_test_database
  return_test_database-dirty id n d h s = ground arith

pub find_db-get_elem? :
    (p : HashPool) (id : ℤ) (n : ℕ) (d : ExistingDb)
    → find_db p id ≡ some (n, d)
    → get_elem? p.dbs n ≡ some d
find_db-get_elem? p (pos m) n d h = ground arith
find_db-get_elem? p (negsuc m) n d h = cc
