-- ===== src/Pool/System/Guarantees.antt =====
-- What clients and workers may rely on in every reachable state of a running pool.
use integresql.Prelude.{
  ℕ, ◌≤◌, ◌<◌, ◌≡◌, refl, ◌∙◌, subst, inl, inr, true, false, Option, none, some, List, [], ◌∷◌,
  ◌++◌, ℤ, arith, length, get_elem?, set, if◌then◌else◌, Bool-cases,
}
use integresql.Prelude.Counting.{length-le_of_count, without}
use integresql.Prelude.Lists.{get_elem?-of_lt, get_elem?-none_le}
use integresql.Errors.{Err, Result, ok, err, done, invalid_index}
use integresql.Database.{Database, TestDatabase}
use integresql.Pool.{HashPool, ExistingDb, PoolConfig, open_context, db_ready, is_ready, is_dirty}
use integresql.Pool.Take.{issue, take_locked}
use integresql.Pool.Give.{find_db, return_test_database}
use integresql.Pool.Recreate.{move_to_ready}
use integresql.Pool.Extend.{new_test_db}
use integresql.Pool.Effects.Taking.{take_locked-ready, issue_total}
use integresql.Pool.Effects.Moving.{
  renewed, move_to_ready-already, give_back-done, return_test_database-vanished,
  return_test_database-unknown, return_test_database-not_dirty, return_test_database-dirty,
  find_db-get_elem?,
}
use integresql.Pool.Invariant.{Inv, weight, tokens, tokens-le_one}
use integresql.Pool.Invariant.Sections.{pending-ready, move_to_ready-done, ready-room}
use integresql.Pool.System.{System, Reach, NoRequests, finishing}
use integresql.Pool.System.Safety.{InRange, Reach-SystemInv}

-- From the facts that the invariant gives, over variables.
taken :
    (now i : ℕ) (p q : HashPool) (d : ExistingDb) (t : TestDatabase)
    → p.locked ≡ false
    → get_elem? p.dbs i ≡ some d
    → is_ready d.state ≡ true
    → d.test_database ≡ t
    → issue now i d p ≡ done (q, ok d.test_database)
    → take_locked now i p ≡ done (q, ok t)
taken now i p q d t u e s same h = cc (take_locked-ready now i p u d e s, same, h)

-- What `ReturnTestDatabase` is to make of a pool.
abbrev pub returned : Option Err → Option (ℕ × ExistingDb) → HashPool → HashPool × Result (Unit {0})
returned (some e) found p = (p, err e)
returned none none p = (p, err invalid_index)
returned none (some (n, d)) p =
    if is_dirty d.state
    then (
      record p {
        dbs = set p.dbs n (record d { state = db_ready });
        dirty = without n p.dirty;
        ready = p.ready ++ n ∷ [];
      },
      ok tt,
    )
    else (p, ok tt)

pub returned_lem :
    (p : HashPool) (pending : List ℕ) (ctx_err : Option Err) (id : ℤ)
    (found : Option (ℕ × ExistingDb))
    → Inv p pending
    → find_db p id ≡ found
    → return_test_database ctx_err id p ≡ done (returned ctx_err found p)
returned_lem p pending (some e) id found v h = return_test_database-vanished p v.unlocked e id
returned_lem p pending none id none v h = return_test_database-unknown p v.unlocked id h
returned_lem p pending none id (some (n, d)) v h = elim (Bool-cases (is_dirty d.state)) [
  | inl dirt ↦ rw dirt (
      return_test_database-dirty p v.unlocked id n d h dirt
      ∙ give_back-done n d p v.dirty_room
          (ready-room pending n d v (find_db-get_elem? p id n d h) (ground arith)))
  | inr other ↦ rw other (return_test_database-not_dirty p v.unlocked id n d h other)
]

-- What the last section of a recreation is to make of a pool.
abbrev pub finished : ℕ → ExistingDb → HashPool → HashPool
finished i d p =
    if is_ready d.state
    then p
    else record p { dbs = set p.dbs i (renewed d); ready = p.ready ++ i ∷ [] }

finished_lem :
    (p : HashPool) (pending : List ℕ) (i : ℕ) (d : ExistingDb)
    → Inv p pending
    → get_elem? p.dbs i ≡ some d
    → move_to_ready open_context i p ≡ done (finished i d p, ok tt)
finished_lem p pending i d v e = elim (Bool-cases (is_ready d.state)) [
  | inl s ↦ rw s (move_to_ready-already i p v.unlocked d e s)
  | inr s ↦ rw s (move_to_ready-done pending i d v e s)
]

abbrev pub holders : Option ExistingDb → ℕ
holders none = 0
holders (some d) = weight d.state

holders_lem :
    (p : HashPool) (pending : List ℕ) (i : ℕ) (found : Option ExistingDb)
    → Inv p pending
    → get_elem? p.dbs i ≡ found
    → tokens p pending i ≡ holders found
holders_lem p pending i none v e = (v.beyond i (get_elem?-none_le p.dbs i e)).0
holders_lem p pending i (some d) v e = (v.stored i d e).2

ready-le : (p : HashPool) (pending : List ℕ) → Inv p pending → length p.ready ≤ p.max_pool_size
ready-le p pending v = omega (
  arith,
  v.room,
  length-le_of_count (length p.dbs) p.ready (λ i. omega (arith, tokens-le_one v i))
      (λ i le. omega (arith, v.beyond i le)),
)

module _ {cfg : PoolConfig} {template : Database} {s : System}
    (reached : Reach cfg template s) where
  -- In any interleaving, an id that a client has received from the channel `ready` passes both
  -- sanity checks of `GetTestDatabase`: with room in the channels `dirty` and `tasksChan` the call
  -- returns, without an error, the database with that id and the name made from the template hash
  -- and the id.
  pub take_succeeds :
      (now : ℕ) (xs : List ℕ) (i : ℕ) (ys : List ℕ)
      → s.pending ≡ xs ++ i ∷ ys
      → length s.pool.dirty < s.pool.max_pool_size
      → length s.pool.tasks_chan < s.pool.max_pool_size
      → (q : HashPool) × (take_locked now i s.pool
          ≡ done (q, ok (new_test_db s.pool i).test_database))
  take_succeeds now xs i ys e dirty_room task_room =
      let v = (Reach-SystemInv reached).pool_inv in
      let (d, found, ready_now) = pending-ready xs i ys (subst (Inv s.pool) e v) in
      let (q, issued) = issue_total now i d s.pool v.tasks_open dirty_room task_room in
      (q, taken now i s.pool q d _ v.unlocked found ready_now (v.stored i d found).0 issued)

  -- A worker at `MoveToReady` never blocks on the channel `ready` while it holds the lock, and
  -- never indexes out of range: the section returns without an error. A database that was not
  -- ready is ready afterwards, one generation on, and its id is the last of the ready ids; a
  -- database that was ready is left alone.
  pub move_to_ready_succeeds :
      (i j : ℕ)
      → s.workers j ≡ finishing i
      → (d : ExistingDb) × (get_elem? s.pool.dbs i ≡ some d)
        × (move_to_ready open_context i s.pool ≡ done (finished i d s.pool, ok tt))
  move_to_ready_succeeds i j w =
      let v = Reach-SystemInv reached in
      let (d, e) = get_elem?-of_lt s.pool.dbs i (subst (InRange _) w (v.in_range j)) in
      (d, e, finished_lem s.pool s.pending i d v.pool_inv e)

  -- In any interleaving in which nobody has called `RecreateTestDatabase` (which filters the
  -- channel `dirty` without the lock, while here it is one step), `ReturnTestDatabase` never blocks
  -- on a channel, whatever id a client sends. A vanished client and an id out of range are errors that change nothing; a database
  -- that is not dirty is left alone; a dirty one becomes ready, its id leaves the channel `dirty`
  -- and becomes the last of the ready ids.
  pub return_succeeds :
      (ctx_err : Option Err) (id : ℤ)
      → NoRequests reached
      → return_test_database ctx_err id s.pool ≡ done (returned ctx_err (find_db s.pool id) s.pool)
  return_succeeds ctx_err id quiet =
      returned_lem s.pool s.pending ctx_err id _ (Reach-SystemInv reached).pool_inv refl

  -- An id stands among the ready ids and the ids on the way to a client exactly once if it is
  -- that of a ready database, and not at all otherwise; so neither the pool nor the channel
  -- `ready` ever holds more than the maximal number of databases.
  pub ready_ids :
      (i : ℕ)
      → (tokens s.pool s.pending i ≡ holders (get_elem? s.pool.dbs i))
        × (length s.pool.dbs ≤ s.pool.max_pool_size)
        × (length s.pool.ready ≤ s.pool.max_pool_size)
  ready_ids i =
      let v = (Reach-SystemInv reached).pool_inv in
      (holders_lem s.pool s.pending i _ v refl, v.room, ready-le s.pool s.pending v)
