-- ===== src/Pool/System/Reissue.antt =====
-- What the lost state `recreating` leads to.
use integresql.Prelude.{
  ℕ, ◌+◌, ◌-◌, ◌<◌, ◌≤◌, ◌≢◌, Bool, ◌&&◌, Option, none, if◌then◌else◌, length, ◌≡◌, refl, ◌∙◌, true,
  false, some, [], ◌∷◌, arith, get_elem?, set,
}
use integresql.Prelude.Lists.{get_elem?-set_self, get_elem?-lt, length-append, length-set}
use integresql.Errors.{Result, ok, err, Outcome, done, ◌>>=◌}
use integresql.Database.{TestDatabase}
use integresql.Pool.{HashPool, ExistingDb, open_context, is_ready, is_dirty}
use integresql.Pool.Take.{issue, on_ready, get_test_database, take_locked}
use integresql.Pool.Recreate.{begin_recreate, enter_recreating, leave_recreating, move_to_ready}
use integresql.Pool.Effects.Taking.{
  issue_total, issue-issued, issued, asked, take_locked-ready, flagged,
}
use integresql.Pool.Effects.Moving.{mark-dirty, renewed, move_to_ready-moves}

-- The section that is to mark a dirty database as `recreating` leaves the pool exactly as it was,
-- so a second worker passes it for the same database too, and any number after that.
pub begin_recreate-not_exclusive :
    (p : HashPool) (i : ℕ) (d : ExistingDb)
    → p.locked ≡ false
    → get_elem? p.dbs i ≡ some d
    → is_dirty d.state ≡ true
    → begin_recreate open_context i p ≡ done (p, ok (some d))
unfolding begin_recreate
begin_recreate-not_exclusive p i d u e s = ground (arith, mark-dirty i p u d e s)

-- A worker for a database, up to its try: whether it goes on.
abbrev pub enters : ℕ → HashPool → Outcome (HashPool × Bool)
unfolding begin_recreate enter_recreating
enters i p = do
  begun ← begin_recreate open_context i p
  elim begun.1 [
    | err e ↦ done (begun.0, false)
    | ok none ↦ done (begun.0, false)
    | ok (some d) ↦ do entered ← enter_recreating begun.0; done (entered, true)
  ]

-- The worker from `MoveToReady` on, and then a client.
abbrev pub turn : ℕ → ℕ → HashPool → Outcome (HashPool × Result TestDatabase)
unfolding move_to_ready leave_recreating get_test_database
turn now i p = do
  moved ← move_to_ready open_context i p
  left ← leave_recreating moved.0
  get_test_database on_ready now left

abbrev turns : ℕ → ℕ → ℕ → HashPool → Outcome (Option (Result TestDatabase × Result TestDatabase))
unfolding turn
turns now later i p = do
  taken ← turn now i p
  again ← turn later i taken.0
  done (some (taken.1, again.1))

-- Two workers begin for the same database. If both go on, the first one ends and a client comes,
-- then the second one ends and another client comes; what the two clients are told.
abbrev pub race :
    ℕ → ℕ → ℕ → HashPool → Outcome (Option (Result TestDatabase × Result TestDatabase))
unfolding enters turns
race now later i p = do
  first ← enters i p
  second ← enters i first.0
  if first.1 && second.1 then turns now later i second.0 else done none

issue_exact :
    (now i : ℕ) (d : ExistingDb) (p : HashPool)
    → p.tasks_closed ≡ false
    → length p.dirty < p.max_pool_size
    → length p.tasks_chan < p.max_pool_size
    → issue now i d p ≡ done (issued now i d p, ok d.test_database)
issue_exact now i d p open_tasks dirty_room task_room =
    let (q, h) = issue_total now i d p open_tasks dirty_room task_room in
    let same : q ≡ issued now i d p = issue-issued now i d p q (ok d.test_database) h in
    rw (← same) h

abbrev entered : HashPool → HashPool
entered p = record p { recreating = p.recreating + 1 }

-- What a turn makes of a pool with no ready database.
abbrev turned : ℕ → ℕ → ExistingDb → HashPool → HashPool
turned now i d p =
    issued now i (renewed d)
      (record p { dbs = set p.dbs i (renewed d); ready = []; recreating = p.recreating - 1 })

module _ (i : ℕ) (p : HashPool) (d : ExistingDb) (unlocked : p.locked ≡ false)
    (found : get_elem? p.dbs i ≡ some d) where
  enters_lem :
      is_dirty d.state ≡ true → p.recreating < p.max_pool_size → enters i p ≡ done (entered p, true)
  unfolding enters enter_recreating
  enters_lem dirt free = ground (arith, begin_recreate-not_exclusive p i d unlocked found dirt)

  turn_lem :
      (now : ℕ)
      → is_ready d.state ≡ false
      → d.id ≡ i
      → p.ready ≡ []
      → p.recreating ≢ 0
      → p.tasks_closed ≡ false
      → length p.dirty < p.max_pool_size
      → length p.tasks_chan < p.max_pool_size
      → turn now i p ≡ done (turned now i d p, ok d.test_database)
  unfolding turn leave_recreating get_test_database
  turn_lem now stale number none_ready some_worker open_tasks dirty_room task_room =
      let moved = move_to_ready-moves i p unlocked d found stale (ground (arith, none_ready)) in
      let behind = record p {
        dbs = set p.dbs i (renewed d);
        ready = [];
        recreating = p.recreating - 1;
      } in
      let taken : take_locked now i behind ≡ done (turned now i d p, ok d.test_database) =
        take_locked-ready now i behind unlocked (renewed d)
          (get_elem?-set_self p.dbs i (renewed d) (get_elem?-lt p.dbs i d found)) refl
        ∙ issue_exact now i (renewed d) behind open_tasks dirty_room task_room in
      rw moved (ground (arith, taken))

length-asked : (p : HashPool) → length (asked p) ≤ 1
length-asked p = ground arith

-- When two workers begin for the same dirty database, one behind the other, both pass the section
-- that is to mark it as `recreating`, so both recreate it and come to `MoveToReady`. If a client
-- calls `GetTestDatabase` when the first one is ready, and another client when the second one is,
-- both calls succeed with the very same database, although the first client has not returned it.
-- The pool is open and unlocked with no ready database, the database stands in the place of its
-- id, and the channels have room for all that.
pub reissued :
    (now later i : ℕ) (p : HashPool) (d : ExistingDb)
    → p.locked ≡ false
    → p.tasks_closed ≡ false
    → get_elem? p.dbs i ≡ some d
    → d.id ≡ i
    → is_dirty d.state ≡ true
    → p.ready ≡ []
    → length p.dirty + 1 < p.max_pool_size
    → length p.tasks_chan + 1 < p.max_pool_size
    → p.recreating + 1 < p.max_pool_size
    → race now later i p ≡ done (some (ok d.test_database, ok d.test_database))
unfolding race
reissued now later i p d unlocked open_tasks found number dirt none_ready dirty_room task_room
      free =
    let both = entered (entered p) in
    let behind = record both {
      dbs = set p.dbs i (renewed d);
      ready = [];
      recreating = both.recreating - 1;
    } in
    let stale : is_ready d.state ≡ false = ground arith in
    let first = enters_lem i p d unlocked found dirt (omega arith) in
    let second = enters_lem i (entered p) d unlocked found dirt (omega arith) in
    let taken =
      turn_lem i both d unlocked found now stale number none_ready (ground arith) open_tasks
        (omega arith) (omega arith) in
    let again =
      turn_lem i (turned now i d both) (flagged both now (renewed d)) unlocked
        (get_elem?-set_self (set p.dbs i (renewed d)) i (flagged both now (renewed d))
          (ground (arith, length-set p.dbs i (renewed d), get_elem?-lt p.dbs i d found)))
        later refl number refl (ground arith) open_tasks
        (ground (arith, length-append p.dirty (i ∷ [])))
        (ground (arith, length-append p.tasks_chan (asked behind), length-asked behind)) in
    rw (first, second, taken, again) refl
