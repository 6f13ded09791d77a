-- ===== src/Pool/Effects/Taking.antt =====
-- `take_locked`: the second half of `GetTestDatabase`.
use integresql.Prelude.{
  ℕ, ◌+◌, ◌≡◌, ◌<◌, true, false, none, some, [], ◌∷◌, ◌++◌, arith, length, get_elem?, set,
}
use integresql.Errors.{Result, ok, err, done, invalid_index, invalid_state}
use integresql.Database.{TestDatabase}
use integresql.Prelude.{refl, ◌≤◌, Bool, ltb, if◌then◌else◌}
use integresql.Prelude.{List}
use mathlib.Core.List.{append-nil}
use integresql.Prelude.Lists.{length-append, length-set}
use integresql.Errors.{Outcome}
use integresql.Pool.{
  WorkerTask, task_extend, task_auto_clean_dirty, HashPool, ExistingDb, db_dirty, is_ready,
}
use integresql.Pool.Take.{push_extend, push_auto_clean}
use integresql.Pool.Channel.{send, send_done, send_task}
use integresql.Pool.Take.{issue, take_locked}
use integresql.Pool.Effects.{Effect}

-- The database as it is issued at a time.
abbrev pub flagged : HashPool → ℕ → ExistingDb → ExistingDb
flagged p now d = record d {
  state = db_dirty;
  block_auto_clean_dirty_until = now + p.test_database_minimal_lifetime;
}

pub issue-Effect :
    (now index : ℕ) (d : ExistingDb) (p q : HashPool) (r : Result TestDatabase)
    → issue now index d p ≡ done (q, r)
    → Effect p q (set p.dbs index (flagged p now d)) p.ready (p.dirty ++ index ∷ [])
      × (r ≡ ok d.test_database)
      × (length p.dirty < p.max_pool_size)
unfolding issue send_task
issue-Effect now index d p q r h = ground arith

-- The task that a `GetTestDatabase` sends, if it sends one.
abbrev pub asked : HashPool → List WorkerTask
asked p =
    if ltb (length p.dbs) p.max_pool_size
    then task_extend ∷ []
    else if ltb (length p.ready + p.recreating) p.initial_pool_size
    then task_auto_clean_dirty ∷ []
    else []

-- The pool behind a database that is issued.
abbrev pub issued : ℕ → ℕ → ExistingDb → HashPool → HashPool
issued now index d p = record p {
  dbs = set p.dbs index (flagged p now d);
  dirty = p.dirty ++ index ∷ [];
  tasks_chan = p.tasks_chan ++ asked p;
}

pub issue-issued :
    (now index : ℕ) (d : ExistingDb) (p q : HashPool) (r : Result TestDatabase)
    → issue now index d p ≡ done (q, r)
    → q ≡ issued now index d p
unfolding issue push_extend push_auto_clean send_task send
issue-issued now index d p q r h =
    ground (arith, length-set p.dbs index (flagged p now d), append-nil p.tasks_chan)

module _ (now index : ℕ) (p : HashPool) (unlocked : p.locked ≡ false) where
  pub take_locked-out_of_range :
      get_elem? p.dbs index ≡ none → take_locked now index p ≡ done (p, err invalid_index)
  unfolding take_locked
  take_locked-out_of_range e = ground arith

  pub take_locked-stale :
      (d : ExistingDb)
      → get_elem? p.dbs index ≡ some d
      → is_ready d.state ≡ false
      → take_locked now index p ≡ done (p, err invalid_state)
  unfolding take_locked
  take_locked-stale d e h = ground arith

  pub take_locked-ready :
      (d : ExistingDb)
      → get_elem? p.dbs index ≡ some d
      → is_ready d.state ≡ true
      → take_locked now index p ≡ issue now index d p
  unfolding take_locked
  take_locked-ready d e h = ground arith

-- Sends that find room.
module _ (p : HashPool) (open_tasks : p.tasks_closed ≡ false) where
  send_task_total :
      (t : WorkerTask)
      → length p.tasks_chan ≤ p.max_pool_size
      → send_task p t ≡ done (record p { tasks_chan = p.tasks_chan ++ t ∷ [] })
  unfolding send_task
  send_task_total t room = ground arith

  abbrev Sent : Outcome HashPool → Type 0
  Sent o =
      (q : HashPool) × (o ≡ done q)
      × (q.tasks_closed ≡ false)
      × (length q.tasks_chan ≤ length p.tasks_chan + 1)
      × (q.max_pool_size ≡ p.max_pool_size)

  Sent-task : (t : WorkerTask) → length p.tasks_chan ≤ p.max_pool_size → Sent (send_task p t)
  Sent-task t room = (
    record p { tasks_chan = p.tasks_chan ++ t ∷ [] },
    send_task_total t room,
    open_tasks,
    omega (arith, length-append p.tasks_chan (t ∷ [])),
    refl,
  )

  Sent-if :
      (b : Bool) (t : WorkerTask)
      → length p.tasks_chan ≤ p.max_pool_size
      → Sent (if b then send_task p t else done p)
  Sent-if true t room = Sent-task t room
  Sent-if false t room = (p, refl, open_tasks, omega arith, refl)

  push_extend_total : length p.tasks_chan ≤ p.max_pool_size → Sent (push_extend p)
  unfolding push_extend
  push_extend_total = Sent-if (ltb (length p.dbs) p.max_pool_size) task_extend

  push_auto_clean_total : length p.tasks_chan ≤ p.max_pool_size → Sent (push_auto_clean p)
  unfolding push_auto_clean
  push_auto_clean_total = Sent-if _ task_auto_clean_dirty

-- With room in the channels `dirty` and `tasksChan`, `issue` returns.
pub issue_total :
    (now index : ℕ) (d : ExistingDb) (p : HashPool)
    → p.tasks_closed ≡ false
    → length p.dirty < p.max_pool_size
    → length p.tasks_chan < p.max_pool_size
    → (q : HashPool) × (issue now index d p ≡ done (q, ok d.test_database))
unfolding issue
issue_total now index d p open_tasks dirty_room task_room =
    let extending = record p {
      dbs = set p.dbs index (flagged p now d);
      dirty = p.dirty ++ index ∷ [];
    } in
    let (m, extended, m_open, m_room, m_max) =
      push_extend_total extending open_tasks (omega arith) in
    let (q, cleaned, _, _, _) = push_auto_clean_total m m_open (omega arith) in
    (q, rw (send_done p.max_pool_size index p.dirty dirty_room, extended, cleaned))
