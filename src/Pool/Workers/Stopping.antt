-- ===== src/Pool/Workers/Stopping.antt =====
-- `Stop` waits for the wait group: every run of the goroutines behind the stop task ends.
use integresql.Prelude.{
  ℕ, zero, suc, ◌+◌, ◌*◌, ◌≤◌, ◌≡◌, ◌⊎◌, inl, inr, refl, Bool, true, false, ◌||◌, List, [], ◌∷◌,
  arith, length, Bool-cases, ltb, ltb→lt, ltb→le,
}
use integresql.Prelude.Lists.{length-append, List-cases}
use integresql.Pool.{WorkerTask}
use integresql.Pool.Workers.{
  is_stop, Control, beginning, listening, finished, Loop, unborn, receiving, holding, returned,
  Crew, Move, open_loop, pass, hand_over, drop, halt, receive, range_over, give_up, spawn, handled,
  release, CrewReach,
}
use integresql.Pool.Workers.Counts.{
  loop_alive, CrewInv, CrewReach-CrewInv, Move-CrewInv, Phase-of, length-middle,
}

abbrev has_stop : List WorkerTask → Bool
has_stop [] = false
has_stop (t ∷ ts) = is_stop t || has_stop ts

-- Whether the stop task is in the channel, or has been received.
abbrev pub stop_seen : Control → List WorkerTask → Bool
stop_seen finished tasks = true
stop_seen _ tasks = has_stop tasks

-- A bound on the number of steps that are left while nobody sends a task.
abbrev control_effort : Control → ℕ
control_effort beginning = 2
control_effort listening = 1
control_effort finished = 0

abbrev loop_effort : Loop → ℕ
loop_effort unborn = 1
loop_effort receiving = 1
loop_effort (holding t) = 4
loop_effort returned = 0

abbrev pub effort : Crew → ℕ
effort s =
    5 * length s.tasks_chan
    + 4 * length s.passed
    + 2 * length s.handling
    + s.draining
    + control_effort s.control
    + loop_effort s.loop

-- A run of the goroutines by themselves, with the number of its steps.
pub data Moves (s : Crew) : ℕ → Crew → Type 0 where
  still : Moves s zero s
  more : {n : ℕ} {t u : Crew} → Moves s n t → Move t u → Moves s (suc n) u

-- Every step has its price.
Move-effort : {s t : Crew} → Move s t → CrewInv s → suc (effort t) ≤ effort s
Move-effort (open_loop c) v = ground (arith, Phase-of beginning c v)
Move-effort {s} (pass t rest c e n room) v = ground (arith, length-append s.passed (t ∷ []))
Move-effort (hand_over t rest c e n l p) v = ground arith
Move-effort (drop t rest c e n full) v = ground arith
Move-effort (halt t rest c e y) v = ground arith
Move-effort (receive t rest l e) v = ground arith
Move-effort (range_over l e c) v = ground arith
Move-effort (give_up t l c) v = ground arith
Move-effort (spawn t l room) v = ground arith
Move-effort (handled xs t ys e) v = ground (arith, length-middle xs t ys)
Move-effort (release n e) v = ground arith

Move-stop_seen :
    {s t : Crew}
    → Move s t
    → stop_seen s.control s.tasks_chan ≡ true
    → stop_seen t.control t.tasks_chan ≡ true
Move-stop_seen (open_loop c) h = ground arith
Move-stop_seen (pass t rest c e n room) h = ground arith
Move-stop_seen (hand_over t rest c e n l p) h = ground arith
Move-stop_seen (drop t rest c e n full) h = ground arith
Move-stop_seen (halt t rest c e y) h = refl
Move-stop_seen (receive t rest l e) h = h
Move-stop_seen (range_over l e c) h = h
Move-stop_seen (give_up t l c) h = h
Move-stop_seen (spawn t l room) h = h
Move-stop_seen (handled xs t ys e) h = h
Move-stop_seen (release n e) h = h

abbrev Idle-or_moves : Crew → Type 0
Idle-or_moves s = (s.wg ≡ 0) ⊎ ((t : Crew) × Move s t)

module _ (s : Crew) (v : CrewInv s) where
  -- The control loop is never stuck on a task.
  task-Move :
      (t : WorkerTask) (rest : List WorkerTask)
      → s.control ≡ listening
      → s.tasks_chan ≡ t ∷ rest
      → (u : Crew) × Move s u
  task-Move t rest c e = elim (Bool-cases (is_stop t)) [
    | inl y ↦ (_, halt t rest c e y)
    | inr n ↦ elim (Bool-cases (ltb (length s.passed) s.room)) [
      | inl free ↦ (_, pass t rest c e n (ltb→lt _ _ free))
      | inr full ↦ (_, drop t rest c e n (ltb→le _ _ full))
    ]
  ]

  handler-Move : s.control ≡ finished → loop_alive s.loop ≡ 0 → Idle-or_moves s
  handler-Move c l = elim (List-cases s.handling) [
    | inl e ↦ inl (ground (arith, v.counted))
    | inr (t, rest, e) ↦ inr (_, handled [] t rest e)
  ]

  loop-Move : (l : Loop) → s.control ≡ finished → s.loop ≡ l → Idle-or_moves s
  loop-Move unborn c e = handler-Move c (ground arith)
  loop-Move returned c e = handler-Move c (ground arith)
  loop-Move (holding t) c e = inr (_, give_up t e (Phase-of finished c v).1)
  loop-Move receiving c e = elim (List-cases s.passed) [
    | inl p ↦ inr (_, range_over e p (Phase-of finished c v).0)
    | inr (t, rest, p) ↦ inr (_, receive t rest e p)
  ]

  progress : (c : Control) → s.control ≡ c → stop_seen c s.tasks_chan ≡ true → Idle-or_moves s
  progress beginning e h = inr (_, open_loop e)
  progress finished e h = loop-Move s.loop e refl
  progress listening e h = elim (List-cases s.tasks_chan) [
    | inl none_left ↦ absurd (ground arith)
    | inr (t, rest, f) ↦ inr (task-Move t rest e f)
  ]

record Run (s t : Crew) (n : ℕ) : Type 0 where
  inv : CrewInv t
  seen : stop_seen t.control t.tasks_chan ≡ true
  spent : n + effort t ≤ effort s

Moves-Run :
    {s t : Crew} {n : ℕ}
    → CrewInv s
    → stop_seen s.control s.tasks_chan ≡ true
    → Moves s n t
    → Run s t n
Moves-Run v h still = record { inv = v; seen = h; spent = omega arith }
Moves-Run v h (more r m) =
    let run = Moves-Run v h r in
    record {
      inv = Move-CrewInv m run.inv;
      seen = Move-stop_seen m run.seen;
      spent = omega (arith, run.spent, Move-effort m run.inv);
    }

-- `Stop` returns once the stop task is sent, if every handler does and nobody sends more: whatever
-- the loops and handlers do, a run of them has at most `effort` steps, and as long as the wait
-- group is not at zero another step is possible.
pub stop_returns :
    {k : ℕ} {tasks : List WorkerTask} {s t : Crew} {n : ℕ}
    → CrewReach k tasks s
    → stop_seen s.control s.tasks_chan ≡ true
    → Moves s n t
    → (n ≤ effort s) × ((t.wg ≡ 0) ⊎ ((u : Crew) × Move t u))
stop_returns {t = t} r h run =
    let end = Moves-Run (CrewReach-CrewInv r) h run in
    (omega (arith, end.spent), progress t end.inv t.control refl end.seen)
