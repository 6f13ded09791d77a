-- ===== src/Pool/Workers/Counts.antt =====
-- The counters of the goroutines: the semaphore and the wait group.
use integresql.Prelude.{ℕ, suc, ◌+◌, ◌≤◌, ◌≡◌, refl, ◌∙◌, true, List, [], ◌∷◌, ◌++◌, arith, length}
use integresql.Prelude.Lists.{length-append}
use integresql.Pool.{WorkerTask}
use integresql.Pool.Workers.{
  Control, beginning, listening, finished, Loop, unborn, returned, Crew, start_crew, Move,
  open_loop, pass, hand_over, drop, halt, receive, range_over, give_up, spawn, handled, release,
  CrewReach, hired, moved, send, sent,
}

-- Whether a goroutine is alive, as a count.
abbrev pub control_alive : Control → ℕ
control_alive finished = 0
control_alive _ = 1

abbrev pub loop_alive : Loop → ℕ
loop_alive unborn = 0
loop_alive returned = 0
loop_alive _ = 1

-- What `controlLoop` has not done yet at its beginning, and has done at its end.
abbrev pub Phase : Crew → Control → Type 0
Phase s beginning = (s.loop ≡ unborn) × (s.passed ≡ [])
Phase s listening = Unit {0}
Phase s finished = (s.closed ≡ true) × (s.cancelled ≡ true)

pub record CrewInv (s : Crew) : Type 0 where
  pub counted : s.wg ≡ control_alive s.control + loop_alive s.loop + length s.handling
  pub held : s.semaphore ≡ length s.handling + s.draining
  pub limited : s.semaphore ≤ s.max_parallel_tasks
  pub fits : length s.passed ≤ s.room
  pub phase : Phase s s.control

pub length-middle :
    (xs : List WorkerTask) (t : WorkerTask) (ys : List WorkerTask)
    → length (xs ++ t ∷ ys) ≡ suc (length (xs ++ ys))
length-middle xs t ys = omega (arith, length-append xs (t ∷ ys), length-append xs ys)

pub Phase-of : {s : Crew} (c : Control) → s.control ≡ c → CrewInv s → Phase s c
Phase-of c e v = rw e at v.phase

Phase-sent : (s : Crew) (t : WorkerTask) (c : Control) → Phase s c → Phase (sent t s) c
Phase-sent s t beginning h = h
Phase-sent s t listening h = h
Phase-sent s t finished h = h

-- A step of a loop that is alive.
Phase-later :
    (s t : Crew) (c : Control)
    → Phase s c
    → loop_alive s.loop ≡ 1
    → t.closed ≡ s.closed
    → t.cancelled ≡ s.cancelled
    → Phase t c
Phase-later s t beginning h l x y = absurd (ground arith)
Phase-later s t listening h l x y = tt
Phase-later s t finished h l x y = ground arith

pub Move-CrewInv : {s t : Crew} → Move s t → CrewInv s → CrewInv t
Move-CrewInv (open_loop c) v = ground (arith, Phase-of beginning c v)
Move-CrewInv {s} (pass t rest c e n room) v = ground (arith, length-append s.passed (t ∷ []))
Move-CrewInv (hand_over t rest c e n l p) v = ground arith
Move-CrewInv (drop t rest c e n full) v = ground arith
Move-CrewInv (halt t rest c e y) v = ground arith
Move-CrewInv {s} {t} (receive x rest l e) v = record {
  counted = ground arith;
  held = v.held;
  limited = v.limited;
  fits = ground arith;
  phase = Phase-later s t s.control v.phase (ground arith) refl refl;
}
Move-CrewInv {s} {t} (range_over l e c) v = record {
  counted = ground arith;
  held = v.held;
  limited = v.limited;
  fits = v.fits;
  phase = Phase-later s t s.control v.phase (ground arith) refl refl;
}
Move-CrewInv {s} {t} (give_up x l c) v = record {
  counted = ground arith;
  held = v.held;
  limited = v.limited;
  fits = v.fits;
  phase = Phase-later s t s.control v.phase (ground arith) refl refl;
}
Move-CrewInv {s} {t} (spawn x l room) v = record {
  counted = ground arith;
  held = ground arith;
  limited = ground arith;
  fits = v.fits;
  phase = Phase-later s t s.control v.phase (ground arith) refl refl;
}
Move-CrewInv {s} (handled xs t ys e) v = ground (arith, length-middle xs t ys)
Move-CrewInv (release n e) v = ground arith

pub CrewReach-CrewInv :
    {k : ℕ} {tasks : List WorkerTask} {s : Crew} → CrewReach k tasks s → CrewInv s
unfolding start_crew
CrewReach-CrewInv hired = ground arith
CrewReach-CrewInv (moved r m) = Move-CrewInv m (CrewReach-CrewInv r)
CrewReach-CrewInv (send {s} r t) =
    let v = CrewReach-CrewInv r in
    record {
      counted = v.counted;
      held = v.held;
      limited = v.limited;
      fits = v.fits;
      phase = Phase-sent s t s.control v.phase;
    }

max_parallel_kept : {s t : Crew} → Move s t → t.max_parallel_tasks ≡ s.max_parallel_tasks
max_parallel_kept (open_loop c) = refl
max_parallel_kept (pass t rest c e n room) = refl
max_parallel_kept (hand_over t rest c e n l p) = refl
max_parallel_kept (drop t rest c e n full) = refl
max_parallel_kept (halt t rest c e y) = refl
max_parallel_kept (receive t rest l e) = refl
max_parallel_kept (range_over l e c) = refl
max_parallel_kept (give_up t l c) = refl
max_parallel_kept (spawn t l room) = refl
max_parallel_kept (handled xs t ys e) = refl
max_parallel_kept (release n e) = refl

max_parallel :
    {k : ℕ} {tasks : List WorkerTask} {s : Crew} → CrewReach k tasks s → s.max_parallel_tasks ≡ k
unfolding start_crew
max_parallel hired = refl
max_parallel (moved r m) = max_parallel_kept m ∙ max_parallel r
max_parallel (send r t) = max_parallel r

-- At any time at most `MaxParallelTasks` tasks are being handled, the channel to the loop holds at
-- most what it has room for, and the wait group counts the two loops that run and the
-- tasks that are being handled, so that nothing of it runs when it is at zero.
pub handling_limited :
    {k : ℕ} {tasks : List WorkerTask} {s : Crew}
    → CrewReach k tasks s
    → (length s.handling ≤ k)
      × (length s.passed ≤ s.room)
      × (s.wg ≡ control_alive s.control + loop_alive s.loop + length s.handling)
handling_limited r =
    let v = CrewReach-CrewInv r in
    (omega (arith, v.held, v.limited, max_parallel r), v.fits, v.counted)
