-- ===== src/Examples/Crews.antt =====
-- Runs of the goroutines of one pool.
use integresql.Prelude.{◌+◌, ◌≤◌, ◌≡◌, ◌⊎◌, refl, true, [], ◌∷◌, length, arith}
use integresql.Pool.{WorkerTask, task_stop, task_extend}
use integresql.Pool.Workers.{
  Crew, CrewReach, hired, moved, send, open_loop, pass, halt, receive, spawn, Move, start_crew,
}
use integresql.Pool.Workers.Counts.{control_alive, loop_alive, handling_limited}
use integresql.Pool.Workers.Stopping.{effort, still, more, stop_returns}

record CrewRun : Type 0 where
  last : Crew
  open last use *
  reach : CrewReach 1 (task_extend ∷ task_extend ∷ []) last

-- Two tasks are passed on, one is being handled, and somebody calls `Stop`.
abbrev busy : CrewRun
unfolding start_crew
busy = record {
  last = _;
  reach =
      send
        (moved
          (moved
            (moved
              (moved (moved hired (open_loop refl))
                (pass task_extend _ refl refl refl (omega arith)))
              (pass task_extend _ refl refl refl (omega arith)))
            (receive task_extend _ refl refl))
          (spawn task_extend refl (omega arith)))
        task_stop;
}

handling_limited_example :
    (length busy.handling ≤ 1)
    × (length busy.passed ≤ busy.room)
    × (busy.wg ≡ control_alive busy.control + loop_alive busy.loop + length busy.handling)
handling_limited_example = handling_limited busy.reach

abbrev halted : Crew
unfolding busy start_crew
halted = record busy.last {
  tasks_chan = [];
  closed = true;
  cancelled = true;
  control = integresql.Pool.Workers.finished;
  wg = 2;
}

stop_returns_example : (1 ≤ effort busy.last) × ((halted.wg ≡ 0) ⊎ ((u : Crew) × Move halted u))
unfolding halted busy start_crew
stop_returns_example = stop_returns busy.reach refl (more still (halt task_stop [] refl refl refl))
