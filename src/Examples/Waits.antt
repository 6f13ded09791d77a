-- ===== src/Examples/Waits.antt =====
-- Calls that wait for a template.
use integresql.Prelude.{◌≡◌, refl, [], ◌∷◌}
use integresql.Templates.{template_init, template_finalized}
use integresql.Templates.Waiting.{
  Waiting, checked, sleeping, woken, returned, starting, look, sleep, read, expire_sleeping,
  set_now, own, sets, Quiet, still, more, Run, begun, turned,
}
use integresql.Templates.Waiting.Wakeups.{Deaf, At, lost_wakeup}
use integresql.Templates.Waiting.Reports.{Seen, Run-returned}

-- One call has looked, and another one is among those to be woken.
abbrev before : Waiting
before = record {
  state = template_init;
  waiters = checked template_init ∷ sleeping template_init ∷ [];
}

-- The template is finalized; the first call goes to sleep and times out, the second one is told.
abbrev after : Waiting
after = record {
  state = template_finalized;
  waiters = returned template_init ∷ returned template_finalized ∷ [];
}

missed : Quiet (set_now template_finalized before) after
missed =
    more 1 (woken template_init) (returned template_finalized)
      (more 0 (sleeping template_init) (returned template_init)
        (more 0 (checked template_init) (sleeping template_init) still refl (sleep template_init))
        refl (expire_sleeping template_init))
      refl (read template_init)

lost_wakeup_example : (after.state ≡ template_finalized) × At (Deaf template_init) after.waiters 0
lost_wakeup_example = lost_wakeup before after 0 template_init template_finalized refl missed

-- A run in which a call hears of the state.
abbrev heard_run :
    Run 1
      (record { state = template_finalized; waiters = returned template_finalized ∷ [] })
      (template_finalized ∷ template_finalized ∷ template_init ∷ template_init ∷ template_init ∷ [])
heard_run =
    turned
      (turned
        (turned (turned (begun template_init) (own 0 starting (checked template_init) refl look))
          (own 0 (checked template_init) (sleeping template_init) refl (sleep template_init)))
        (sets template_finalized))
      (own 0 (woken template_init) (returned template_finalized) refl (read template_init))

Run-returned_example :
    Seen template_finalized
      (template_finalized ∷ template_finalized ∷ template_init ∷ template_init ∷ template_init ∷ [])
Run-returned_example = Run-returned heard_run 0 template_finalized refl
