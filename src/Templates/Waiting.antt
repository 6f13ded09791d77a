-- ===== src/Templates/Waiting.antt =====
-- One template with the callers that wait for it, of pkg/templates/template.go: `SetState` and the
-- goroutine of `WaitUntilFinalized`, interleaved at the lock and at the condition variable.
pub mod Wakeups
pub mod Reports
use integresql.Prelude.{ℕ, ◌≡◌, Option, none, some, List, [], ◌∷◌, map, get_elem?, set, replicate}
use integresql.Templates.{TemplateState, template_init, template_discarded, template_finalized}

-- A call of `WaitUntilFinalized`, by where it stands: at `GetState`, behind it with the state that it
-- has read, in `cond.Wait` among those to be woken, woken but without the lock, or returned.
pub data Waiter : Type 0 where
  starting : Waiter
  checked : TemplateState → Waiter
  sleeping : TemplateState → Waiter
  woken : TemplateState → Waiter
  returned : TemplateState → Waiter

pub record Waiting : Type 0 where
  pub state : TemplateState
  pub waiters : List Waiter

abbrev pub looked : TemplateState → Waiter
looked template_init = checked template_init
looked template_discarded = checked template_discarded
looked template_finalized = returned template_finalized

-- What a call does by itself while the template is in a state.
pub data Own (state : TemplateState) : Waiter → Waiter → Type 0 where
  look : Own state starting (looked state)
  -- `t.cond.L.Lock()` and `t.cond.Wait()`, which gives the lock back
  sleep : (current : TemplateState) → Own state (checked current) (sleeping current)
  -- `return t.state, nil`, in time
  read : (current : TemplateState) → Own state (woken current) (returned state)
  -- `ErrTimeout`, before the goroutine has the lock, while it waits, or when it has been woken
  expire_checked : (current : TemplateState) → Own state (checked current) (returned current)
  expire_sleeping : (current : TemplateState) → Own state (sleeping current) (returned current)
  expire_woken : (current : TemplateState) → Own state (woken current) (returned current)

-- `t.cond.Broadcast()`
abbrev pub wake : Waiter → Waiter
wake (sleeping current) = woken current
wake starting = starting
wake (checked current) = checked current
wake (woken current) = woken current
wake (returned s) = returned s

-- `SetState` where it does not return early.
abbrev pub set_now : TemplateState → Waiting → Waiting
set_now new s = record { state = new; waiters = map wake s.waiters }

pub data Turn (s : Waiting) : Waiting → Type 0 where
  own :
      (i : ℕ) (w v : Waiter)
      → get_elem? s.waiters i ≡ some w
      → Own s.state w v
      → Turn s (record s { waiters = set s.waiters i v })
  sets : (new : TemplateState) → Turn s (set_now new s)

-- Turns of the waiting calls alone.
pub data Quiet (s : Waiting) : Waiting → Type 0 where
  still : Quiet s s
  more :
      {t : Waiting} (i : ℕ) (w v : Waiter)
      → Quiet s t
      → get_elem? t.waiters i ≡ some w
      → Own t.state w v
      → Quiet s (record t { waiters = set t.waiters i v })

-- Runs from the first call on, with the states that the template has had, the last one first.
pub data Run (calls : ℕ) : Waiting → List TemplateState → Type 0 where
  begun :
      (state : TemplateState)
      → Run calls (record { state = state; waiters = replicate calls starting }) (state ∷ [])
  turned :
      {s t : Waiting} {seen : List TemplateState}
      → Run calls s seen
      → Turn s t
      → Run calls t (t.state ∷ seen)
