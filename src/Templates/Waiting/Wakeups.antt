-- ===== src/Templates/Waiting/Wakeups.antt =====
-- Which calls of `WaitUntilFinalized` hear of a change of the state.
use integresql.Prelude.{
  ℕ, zero, suc, ◌≡◌, refl, sym, ◌∙◌, subst, ◌⊎◌, inl, inr, some, List, [], ◌∷◌, map, arith,
  get_elem?, set, ◌==◌, Bool-cases, ==_iff,
}
use integresql.Prelude.Lists.{get_elem?-set_self, get_elem?-set_ne, get_elem?-lt}
use integresql.Templates.{TemplateState}
use integresql.Templates.Waiting.{
  Waiter, starting, checked, sleeping, woken, returned, Waiting, Own, look, sleep, read,
  expire_checked, expire_sleeping, expire_woken, wake, set_now, Quiet, still, more,
}

-- A call at a number, of which something holds.
pub record At (P : Waiter → Type 0) (ws : List Waiter) (i : ℕ) : Type 0 where
  pub waiter : Waiter
  pub found : get_elem? ws i ≡ some waiter
  pub holds : P waiter

some_injective : {w v : Waiter} → some w ≡ some v → w ≡ v
some_injective e = cc

At-set :
    (P : Waiter → Type 0) (ws : List Waiter) (i j : ℕ) (w v : Waiter)
    → get_elem? ws j ≡ some w
    → (P w → P v)
    → At P ws i
    → At P (set ws j v) i
At-set P ws i j w v there keeps a = elim (Bool-cases (j == i)) [
  | inl e ↦
      let same : j ≡ i = (==_iff j i).0 e in
      let here : get_elem? ws i ≡ some w = subst (λ k. get_elem? ws k ≡ some w) same there in
      record {
        waiter = v;
        found =
            subst (λ k. get_elem? (set ws j v) k ≡ some v) same
              (get_elem?-set_self ws j v (get_elem?-lt ws j w there));
        holds = keeps (subst P (some_injective (sym a.found ∙ here)) a.holds);
      }
  | inr e ↦ record {
    waiter = a.waiter;
    found = get_elem?-set_ne ws j i v (λ q. ground (arith, e, q)) ∙ a.found;
    holds = a.holds;
  }
]

At-wake :
    (P Q : Waiter → Type 0) (ws : List Waiter) (i : ℕ)
    → ((w : Waiter) → P w → Q (wake w))
    → At P ws i
    → At Q (map wake ws) i
At-wake P Q [] i f a = absurd cc (a.found)
At-wake P Q (w ∷ ws) zero f a = record {
  waiter = wake w;
  found = refl;
  holds = subst (λ x. Q (wake x)) (some_injective (sym a.found)) (f a.waiter a.holds);
}
At-wake P Q (w ∷ ws) (suc i) f a =
    let b = At-wake P Q ws i f (record { waiter = a.waiter; found = a.found; holds = a.holds }) in
    record { waiter = b.waiter; found = b.found; holds = b.holds }

-- While nobody sets the state, it stays, and with it what the steps of a call preserve.
Quiet-At :
    (P : Waiter → Type 0) {s t : Waiting}
    → Quiet s t
    → ((w v : Waiter) → Own s.state w v → P w → P v)
    → (i : ℕ) → At P s.waiters i
    → (t.state ≡ s.state) × At P t.waiters i
Quiet-At P still keeps i a = (refl, a)
Quiet-At P {s = s} (more {t = t} j w v q there o) keeps i a =
    let (same, b) = Quiet-At P q keeps i a in
    (same, At-set P t.waiters i j w v there (keeps w v (subst (λ c. Own c w v) same o)) b)

-- A call that is not among those to be woken, and knows of one state only.
abbrev pub Deaf : TemplateState → Waiter → Type 0
Deaf current starting = ⊥
Deaf current (checked d) = d ≡ current
Deaf current (sleeping d) = d ≡ current
Deaf current (woken d) = ⊥
Deaf current (returned d) = d ≡ current

Own-Deaf :
    (state current : TemplateState) (w v : Waiter) → Own state w v → Deaf current w → Deaf current v
Own-Deaf state current w v look h = elim h [ ]
Own-Deaf state current w v (sleep d) h = h
Own-Deaf state current w v (read d) h = elim h [ ]
Own-Deaf state current w v (expire_checked d) h = h
Own-Deaf state current w v (expire_sleeping d) h = h
Own-Deaf state current w v (expire_woken d) h = elim h [ ]

-- A call of `WaitUntilFinalized` that has read the state `current` and does not sleep yet does not
-- hear of the state that is set now. Unless somebody sets a state once more, it sleeps until its time
-- is up, whatever the other calls do, and what it returns is `current`, although the template is in
-- the new state all the time.
pub lost_wakeup :
    (s t : Waiting) (i : ℕ) (current new : TemplateState)
    → get_elem? s.waiters i ≡ some (checked current)
    → Quiet (set_now new s) t
    → (t.state ≡ new) × At (Deaf current) t.waiters i
lost_wakeup s t i current new found q = Quiet-At (Deaf current) q (Own-Deaf new current) i (
    At-wake (λ w. w ≡ checked current) (Deaf current) s.waiters i
      (λ w e. subst (λ x. Deaf current (wake x)) (sym e) refl)
      (record { waiter = checked current; found = found; holds = refl }))

-- A call that is woken to a state.
abbrev pub Heard : TemplateState → TemplateState → Waiter → Type 0
Heard new current starting = ⊥
Heard new current (checked d) = ⊥
Heard new current (sleeping d) = ⊥
Heard new current (woken d) = d ≡ current
Heard new current (returned d) = (d ≡ new) ⊎ (d ≡ current)

Own-Heard :
    (new current : TemplateState) (w v : Waiter)
    → Own new w v
    → Heard new current w
    → Heard new current v
Own-Heard new current w v look h = elim h [ ]
Own-Heard new current w v (sleep d) h = elim h [ ]
Own-Heard new current w v (read d) h = inl refl
Own-Heard new current w v (expire_checked d) h = elim h [ ]
Own-Heard new current w v (expire_sleeping d) h = elim h [ ]
Own-Heard new current w v (expire_woken d) h = inr h

-- A call that sleeps when the state is set is woken, and returns the new state, or the old one if its
-- time is up before it has the lock.
pub woken_up :
    (s t : Waiting) (i : ℕ) (current new : TemplateState)
    → get_elem? s.waiters i ≡ some (sleeping current)
    → Quiet (set_now new s) t
    → (t.state ≡ new) × At (Heard new current) t.waiters i
woken_up s t i current new found q = Quiet-At (Heard new current) q (Own-Heard new current) i (
    At-wake (λ w. w ≡ sleeping current) (Heard new current) s.waiters i
      (λ w e. subst (λ x. Heard new current (wake x)) (sym e) refl)
      (record { waiter = sleeping current; found = found; holds = refl }))
