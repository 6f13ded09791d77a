-- ===== src/Templates/Waiting/Reports.antt =====
-- What `WaitUntilFinalized` of pkg/templates/template.go may report.
use integresql.Prelude.{
  ℕ, zero, suc, ◌≡◌, refl, subst, ◌⊎◌, inl, inr, some, List, [], ◌∷◌, map, get_elem?, set,
  replicate,
}
use integresql.Templates.{TemplateState, template_finalized, template_init, template_discarded}
use integresql.Templates.Waiting.{
  Waiter, starting, checked, sleeping, woken, returned, Waiting, looked, Own, look, sleep, read,
  expire_checked, expire_sleeping, expire_woken, wake, Turn, own, sets, Run, begun, turned,
}

abbrev pub Seen : TemplateState → List TemplateState → Type 0
Seen c [] = ⊥
Seen c (x ∷ seen) = (x ≡ c) ⊎ Seen c seen

-- A call knows of no state that the template has not had.
abbrev Told : List TemplateState → Waiter → Type 0
Told seen starting = Unit {0}
Told seen (checked d) = Seen d seen
Told seen (sleeping d) = Seen d seen
Told seen (woken d) = Seen d seen
Told seen (returned d) = Seen d seen

abbrev AllTold : List TemplateState → List Waiter → Type 0
AllTold seen [] = Unit {0}
AllTold seen (w ∷ ws) = Told seen w × AllTold seen ws

Told-wake : (seen : List TemplateState) (w : Waiter) → Told seen w → Told seen (wake w)
Told-wake seen starting h = h
Told-wake seen (checked d) h = h
Told-wake seen (sleeping d) h = h
Told-wake seen (woken d) h = h
Told-wake seen (returned d) h = h

Told-later :
    (c : TemplateState) (seen : List TemplateState) (w : Waiter) → Told seen w → Told (c ∷ seen) w
Told-later c seen starting h = h
Told-later c seen (checked d) h = inr h
Told-later c seen (sleeping d) h = inr h
Told-later c seen (woken d) h = inr h
Told-later c seen (returned d) h = inr h

Told-looked : (c : TemplateState) (seen : List TemplateState) → Told (c ∷ seen) (looked c)
Told-looked template_init seen = inl refl
Told-looked template_discarded seen = inl refl
Told-looked template_finalized seen = inl refl

-- With the state that the template is in as the last one.
Own-Told :
    (state : TemplateState) (seen : List TemplateState) (w v : Waiter)
    → Own state w v
    → Told (state ∷ seen) w
    → Told (state ∷ seen) v
Own-Told state seen w v look h = Told-looked state seen
Own-Told state seen w v (sleep d) h = h
Own-Told state seen w v (read d) h = inl refl
Own-Told state seen w v (expire_checked d) h = h
Own-Told state seen w v (expire_sleeping d) h = h
Own-Told state seen w v (expire_woken d) h = h

AllTold-map :
    (seen : List TemplateState) (f : Waiter → Waiter)
    → ((w : Waiter) → Told seen w → Told seen (f w))
    → (ws : List Waiter) → AllTold seen ws
    → AllTold seen (map f ws)
AllTold-map seen f keeps [] h = tt
AllTold-map seen f keeps (w ∷ ws) (h, hs) = (keeps w h, AllTold-map seen f keeps ws hs)

AllTold-later :
    (c : TemplateState) (seen : List TemplateState) (ws : List Waiter)
    → AllTold seen ws
    → AllTold (c ∷ seen) ws
AllTold-later c seen [] h = tt
AllTold-later c seen (w ∷ ws) (h, hs) = (Told-later c seen w h, AllTold-later c seen ws hs)

AllTold-get_elem? :
    (seen : List TemplateState) (ws : List Waiter) (i : ℕ) (w : Waiter)
    → AllTold seen ws
    → get_elem? ws i ≡ some w
    → Told seen w
AllTold-get_elem? seen [] i w h e = absurd cc (e)
AllTold-get_elem? seen (x ∷ ws) zero w (h, hs) e = let same : x ≡ w = cc in subst (Told seen) same h
AllTold-get_elem? seen (x ∷ ws) (suc i) w (h, hs) e = AllTold-get_elem? seen ws i w hs e

AllTold-set :
    (seen : List TemplateState) (ws : List Waiter) (i : ℕ) (v : Waiter)
    → AllTold seen ws
    → Told seen v
    → AllTold seen (set ws i v)
AllTold-set seen [] i v h k = tt
AllTold-set seen (w ∷ ws) zero v (h, hs) k = (k, hs)
AllTold-set seen (w ∷ ws) (suc i) v (h, hs) k = (h, AllTold-set seen ws i v hs k)

AllTold-replicate : (seen : List TemplateState) (n : ℕ) → AllTold seen (replicate n starting)
AllTold-replicate seen zero = tt
AllTold-replicate seen (suc n) = (tt, AllTold-replicate seen n)

-- What a turn leaves, with the state behind it as the last one.
Turn-AllTold :
    {s t : Waiting} (seen : List TemplateState)
    → Turn s t
    → AllTold seen s.waiters
    → AllTold (t.state ∷ seen) t.waiters
Turn-AllTold {s = s} seen (own i w v there o) h =
    let knows = Told-later s.state seen w (AllTold-get_elem? seen s.waiters i w h there) in
    AllTold-set (s.state ∷ seen) s.waiters i v (AllTold-later s.state seen s.waiters h)
      (Own-Told s.state seen w v o knows)
Turn-AllTold {s = s} seen (sets new) h =
    AllTold-map (new ∷ seen) wake (Told-wake (new ∷ seen)) s.waiters
      (AllTold-later new seen s.waiters h)

Run-AllTold :
    {calls : ℕ} {s : Waiting} {seen : List TemplateState}
    → Run calls s seen
    → AllTold seen s.waiters
Run-AllTold {calls = n} (begun state) = AllTold-replicate (state ∷ []) n
Run-AllTold (turned {seen = seen} r turn) = Turn-AllTold seen turn (Run-AllTold r)

-- However the calls and the changes of the state are interleaved, and whether its time is up or not,
-- a call of `WaitUntilFinalized` returns a state that the template has had: it never reports a
-- template as finalized that has not been.
pub Run-returned :
    {calls : ℕ} {s : Waiting} {seen : List TemplateState}
    → Run calls s seen
    → (i : ℕ) (reported : TemplateState) → get_elem? s.waiters i ≡ some (returned reported)
    → Seen reported seen
Run-returned {s = s} {seen = seen} r i reported e =
    AllTold-get_elem? seen s.waiters i (returned reported) (Run-AllTold r) e
