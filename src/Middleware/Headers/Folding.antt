-- ===== src/Middleware/Headers/Folding.antt =====
-- The canonical form of a name differs from it in case only.
use integresql.Prelude.{
  ℕ, ◌+◌, ◌==◌, ◌≡◌, refl, sym, ◌∙◌, Bool, true, false, ◌&&◌, [], ◌∷◌, Text, text_eq, ltb, leb,
  if◌then◌else◌, arith, Bool-cases, inl, inr,
}
use integresql.Middleware.Headers.{lower, upper, is_token, all_tokens, title, canonical, equal_fold}

recased : (up : Bool) (c : ℕ) → lower (if up then upper c else lower c) ≡ lower c
recased up c = ground arith

-- A token, in either case, is no first byte of a character beyond ASCII.
abbrev IsAscii : ℕ → Type 0
IsAscii c = ((c == 197) ≡ false) × ((c == 226) ≡ false)

token-IsAscii : (c : ℕ) → is_token c ≡ true → IsAscii c
token-IsAscii c h = ground arith

recased-IsAscii :
    (up : Bool) (c : ℕ) → is_token c ≡ true → IsAscii (if up then upper c else lower c)
recased-IsAscii up c h = ground arith

equal_fold-ascii :
    (c t : ℕ) (s ts : Text)
    → IsAscii c
    → equal_fold (c ∷ s) (t ∷ ts) ≡ (lower c == t && equal_fold s ts)
unfolding equal_fold
equal_fold-ascii c t s ts h = ground (arith, h.0, h.1)

equal_fold-empty :
    (up : Bool) (c : ℕ) (s : Text) → equal_fold (title up (c ∷ s)) [] ≡ equal_fold (c ∷ s) []
unfolding equal_fold title
equal_fold-empty up c s = refl

equal_fold-title :
    (up : Bool) (s ts : Text) → all_tokens s ≡ true → equal_fold (title up s) ts ≡ equal_fold s ts
unfolding title all_tokens
equal_fold-title up [] ts h = refl
equal_fold-title up (c ∷ s) [] h = equal_fold-empty up c s
equal_fold-title up (c ∷ s) (t ∷ ts) h =
    let token : is_token c ≡ true = ground arith in
    let rest : all_tokens s ≡ true = ground arith in
    equal_fold-ascii (if up then upper c else lower c) t (title (c == 45) s) ts
      (recased-IsAscii up c token)
    ∙ rw (recased up c, equal_fold-title (c == 45) s ts rest) refl
    ∙ sym (equal_fold-ascii c t s ts (token-IsAscii c token))

pub equal_fold-canonical : (s t : Text) → equal_fold (canonical s) t ≡ equal_fold s t
unfolding canonical
equal_fold-canonical s t = elim (Bool-cases (all_tokens s)) [
  | inl h ↦ rw h (equal_fold-title true s t h)
  | inr h ↦ rw h refl
]

-- A name in ASCII.
abbrev pub all_ascii : Text → Bool
all_ascii [] = true
all_ascii (c ∷ s) = ltb c 128 && all_ascii s

-- The letters A to Z in lower case.
abbrev pub lower_case : Text → Text
lower_case [] = []
lower_case (c ∷ s) = (if leb 65 c && leb c 90 then c + 32 else c) ∷ lower_case s

-- On ASCII `strings.EqualFold` compares in lower case.
pub equal_fold-lower_case :
    (s t : Text) → all_ascii s ≡ true → equal_fold s t ≡ text_eq (lower_case s) t
unfolding equal_fold
equal_fold-lower_case [] [] h = refl
equal_fold-lower_case (c ∷ s) [] h = refl
equal_fold-lower_case [] (t ∷ ts) h = refl
equal_fold-lower_case (c ∷ s) (t ∷ ts) h =
    let rest : all_ascii s ≡ true = ground arith in
    equal_fold-ascii c t s ts (ground arith, ground arith)
    ∙ rw (equal_fold-lower_case s ts rest) refl
