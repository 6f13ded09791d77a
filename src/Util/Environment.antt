-- ===== src/Util/Environment.antt =====
-- pkg/util/env.go, with `strconv.Atoi` and `strconv.ParseBool` for an `int` of 64 bits.
pub mod Printing
use integresql.Prelude.{
  ℕ, zero, suc, ◌+◌, ◌-◌, ◌*◌, ◌^◌, Bool, true, false, ◌&&◌, ◌||◌, Option, none, some, List, [],
  ◌∷◌, Text, codes, text_eq, ltb, leb, ◌==◌, if◌then◌else◌, ℤ, pos, negsuc,
}

-- `os.LookupEnv`
abbrev pub Env : Type 0
Env = Text → Option Text

unfoldable pub get_env : Env → Text → Text → Text
get_env env key default_val = elim (env key) [ some val ↦ val | none ↦ default_val ]

abbrev pub is_digit : ℕ → Bool
is_digit c = leb 48 c && leb c 57

-- The digits of a number, after the value of those in front.
unfoldable pub digits : ℕ → Text → Option ℕ
digits acc [] = some acc
digits acc (d ∷ ds) =
    let rest = digits (acc * 10 + (d - 48)) ds in if is_digit d then rest else none

-- At least one digit.
abbrev pub unsigned : Text → Option ℕ
unfolding digits
unsigned [] = none
unsigned (d ∷ ds) = digits 0 (d ∷ ds)

abbrev pub below : ℕ → Option ℤ
below n = if ltb n (2 ^ 63) then some (pos n) else none

abbrev negated : ℕ → Option ℤ
negated zero = some (pos 0)
negated (suc n) = if ltb n (2 ^ 63) then some (negsuc n) else none

unfoldable pub atoi : Text → Option ℤ
atoi [] = none
atoi (c ∷ s) =
    if c == 45
    then elim (unsigned s) [ some n ↦ negated n | none ↦ none ]
    else (if c == 43
        then elim (unsigned s) [ some n ↦ below n | none ↦ none ]
        else elim (unsigned (c ∷ s)) [ some n ↦ below n | none ↦ none ])

unfoldable pub get_env_as_int : Env → Text → ℤ → ℤ
unfolding get_env atoi
get_env_as_int env key default_val = elim (atoi (get_env env key [])) [
  | some val ↦ val
  | none ↦ default_val
]

abbrev one_of : List Text → Text → Bool
one_of [] s = false
one_of (t ∷ ts) s = text_eq t s || one_of ts s

unfoldable pub parse_bool : Text → Option Bool
parse_bool s =
    if one_of (codes "1" ∷ codes "t" ∷ codes "T" ∷ codes "true" ∷ codes "TRUE" ∷ codes "True" ∷ [])
      s
    then some true
    else (if one_of
          (codes "0" ∷ codes "f" ∷ codes "F" ∷ codes "false" ∷ codes "FALSE" ∷ codes "False" ∷ []) s
        then some false
        else none)

unfoldable pub get_env_as_bool : Env → Text → Bool → Bool
unfolding get_env parse_bool
get_env_as_bool env key default_val = elim (parse_bool (get_env env key [])) [
  | some val ↦ val
  | none ↦ default_val
]
