-- ===== src/Middleware/Headers.antt =====
-- Headers as internal/api/middleware/logger.go uses them: `http.Header` with `Get` and `Add`, the
-- canonical form of a name, and `strings.EqualFold` against a name in ASCII. A header is a map from
-- names to lists of values, in the order in which Go iterates.
pub mod Folding
use integresql.Prelude.{
  ℕ, ◌+◌, ◌-◌, ◌==◌, Bool, true, false, ◌&&◌, ◌||◌, Option, none, some, List, [], ◌∷◌, ◌++◌, Text,
  codes, leb, if◌then◌else◌,
}
use integresql.Prelude.Assoc.{Assoc, lookup_or, insert}

abbrev pub Header : Type 0
Header = Assoc (List Text)

abbrev is_upper : ℕ → Bool
is_upper c = leb 65 c && leb c 90

abbrev is_lower : ℕ → Bool
is_lower c = leb 97 c && leb c 122

abbrev pub lower : ℕ → ℕ
lower c = if is_upper c then c + 32 else c

abbrev pub upper : ℕ → ℕ
upper c = if is_lower c then c - 32 else c

abbrev among : List ℕ → ℕ → Bool
among [] c = false
among (x ∷ xs) c = x == c || among xs c

-- A byte that may stand in a name: a letter, a digit, or one of !#$%&'*+-.^_`|~.
abbrev pub is_token : ℕ → Bool
is_token c =
    is_upper c
    || is_lower c
    || leb 48 c && leb c 57
    || among (33 ∷ 35 ∷ 36 ∷ 37 ∷ 38 ∷ 39 ∷ 42 ∷ 43 ∷ 45 ∷ 46 ∷ 94 ∷ 95 ∷ 96 ∷ 124 ∷ 126 ∷ []) c

unfoldable pub all_tokens : Text → Bool
all_tokens [] = true
all_tokens (c ∷ s) = is_token c && all_tokens s

-- Capitals at the beginning and behind each dash.
unfoldable pub title : Bool → Text → Text
title up [] = []
title up (c ∷ s) = (if up then upper c else lower c) ∷ title (c == 45) s

-- `http.CanonicalHeaderKey`
unfoldable pub canonical : Text → Text
unfolding all_tokens title
canonical s = if all_tokens s then title true s else s

abbrev first_value : List Text → Text
first_value [] = []
first_value (v ∷ vv) = v

unfoldable pub get_header : Header → Text → Text
unfolding canonical lookup_or
get_header h k = first_value (lookup_or (canonical k) [] h)

unfoldable pub add_header : Text → Text → Header → Header
unfolding canonical lookup_or insert
add_header k v h = insert (canonical k) (lookup_or (canonical k) [] h ++ v ∷ []) h

-- A text behind a byte.
abbrev behind : ℕ → Text → Option Text
behind b [] = none
behind b (c ∷ s) = if c == b then some s else none

-- The rest behind a first character that folds to the letter or sign `t` of ASCII, given in lower
-- case. Beyond ASCII only the long s, of bytes 197 191, folds to s, and only the sign of Kelvin, of
-- bytes 226 132 170, folds to k.
abbrev behind_folded : ℕ → Text → Option Text
behind_folded t [] = none
behind_folded t (c ∷ s) =
    if lower c == t
    then some s
    else (if t == 115 && c == 197
        then behind 191 s
        else (if t == 107 && c == 226
            then elim (behind 132 s) [ some r ↦ behind 170 r | none ↦ none ]
            else none))

-- `strings.EqualFold(s, t)` for a `t` of ASCII in lower case.
unfoldable pub equal_fold : Text → Text → Bool
equal_fold [] [] = true
equal_fold (c ∷ s) [] = false
equal_fold s (t ∷ ts) = elim (behind_folded t s) [ some r ↦ equal_fold r ts | none ↦ false ]
