-- ===== src/Database/Sorting.antt =====
-- `sort.Strings` of package sort: texts in the order of their bytes. Any sorting algorithm gives
-- the same result, since the order is total and antisymmetric; this one inserts.
use mathlib.Core.List.{Permᴰ}
use integresql.Prelude.{
  ◌≡◌, refl, ◌∙◌, Text, Bool, true, false, List, [], ◌∷◌, arith, ltb, ◌==◌, if◌then◌else◌, ◌&&◌,
  ◌||◌,
}

-- `<=` on strings.
abbrev text_leb : Text → Text → Bool
text_leb [] t = true
text_leb (a ∷ s) [] = false
text_leb (a ∷ s) (b ∷ t) = ltb a b || (a == b && text_leb s t)

text_leb_antisymm : (s t : Text) → text_leb s t ≡ true → text_leb t s ≡ true → s ≡ t
text_leb_antisymm [] [] p q = refl
text_leb_antisymm [] (b ∷ t) p q = cc
text_leb_antisymm (a ∷ s) [] p q = cc
text_leb_antisymm (a ∷ s) (b ∷ t) p q = ground (arith, text_leb_antisymm s t)

text_leb_total : (s t : Text) → text_leb s t ≡ false → text_leb t s ≡ true
text_leb_total [] t p = cc
text_leb_total (a ∷ s) [] p = refl
text_leb_total (a ∷ s) (b ∷ t) p = ground (arith, text_leb_total s t)

text_leb_trans : (s t u : Text) → text_leb s t ≡ true → text_leb t u ≡ true → text_leb s u ≡ true
text_leb_trans [] t u p q = refl
text_leb_trans (a ∷ s) [] u p q = cc
text_leb_trans (a ∷ s) (b ∷ t) [] p q = cc
text_leb_trans (a ∷ s) (b ∷ t) (c ∷ u) p q = ground (arith, text_leb_trans s t u)

insert_sorted : Text → List Text → List Text
insert_sorted s [] = s ∷ []
insert_sorted s (t ∷ ts) = if text_leb s t then s ∷ t ∷ ts else t ∷ insert_sorted s ts

pub sort : List Text → List Text
unfolding insert_sorted
sort [] = []
sort (s ∷ ts) = insert_sorted s (sort ts)

insert_sorted_comm :
    (s t : Text) (us : List Text)
    → insert_sorted s (insert_sorted t us) ≡ insert_sorted t (insert_sorted s us)
unfolding insert_sorted
insert_sorted_comm s t [] = ground (arith, text_leb_antisymm s t, text_leb_total s t)
insert_sorted_comm s t (u ∷ us) = ground (
  arith,
  text_leb_antisymm s t,
  text_leb_total s t,
  text_leb_total t u,
  text_leb_total s u,
  text_leb_trans s t u,
  text_leb_trans t s u,
  insert_sorted_comm s t us,
)

-- The order in which the texts come does not matter.
pub sort-permᴰ : {ss ts : List Text} → Permᴰ ss ts → sort ss ≡ sort ts
unfolding sort
sort-permᴰ Permᴰ.nil = refl
sort-permᴰ (Permᴰ.cons e p) = cc (e, sort-permᴰ p)
sort-permᴰ (Permᴰ.swap {a} {b} {l} e f) = insert_sorted_comm a b (sort l) ∙ cc (e, f)
sort-permᴰ (Permᴰ.trans p q) = sort-permᴰ p ∙ sort-permᴰ q
