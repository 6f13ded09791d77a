-- ===== src/Prelude/Counting.antt =====
-- How often a number stands in a list, for channels as bags of identifiers.
use Prim.Native.Nat.{ℕ, zero, suc, ◌+◌, ◌≤◌, ◌<◌}
use mathlib.Core.Path.{◌≡◌, refl}
use mathlib.Core.List.{List, [], ◌∷◌, ◌++◌}
use native.Mathlib.Omega.{arith}
use integresql.Prelude.Tests.{◌==◌, if◌then◌else◌}
use integresql.Prelude.Lists.{length}

abbrev pub count : ℕ → List ℕ → ℕ
count a [] = 0
count a (x ∷ xs) = if a == x then suc (count a xs) else count a xs

pub count-append : (a : ℕ) (xs ys : List ℕ) → count a (xs ++ ys) ≡ count a xs + count a ys
count-append a [] ys = omega arith
count-append a (x ∷ xs) ys = ground (arith, count-append a xs ys)

-- The list without one number.
abbrev pub without : ℕ → List ℕ → List ℕ
without a [] = []
without a (x ∷ xs) = if x == a then without a xs else x ∷ without a xs

pub count-without_self : (a : ℕ) (xs : List ℕ) → count a (without a xs) ≡ 0
count-without_self a [] = refl
count-without_self a (x ∷ xs) = ground (arith, count-without_self a xs)

pub length-without-le : (a : ℕ) (xs : List ℕ) → length (without a xs) ≤ length xs
length-without-le a [] = omega arith
length-without-le a (x ∷ xs) = ground (arith, length-without-le a xs)

pub without-append : (a : ℕ) (xs ys : List ℕ) → without a (xs ++ ys) ≡ without a xs ++ without a ys
without-append a [] ys = refl
without-append a (x ∷ xs) ys = ground (arith, without-append a xs ys)

-- The number of pairs is at most the number of distinct values: a list over `0 .. n-1` in which
-- nothing stands twice has at most `n` entries.
abbrev total : ℕ → List ℕ → ℕ
total zero xs = 0
total (suc n) xs = total n xs + count n xs

total-nil : (n : ℕ) → total n [] ≡ 0
total-nil zero = refl
total-nil (suc n) = omega (arith, total-nil n)

total-cons_above : (n x : ℕ) (xs : List ℕ) → n ≤ x → total n (x ∷ xs) ≡ total n xs
total-cons_above zero x xs h = refl
total-cons_above (suc n) x xs h = ground (arith, total-cons_above n x xs)

total-cons : (n x : ℕ) (xs : List ℕ) → x < n → total n (x ∷ xs) ≡ suc (total n xs)
total-cons zero x xs h = elim h [ ]
total-cons (suc n) x xs h = ground (arith, total-cons n x xs, total-cons_above n x xs)

length-total : (n : ℕ) (xs : List ℕ) → ((a : ℕ) → n ≤ a → count a xs ≡ 0) → length xs ≡ total n xs
length-total n [] h = omega (arith, total-nil n)
length-total n (x ∷ xs) h =
    ground (arith, h x, total-cons n x xs, length-total n xs (λ a le. ground (arith, h a le)))

total-le : (n : ℕ) (xs : List ℕ) → ((a : ℕ) → count a xs ≤ 1) → total n xs ≤ n
total-le zero xs h = omega arith
total-le (suc n) xs h = omega (arith, total-le n xs h, h n)

pub length-le_of_count :
    (n : ℕ) (xs : List ℕ)
    → ((a : ℕ) → count a xs ≤ 1)
    → ((a : ℕ) → n ≤ a → count a xs ≡ 0)
    → length xs ≤ n
length-le_of_count n xs once inside = omega (arith, length-total n xs inside, total-le n xs once)
