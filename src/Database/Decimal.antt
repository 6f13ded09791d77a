-- ===== src/Database/Decimal.antt =====
-- The `%d` and `%03d` of package fmt for a number that is not negative.
use integresql.Prelude.{
  ℕ, zero, suc, ◌+◌, ◌-◌, ◌*◌, ◌/◌, ◌%◌, ◌<◌, ◌≤◌, ◌≡◌, refl, ap, subst, ◌≢◌, Text, [], ◌∷◌, ◌++◌,
  arith, ltb, if◌then◌else◌, Bool-cases, inl, inr,
}

-- One round for each digit; `n + 1` rounds are more than enough.
digits_from : ℕ → ℕ → Text
digits_from zero n = []
digits_from (suc f) n =
    let front = digits_from f (n / 10) in
    if ltb n 10 then (48 + n) ∷ [] else front ++ (48 + n % 10) ∷ []

pub decimal : ℕ → Text
unfolding digits_from
decimal n = digits_from (suc n) n

-- `%03d`: zeros in front up to a width of three.
pub pad3 : Text → Text
pad3 (a ∷ []) = 48 ∷ 48 ∷ a ∷ []
pad3 (a ∷ b ∷ []) = 48 ∷ a ∷ b ∷ []
pad3 t = t

-- Reading digits back.
abbrev pub value_from : ℕ → Text → ℕ
value_from acc [] = acc
value_from acc (d ∷ ds) = value_from (acc * 10 + (d - 48)) ds

value_from-append :
    (acc : ℕ) (xs ys : Text) → value_from acc (xs ++ ys) ≡ value_from (value_from acc xs) ys
value_from-append acc [] ys = refl
value_from-append acc (x ∷ xs) ys = value_from-append (acc * 10 + (x - 48)) xs ys

value-digits_from : (f n : ℕ) → n < f → value_from 0 (digits_from f n) ≡ n
unfolding digits_from
value-digits_from zero n h = elim h [ ]
value-digits_from (suc f) n h = elim (Bool-cases (ltb n 10)) [
  | inl small ↦ rw small (ground arith)
  | inr large ↦
      rw (large, value_from-append 0 (digits_from f (n / 10)) ((48 + n % 10) ∷ []))
        (ground (arith, value-digits_from f (n / 10) (ground arith)))
]

-- Printing loses nothing.
pub value-decimal : (n : ℕ) → value_from 0 (decimal n) ≡ n
unfolding decimal
value-decimal n = value-digits_from (suc n) n (omega arith)

value-pad3 : (t : Text) → value_from 0 (pad3 t) ≡ value_from 0 t
unfolding pad3
value-pad3 [] = refl
value-pad3 (a ∷ []) = refl
value-pad3 (a ∷ b ∷ []) = refl
value-pad3 (a ∷ b ∷ c ∷ t) = refl

pub pad3-decimal-injective : (m n : ℕ) → pad3 (decimal m) ≡ pad3 (decimal n) → m ≡ n
pad3-decimal-injective m n e = cc (
  value-decimal m,
  value-decimal n,
  value-pad3 (decimal m),
  value-pad3 (decimal n),
  ap (value_from 0) e,
)

-- Digits only.
abbrev pub AllDigits : Text → Type 0
AllDigits [] = Unit {0}
AllDigits (c ∷ s) = (48 ≤ c) × (c ≤ 57) × AllDigits s

AllDigits-append : (xs ys : Text) → AllDigits xs → AllDigits ys → AllDigits (xs ++ ys)
AllDigits-append [] ys hx hy = hy
AllDigits-append (x ∷ xs) ys (low, high, h) hy = (low, high, AllDigits-append xs ys h hy)

digits_from-AllDigits : (f n : ℕ) → AllDigits (digits_from f n)
unfolding digits_from
digits_from-AllDigits zero n = tt
digits_from-AllDigits (suc f) n = elim (Bool-cases (ltb n 10)) [
  | inl small ↦ rw small (omega arith, ground arith, tt)
  | inr large ↦ rw large (
      AllDigits-append (digits_from f (n / 10)) _ (digits_from-AllDigits f (n / 10))
        (omega arith, omega arith, tt))
]

snoc_front : (xs : Text) (y : ℕ) → (c : ℕ) × (s : Text) × (xs ++ y ∷ [] ≡ c ∷ s)
snoc_front [] y = (y, [], refl)
snoc_front (x ∷ xs) y = (x, xs ++ y ∷ [], refl)

decimal_front : (n : ℕ) → (c : ℕ) × (s : Text) × (decimal n ≡ c ∷ s)
unfolding decimal digits_from
decimal_front n = elim (Bool-cases (ltb n 10)) [
  | inl small ↦ rw small (48 + n, [], refl)
  | inr large ↦ rw large (snoc_front (digits_from n (n / 10)) (48 + n % 10))
]

-- A number prints as a digit and more digits.
pub decimal-digits : (n : ℕ) → (c : ℕ) × (s : Text) × (decimal n ≡ c ∷ s) × AllDigits (c ∷ s)
unfolding decimal
decimal-digits n =
    let (c, s, e) = decimal_front n in
    (c, s, e, subst AllDigits e (digits_from-AllDigits (suc n) n))

-- A byte that does not occur.
abbrev pub Lacks : ℕ → Text → Type 0
Lacks c [] = Unit {0}
Lacks c (x ∷ xs) = (x ≢ c) × Lacks c xs

Lacks-append : (c : ℕ) (xs ys : Text) → Lacks c xs → Lacks c ys → Lacks c (xs ++ ys)
Lacks-append c [] ys hx hy = hy
Lacks-append c (x ∷ xs) ys hx hy = (hx.0, Lacks-append c xs ys hx.1 hy)

digits_from-Lacks : (f n : ℕ) → Lacks b'_' (digits_from f n)
unfolding digits_from
digits_from-Lacks zero n = tt
digits_from-Lacks (suc f) n = elim (Bool-cases (ltb n 10)) [
  | inl small ↦ rw small (ground arith, tt)
  | inr large ↦ rw large (
      Lacks-append b'_' (digits_from f (n / 10)) _ (digits_from-Lacks f (n / 10)) (omega arith, tt))
]

pad3-Lacks : (t : Text) → Lacks b'_' t → Lacks b'_' (pad3 t)
unfolding pad3
pad3-Lacks [] h = h
pad3-Lacks (a ∷ []) h = (omega arith, (omega arith, h))
pad3-Lacks (a ∷ b ∷ []) h = (omega arith, h)
pad3-Lacks (a ∷ b ∷ c ∷ t) h = h

pub pad3-decimal-Lacks : (n : ℕ) → Lacks b'_' (pad3 (decimal n))
unfolding decimal
pad3-decimal-Lacks n = pad3-Lacks _ (digits_from-Lacks (suc n) n)

decimal_examples : (pad3 (decimal 7) ≡ 48 ∷ 48 ∷ 55 ∷ []) × (decimal 120 ≡ 49 ∷ 50 ∷ 48 ∷ [])
unfolding pad3 decimal
decimal_examples = (refl, refl)
