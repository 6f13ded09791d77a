-- ===== src/Util/Environment/Printing.antt =====
-- What `%d` prints, `GetEnvAsInt` of pkg/util/env.go reads.
use integresql.Prelude.{
  ℕ, suc, ◌+◌, ◌-◌, ◌*◌, ◌^◌, ◌<◌, ◌≤◌, ◌≡◌, refl, ◌∙◌, ap, subst, none, some, Text, [], ◌∷◌, arith,
  ℤ, pos, negsuc,
}
use integresql.Database.{format_int}
use integresql.Database.Decimal.{decimal, value_from, value-decimal, AllDigits, decimal-digits}
use integresql.Util.Environment.{Env, get_env, digits, unsigned, atoi, get_env_as_int}

-- The numbers that an `int` holds.
abbrev InInt64 : ℤ → Type 0
InInt64 (pos n) = n < 2 ^ 63
InInt64 (negsuc n) = n < 2 ^ 63

digits-value_from : (acc : ℕ) (t : Text) → AllDigits t → digits acc t ≡ some (value_from acc t)
unfolding digits
digits-value_from acc [] h = refl
digits-value_from acc (d ∷ ds) (low, high, h) =
    ground (arith, digits-value_from (acc * 10 + (d - 48)) ds h)

unsigned-decimal : (n : ℕ) → unsigned (decimal n) ≡ some n
unfolding digits
unsigned-decimal n =
    let (c, s, e, h) = decimal-digits n in
    let read : digits 0 (c ∷ s) ≡ some (value_from 0 (c ∷ s)) = digits-value_from 0 (c ∷ s) h in
    let value : value_from 0 (c ∷ s) ≡ n = subst (λ t. value_from 0 t ≡ n) e (value-decimal n) in
    rw e (read ∙ ap some value)

atoi-unsigned :
    (c n : ℕ) (s : Text)
    → 48 ≤ c
    → unsigned (c ∷ s) ≡ some n
    → n < 2 ^ 63
    → atoi (c ∷ s) ≡ some (pos n)
unfolding atoi
atoi-unsigned c n s low read h = ground (arith, read)

atoi-format_int : (z : ℤ) → InInt64 z → atoi (format_int z) ≡ some z
unfolding atoi format_int
atoi-format_int (pos n) h =
    let (c, s, e, (low, high, _)) = decimal-digits n in
    let read : unsigned (c ∷ s) ≡ some n =
      subst (λ t. unsigned t ≡ some n) e (unsigned-decimal n) in
    ap atoi e ∙ atoi-unsigned c n s low read h
atoi-format_int (negsuc n) h =
    let read = unsigned-decimal (n + 1) in
    let next : n + 1 ≡ suc n = omega arith in rw (read, next) (ground arith)

-- An `int` that is printed into the environment is read back, whatever the default; a variable that
-- is missing, or is not the text of an `int`, gives the default.
get_env_as_int-format_int :
    (env : Env) (key : Text) (default_val : ℤ)
    → ((z : ℤ) → InInt64 z → env key ≡ some (format_int z) → get_env_as_int env key default_val ≡ z)
      × (env key ≡ none → get_env_as_int env key default_val ≡ default_val)
unfolding get_env_as_int get_env atoi
get_env_as_int-format_int env key default_val =
    (λ z h e. ground (arith, e, atoi-format_int z h), λ e. ground (arith, e))
