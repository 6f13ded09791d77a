-- ===== src/Pool/Name.antt =====
-- `makeDBName` of pkg/pool/pool_collection.go.
use integresql.Prelude.{ℕ, ◌≡◌, refl, subst, Text, [], ◌∷◌, ◌++◌, arith}
use integresql.Database.Decimal.{decimal, pad3, Lacks, pad3-decimal-injective, pad3-decimal-Lacks}

-- `fmt.Sprintf("%s%s_%03d", …)`; an id is an index of `dbs`, never negative.
unfoldable pub make_db_name : Text → Text → ℕ → Text
make_db_name prefix hash id = prefix ++ (hash ++ b'_' ∷ pad3 (decimal id))

append-cancel_left : (p s t : Text) → p ++ s ≡ p ++ t → s ≡ t
append-cancel_left [] s t e = e
append-cancel_left (x ∷ p) s t e = append-cancel_left p s t (ground arith)

not-Lacks-append : (c : ℕ) (xs ys : Text) → Lacks c (xs ++ c ∷ ys) → ⊥
not-Lacks-append c [] ys h = h.0 refl
not-Lacks-append c (x ∷ xs) ys h = not-Lacks-append c xs ys h.1

-- Two texts whose last separator is known split at it in one way.
split_last :
    (c : ℕ) (xs ys ds es : Text)
    → Lacks c ds
    → Lacks c es
    → xs ++ c ∷ ds ≡ ys ++ c ∷ es
    → (xs ≡ ys) × (ds ≡ es)
split_last c [] [] ds es hd he e = (refl, ground arith)
split_last c [] (y ∷ ys) ds es hd he e =
    absurd (not-Lacks-append c ys es (subst (Lacks c) (ground arith) hd))
split_last c (x ∷ xs) [] ds es hd he e =
    absurd (not-Lacks-append c xs ds (subst (Lacks c) (ground arith) he))
split_last c (x ∷ xs) (y ∷ ys) ds es hd he e =
    let (same, rest) = split_last c xs ys ds es hd he (ground arith) in (ground arith, rest)

-- Under one prefix two databases share a name only if they have the same template hash and the
-- same id, also where a hash itself holds underscores or digits.
pub make_db_name-injective :
    (prefix g h : Text) (i j : ℕ)
    → make_db_name prefix g i ≡ make_db_name prefix h j
    → (g ≡ h) × (i ≡ j)
unfolding make_db_name
make_db_name-injective prefix g h i j e =
    let (same, digits) =
      split_last b'_' g h (pad3 (decimal i)) (pad3 (decimal j)) (pad3-decimal-Lacks i)
        (pad3-decimal-Lacks j) (append-cancel_left prefix _ _ e) in
    (same, pad3-decimal-injective i j digits)
