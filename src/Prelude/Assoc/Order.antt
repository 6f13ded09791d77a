-- ===== src/Prelude/Assoc/Order.antt =====
-- What a map answers does not depend on the order in which it is iterated.
use mathlib.Core.List.{Permᴰ}
use mathlib.Core.Path.{◌≡◌, refl, ap, ◌∙◌}
use mathlib.Core.Bool.{false}
use mathlib.Core.List.{[], ◌∷◌}
use native.Mathlib.Omega.{arith}
use integresql.Prelude.Bytes.{Text, text_eq_iff}
use integresql.Prelude.Assoc.{Assoc, has_key, keys, lookup_or}

module _ {ℓ} {V : Type ℓ} where
  -- Every key stands once, as in a Go map.
  abbrev pub IsMap : Assoc V → Type 0
  IsMap [] = Unit {0}
  IsMap ((k, v) ∷ m) = (has_key k m ≡ false) × IsMap m

  pub has_key-permᴰ : (k : Text) {m n : Assoc V} → Permᴰ m n → has_key k m ≡ has_key k n
  unfolding has_key
  has_key-permᴰ k Permᴰ.nil = refl
  has_key-permᴰ k (Permᴰ.cons {a = (i, v)} {b = (j, w)} e p) =
      ground (arith, ap (λ (x : Text × V). x.0) e, has_key-permᴰ k p)
  has_key-permᴰ k (Permᴰ.swap {a = (i, v)} {b = (j, w)} {a' = (i', v')} {b' = (j', w')} e f) =
      ground (arith, ap (λ (x : Text × V). x.0) e, ap (λ (x : Text × V). x.0) f)
  has_key-permᴰ k (Permᴰ.trans p q) = has_key-permᴰ k p ∙ has_key-permᴰ k q

  pub IsMap-permᴰ : {m n : Assoc V} → Permᴰ m n → IsMap m → IsMap n
  unfolding has_key
  IsMap-permᴰ Permᴰ.nil h = tt
  IsMap-permᴰ (Permᴰ.cons {a = (i, v)} {b = (j, w)} e p) h =
      (ground (arith, ap (λ (x : Text × V). x.0) e, has_key-permᴰ i p), IsMap-permᴰ p h.1)
  IsMap-permᴰ (Permᴰ.swap {a = (i, v)} {b = (j, w)} {a' = (i', v')} {b' = (j', w')} e f) h =
      ground (
        arith,
        ap (λ (x : Text × V). x.0) e,
        ap (λ (x : Text × V). x.0) f,
        text_eq_iff i j,
        text_eq_iff j i,
      )
  IsMap-permᴰ (Permᴰ.trans p q) h = IsMap-permᴰ q (IsMap-permᴰ p h)

  pub lookup_or-permᴰ :
      (k : Text) (d : V) {m n : Assoc V} → Permᴰ m n → IsMap m → lookup_or k d m ≡ lookup_or k d n
  unfolding lookup_or has_key
  lookup_or-permᴰ k d Permᴰ.nil h = refl
  lookup_or-permᴰ k d (Permᴰ.cons {a = (i, v)} {b = (j, w)} e p) h =
      ground (
        arith,
        ap (λ (x : Text × V). x.0) e,
        ap (λ (x : Text × V). x.1) e,
        lookup_or-permᴰ k d p h.1,
      )
  lookup_or-permᴰ k d (Permᴰ.swap {a = (i, v)} {b = (j, w)} {a' = (i', v')} {b' = (j', w')} e f) h =
      ground (
        arith,
        ap (λ (x : Text × V). x.0) e,
        ap (λ (x : Text × V). x.1) e,
        ap (λ (x : Text × V). x.0) f,
        ap (λ (x : Text × V). x.1) f,
        text_eq_iff i k,
        text_eq_iff j k,
        text_eq_iff i j,
        text_eq_iff j i,
      )
  lookup_or-permᴰ k d (Permᴰ.trans p q) h =
      lookup_or-permᴰ k d p h ∙ lookup_or-permᴰ k d q (IsMap-permᴰ p h)

  pub keys-permᴰ : {m n : Assoc V} → Permᴰ m n → Permᴰ (keys m) (keys n)
  keys-permᴰ Permᴰ.nil = Permᴰ.nil
  keys-permᴰ (Permᴰ.cons {a = (i, v)} {b = (j, w)} e p) =
      Permᴰ.cons (ap (λ (x : Text × V). x.0) e) (keys-permᴰ p)
  keys-permᴰ (Permᴰ.swap {a = (i, v)} {b = (j, w)} {a' = (i', v')} {b' = (j', w')} e f) =
      Permᴰ.swap (ap (λ (x : Text × V). x.0) e) (ap (λ (x : Text × V). x.0) f)
  keys-permᴰ (Permᴰ.trans p q) = Permᴰ.trans (keys-permᴰ p) (keys-permᴰ q)
