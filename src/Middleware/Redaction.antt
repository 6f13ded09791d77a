-- ===== src/Middleware/Redaction.antt =====
-- `DefaultHeaderLogReplacer` of internal/api/middleware/logger.go: what it leaves of a header.
use integresql.Prelude.{
  ◌≡◌, refl, sym, ◌∙◌, ap, Bool, true, ◌||◌, List, [], ◌∷◌, ◌++◌, Text, codes, text_eq, text_eq_iff,
  if◌then◌else◌, arith, Bool-cases, inl, inr,
}
use mathlib.Core.List.{append-nil, append_assoc}
use integresql.Prelude.Assoc.{Assoc, lookup_or, insert}
use integresql.Middleware.Headers.{Header, canonical, add_header, equal_fold}
use integresql.Middleware.Headers.Folding.{
  all_ascii, lower_case, equal_fold-lower_case, equal_fold-canonical,
}

abbrev redacted : Text
redacted = codes "*****REDACTED*****"

unfoldable pub should_redact : Text → Bool
should_redact k =
    equal_fold k (codes "authorization")
    || equal_fold k (codes "x-csrf-token")
    || equal_fold k (codes "proxy-authorization")

-- The inner loop, over the values of a name.
abbrev add_values : Text → Bool → List Text → Header → Header
add_values k redact [] sanitized = sanitized
add_values k redact (v ∷ vv) sanitized =
    add_values k redact vv (add_header k (if redact then redacted else v) sanitized)

abbrev sanitize : Header → Header → Header
sanitize [] sanitized = sanitized
sanitize ((k, vv) ∷ header) sanitized =
    sanitize header (add_values k (should_redact k) vv sanitized)

unfoldable pub default_header_log_replacer : Header → Header
default_header_log_replacer header = sanitize header []

-- What the log shows of the values of a name.
abbrev pub shown : Bool → List Text → List Text
shown redact [] = []
shown redact (v ∷ vv) = (if redact then codes "*****REDACTED*****" else v) ∷ shown redact vv

-- The values in the header under all spellings of a name.
abbrev pub gathered : Text → Header → List Text
gathered name [] = []
gathered name ((k, vv) ∷ header) =
    let rest = gathered name header in if text_eq (canonical k) name then vv ++ rest else rest

lookup_or-insert {ℓ} :
    {V : Type ℓ} (k j : Text) (d v : V) (m : Assoc V)
    → lookup_or j d (insert k v m) ≡ (if text_eq k j then v else lookup_or j d m)
unfolding lookup_or insert
lookup_or-insert k j d v [] = refl
lookup_or-insert k j d v ((i, w) ∷ m) =
    ground (arith, text_eq_iff k j, text_eq_iff i k, text_eq_iff i j, lookup_or-insert k j d v m)

should_redact-canonical : (k : Text) → should_redact (canonical k) ≡ should_redact k
unfolding should_redact
should_redact-canonical k =
    rw
      (
        equal_fold-canonical k (codes "authorization"),
        equal_fold-canonical k (codes "x-csrf-token"),
        equal_fold-canonical k (codes "proxy-authorization"),
      )
      refl

shown-append :
    (redact : Bool) (xs ys : List Text)
    → shown redact (xs ++ ys) ≡ shown redact xs ++ shown redact ys
shown-append redact [] ys = refl
shown-append redact (x ∷ xs) ys = cc (shown-append redact xs ys)

-- The values under a name.
module _ (name : Text) where
  values-add_header :
      (k v : Text) (h : Header)
      → lookup_or name [] (add_header k v h) ≡ (
          if text_eq (canonical k) name then lookup_or name [] h ++ v ∷ [] else lookup_or name [] h)
  unfolding add_header
  values-add_header k v h =
      lookup_or-insert (canonical k) name [] (lookup_or (canonical k) [] h ++ v ∷ []) h
      ∙ elim (Bool-cases (text_eq (canonical k) name)) [
        | inl e ↦ rw (e, (text_eq_iff (canonical k) name).0 e) refl
        | inr e ↦ rw e refl
      ]

  values-add_values :
      (k : Text) (redact : Bool) (vv : List Text) (h : Header)
      → lookup_or name [] (add_values k redact vv h) ≡ (
          if text_eq (canonical k) name
          then lookup_or name [] h ++ shown redact vv
          else lookup_or name [] h)
  values-add_values k redact [] h = elim (Bool-cases (text_eq (canonical k) name)) [
    | inl e ↦ rw e (sym (append-nil (lookup_or name [] h)))
    | inr e ↦ rw e refl
  ]
  values-add_values k redact (v ∷ vv) h =
      let w = if redact then redacted else v in
      values-add_values k redact vv (add_header k w h)
      ∙ ground (
        arith,
        values-add_header k w h,
        append_assoc (lookup_or name [] h) (w ∷ []) (shown redact vv),
      )

  same_name : (k : Text) → text_eq (canonical k) name ≡ true → should_redact k ≡ should_redact name
  same_name k e =
      sym (should_redact-canonical k) ∙ ap should_redact ((text_eq_iff (canonical k) name).0 e)

  values-sanitize :
      (header h : Header)
      → lookup_or name [] (sanitize header h)
        ≡ lookup_or name [] h ++ shown (should_redact name) (gathered name header)
  values-sanitize [] h = sym (append-nil (lookup_or name [] h))
  values-sanitize ((k, vv) ∷ header) h =
      let rest = gathered name header in
      let flag = should_redact name in
      values-sanitize header (add_values k (should_redact k) vv h)
      ∙ elim (Bool-cases (text_eq (canonical k) name)) [
        | inl e ↦ ground (
          arith,
          e,
          values-add_values k (should_redact k) vv h,
          same_name k e,
          shown-append flag vv rest,
          append_assoc (lookup_or name [] h) (shown flag vv) (shown flag rest),
        )
        | inr e ↦ ground (arith, e, values-add_values k (should_redact k) vv h)
      ]

-- The names whose values are not to be logged, in lower case.
abbrev pub is_secret : Text → Bool
is_secret name =
    text_eq name (codes "authorization")
    || text_eq name (codes "x-csrf-token")
    || text_eq name (codes "proxy-authorization")

should_redact-is_secret :
    (name : Text) → all_ascii name ≡ true → should_redact name ≡ is_secret (lower_case name)
unfolding should_redact
should_redact-is_secret name h =
    rw
      (
        equal_fold-lower_case name (codes "authorization") h,
        equal_fold-lower_case name (codes "x-csrf-token") h,
        equal_fold-lower_case name (codes "proxy-authorization") h,
      )
      refl

-- Under every name in ASCII the log shows as many values as the header has under the spellings of
-- the name, in their order: the text `*****REDACTED*****` for each if the name in lower case is
-- `authorization`, `x-csrf-token` or `proxy-authorization`, and otherwise the values themselves.
pub values-default_header_log_replacer :
    (header : Header) (name : Text)
    → all_ascii name ≡ true
    → lookup_or name [] (default_header_log_replacer header)
      ≡ shown (is_secret (lower_case name)) (gathered name header)
unfolding default_header_log_replacer lookup_or
values-default_header_log_replacer header name ascii =
    values-sanitize name header []
    ∙ ap (λ flag. shown flag (gathered name header)) (should_redact-is_secret name ascii)
