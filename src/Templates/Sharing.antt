-- ===== src/Templates/Sharing.antt =====
-- What the holders of pointers see when a collection of templates changes.
use integresql.Prelude.{
  subst, sym, ◌∙◌, ap, ℕ, ◌+◌, ◌<◌, ◌≡◌, refl, inl, inr, Bool, true, false, none, some, [], ◌∷◌,
  Text, text_eq, text_eq_refl, length, get_elem?, arith, if◌then◌else◌, Bool-cases, Option-cases,
}
use integresql.Prelude.Assoc.{Assoc, lookup, lookup-insert, insert}
use integresql.Prelude.Lists.{length-append, get_elem?-append_lt, get_elem?-append_length}
use integresql.Database.{connection_string, DatabaseConfig}
use integresql.Templates.{Template, Collection, new_template, equals, fetch, add, push}

-- Every address of the map is one of the heap.
pub record InHeap (c : Collection) : Type 0 where
  pub below : (hash : Text) (a : ℕ) → lookup hash c.templates ≡ some a → a < length c.heap

-- What `Push` is to make of a collection.
pub record Pushed (hash : Text) (config : DatabaseConfig) (c : Collection) (r : Bool × Collection)
    : Type 0 where
  pub address : ℕ
  pub template : Template
  pub found : fetch r.1 hash ≡ some (address, template)
  pub same_config : equals template.template_config config ≡ true
  pub matched :
      (a : ℕ) (t : Template)
      → fetch c hash ≡ some (a, t)
      → equals t.template_config config ≡ true
      → r.0 ≡ false
  pub fresh : r.0 ≡ true → template ≡ new_template hash config
  pub kept : r.0 ≡ false → r.1 ≡ c
  pub others : (j : Text) → text_eq hash j ≡ false → fetch r.1 j ≡ fetch c j
  pub held : (a : ℕ) → a < length c.heap → get_elem? r.1.heap a ≡ get_elem? c.heap a
  pub in_heap : InHeap r.1

grown-below :
    (hash k : Text) (a n : ℕ) (m : Assoc ℕ)
    → ((j : Text) (b : ℕ) → lookup j m ≡ some b → b < n)
    → lookup k (insert hash n m) ≡ some a
    → a < n + 1
grown-below hash k a n m h e = ground (arith, lookup-insert hash k n m, h k a)

add-InHeap :
    (hash : Text) (config : DatabaseConfig) (c : Collection) → InHeap c → InHeap (add hash config c)
unfolding add
add-InHeap hash config c v = record {
  below = λ k a e. omega (
    arith,
    grown-below hash k a (length c.heap) c.templates v.below e,
    length-append c.heap (new_template hash config ∷ []),
  );
}

add-found :
    (hash : Text) (config : DatabaseConfig) (c : Collection)
    → fetch (add hash config c) hash ≡ some (length c.heap, new_template hash config)
unfolding add fetch
add-found hash config c = ground (
  arith,
  lookup-insert hash hash (length c.heap) c.templates,
  text_eq_refl hash,
  get_elem?-append_length c.heap [] (new_template hash config),
)

add-others :
    (hash : Text) (config : DatabaseConfig) (c : Collection) (j : Text)
    → InHeap c
    → text_eq hash j ≡ false
    → fetch (add hash config c) j ≡ fetch c j
unfolding add fetch
add-others hash config c j v ne =
    let same : lookup j (insert hash (length c.heap) c.templates) ≡ lookup j c.templates =
      ground (arith, lookup-insert hash j (length c.heap) c.templates) in
    elim (Option-cases (lookup j c.templates)) [
      | inl e ↦ ground arith
      | inr (a, e) ↦
          ground
            (arith, get_elem?-append_lt c.heap (new_template hash config ∷ []) a (v.below j a e))
    ]

pub equals_refl : (c : DatabaseConfig) → equals c c ≡ true
unfolding equals
equals_refl c = text_eq_refl (connection_string c)

add-Pushed :
    (hash : Text) (config : DatabaseConfig) (c : Collection)
    → InHeap c
    → ((a : ℕ) (t : Template)
        → fetch c hash ≡ some (a, t)
        → equals t.template_config config ≡ true
        → true ≡ false)
    → Pushed hash config c (true, add hash config c)
unfolding add
add-Pushed hash config c v new = record {
  address = length c.heap;
  template = new_template hash config;
  found = add-found hash config c;
  same_config = equals_refl config;
  matched = new;
  fresh = λ _. refl;
  kept = λ e. absurd cc;
  others = λ j. add-others hash config c j v;
  held = λ a. get_elem?-append_lt c.heap (new_template hash config ∷ []) a;
  in_heap = add-InHeap hash config c v;
}

same-Pushed :
    (hash : Text) (config : DatabaseConfig) (c : Collection) (a : ℕ) (t : Template)
    → InHeap c
    → fetch c hash ≡ some (a, t)
    → equals t.template_config config ≡ true
    → Pushed hash config c (false, c)
same-Pushed hash config c a t v e same = record {
  address = a;
  template = t;
  found = e;
  same_config = same;
  matched = λ _ _ _ _. refl;
  fresh = λ h. absurd cc;
  kept = λ _. refl;
  others = λ j h. refl;
  held = λ b h. refl;
  in_heap = v;
}

unmatched :
    (hash : Text) (config : DatabaseConfig) (c : Collection) (a b : ℕ) (t u : Template)
    → fetch c hash ≡ some (a, t)
    → fetch c hash ≡ some (b, u)
    → equals t.template_config config ≡ false
    → equals u.template_config config ≡ true
    → true ≡ false
unmatched hash config c a b t u e f other g =
    let pair : (a, t) ≡ (b, u) = cc (e, f) in
    sym g ∙ ap (λ (x : ℕ × Template). equals x.1.template_config config) (sym pair) ∙ other

push-eq_add :
    (hash : Text) (config : DatabaseConfig) (c : Collection)
    → fetch c hash ≡ none
    → (true, add hash config c) ≡ push hash config c
unfolding push
push-eq_add hash config c e = ground arith

push-eq :
    (hash : Text) (config : DatabaseConfig) (c : Collection) (a : ℕ) (t : Template) (same : Bool)
    → fetch c hash ≡ some (a, t)
    → equals t.template_config config ≡ same
    → (if same then (false, c) else (true, add hash config c)) ≡ push hash config c
unfolding push
push-eq hash config c a t same e h = ground arith

-- `Push` reports false if the hash leads to a template with the connection string that is asked
-- for, and then nothing changes; otherwise it reports true, and the hash leads to a new template of
-- that configuration, in the state `init`. No other hash is touched, and a template that was
-- overwritten stays as it was for whoever holds it. This is for a map whose addresses are in the heap.
pub push_lem :
    (hash : Text) (config : DatabaseConfig) (c : Collection)
    → InHeap c
    → Pushed hash config c (push hash config c)
push_lem hash config c v = elim (Option-cases (fetch c hash)) [
  | inl e ↦
      subst (Pushed hash config c) (push-eq_add hash config c e)
        (add-Pushed hash config c v (λ b u f g. absurd cc (e, f)))
  | inr ((a, t), e) ↦ elim (Bool-cases (equals t.template_config config)) [
    | inl same ↦
        subst (Pushed hash config c) (push-eq hash config c a t true e same)
          (same-Pushed hash config c a t v e same)
    | inr other ↦
        subst (Pushed hash config c) (push-eq hash config c a t false e other)
          (add-Pushed hash config c v (λ b u f g. unmatched hash config c a b t u e f other g))
  ]
]
