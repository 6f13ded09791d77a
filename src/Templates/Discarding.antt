-- ===== src/Templates/Discarding.antt =====
-- How a change of state is seen by the holders of pointers.
use integresql.Prelude.{
  ℕ, ◌≡◌, ◌≢◌, refl, ◌∙◌, inl, inr, none, some, List, [], ◌∷◌, Text, get_elem?, arith, ◌==◌,
  Bool-cases, Option-cases,
}
use integresql.Prelude.Assoc.{Assoc, lookup}
use integresql.Prelude.Lists.{get_elem?-set_self, get_elem?-set_ne, get_elem?-lt}
use integresql.Templates.{
  Template, Collection, template_init, template_discarded, template_finalized, set_state, fetch,
  discard_each, remove_all, state_code, TemplateState,
}

abbrev pub discarded : Template → Template
discarded t = record t { state = template_discarded }

discarded-of : (t : Template) (s : TemplateState) → t.state ≡ s → state_code s ≡ 1 → t ≡ discarded t
discarded-of t template_init e h = absurd (omega (arith, h))
discarded-of t template_discarded e h = ground arith
discarded-of t template_finalized e h = absurd (omega (arith, h))

discarded-already : (t : Template) → state_code t.state ≡ 1 → t ≡ discarded t
discarded-already t h = discarded-of t t.state refl h

-- `SetState` to `discarded`, seen at that address and at any other.
pub set_state_self :
    (b : ℕ) (heap : List Template) (t : Template)
    → get_elem? heap b ≡ some t
    → get_elem? (set_state b template_discarded heap) b ≡ some (discarded t)
unfolding set_state
set_state_self b heap t e =
    ground (
      arith,
      discarded-already t,
      get_elem?-set_self heap b (discarded t) (get_elem?-lt heap b t e),
    )

set_state-ne :
    (a b : ℕ) (heap : List Template)
    → a ≢ b
    → get_elem? (set_state a template_discarded heap) b ≡ get_elem? heap b
unfolding set_state
set_state-ne a b heap ne = elim (Option-cases (get_elem? heap a)) [
  | inl e ↦ ground arith
  | inr (t, e) ↦ ground (arith, get_elem?-set_ne heap a b (discarded t) ne)
]

discard_each-keeps :
    (m : Assoc ℕ) (b : ℕ) (heap : List Template) (t : Template)
    → get_elem? heap b ≡ some (discarded t)
    → get_elem? (discard_each m heap) b ≡ some (discarded t)
unfolding discard_each
discard_each-keeps [] b heap t e = e
discard_each-keeps ((k, a) ∷ m) b heap t e =
    discard_each-keeps m b (set_state a template_discarded heap) t (elim (Bool-cases (a == b)) [
      | inl same ↦ ground (arith, set_state_self b heap (discarded t) e)
      | inr other ↦ set_state-ne a b heap (ground arith) ∙ e
    ])

discard_each-discards :
    (m : Assoc ℕ) (k : Text) (b : ℕ) (heap : List Template) (t : Template)
    → lookup k m ≡ some b
    → get_elem? heap b ≡ some t
    → get_elem? (discard_each m heap) b ≡ some (discarded t)
unfolding discard_each lookup
discard_each-discards [] k b heap t l e = absurd cc
discard_each-discards ((j, a) ∷ m) k b heap t l e = elim (Bool-cases (a == b)) [
  | inl same ↦
      let same_address : a ≡ b = ground arith in
      discard_each-keeps m b _ t (rw same_address (set_state_self b heap t e))
  | inr other ↦
      discard_each-discards m k b _ t (ground arith) (set_state-ne a b heap (ground arith) ∙ e)
]

-- After `RemoveAll` no hash leads to a template, and whoever holds a pointer to one that was in
-- the collection sees it discarded.
pub remove_all-discards :
    (c : Collection) (hash j : Text) (a : ℕ) (t : Template)
    → fetch c hash ≡ some (a, t)
    → (get_elem? (remove_all c).heap a ≡ some (discarded t)) × (fetch (remove_all c) j ≡ none)
unfolding remove_all fetch lookup
remove_all-discards c hash j a t e = elim (Option-cases (lookup hash c.templates)) [
  | inl l ↦ absurd (ground arith)
  | inr (b, l) ↦
      let same : b ≡ a = ground arith in
      (discard_each-discards c.templates hash a c.heap t (ground arith) (ground arith), refl)
]

set_state-init :
    (a : ℕ) (heap : List Template) (t : Template)
    → get_elem? heap a ≡ some t
    → t.state ≡ template_init
    → get_elem? (set_state a template_finalized heap) a
      ≡ some (record t { state = template_finalized })
unfolding set_state
set_state-init a heap t e s = ground (
  arith,
  get_elem?-set_self heap a (record t { state = template_finalized }) (get_elem?-lt heap a t e),
)

-- A template that is finalised is found so.
pub fetch-set_state :
    (c : Collection) (hash : Text) (a : ℕ) (t : Template)
    → fetch c hash ≡ some (a, t)
    → t.state ≡ template_init
    → fetch (record c { heap = set_state a template_finalized c.heap }) hash
      ≡ some (a, record t { state = template_finalized })
unfolding fetch
fetch-set_state c hash a t e s = elim (Option-cases (lookup hash c.templates)) [
  | inl l ↦ absurd (ground arith)
  | inr (b, l) ↦
      let same : b ≡ a = ground arith in
      let at : get_elem? c.heap a ≡ some t = ground arith in
      let after = set_state-init a c.heap t at s in ground arith
]
