-- ===== src/Templates.antt =====
-- pkg/templates/template.go and pkg/templates/template_collection.go. The collection holds pointers:
-- a template that has left it is still seen by whoever fetched it before. So templates live on a
-- heap, and the collection maps a hash to an address.
pub mod Sharing
pub mod Discarding
pub mod Waiting
use integresql.Prelude.{
  ℕ, ◌+◌, ◌≡◌, Bool, true, false, Option, none, some, List, [], ◌∷◌, ◌++◌, Text, text_eq, length,
  get_elem?, set, ◌==◌, if◌then◌else◌,
}
use integresql.Prelude.Assoc.{Assoc, lookup, remove, insert}
use integresql.Database.{DatabaseConfig, Database, connection_string}

pub data TemplateState : Type 0 where
  template_init : TemplateState
  template_discarded : TemplateState
  template_finalized : TemplateState

abbrev pub state_code : TemplateState → ℕ
state_code template_init = 0
state_code template_discarded = 1
state_code template_finalized = 2

pub record Template : Type 0 where
  pub template_config : DatabaseConfig
  pub database : Database
  pub state : TemplateState

unfoldable pub new_template : Text → DatabaseConfig → Template
new_template hash config = record {
  template_config = config;
  database = record { template_hash = hash; config = config };
  state = template_init;
}

unfoldable pub equals : DatabaseConfig → DatabaseConfig → Bool
equals c other = text_eq (connection_string c) (connection_string other)

pub record Collection : Type 0 where
  pub heap : List Template
  pub templates : Assoc ℕ

unfoldable pub new_collection : Collection
new_collection = record { heap = []; templates = [] }

-- `SetState`, of a `Template` and of a `LockedTemplate`; the lock is free.
unfoldable pub set_state : ℕ → TemplateState → List Template → List Template
set_state a new_state heap = elim (get_elem? heap a) [
  | none ↦ heap
  | some t ↦
      if state_code t.state == state_code new_state
      then heap
      else set heap a (record t { state = new_state })
]

-- `WaitUntilFinalized`: `woken` is the state that the waiter reads when the condition wakes it, or
-- nothing if the time is up first.
unfoldable pub wait_until_finalized : Option TemplateState → TemplateState → TemplateState
wait_until_finalized woken template_finalized = template_finalized
wait_until_finalized none current = current
wait_until_finalized (some new_state) current = new_state

-- The template behind an address of the map.
unfoldable pub fetch : Collection → Text → Option (ℕ × Template)
fetch c hash = elim (lookup hash c.templates) [
  | none ↦ none
  | some a ↦ elim (get_elem? c.heap a) [ none ↦ none | some t ↦ some (a, t) ]
]

-- `tc.templates[hash] = NewTemplate(hash, config)`
unfoldable pub add : Text → DatabaseConfig → Collection → Collection
unfolding new_template
add hash config c = record {
  heap = c.heap ++ new_template hash config ∷ [];
  templates = insert hash (length c.heap) c.templates;
}

-- `Push`; the lock is held until the caller's `unlock`.
unfoldable pub push : Text → DatabaseConfig → Collection → Bool × Collection
unfolding fetch add equals
push hash config c = elim (fetch c hash) [
  | none ↦ (true, add hash config c)
  | some (a, t) ↦ if equals t.template_config config then (false, c) else (true, add hash config c)
]

unfoldable pub remove_unsafe : Text → Collection → Collection
remove_unsafe hash c = record c { templates = remove hash c.templates }

-- `Pop`
unfoldable pub pop : Text → Collection → Option (ℕ × Template) × Collection
unfolding fetch remove_unsafe
pop hash c = elim (fetch c hash) [
  | none ↦ (none, c)
  | some found ↦ (some found, remove_unsafe hash c)
]

-- The loop of `RemoveAll`; every entry is deleted as it is visited.
unfoldable pub discard_each : Assoc ℕ → List Template → List Template
unfolding set_state
discard_each [] heap = heap
discard_each ((hash, a) ∷ m) heap = discard_each m (set_state a template_discarded heap)

unfoldable pub remove_all : Collection → Collection
unfolding discard_each
remove_all c = record { heap = discard_each c.templates c.heap; templates = [] }
