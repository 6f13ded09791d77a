-- ===== src/Pool/Invariant.antt =====
-- What holds of a `HashPool` between two critical sections. `pending` are the ids that some
-- `GetTestDatabase` has received from the channel `ready` without having the lock yet.
pub mod Sections
pub mod Growing
pub mod Workers
pub mod Frames
use integresql.Prelude.{
  ℕ, ◌+◌, ◌≤◌, ◌<◌, ◌≡◌, ◌≢◌, refl, sym, ap, inl, inr, Bool, true, false, some, none, List, [], ◌∷◌,
  ◌++◌, arith, length, get_elem?, set, ◌==◌, Bool-cases, ==_iff, if◌then◌else◌, ltb→lt, ltb→le, ltb,
  Option-cases,
}
use integresql.Prelude.Counting.{count, count-append, length-le_of_count}
use integresql.Prelude.Lists.{
  length-set, get_elem?-set_self, get_elem?-set_ne, get_elem?-lt, get_elem?-of_lt,
}
use integresql.Pool.{
  HashPool, ExistingDb, DbState, db_ready, db_dirty, db_recreating, is_ready, PoolConfig,
  new_hash_pool,
}
use integresql.Database.{Database}
use integresql.Pool.Extend.{new_test_db}
use integresql.Pool.Effects.{Frame, Effect}

-- How many holders of its id a database has among `ready` and `pending`.
abbrev pub weight : DbState → ℕ
weight db_ready = 1
weight _ = 0

abbrev pub tokens : HashPool → List ℕ → ℕ → ℕ
tokens p pending i = count i p.ready + count i pending

pub record Inv (p : HashPool) (pending : List ℕ) : Type 0 where
  pub stored :
      (i : ℕ) (d : ExistingDb)
      → get_elem? p.dbs i ≡ some d
      → (d.test_database ≡ (new_test_db p i).test_database)
        × (d.state ≢ db_recreating)
        × (tokens p pending i ≡ weight d.state)
  pub beyond : (i : ℕ) → length p.dbs ≤ i → (tokens p pending i ≡ 0) × (count i p.dirty ≡ 0)
  pub room : length p.dbs ≤ p.max_pool_size
  pub dirty_room : length p.dirty ≤ p.max_pool_size
  pub capacity : p.dbs_cap ≡ p.max_pool_size
  pub unlocked : p.locked ≡ false
  pub tasks_open : p.tasks_closed ≡ false

-- What a section makes of a pool: the invariant again, with no database lost.
pub record Kept (p q : HashPool) (pending : List ℕ) : Type 0 where
  pub inv : Inv q pending
  pub grown : length p.dbs ≤ length q.dbs

pub Kept-refl : {p : HashPool} {pending : List ℕ} → Inv p pending → Kept p p pending
Kept-refl v = record { inv = v; grown = omega arith }

pub Inv-new : (cfg : PoolConfig) (t : Database) → Inv (new_hash_pool cfg t) []
unfolding new_hash_pool
Inv-new cfg t = record {
  stored = λ i d e. cc;
  beyond = λ i h. (refl, refl);
  room = omega arith;
  dirty_room = omega arith;
  capacity = refl;
  unlocked = refl;
  tasks_open = refl;
}

pub new_test_db-Frame :
    {p q : HashPool}
    → Frame p q
    → (i : ℕ) → (new_test_db q i).test_database ≡ (new_test_db p i).test_database
unfolding new_test_db
new_test_db-Frame f i = cc (f.config, f.template)

-- Every id stands at most once among `ready` and `pending` together.
pub tokens-le_one :
    {p : HashPool} {pending : List ℕ} → Inv p pending → (i : ℕ) → tokens p pending i ≤ 1
tokens-le_one {p} {pending} v i = elim (Option-cases (get_elem? p.dbs i)) [
  | inl out ↦ elim (Bool-cases (ltb i (length p.dbs))) [
    | inl inside ↦ let (d, e) = get_elem?-of_lt p.dbs i (ltb→lt _ _ inside) in absurd (cc (out, e))
    | inr outside ↦ omega (arith, (v.beyond i (ltb→le _ _ outside)).0)
  ]
  | inr (d, e) ↦ ground (arith, v.stored i d e)
]

-- A section that writes one database, which keeps its number and name.
module _ {p q : HashPool} (pending pending' : List ℕ) {ready' dirty' : List ℕ} (i : ℕ)
    (d d' : ExistingDb) (v : Inv p pending) (found : get_elem? p.dbs i ≡ some d)
    (effect : Effect p q (set p.dbs i d') ready' dirty') (same : d'.test_database ≡ d.test_database)
    (state : d'.state ≢ db_recreating) (here : count i ready' + count i pending' ≡ weight d'.state)
    (elsewhere : (j : ℕ)
      → j ≢ i
      → count j ready' + count j pending' ≡ count j p.ready + count j pending)
    (dirt : (j : ℕ) → length p.dbs ≤ j → count j dirty' ≡ 0)
    (fits : length dirty' ≤ p.max_pool_size) where
  written :
      (j : ℕ) (e : ExistingDb)
      → get_elem? q.dbs j ≡ some e
      → (e.test_database ≡ (new_test_db q j).test_database)
        × (e.state ≢ db_recreating)
        × (tokens q pending' j ≡ weight e.state)
  written j e g = elim (Bool-cases (i == j)) [
    | inl at ↦ ground (
      arith,
      v.stored i d found,
      get_elem?-lt p.dbs i d found,
      get_elem?-set_self p.dbs i d',
      new_test_db-Frame effect.frame i,
    )
    | inr off ↦ ground (
      arith,
      v.stored j e,
      get_elem?-set_ne p.dbs i j d',
      elsewhere j,
      new_test_db-Frame effect.frame j,
    )
  ]

  write-Inv : Inv q pending'
  write-Inv = record {
    stored = written;
    beyond = λ j h. ground (
      arith,
      length-set p.dbs i d',
      get_elem?-lt p.dbs i d found,
      v.beyond j,
      elsewhere j,
      dirt j,
    );
    room = ground (arith, length-set p.dbs i d');
    dirty_room = ground arith;
    capacity = ground arith;
    unlocked = ground arith;
    tasks_open = ground arith;
  }

  pub write-Kept : Kept p q pending'
  write-Kept = record { inv = write-Inv; grown = ground (arith, length-set p.dbs i d') }

-- A section that writes no database.
same-Inv :
    {p q : HashPool} (pending pending' : List ℕ) {ready' dirty' : List ℕ}
    → Inv p pending
    → Effect p q p.dbs ready' dirty'
    → ((j : ℕ) → count j ready' + count j pending' ≡ count j p.ready + count j pending)
    → ((j : ℕ) → length p.dbs ≤ j → count j dirty' ≡ 0)
    → length dirty' ≤ p.max_pool_size
    → Inv q pending'
same-Inv {p} {q} pending pending' v effect bag dirt fits = record {
  stored = λ j e g. ground (arith, v.stored j e, bag j, new_test_db-Frame effect.frame j);
  beyond = λ j h. ground (arith, v.beyond j, bag j, dirt j);
  room = ground arith;
  dirty_room = ground arith;
  capacity = ground arith;
  unlocked = ground arith;
  tasks_open = ground arith;
}

pub same-Kept :
    {p q : HashPool} (pending pending' : List ℕ) {ready' dirty' : List ℕ}
    → Inv p pending
    → Effect p q p.dbs ready' dirty'
    → ((j : ℕ) → count j ready' + count j pending' ≡ count j p.ready + count j pending)
    → ((j : ℕ) → length p.dbs ≤ j → count j dirty' ≡ 0)
    → length dirty' ≤ p.max_pool_size
    → Kept p q pending'
same-Kept pending pending' v effect bag dirt fits = record {
  inv = same-Inv pending pending' v effect bag dirt fits;
  grown = ground arith;
}
