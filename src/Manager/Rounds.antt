-- ===== src/Manager/Rounds.antt =====
-- Initialise a template, finalise it, and try either again.
use integresql.Prelude.{
  ℕ, ◌≡◌, refl, sym, ◌∙◌, inl, inr, true, some, Text, arith, Option-cases, Bool-cases,
}
use integresql.Errors.{
  Result, ok, err, template_already_initialized, Outcome, done, ◌>>=◌, >>=-eq-done,
}
use integresql.Database.{Database}
use integresql.Pool.{HashPool}
use integresql.Templates.{
  Template, Collection, template_init, template_finalized, new_template, set_state, fetch, push,
}
use integresql.Templates.Sharing.{InHeap, push_lem, equals_refl}
use integresql.Templates.Discarding.{fetch-set_state}
use integresql.Pools.{PoolCollection, init_hash_pool, remove_all_with_hash}
use integresql.Manager.{Manager, Postgres}
use integresql.Manager.Statements.{drop_and_create_database, drop_test_pool_db}
use integresql.Manager.Calls.{template_config, initialized, initialize_template_database}
use integresql.Manager.Requests.{finalize_locked, finalize_template_database}

-- What a call of `InitializeTemplateDatabase` that succeeds has done.
record Initialised (hash : Text) (m n : Manager) (db : Database) : Type 0 where
  connected : n.connected ≡ true
  added : (push hash (template_config m hash) m.templates).0 ≡ true
  templates : n.templates ≡ (push hash (template_config m hash) m.templates).1
  config : n.config ≡ m.config
  database : db ≡ record { template_hash = hash; config = template_config m hash }

initialized-Initialised :
    (hash : Text) (m n : Manager) (db : Database) (r : PoolCollection × Result (Unit {0}))
    → m.connected ≡ true
    → (push hash (template_config m hash) m.templates).0 ≡ true
    → initialized hash
        (template_config m hash)
        (record m { templates = (push hash (template_config m hash) m.templates).1 })
        r
      ≡ (n, ok db)
    → Initialised hash m n db
unfolding initialized
initialized-Initialised hash m n db (pools, ok u) up new h = ground arith
initialized-Initialised hash m n db (pools, err e) up new h = ground arith

abbrev fresh_collection : Text → Manager → Collection
fresh_collection hash m = (push hash (template_config m hash) m.templates).1

abbrev finish_initialize :
    Text → Manager → PoolCollection × Result (Unit {0}) → Outcome (Manager × Result Database)
finish_initialize hash m r =
    done (
      initialized hash (template_config m hash) (record m { templates = fresh_collection hash m })
        r)

created :
    (pg : Postgres) (quiesce : HashPool → HashPool) (hash : Text) (m n : Manager) (db : Database)
    → m.connected ≡ true
    → (push hash (template_config m hash) m.templates).0 ≡ true
    → (remove_all_with_hash quiesce (drop_test_pool_db pg) hash m.pools
        >>= finish_initialize hash m)
      ≡ done (n, ok db)
    → Initialised hash m n db
created pg quiesce hash m n db up new h =
    let (r, removed, rest) =
      >>=-eq-done (remove_all_with_hash quiesce (drop_test_pool_db pg) hash m.pools)
        (finish_initialize hash m) h in
    initialized-Initialised hash m n db r up new (ground arith)

initialize-Initialised :
    (pg : Postgres) (quiesce : HashPool → HashPool) (hash : Text) (m n : Manager) (db : Database)
    → initialize_template_database pg quiesce hash m ≡ done (n, ok db)
    → Initialised hash m n db
unfolding initialize_template_database
initialize-Initialised pg quiesce hash m n db h = elim (Bool-cases m.connected) [
  | inr down ↦ absurd (ground arith)
  | inl up ↦ elim (Bool-cases (push hash (template_config m hash) m.templates).0) [
    | inr old ↦ absurd (ground arith)
    | inl new ↦
        elim (Option-cases (
          drop_and_create_database pg m (template_config m hash).database
            m.config.manager_database_config.username m.config.template_database_template)) [
              | inr (e, refused) ↦ absurd (ground arith)
              | inl made ↦ created pg quiesce hash m n db up new (ground arith)
            ]
  ]
]

abbrev finalised : Template → Template
finalised t = record t { state = template_finalized }

abbrev sealing : ℕ → Template → Manager → PoolCollection → Outcome (Manager × Result Database)
unfolding set_state
sealing a t m pools = done (
  record m {
    pools = pools;
    templates = record m.templates { heap = set_state a template_finalized m.templates.heap };
  },
  ok t.database,
)

-- What a call of `FinalizeTemplateDatabase` on a new template has done.
record Sealed (hash : Text) (a : ℕ) (t : Template) (m n : Manager) (fin : Database) : Type 0 where
  connected : n.connected ≡ true
  config : n.config ≡ m.config
  database : fin ≡ t.database
  found : fetch n.templates hash ≡ some (a, finalised t)

finalize-Sealed :
    (hash : Text) (a : ℕ) (t : Template) (m n : Manager) (fin : Database)
    → m.connected ≡ true
    → fetch m.templates hash ≡ some (a, t)
    → t.state ≡ template_init
    → finalize_template_database hash m ≡ done (n, ok fin)
    → Sealed hash a t m n fin
unfolding finalize_template_database finalize_locked sealing set_state
finalize-Sealed hash a t m n fin up e s h =
    let run : (init_hash_pool t.database m.pools >>= sealing a t m) ≡ done (n, ok fin) =
      ground arith in
    let (pools, started, same) =
      >>=-eq-done (init_hash_pool t.database m.pools) (sealing a t m) run in
    ground (arith, fetch-set_state m.templates hash a t e s)

-- Both calls on a template that is finalised already.
again :
    (pg : Postgres) (quiesce : HashPool → HashPool) (hash : Text) (o : Manager) (a : ℕ)
    (t : Template)
    → o.connected ≡ true
    → fetch o.templates hash ≡ some (a, finalised t)
    → t.template_config ≡ template_config o hash
    → (finalize_template_database hash o ≡ done (o, err template_already_initialized))
      × (initialize_template_database pg quiesce hash o
          ≡ done (o, err template_already_initialized))
unfolding finalize_template_database finalize_locked initialize_template_database push
again pg quiesce hash o a t up e same =
    (ground arith, ground (arith, equals_refl (template_config o hash)))

fresh-state :
    (hash : Text) (m : Manager) → (new_template hash (template_config m hash)).state ≡ template_init
unfolding new_template
fresh-state hash m = refl

fresh-database :
    (hash : Text) (m : Manager)
    → (new_template hash (template_config m hash)).database
      ≡ record { template_hash = hash; config = template_config m hash }
unfolding new_template
fresh-database hash m = refl

same_config :
    (hash : Text) (m o : Manager)
    → o.config ≡ m.config
    → (new_template hash (template_config m hash)).template_config ≡ template_config o hash
unfolding new_template template_config integresql.Manager.Statements.make_template_database_name
same_config hash m o e = ground arith

-- When a template has been initialised and then finalised, the second call reports the database
-- that the first one created, and from then on either call fails with the error for a template that
-- is initialised already, and changes nothing.
pub initialize-then-finalize :
    (pg : Postgres) (quiesce : HashPool → HashPool) (hash : Text) (m n o : Manager)
    (db fin : Database)
    → InHeap m.templates
    → initialize_template_database pg quiesce hash m ≡ done (n, ok db)
    → finalize_template_database hash n ≡ done (o, ok fin)
    → (fin ≡ db)
      × (finalize_template_database hash o ≡ done (o, err template_already_initialized))
      × (initialize_template_database pg quiesce hash o
          ≡ done (o, err template_already_initialized))
initialize-then-finalize pg quiesce hash m n o db fin v h g =
    let first = initialize-Initialised pg quiesce hash m n db h in
    let p = push_lem hash (template_config m hash) m.templates v in
    let t = new_template hash (template_config m hash) in
    let found : fetch n.templates hash ≡ some (p.address, t) =
      cc (first.templates, p.found, p.fresh first.added) in
    let second =
      finalize-Sealed hash p.address t n o fin first.connected found (fresh-state hash m) g in
    let (x, y) =
      again pg quiesce hash o p.address t second.connected second.found
        (same_config hash m o (second.config ∙ first.config)) in
    (second.database ∙ fresh-database hash m ∙ sym first.database, x, y)
