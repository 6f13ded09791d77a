-- ===== src/Pool/System/Safety.antt =====
-- What holds in every reachable state of a running pool.
use integresql.Prelude.{ℕ, ◌≤◌, ◌<◌, refl, subst, true, false, none, some, List, [], arith, length}
use integresql.Errors.{ok}
use integresql.Database.{Database}
use integresql.Pool.{HashPool, PoolConfig, open_context, new_hash_pool}
use integresql.Pool.Effects.Starting.{start-Effect}
use integresql.Pool.Invariant.{Inv, Inv-new, Kept, Kept-refl, same-Kept}
use integresql.Pool.Invariant.Sections.{
  receive-Kept, take_locked-Kept, return_test_database-Kept, move_to_ready-Kept,
}
use integresql.Pool.Invariant.Workers.{
  enter_recreating-Kept, leave_recreating-Kept, begin_recreate-Kept, recreate_test_database-Kept,
  receive_task-Kept, fetch-Kept,
}
use integresql.Pool.Invariant.Growing.{append_db-Kept, append_db-index}
use integresql.Pool.System.{
  Worker, idle, fetched, sleeping, starting, marked, trying, finishing, leaving, System, put, Step,
  receive, take, give, request, receive_task, grow, fetch, clean_now, clean_later, wake, begin,
  skip, enter, recreate, fail, finish, leave, Reach, started, later,
}

-- The id that a worker carries is that of a database, once it has been checked.
abbrev pub InRange : ℕ → Worker → Type 0
InRange n idle = Unit {0}
InRange n (fetched id) = id < n
InRange n (sleeping id generation) = id < n
InRange n (starting id) = id < n
InRange n (marked id) = id < n
InRange n (trying id) = id < n
InRange n (finishing id) = id < n
InRange n leaving = Unit {0}

InRange-mono : {m n : ℕ} (w : Worker) → m ≤ n → InRange m w → InRange n w
InRange-mono idle h r = tt
InRange-mono (fetched id) h r = omega arith
InRange-mono (sleeping id generation) h r = omega arith
InRange-mono (starting id) h r = omega arith
InRange-mono (marked id) h r = omega arith
InRange-mono (trying id) h r = omega arith
InRange-mono (finishing id) h r = omega arith
InRange-mono leaving h r = tt

pub record SystemInv (s : System) : Type 0 where
  pub pool_inv : Inv s.pool s.pending
  pub in_range : (j : ℕ) → InRange (length s.pool.dbs) (s.workers j)

module _ {s : System} (v : SystemInv s) where
  -- A step that leaves the workers alone.
  quiet :
      {p : HashPool} {pending : List ℕ}
      → Kept s.pool p pending
      → SystemInv (record s { pool = p; pending = pending })
  quiet k = record {
    pool_inv = k.inv;
    in_range = λ j. InRange-mono (s.workers j) k.grown (v.in_range j);
  }

  -- A step of worker `j`.
  moved :
      {p : HashPool} (j : ℕ) (w : Worker)
      → Kept s.pool p s.pending
      → InRange (length p.dbs) w
      → SystemInv (put s p j w)
  moved j w k r = record {
    pool_inv = k.inv;
    in_range = λ i. ground (arith, InRange-mono (s.workers i) k.grown (v.in_range i));
  }

Step-SystemInv : {s t : System} → Step s t → SystemInv s → SystemInv t
Step-SystemInv {s} (receive i rest e) v = quiet v (receive-Kept s.pending i rest v.pool_inv e)
Step-SystemInv {s} (take now xs i ys p r e h) v =
    quiet v (take_locked-Kept now xs i ys p r (subst (Inv s.pool) e v.pool_inv) h)
Step-SystemInv {s} (give ctx_err id p r h) v =
    quiet v (return_test_database-Kept s.pending ctx_err id p r v.pool_inv h)
Step-SystemInv {s} (request ctx_err id p g j h w) v =
    let (k, lt) = recreate_test_database-Kept s.pending v.pool_inv ctx_err id g h in
    moved v j (starting g.id) k lt
Step-SystemInv {s} (receive_task t rest e) v = quiet v (receive_task-Kept s.pending v.pool_inv rest)
Step-SystemInv {s} (grow p index j h w) v =
    moved v j (starting index) (append_db-Kept s.pending p (ok index) v.pool_inv h)
      (append_db-index s.pending p index v.pool_inv h)
Step-SystemInv {s} (fetch i rest j e w) v =
    let (k, lt) = fetch-Kept s.pending v.pool_inv i rest e in moved v j (fetched i) k lt
Step-SystemInv {s} (clean_now now i j w h) v =
    moved v j (starting i) (Kept-refl v.pool_inv) (subst (InRange _) w (v.in_range j))
Step-SystemInv {s} (clean_later now i j time generation w h) v =
    moved v j (sleeping i generation) (Kept-refl v.pool_inv) (subst (InRange _) w (v.in_range j))
Step-SystemInv {s} (wake i j generation true w h) v =
    moved v j (starting i) (Kept-refl v.pool_inv) (subst (InRange _) w (v.in_range j))
Step-SystemInv {s} (wake i j generation false w h) v = moved v j idle (Kept-refl v.pool_inv) tt
Step-SystemInv {s} (begin i j p d w h) v =
    let k = begin_recreate-Kept s.pending v.pool_inv open_context i (ok (some d)) h in
    moved v j (marked i) k (InRange-mono (marked i) k.grown (subst (InRange _) w (v.in_range j)))
Step-SystemInv {s} (skip i j p w h) v =
    moved v j idle (begin_recreate-Kept s.pending v.pool_inv open_context i (ok none) h) tt
Step-SystemInv {s} (enter i j p w h) v =
    let k = enter_recreating-Kept s.pending v.pool_inv h in
    moved v j (trying i) k (InRange-mono (trying i) k.grown (subst (InRange _) w (v.in_range j)))
Step-SystemInv {s} (recreate i j w) v =
    moved v j (finishing i) (Kept-refl v.pool_inv) (subst (InRange _) w (v.in_range j))
Step-SystemInv {s} (fail i j w) v = moved v j leaving (Kept-refl v.pool_inv) tt
Step-SystemInv {s} (finish i j p r w h) v =
    moved v j leaving
      (move_to_ready-Kept s.pending i p r v.pool_inv (subst (InRange _) w (v.in_range j)) h) tt
Step-SystemInv {s} (leave j p w h) v =
    moved v j idle (leave_recreating-Kept s.pending v.pool_inv h) tt

-- Whatever clients and workers do, and however their critical sections interleave, a started pool
-- keeps its invariant: each id stands at most once among the ready ids and the ids on the way to a
-- client, exactly where its database is ready; every database has the number and the name of its
-- place; no database is ever in the state `recreating`; no id of a worker or in a channel is out
-- of range; and there are at most `MaxPoolSize` databases.
pub Reach-SystemInv :
    {cfg : PoolConfig} {template : Database} {s : System} → Reach cfg template s → SystemInv s
unfolding new_hash_pool
Reach-SystemInv {cfg} {template} (started p h) = record {
  pool_inv =
      (same-Kept [] [] (Inv-new cfg template) (start-Effect (new_hash_pool cfg template) p h)
        (λ j. refl) (λ j le. refl) (omega arith)).inv;
  in_range = λ j. tt;
}
Reach-SystemInv (later r st) = Step-SystemInv st (Reach-SystemInv r)
