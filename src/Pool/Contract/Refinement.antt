-- ===== src/Pool/Contract/Refinement.antt =====
-- Every run of a pool is one that the contract allows.
use integresql.Prelude.{ℕ, ◌≡◌, refl, sym, ap, ◌∙◌, subst, none, some, List, [], ◌∷◌, ◌++◌, arith}
use integresql.Errors.{Result, ok, done}
use integresql.Database.{Database, TestDatabase}
use integresql.Pool.{HashPool, PoolConfig, open_context, new_hash_pool}
use integresql.Pool.Take.{take_locked}
use integresql.Pool.Extend.{new_test_db}
use integresql.Pool.Lifecycle.{start}
use integresql.Pool.Effects.{Frame}
use integresql.Pool.Effects.Starting.{start-Effect}
use integresql.Pool.Effects.Moving.{begin_recreate-unchanged}
use integresql.Pool.Invariant.{Inv, new_test_db-Frame}
use integresql.Pool.Invariant.Frames.{
  take_locked-Frame, return_test_database-Frame, move_to_ready-Frame, append_db-Frame,
  recreate_test_database-Same, enter_recreating-Same, leave_recreating-Same, Frame-trans,
}
use integresql.Pool.System.{
  System, Step, receive, take, give, request, receive_task, grow, fetch, clean_now, clean_later,
  wake, begin, skip, enter, recreate, fail, finish, leave, Reach, started, later,
}
use integresql.Pool.System.Safety.{InRange, SystemInv, Reach-SystemInv}
use integresql.Pool.Contract.{Internal, Allows, opened, internally, serving}
use integresql.Pool.Contract.Simulation.{
  shelf, same-Internal, give-Internal, finish-Internal, grow-Internal, take-Serving,
}

-- The answers of the calls of `GetTestDatabase` that have got an id, latest first.
pub answered : {s t : System} → Step s t → List (Result TestDatabase) → List (Result TestDatabase)
answered (take now xs i ys p r e h) before = r ∷ before
answered (receive i rest e) before = before
answered (give ctx_err id p r h) before = before
answered (request ctx_err id p g j h w) before = before
answered (receive_task t rest e) before = before
answered (grow p index j h w) before = before
answered (fetch i rest j e w) before = before
answered (clean_now now i j w h) before = before
answered (clean_later now i j time generation w h) before = before
answered (wake i j generation same w h) before = before
answered (begin i j p d w h) before = before
answered (skip i j p w h) before = before
answered (enter i j p w h) before = before
answered (recreate i j w) before = before
answered (fail i j w) before = before
answered (finish i j p r w h) before = before
answered (leave j p w h) before = before

pub answers :
    {cfg : PoolConfig} {template : Database} {s : System}
    → Reach cfg template s
    → List (Result TestDatabase)
unfolding answered
answers (started p h) = []
answers (later r st) = answered st (answers r)

-- The database of a number, with its name.
abbrev pub test_database_of : PoolConfig → Database → ℕ → TestDatabase
test_database_of cfg template i = (new_test_db (new_hash_pool cfg template) i).test_database

module _ (cfg : PoolConfig) (template : Database) where
  record Refined (before : List (Result TestDatabase)) (p : HashPool) : Type 0 where
    frame : Frame (new_hash_pool cfg template) p
    allowed : Allows (test_database_of cfg template) cfg.max_pool_size before (shelf p)

  max_kept :
      (p : HashPool) → Frame (new_hash_pool cfg template) p → p.max_pool_size ≡ cfg.max_pool_size
  unfolding new_hash_pool
  max_kept p f = ground arith

  started-Refined : (p : HashPool) → start (new_hash_pool cfg template) ≡ done p → Refined [] p
  unfolding new_hash_pool
  started-Refined p h =
      let effect = start-Effect (new_hash_pool cfg template) p h in
      record { frame = effect.frame; allowed = opened (shelf p) (ground arith) (λ j. ground arith) }

  unseen :
      {before : List (Result TestDatabase)} {p q : HashPool}
      → Refined before p
      → Frame p q
      → Internal p.max_pool_size (shelf p) (shelf q)
      → Refined before q
  unseen {before} {p} {q} r f step = record {
    frame = Frame-trans r.frame f;
    allowed =
        internally r.allowed
          (subst (λ m. Internal m (shelf p) (shelf q)) (max_kept p r.frame) step);
  }

  unchanged :
      {before : List (Result TestDatabase)} {p q : HashPool}
      → Refined before p
      → Frame p q
      → q.dbs ≡ p.dbs
      → Refined before q
  unchanged {before} {p} {q} r f e = unseen r f (same-Internal p q e)

  served :
      (now : ℕ) (xs : List ℕ) (i : ℕ) (ys : List ℕ) (before : List (Result TestDatabase))
      (p q : HashPool) (r : Result TestDatabase)
      → Inv p (xs ++ i ∷ ys)
      → take_locked now i p ≡ done (q, r)
      → Refined before p
      → Refined (r ∷ before) q
  served now xs i ys before p q r v h refined =
      let (step, answer) = take-Serving now xs i ys p q r v h in
      let named : r ≡ ok (test_database_of cfg template i) =
        answer ∙ ap ok (new_test_db-Frame refined.frame i) in
      record {
        frame = Frame-trans refined.frame (take_locked-Frame p q now i r h);
        allowed =
            subst
              (λ x. Allows (test_database_of cfg template) cfg.max_pool_size (x ∷ before) (shelf q))
              (sym named) (serving refined.allowed i step);
      }

  Step-Refined :
      {s t : System} (st : Step s t) (before : List (Result TestDatabase))
      → SystemInv s
      → Refined before s.pool
      → Refined (answered st before) t.pool
  unfolding answered
  Step-Refined {s} (receive i rest e) before v r = unchanged r (ground arith) refl
  Step-Refined {s} (take now xs i ys p res e h) before v r =
      served now xs i ys before s.pool p res (subst (Inv s.pool) e v.pool_inv) h r
  Step-Refined {s} (give ctx_err id p res h) before v r =
      unseen r (return_test_database-Frame s.pool p s.pending ctx_err id res v.pool_inv h)
        (give-Internal s.pending s.pool v.pool_inv ctx_err id p res h)
  Step-Refined {s} (request ctx_err id p g j h w) before v r =
      let (f, same) =
        recreate_test_database-Same s.pool p s.pending ctx_err id (ok g) v.pool_inv h in
      unchanged r f same
  Step-Refined {s} (receive_task t rest e) before v r = unchanged r (ground arith) refl
  Step-Refined {s} (grow p index j h w) before v r =
      unseen r (append_db-Frame s.pool p (ok index) h)
        (grow-Internal s.pending s.pool v.pool_inv p (ok index) h)
  Step-Refined {s} (fetch i rest j e w) before v r = unchanged r (ground arith) refl
  Step-Refined {s} (clean_now now i j w h) before v r = r
  Step-Refined {s} (clean_later now i j time generation w h) before v r = r
  Step-Refined {s} (wake i j generation same w h) before v r = r
  Step-Refined {s} (begin i j p d w h) before v r =
      let same = begin_recreate-unchanged open_context i s.pool p (ok (some d)) h in
      unchanged r (ground arith) (ground arith)
  Step-Refined {s} (skip i j p w h) before v r =
      let same = begin_recreate-unchanged open_context i s.pool p (ok none) h in
      unchanged r (ground arith) (ground arith)
  Step-Refined {s} (enter i j p w h) before v r =
      let (f, same) = enter_recreating-Same s.pool p h in unchanged r f same
  Step-Refined {s} (recreate i j w) before v r = r
  Step-Refined {s} (fail i j w) before v r = r
  Step-Refined {s} (finish i j p res w h) before v r =
      unseen r (move_to_ready-Frame s.pool p open_context i res h)
        (finish-Internal s.pending s.pool v.pool_inv i p res (subst (InRange _) w (v.in_range j)) h)
  Step-Refined {s} (leave j p w h) before v r =
      let (f, same) = leave_recreating-Same s.pool p h in unchanged r f same

Reach-Refined :
    {cfg : PoolConfig} {template : Database} {s : System} (r : Reach cfg template s)
    → Refined cfg template (answers r) s.pool
unfolding answers
Reach-Refined {cfg} {template} (started p h) = started-Refined cfg template p h
Reach-Refined {cfg} {template} (later r st) =
    Step-Refined cfg template st (answers r) (Reach-SystemInv r) (Reach-Refined r)

-- Any run of a pool is one of the contract's: the calls of `GetTestDatabase` that got an id have
-- answered, without an error, with databases that were available at that moment, named after the
-- template hash and their number; and unseen by clients the shelf only grew, by one database at a
-- time and to the maximal size at most, or made databases in use available again.
pub Reach-refines :
    {cfg : PoolConfig} {template : Database} {s : System} (r : Reach cfg template s)
    → Allows (test_database_of cfg template) cfg.max_pool_size (answers r) (shelf s.pool)
Reach-refines r = (Reach-Refined r).allowed
