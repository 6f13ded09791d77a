-- ===== src/Pool/Removal/Once.antt =====
-- What a call of `RemoveAll` leaves behind for the calls that follow it.
use integresql.Prelude.{
  ℕ, zero, suc, ◌≡◌, inl, inr, false, Option, none, some, ℤ, pos, negsuc, arith, length, get_elem?,
  Option-cases,
}
use integresql.Prelude.Lists.{List-cases}
use integresql.Errors.{Err, Result, ok, err, Outcome, done, blocked, panicked, ◌>>=◌, >>=-eq-done}
use integresql.Database.{TestDatabase}
use integresql.Pool.{HashPool, nil_context}
use integresql.Pool.Recreate.{Goroutine, recreate_test_database, begin_recreate}
use integresql.Pool.Lifecycle.{finish_stop, stop, stop_signal}
use integresql.Pool.Removal.{
  shrink, drop_id, remove_step, remove_from, finish_removal, remove_stopped, remove_all,
}

-- What the removal itself leaves alone.
record Steady (p q : HashPool) : Type 0 where
  running : q.running ≡ p.running
  locked : q.locked ≡ p.locked
  context : q.worker_context ≡ p.worker_context

drop_id-Steady : (id : ℕ) (p q : HashPool) → drop_id id (shrink p) ≡ done q → Steady p q
unfolding drop_id shrink
drop_id-Steady id p q h = ground arith

Steady-trans : (p q r : HashPool) → Steady p q → Steady q r → Steady p r
Steady-trans p q r a b = ground arith

remove_step-Steady :
    (e : Option Err) (id : ℕ) (p q : HashPool) (r : Result (Unit {0}))
    (rest : HashPool → Outcome (HashPool × Result (Unit {0})))
    → ((m : HashPool) → rest m ≡ done (q, r) → Steady m q)
    → remove_step e id p rest ≡ done (q, r)
    → Steady p q
unfolding remove_step
remove_step-Steady (some e) id p q r rest ih h = ground arith
remove_step-Steady none id p q r rest ih h =
    let (m, dropped, more) = >>=-eq-done (drop_id id (shrink p)) rest h in
    Steady-trans p m q (drop_id-Steady id p m dropped) (ih m more)

remove_from-Steady :
    (remove : TestDatabase → Option Err) (n : ℕ) (p q : HashPool) (r : Result (Unit {0}))
    → remove_from remove n p ≡ done (q, r)
    → Steady p q
unfolding remove_from
remove_from-Steady remove zero p q r h = ground arith
remove_from-Steady remove (suc id) p q r h = elim (Option-cases (get_elem? p.dbs id)) [
  | inl out ↦ absurd (ground arith)
  | inr (d, e) ↦
      remove_step-Steady (remove d.test_database) id p q r (remove_from remove id)
        (λ m. remove_from-Steady remove id m q r) (ground arith)
]

finish_removal-Steady :
    (p q : HashPool) (s r : Result (Unit {0})) → finish_removal (p, s) ≡ done (q, r) → Steady p q
unfolding finish_removal
finish_removal-Steady p q (err e) r h = ground arith
finish_removal-Steady p q (ok u) r h = ground arith

remove_stopped-Steady :
    (remove : TestDatabase → Option Err) (p q : HashPool) (r : Result (Unit {0}))
    → remove_stopped remove p ≡ done (q, r)
    → (p.locked ≡ false) × Steady p q
unfolding remove_stopped
remove_stopped-Steady remove p q r h = elim (List-cases p.dbs) [
  | inl e ↦ ground arith
  | inr (d, ds, e) ↦
      let looped : (remove_from remove (length p.dbs) p >>= finish_removal) ≡ done (q, r) =
        ground arith in
      let ((m, s), removed, closed) =
        >>=-eq-done (remove_from remove (length p.dbs) p) finish_removal looped in
      (
        ground arith,
        Steady-trans p m q (remove_from-Steady remove (length p.dbs) p m s removed)
            (finish_removal-Steady m q s r closed),
      )
]

stop-ends :
    (quiesce : HashPool → HashPool) (p m : HashPool)
    → ((x : HashPool) → (quiesce x).running ≡ x.running)
    → stop quiesce p ≡ done m
    → m.locked ≡ false
    → (m.running ≡ false) × (m.worker_context ≡ nil_context)
unfolding stop
stop-ends quiesce p m keeps h u =
    let ((x, flag), signalled, ended) = >>=-eq-done (stop_signal p) (finish_stop quiesce) h in
    ground (arith, keeps x)

stopped-blocks :
    (again : HashPool → HashPool) (more : TestDatabase → Option Err) (q : HashPool)
    → q.locked ≡ false
    → q.running ≡ false
    → (stop again q >>= remove_stopped more) ≡ blocked
unfolding stop remove_stopped
stopped-blocks again more q u halted = ground arith

spawned-context :
    (ctx_err : Option Err) (id : ℤ) (q after : HashPool) (g : Goroutine)
    → recreate_test_database ctx_err id q ≡ done (after, ok g)
    → g.context ≡ q.worker_context
unfolding recreate_test_database
spawned-context (some e) (pos n) q after g h = ground arith
spawned-context none (pos n) q after g h = ground arith
spawned-context ctx_err (negsuc n) q after g h = ground arith

-- A call of `RemoveAll` that returns, with an error or without, leaves the pool stopped, so that
-- every further call of `RemoveAll` on it waits forever: its `Stop` returns with the lock held.
pub remove_all-never_twice :
    (quiesce again : HashPool → HashPool) (remove more : TestDatabase → Option Err) (p q : HashPool)
    (r : Result (Unit {0}))
    → ((x : HashPool) → (quiesce x).running ≡ x.running)
    → remove_all quiesce remove p ≡ done (q, r)
    → remove_all again more q ≡ blocked
unfolding remove_all
remove_all-never_twice quiesce again remove more p q r keeps h =
    let (m, halted, removed) = >>=-eq-done (stop quiesce p) (remove_stopped remove) h in
    let (free, same) = remove_stopped-Steady remove m q r removed in
    let (idle, _) = stop-ends quiesce p m keeps halted free in
    stopped-blocks again more q (ground arith) (ground arith)

-- After a call of `RemoveAll` that returns, with an error or without, if a call of
-- `RecreateTestDatabase` reports success, then the goroutine that it starts panics on its nil
-- context.
pub recreate-after-remove_all :
    (quiesce : HashPool → HashPool) (remove : TestDatabase → Option Err) (p q after : HashPool)
    (r : Result (Unit {0})) (ctx_err : Option Err) (id : ℤ) (g : Goroutine)
    → ((x : HashPool) → (quiesce x).running ≡ x.running)
    → remove_all quiesce remove p ≡ done (q, r)
    → recreate_test_database ctx_err id q ≡ done (after, ok g)
    → begin_recreate g.context g.id after ≡ panicked
unfolding remove_all begin_recreate
recreate-after-remove_all quiesce remove p q after r ctx_err id g keeps h c =
    let (m, halted, removed) = >>=-eq-done (stop quiesce p) (remove_stopped remove) h in
    let (free, same) = remove_stopped-Steady remove m q r removed in
    let (_, ended) = stop-ends quiesce p m keeps halted free in
    ground (arith, spawned-context ctx_err id q after g c)
