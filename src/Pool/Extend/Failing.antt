-- ===== src/Pool/Extend/Failing.antt =====
-- `extend` when the database cannot be made, and when it can.
use integresql.Prelude.{
  ℕ, zero, suc, ◌+◌, ◌≤◌, ◌<◌, ◌≡◌, ◌≢◌, refl, ◌∙◌, ap, true, false, some, List, [], ◌∷◌, ◌++◌,
  arith, length,
}
use mathlib.Core.List.{append-nil, append_assoc}
use integresql.Prelude.Lists.{length-append, get_elem?-append_length}
use integresql.Errors.{Err, err, pool_full, test_db_in_use, errors_is, Outcome, done, ◌>>=◌}
use integresql.Pool.{HashPool, ExistingDb, is_dirty}
use integresql.Pool.Recreate.{Attempt, Weather}
use integresql.Pool.Recreate.Undisturbed.{answered, recreate_database_gracefully-fails}
use integresql.Pool.Effects.Moving.{append_db-full, append_db-room}
use integresql.Pool.Extend.{new_test_db, append_db, extend}

-- The databases from a number on, as they are appended.
abbrev pub appended : HashPool → ℕ → ℕ → List ExistingDb
appended p start zero = []
appended p start (suc n) = new_test_db p start ∷ appended p (start + 1) n

-- Calls of `extend`, one after the other, whatever they report.
unfoldable pub extend_again : List Weather → HashPool → Outcome HashPool
extend_again [] p = done p
extend_again (w ∷ ws) p = extend w p >>= λ r. extend_again ws r.0

-- A round in which `recreateDB` fails, in the end, with an error that is not worth a retry.
pub record Failure : Type 0 where
  pub rounds_in_use : ℕ
  pub reason : Err
  pub fatal : errors_is reason test_db_in_use ≡ false
  pub never_read : List Attempt

abbrev weather : Failure → Weather
weather f = answered f.rounds_in_use (some f.reason) f.never_read

abbrev pub weathers : List Failure → List Weather
weathers [] = []
weathers (f ∷ fs) = weather f ∷ weathers fs

new_test_db-dirty : (p : HashPool) (i : ℕ) → is_dirty (new_test_db p i).state ≡ true
unfolding new_test_db
new_test_db-dirty p i = refl

-- The pool with more databases.
abbrev pub with_dbs : HashPool → List ExistingDb → HashPool
with_dbs p more = record p { dbs = p.dbs ++ more }

extend-fails :
    (p : HashPool) (f : Failure)
    → p.locked ≡ false
    → length p.dbs ≢ p.dbs_cap
    → p.recreating < p.max_pool_size
    → extend (weather f) p ≡ done (with_dbs p (new_test_db p (length p.dbs) ∷ []), err f.reason)
unfolding extend
extend-fails p f u room free =
    let d = new_test_db p (length p.dbs) in
    ground (
      arith,
      append_db-room p u room,
      recreate_database_gracefully-fails (length p.dbs) (with_dbs p (d ∷ [])) d u
          (get_elem?-append_length p.dbs [] d) (new_test_db-dirty p (length p.dbs)) free
          f.rounds_in_use f.reason f.never_read f.fatal,
    )

appended-with_dbs :
    (p : HashPool) (more : List ExistingDb) (start n : ℕ)
    → appended (with_dbs p more) start n ≡ appended p start n
unfolding new_test_db
appended-with_dbs p more start zero = refl
appended-with_dbs p more start (suc n) = cc (appended-with_dbs p more (start + 1) n)

length-appended : (p : HashPool) (start n : ℕ) → length (appended p start n) ≡ n
length-appended p start zero = refl
length-appended p start (suc n) = ap suc (length-appended p (start + 1) n)

extend_again-fails :
    (fs : List Failure) (p : HashPool)
    → p.locked ≡ false
    → length p.dbs + length fs ≤ p.dbs_cap
    → p.recreating < p.max_pool_size
    → extend_again (weathers fs) p ≡ done (with_dbs p (appended p (length p.dbs) (length fs)))
unfolding extend_again
extend_again-fails [] p u room free = rw append-nil
extend_again-fails (f ∷ fs) p u room free =
    let d = new_test_db p (length p.dbs) in
    let size = length-append p.dbs (d ∷ []) in
    rw (extend-fails p f u (ground arith) free) (
      extend_again-fails fs (with_dbs p (d ∷ [])) u (omega (arith, size)) free
      ∙ rw (
        size,
        appended-with_dbs p (d ∷ []) (length p.dbs + 1) (length fs),
        append_assoc p.dbs (d ∷ []) (appended p (length p.dbs + 1) (length fs)),
      ))

append_db-appended :
    (p : HashPool) (n : ℕ)
    → p.locked ≡ false
    → length p.dbs + n ≡ p.dbs_cap
    → append_db (with_dbs p (appended p (length p.dbs) n))
      ≡ done (with_dbs p (appended p (length p.dbs) n), err pool_full)
append_db-appended p n u full = append_db-full (with_dbs p (appended p (length p.dbs) n)) u (
    omega (
      arith,
      full,
      length-append p.dbs (appended p (length p.dbs) n),
      length-appended p (length p.dbs) n,
    ))

-- When each call of `extend` fails in `recreateDB` with an error that is not worth a retry, the
-- database that it appended stays: it is dirty and in no channel. After as many such calls as
-- there are free places, no id has been added to a channel, and every later call of `extend`
-- reports that the pool is full, whatever `recreateDB` would answer by then.
pub extend_again-fills :
    (fs : List Failure) (p : HashPool)
    → p.locked ≡ false
    → length p.dbs + length fs ≡ p.dbs_cap
    → p.recreating < p.max_pool_size
    → (extend_again (weathers fs) p ≡ done (with_dbs p (appended p (length p.dbs) (length fs))))
      × ((later : Weather)
          → extend later (with_dbs p (appended p (length p.dbs) (length fs)))
            ≡ done (with_dbs p (appended p (length p.dbs) (length fs)), err pool_full))
unfolding extend
extend_again-fills fs p u full free = (
  extend_again-fails fs p u (ground arith) free,
  λ later. ground (arith, append_db-appended p (length fs) u full),
)
