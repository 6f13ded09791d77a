-- ===== src/Util/Retrying.antt =====
-- `Retry` of pkg/util/retry.go against the sequence of the calls of the function.
use integresql.Prelude.{
  ℕ, zero, suc, ◌+◌, ◌<◌, ◌≡◌, ◌≢◌, ◌∙◌, subst, ◌-◌, ◌⊎◌, inl, inr, Option, none, Option-cases,
  arith,
}
use integresql.Errors.{Err}
use integresql.Util.{succeeded, failing, retry_loop, retry}

module _ {ℓ} {S : Type ℓ} (f : S → S × Option Err) where
  -- The state after so many calls, and the answer of the call behind them.
  abbrev pub after_calls : ℕ → S → S
  after_calls zero s = s
  after_calls (suc n) s = after_calls n (f s).0

  abbrev answer_of : ℕ → S → Option Err
  answer_of n s = (f (after_calls n s)).1

  -- The answer of the last of so many calls.
  abbrev pub last_answer : ℕ → Option Err → S → Option Err
  last_answer zero last s = last
  last_answer (suc n) last s = last_answer n (f s).1 (f s).0

  -- The first `n` calls fail.
  abbrev pub AllFail : ℕ → S → Type 0
  AllFail n s = (i : ℕ) → i < n → answer_of i s ≢ none

  later_fail : (n : ℕ) (s : S) → AllFail (suc n) s → AllFail n (f s).0
  later_fail n s fails i h = fails (suc i) (omega arith)

  retry_loop-fails :
      (n slept : ℕ) (last : Option Err) (s : S)
      → (f s).1 ≢ none
      → retry_loop (suc n) slept last f s ≡ retry_loop n (slept + 1) (f s).1 f (f s).0
  unfolding retry_loop
  retry_loop-fails n slept last s h = elim (Option-cases (f s).1) [
    | inl e ↦ absurd (h e)
    | inr (e, q) ↦ ground (arith, q)
  ]

  -- The call behind `n` failing ones succeeds.
  retry_loop-succeeds :
      (n more slept : ℕ) (last : Option Err) (s : S)
      → AllFail n s
      → answer_of n s ≡ none
      → retry_loop (suc (n + more)) slept last f s
        ≡ record { state = after_calls (suc n) s; sleeps = slept + n; ending = succeeded }
  unfolding retry_loop
  retry_loop-succeeds zero more slept last s fails good = ground (arith, good)
  retry_loop-succeeds (suc n) more slept last s fails good =
      let again =
        retry_loop-succeeds n more (slept + 1) (f s).1 (f s).0 (later_fail n s fails) good in
      let same : suc n + more ≡ suc (n + more) = omega arith in
      retry_loop-fails (suc n + more) slept last s (fails 0 (omega arith))
      ∙ rw (same, again) (ground arith)

  retry_loop-gives_up :
      (n slept : ℕ) (last : Option Err) (s : S)
      → AllFail n s
      → retry_loop n slept last f s ≡ record {
        state = after_calls n s;
        sleeps = slept + n;
        ending = failing (last_answer n last s);
      }
  unfolding retry_loop
  retry_loop-gives_up zero slept last s fails = ground arith
  retry_loop-gives_up (suc n) slept last s fails =
      let again = retry_loop-gives_up n (slept + 1) (f s).1 (f s).0 (later_fail n s fails) in
      retry_loop-fails n slept last s (fails 0 (omega arith)) ∙ ground (arith, again)

  -- The first call that succeeds, if there is one.
  pub record FirstSuccess (attempts n : ℕ) (s : S) : Type 0 where
    pub in_time : n < attempts
    pub earlier : AllFail n s
    pub good : answer_of n s ≡ none

  fail_first : (n : ℕ) (s : S) → (f s).1 ≢ none → AllFail n (f s).0 → AllFail (suc n) s
  fail_first n s h fails zero lt = h
  fail_first n s h fails (suc i) lt = fails i (omega arith)

  first_success :
      (attempts : ℕ) (s : S) → ((n : ℕ) × FirstSuccess attempts n s) ⊎ AllFail attempts s
  first_success zero s = inr (λ i h. absurd (omega arith))
  first_success (suc attempts) s = elim (Option-cases (f s).1) [
    | inl good ↦
        inl
          (0, record { in_time = omega arith; earlier = λ i h. absurd (omega arith); good = good })
    | inr (e, bad) ↦
        let failed : (f s).1 ≢ none = λ q. cc in
        elim (first_success attempts (f s).0) [
          | inl (n, v) ↦ inl (
            suc n,
            record {
              in_time = omega (arith, v.in_time);
              earlier = fail_first n s failed v.earlier;
              good = v.good;
            },
          )
          | inr fails ↦ inr (fail_first attempts s failed fails)
        ]
  ]

  pub retry-succeeds :
      (attempts n : ℕ) (s : S)
      → FirstSuccess attempts n s
      → retry attempts f s
        ≡ record { state = after_calls (suc n) s; sleeps = n; ending = succeeded }
  unfolding retry
  retry-succeeds attempts n s v =
      let rest : suc (n + (attempts - suc n)) ≡ attempts = omega (arith, v.in_time) in
      let rounds = retry_loop-succeeds n (attempts - suc n) 0 none s v.earlier v.good in
      subst
        (λ a.
          retry_loop a 0 none f s
          ≡ record { state = after_calls (suc n) s; sleeps = 0 + n; ending = succeeded })
        rest rounds
      ∙ ground arith

  -- `Retry` with any number of attempts calls the function until it first succeeds, and sleeps once
  -- behind every call that fails. It returns nil if one of the attempts succeeds; if all fail, it
  -- has made all of them and its error wraps the last answer.
  pub retry_lem :
      (attempts : ℕ) (s : S)
      → ((n : ℕ) × FirstSuccess attempts n s
          × (retry attempts f s
              ≡ record { state = after_calls (suc n) s; sleeps = n; ending = succeeded }))
        ⊎ (AllFail attempts s
            × (retry attempts f s ≡ record {
              state = after_calls attempts s;
              sleeps = attempts;
              ending = failing (last_answer attempts none s);
            }))
  unfolding retry
  retry_lem attempts s = elim (first_success attempts s) [
    | inl (n, v) ↦ inl (n, v, retry-succeeds attempts n s v)
    | inr fails ↦ inr (fails, retry_loop-gives_up attempts 0 none s fails ∙ ground arith)
  ]
