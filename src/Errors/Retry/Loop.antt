-- ===== src/Errors/Retry/Loop.antt =====
-- What the retry loop does on every sequence of outcomes (crates/core/src/error/retry.rs).
use vscfreedev.Base.{
  ℕ, zero, suc, ◌+◌, ◌≤◌, ◌<◌, ◌≡◌, inl, inr, Bool, true, false, not, Option, none, some, arith,
  nat_eq, string_eq, Bool-cases,
}
use native.Mathlib.Decide.{ℕ_discrete}
use vscfreedev.Errors.{Result-cases, YuhaError, Result, ok, err, is_retriable}
use vscfreedev.Errors.Retry.{
  RetryPolicy, should_retry, retry_round, retry_loop, retry_async, attempts_below, Repeats, StopsAt,
}

module _ {ℓ} {T : Type ℓ} (operation : ℕ → Result T) (p : RetryPolicy) where
  -- The part of the loop from an attempt on.
  abbrev StopsFrom : ℕ → ℕ → Option YuhaError → ℕ → Type ℓ
  StopsFrom rounds attempt last n =
      (attempt ≤ n)
      × (n ≤ p.max_attempts)
      × (retry_loop operation p rounds attempt last (attempts_below operation p attempt)
          ≡ (operation n, attempts_below operation p (suc n)))
      × ((m : ℕ) → attempt ≤ m → m < n → Repeats operation p m)
      × (Repeats operation p n → n ≡ p.max_attempts)

  not_repeated :
      (n : ℕ) (e : YuhaError)
      → n ≤ p.max_attempts
      → operation n ≡ err e
      → should_retry p e n ≡ false
      → Repeats operation p n
      → n ≡ p.max_attempts
  unfolding should_retry
  not_repeated n e le failed stop (e', failed', again) = ground arith

  again_retriable : (n : ℕ) (e : YuhaError) → should_retry p e n ≡ true → is_retriable e ≡ true
  unfolding should_retry
  again_retriable n e h = ground arith

  stops_here :
      (rounds attempt : ℕ) (last : Option YuhaError)
      → attempt ≤ p.max_attempts
      → ((e : YuhaError) → operation attempt ≡ err e → should_retry p e attempt ≡ false)
      → StopsFrom (suc rounds) attempt last attempt
  unfolding retry_loop
  stops_here rounds attempt last le stop = elim (Result-cases (operation attempt)) [
    | inl (a, done) ↦
        (omega arith, le, rw (done, retry_round), λ m h k. absurd (omega arith), λ r. absurd cc)
    | inr (e, failed) ↦ (
      omega arith,
      le,
      rw (failed, retry_round, stop e failed),
      λ m h k. absurd (omega arith),
      not_repeated attempt e le failed (stop e failed),
    )
  ]

  -- The loop ends with the outcome of this attempt.
  last_round : ℕ → Result T → Bool
  last_round n (ok a) = true
  last_round n (err e) = not (should_retry p e n)

  stops_at : ℕ → Bool
  unfolding last_round
  stops_at n = last_round n (operation n)

  stop_at :
      (n : ℕ)
      → stops_at n ≡ true
      → (e : YuhaError) → operation n ≡ err e
      → should_retry p e n ≡ false
  unfolding stops_at
  stop_at n h e failed = ground arith

  goes_at :
      (n : ℕ)
      → stops_at n ≡ false
      → (e : YuhaError) × (operation n ≡ err e) × (should_retry p e n ≡ true)
  unfolding stops_at
  goes_at n h = elim (Result-cases (operation n)) [
    | inl (a, done) ↦ absurd (ground arith)
    | inr (e, failed) ↦ (e, failed, ground arith)
  ]

  goes_on :
      (rounds attempt n : ℕ) (last : Option YuhaError) (e : YuhaError)
      → operation attempt ≡ err e
      → should_retry p e attempt ≡ true
      → StopsFrom rounds (suc attempt) (some e) n
      → StopsFrom (suc rounds) attempt last n
  unfolding retry_loop
  goes_on rounds attempt n last e failed again s = (
    omega arith,
    s.1,
    rw (failed, retry_round, again) s.2,
    λ m h k. elim (ℕ_discrete attempt m) [
      | yes here ↦ rw (← here) (e, failed, again_retriable attempt e again)
      | no later ↦ s.3 m (omega arith) k
    ],
    s.4,
  )

  retry_loop-StopsFrom :
      (r attempt : ℕ) (last : Option YuhaError)
      → attempt + r ≡ p.max_attempts
      → (n : ℕ) × StopsFrom (suc r) attempt last n
  unfolding should_retry
  retry_loop-StopsFrom zero attempt last h =
      (attempt, stops_here zero attempt last (omega arith) (λ e failed. ground arith))
  retry_loop-StopsFrom (suc r) attempt last h = elim (Bool-cases (stops_at attempt)) [
    | inl stop ↦ (attempt, stops_here (suc r) attempt last (omega arith) (stop_at attempt stop))
    | inr go ↦
        let (e, failed, again) = goes_at attempt go in
        let (n, s) = retry_loop-StopsFrom r (suc attempt) (some e) (omega arith) in
        (n, goes_on (suc r) attempt n last e failed again s)
  ]

  -- Whatever the operation returns, the loop makes the attempts 0 to some `n` in order, `n` at
  -- most `max_attempts`, and returns the outcome of the attempt `n`. Each attempt before `n`
  -- failed with a retriable error, and the attempt `n` did so only if it was the last allowed.
  pub retry_async-StopsAt : (n : ℕ) × StopsAt operation p n
  unfolding retry_async
  retry_async-StopsAt =
      let (n, s) = retry_loop-StopsFrom p.max_attempts 0 none (omega arith) in
      (n, (s.1, s.2, λ m h. s.3 m (omega arith) h, s.4))
