-- ===== src/Errors/Retry.antt =====
-- crates/core/src/error/retry.rs: the retry policy and loop. Durations are in nanoseconds.
-- The `f64` product of the backoff and the random jitter are arguments.
pub mod Loop
use vscfreedev.Base.{
  ℕ, zero, suc, ◌+◌, ◌-◌, ◌*◌, ◌/◌, ◌%◌, ◌^◌, ◌≤◌, ◌<◌, min, max, String, ◌≡◌, refl, sym, ap, subst,
  ◌∙◌, ◌≢◌, ◌↔◌, ◌⊎◌, inl, inr, Bool, true, false, not, ◌&&◌, ◌||◌, Option, none, some, List, [],
  ◌∷◌, ◌++◌, map, arith, ltb, leb, if◌then◌else◌, Eq, ◌==◌, nat_beq, nat_beq_iff, nat_eq, string_eq,
  beq_refl, Bool-cases, Option-cases, length, is_empty, retain, All, every, exists, contains, count,
  without, length-append, length-retain-le, count-append, count-without, length-without-le,
}
use vscfreedev.Errors
use vscfreedev.Errors.{YuhaError, Result, ok, err, internal, is_retriable}

-- The `f64` field `backoff_multiplier` is read by the argument `backoff` alone.
pub record RetryPolicy : Type 0 where
  pub max_attempts : ℕ
  pub initial_delay : ℕ
  pub max_delay : ℕ
  pub jitter : Bool

abbrev pub ms : ℕ
ms = 1_000_000

abbrev pub as_millis : ℕ → ℕ
as_millis d = d / ms

-- `from_millis` of the rounded product, cut at the longest delay.
capped : RetryPolicy → ℕ → ℕ
capped p backoff_ms = min (backoff_ms * ms) p.max_delay

-- `backoff n` is `initial_delay * multiplier.powi(n)` as a `u64` of milliseconds;
-- `random r` is `fastrand::u64(0..=r)`.
module _ (backoff : ℕ → ℕ) (random : ℕ → ℕ) where
  unfoldable pub delay_for_attempt : RetryPolicy → ℕ → ℕ
  unfolding capped
  delay_for_attempt p zero = 0
  delay_for_attempt p (suc n) =
      let delay = capped p (backoff n) in
      if p.jitter then delay + random (as_millis delay / 10) * ms else delay

  -- If the random number asked for up to `r` is at most `r`, a delay is at most the longest delay
  -- and a tenth of it.
  pub delay_for_attempt-le :
      ((r : ℕ) → random r ≤ r)
      → (p : RetryPolicy) (attempt : ℕ)
      → delay_for_attempt p attempt ≤ p.max_delay + p.max_delay / 10
  unfolding delay_for_attempt
  delay_for_attempt-le h p zero = omega arith
  delay_for_attempt-le h p (suc n) =
      ground (arith, h (as_millis (min (backoff n * ms) p.max_delay) / 10))

unfoldable pub should_retry : RetryPolicy → YuhaError → ℕ → Bool
should_retry p e attempt = if leb p.max_attempts attempt then false else is_retriable e

-- The outcome of `operation` at its n-th call is `operation n`; the second part of the result
-- is the list of the attempts made, the last one first.
module _ {ℓ} {T : Type ℓ} (operation : ℕ → Result T) (p : RetryPolicy) where
  abbrev pub Outcome : Type ℓ
  Outcome = Result T × List ℕ

  -- The end of the loop, past its last round.
  exhausted : Option YuhaError → List ℕ → Outcome
  exhausted none made = (err (internal "Retry operation failed without error"), made)
  exhausted (some e) made = (err e, made)

  -- One round, given the rest of the loop.
  retry_round : ℕ → List ℕ → Result T → (Option YuhaError → List ℕ → Outcome) → Outcome
  retry_round attempt made (ok result) rest = (ok result, attempt ∷ made)
  retry_round attempt made (err e) rest =
      if should_retry p e attempt then rest (some e) (attempt ∷ made) else (err e, attempt ∷ made)

  -- The rounds that are left, the next attempt, the last error, the attempts made.
  retry_loop : ℕ → ℕ → Option YuhaError → List ℕ → Outcome
  unfolding exhausted retry_round
  retry_loop zero attempt last made = exhausted last made
  retry_loop (suc rounds) attempt last made =
      retry_round attempt made (operation attempt) (retry_loop rounds (suc attempt))

  -- `for attempt in 0..=policy.max_attempts`.
  unfoldable pub retry_async : Outcome
  unfolding retry_loop
  retry_async = retry_loop (suc p.max_attempts) 0 none []

  -- The attempts before `n`, the last one first.
  abbrev pub attempts_below : ℕ → List ℕ
  attempts_below zero = []
  attempts_below (suc n) = n ∷ attempts_below n

  -- The operation fails at `n` in a way that is to be repeated.
  abbrev pub Repeats : ℕ → Type ℓ
  Repeats n = (e : YuhaError) × (operation n ≡ err e) × (is_retriable e ≡ true)

  -- What the loop promises: it stops at the first attempt that is not to be repeated, or at the last.
  abbrev pub StopsAt : ℕ → Type ℓ
  StopsAt n =
      (n ≤ p.max_attempts)
      × (retry_async ≡ (operation n, attempts_below (suc n)))
      × ((m : ℕ) → m < n → Repeats m)
      × ((Repeats n) → n ≡ p.max_attempts)
