-- ===== src/Harness/Retry.antt =====
-- The retries around a call of the provider (`RetryPolicy`, src/harness/providers/retry.py). Times
-- are floats, a type `T` of the caller's, with their order and arithmetic as parameters; so are the
-- call, the clock, the random jitter and the sleep, which act on a world `W`.
pub mod Attempts
pub mod Samples
use construction_harness.Prelude.{
  Result, ok, err, contains, nat_eq, string_eq, pair_eq, ℕ, zero, suc, Bool, true, false, Option,
  none, some, List,
}

-- What `_retryable` and `_delay` read of an exception.
pub record Failure (T : Type 0) : Type 0 where
  pub status_code : Option ℕ
  pub is_connection_error : Bool
  pub retry_after : Option T

pub data RetryError (T : Type 0) : Type 0 where
  raised : Failure T → RetryError T
  over_time : Failure T → RetryError T
  exhausted : Option (Failure T) → RetryError T

pub record RetryPolicy (T : Type 0) : Type 0 where
  pub max_attempts : ℕ
  pub base_delay : T
  pub max_delay : T
  pub max_total_seconds : T
  pub retryable_statuses : List ℕ

pub record Times (T W : Type 0) : Type 0 where
  pub elapsed : W → T
  pub at_least : T → T → Bool
  pub backoff : T → ℕ → T
  pub jitter : T → W → T
  pub plus : T → T → T
  pub least : T → T → T
  pub sleep : T → W → W

module _ {T W A : Type 0} (p : RetryPolicy T) (o : Times T W)
    (call : W → Result (Failure T) A × W) where
  -- _retryable
  unfoldable pub retryable : Failure T → Bool
  retryable e = elim e.status_code [
    | none ↦ e.is_connection_error
    | some status ↦ contains p.retryable_statuses status
  ]

  -- _delay: the jitter is drawn only without a retry_after
  unfoldable pub delay : ℕ → Failure T → W → T
  delay attempt e w = elim e.retry_after [
    | none ↦ o.least (o.plus (o.backoff p.base_delay attempt) (o.jitter p.base_delay w)) p.max_delay
    | some seconds ↦ seconds
  ]

  -- The time budget is spent.
  abbrev pub spent : W → Bool
  spent w = o.at_least (o.elapsed w) p.max_total_seconds

  -- The attempts from a number on, with so many left; the last exception is that of the attempt
  -- before.
  unfoldable pub attempts_from : ℕ → ℕ → Option (Failure T) → W → Result (RetryError T) A × W
  unfolding retryable delay
  attempts_from zero attempt last w = (err (exhausted last), w)
  attempts_from (suc left) attempt last w =
      let again = λ (e : Failure T) (w' : W).
        attempts_from left (suc attempt) (some e) (o.sleep (delay attempt e w') w') in
      let after = call w in
      elim after.0 [
        | ok a ↦ (ok a, after.1)
        | err e ↦ elim (retryable e) [
          | false ↦ (err (raised e), after.1)
          | true ↦ elim (spent after.1) [
            | true ↦ (err (over_time e), after.1)
            | false ↦ again e after.1
          ]
        ]
      ]

  -- RetryPolicy.run
  unfoldable pub run_retrying : W → Result (RetryError T) A × W
  unfolding attempts_from
  run_retrying w = attempts_from p.max_attempts 0 none w
