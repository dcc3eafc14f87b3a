-- ===== src/Harness/Retry/Attempts.antt =====
-- How a retried call ends.
use construction_harness.Prelude.{
  Bool-cases, Result, ok, err, nat_eq, string_eq, pair_eq, ℕ, zero, suc, ◌-◌, ◌≤◌, ◌<◌, ◌≡◌, refl,
  ◌⊎◌, inl, inr, true, false, Option, none, some, arith, subst,
}
use construction_harness.Harness.Retry.{
  Failure, RetryError, raised, over_time, exhausted, RetryPolicy, Times, retryable, delay, spent,
  attempts_from, run_retrying,
}

Result-cases {ℓ κ} :
    {E : Type ℓ} {A : Type κ} (r : Result E A) → ((a : A) × (r ≡ ok a)) ⊎ ((e : E) × (r ≡ err e))
Result-cases (ok a) = inl (a, refl)
Result-cases (err e) = inr (e, refl)

module _ {T W A : Type 0} (p : RetryPolicy T) (o : Times T W)
    (call : W → Result (Failure T) A × W) where
  -- n calls in a row failed with an exception that may be retried, each within the time budget, and
  -- after each the delay of its attempt was slept.
  abbrev pub Waited : ℕ → ℕ → Option (Failure T) → W → Option (Failure T) → W → Type 0
  Waited zero attempt last w last' w' = (last ≡ last') × (w ≡ w')
  Waited (suc n) attempt last w last' w' =
      (e : Failure T) × ((call w).0 ≡ err e)
      × (retryable p o call e ≡ true)
      × (spent p o call (call w).1 ≡ false)
      × Waited n (suc attempt) (some e) (o.sleep (delay p o call attempt e (call w).1) (call w).1)
          last' w'

  -- The end, with so many attempts left: the last call's own, or none is left.
  abbrev pub Ended : ℕ → Option (Failure T) → W → Result (RetryError T) A × W → Type 0
  Ended left last w (ok a, v) = (0 < left) × (call w ≡ (ok a, v))
  Ended left last w (err (raised e), v) =
      (0 < left) × (call w ≡ (err e, v)) × (retryable p o call e ≡ false)
  Ended left last w (err (over_time e), v) =
      (0 < left) × (call w ≡ (err e, v)) × (retryable p o call e ≡ true) × (spent p o call v ≡ true)
  Ended left last w (err (exhausted last'), v) = (left ≡ 0) × (last' ≡ last) × (v ≡ w)

  -- A run: some calls that were retried, and an end.
  abbrev pub Settled : ℕ → ℕ → Option (Failure T) → W → Result (RetryError T) A × W → Type 0
  Settled left attempt last w r =
      (n : ℕ) × (last' : Option (Failure T)) × (w' : W) × (n ≤ left)
      × Waited n attempt last w last' w'
      × Ended (left - n) last' w' r

  attempts_from-Settled :
      (left attempt : ℕ) (last : Option (Failure T)) (w : W)
      → Settled left attempt last w (attempts_from p o call left attempt last w)
  unfolding attempts_from
  attempts_from-Settled zero attempt last w =
      (0, last, w, omega arith, (refl, refl), (omega arith, refl, refl))
  attempts_from-Settled (suc left) attempt last w = elim (Result-cases (call w).0) [
    | inl (a, done) ↦
        rw (attempts_from, done)
          (0, last, w, omega arith, (refl, refl), (omega arith, λ i. (done i, (call w).1)))
    | inr (e, failed) ↦ elim (Bool-cases (retryable p o call e)) [
      | inr fatal ↦
          rw (attempts_from, failed, fatal)
            (
              0,
              last,
              w,
              omega arith,
              (refl, refl),
              (omega arith, λ i. (failed i, (call w).1), fatal),
            )
      | inl transient ↦ elim (Bool-cases (spent p o call (call w).1)) [
        | inl late ↦
            rw (attempts_from, failed, transient, late)
              (
                0,
                last,
                w,
                omega arith,
                (refl, refl),
                (omega arith, λ i. (failed i, (call w).1), transient, late),
              )
        | inr in_time ↦
            let v = o.sleep (delay p o call attempt e (call w).1) (call w).1 in
            let (n, last', w', le, waited, ended) =
              attempts_from-Settled left (suc attempt) (some e) v in
            rw (attempts_from, failed, transient, in_time)
              (
                suc n,
                last',
                w',
                omega arith,
                (e, failed, transient, in_time, waited),
                subst (λ k. Ended k last' w' (attempts_from p o call left (suc attempt) (some e) v))
                    (omega arith) ended,
              )
      ]
    ]
  ]

  -- A run calls at most `max_attempts` times and ends in one of four ways, after some calls that
  -- each failed with an exception that may be retried, within the time budget, and a sleep of its
  -- attempt's delay: with the value of the call that succeeds; with the exception that may not be
  -- retried; with a spent budget, if one that may comes after it; or exhausted, with the last
  -- exception, if all `max_attempts` calls failed so.
  pub run_retrying-Settled : (w : W) → Settled p.max_attempts 0 none w (run_retrying p o call w)
  unfolding run_retrying
  run_retrying-Settled w = attempts_from-Settled p.max_attempts 0 none w
