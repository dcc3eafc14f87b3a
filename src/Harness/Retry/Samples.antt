-- ===== src/Harness/Retry/Samples.antt =====
-- A call that fails twice and then succeeds.
use construction_harness.Prelude.{
  ltb, leb, if◌then◌else◌, Result, ok, err, nat_eq, string_eq, pair_eq, ℕ, suc, ◌+◌, ◌*◌, ◌^◌, min,
  String, ◌≡◌, refl, false, none, some, [], ◌∷◌,
}
use construction_harness.Harness.Retry.{Failure, RetryPolicy, Times, run_retrying}
use construction_harness.Harness.Retry.Attempts.{Settled, run_retrying-Settled}

abbrev busy : Failure ℕ
busy = record { status_code = some 503; is_connection_error = false; retry_after = none }

-- The world is the number of the calls so far and the time.
abbrev World : Type 0
World = ℕ × ℕ

abbrev call : World → Result (Failure ℕ) String × World
call (n, t) = (if ltb n 2 then err busy else ok "done", (suc n, t))

abbrev policy : RetryPolicy ℕ
policy = record {
  max_attempts = 5;
  base_delay = 1;
  max_delay = 30;
  max_total_seconds = 120;
  retryable_statuses = 429 ∷ 500 ∷ 502 ∷ 503 ∷ 504 ∷ [];
}

abbrev times : Times ℕ World
times = record {
  elapsed = λ w. w.1;
  at_least = λ a b. leb b a;
  backoff = λ base n. base * 2 ^ n;
  jitter = λ base w. 0;
  plus = ◌+◌;
  least = min;
  sleep = λ d w. (w.0, w.1 + d);
}

run_test : run_retrying policy times call (0, 0) ≡ (ok "done", (3, 3))
unfolding run_retrying
run_test = refl

run_retrying-Settled_example :
    Settled policy times call 5 0 none (0, 0) (run_retrying policy times call (0, 0))
run_retrying-Settled_example = run_retrying-Settled policy times call (0, 0)
