-- ===== src/Shard/Orchestrator/Runs.antt =====
-- The runs of one shard, one after the other: the queue makes the first and the retries.
use construction_harness.Prelude.{
  leb, nat_beq, Bool-cases, ok, err, length, any, nat_eq, string_eq, pair_eq, ℕ, suc, ◌+◌, ◌≤◌, ◌<◌,
  String, ◌≡◌, refl, ap, ◌∙◌, ◌⊎◌, inl, inr, Bool, true, false, Option, none, some, List, [], ◌∷◌,
  arith,
}
use construction_harness.Shard.Orchestrator.{
  succeeded, dead, failed, Shard, Job, retries, begin_shard, Outcome, RunEnd, returned, raised,
  end_run, succeed_shard, run_shard,
}

-- A run that raises is followed by the next; one that returns is the last.
abbrev pub then_retry :
    (Shard → Job → RunEnd × Shard × Job × Bool)
    → RunEnd × Shard × Job × Bool
    → RunEnd × Shard × Job × Bool
then_retry next (returned s, shard, job, enqueued) = (returned s, shard, job, enqueued)
then_retry next (raised e, shard, job, enqueued) = next shard job

-- What one run meets: the outcome of its extraction and upload, and the exception of the enqueue of
-- the reduce, if there is one.
abbrev pub Attempt : Type 0
Attempt = Outcome × Option String

-- One run for each attempt, as long as the runs raise.
unfoldable pub shard_runs : ℕ → Attempt → List Attempt → Shard → Job → RunEnd × Shard × Job × Bool
shard_runs max_shard_attempts run [] shard job = run_shard max_shard_attempts run.0 run.1 shard job
shard_runs max_shard_attempts run (next ∷ later) shard job =
    then_retry (shard_runs max_shard_attempts next later)
      (run_shard max_shard_attempts run.0 run.1 shard job)

-- How the runs of a shard have ended: returned with a terminal status that the row carries, the
-- counter bumped once, and the reduce enqueued exactly if the counter has reached the shard count.
pub record IsSettled (max_shard_attempts : ℕ) (before : Job) (end : RunEnd × Shard × Job × Bool)
    : Type 0 where
  pub terminal :
      ((end.0 ≡ returned succeeded) × (end.1.status ≡ succeeded))
      ⊎ ((end.0 ≡ returned dead) × (end.1.status ≡ dead) × (end.1.attempts ≡ max_shard_attempts))
  pub counted : end.2.completed_shards ≡ suc before.completed_shards
  pub enqueued : end.3 ≡ nat_beq (suc before.completed_shards) before.shard_count

-- How they have ended when the enqueue has raised: it was due, the row still carries a terminal
-- status, the counter is bumped once or, after a retry, twice, and the reduce is not enqueued.
pub record IsLost (before : Job) (end : RunEnd × Shard × Job × Bool) : Type 0 where
  pub due : suc before.completed_shards ≡ before.shard_count
  pub terminal : (end.1.status ≡ succeeded) ⊎ (end.1.status ≡ dead)
  pub counted :
      (end.2.completed_shards ≡ before.shard_count)
      ⊎ (end.2.completed_shards ≡ suc before.shard_count)
  pub not_enqueued : end.3 ≡ false

abbrev pub has_raised : Attempt → Bool
has_raised run = elim run.1 [ none ↦ false | some message ↦ true ]

-- After the counter has reached the shard count, no enqueue is due.
past-IsSettled :
    (n : ℕ) (run : Attempt) (later : List Attempt) (shard : Shard) (job : Job)
    → shard.attempts + suc (length later) ≡ n
    → job.shard_count ≤ job.completed_shards
    → IsSettled n job (shard_runs n run later shard job)
unfolding shard_runs run_shard end_run
past-IsSettled n (ok key, q) [] shard job e p =
    let not_due : nat_beq (suc job.completed_shards) job.shard_count ≡ false = ground arith in
    record { terminal = ground arith; counted = ground arith; enqueued = ground arith }
past-IsSettled n (ok key, q) (next ∷ later) shard job e p =
    let not_due : nat_beq (suc job.completed_shards) job.shard_count ≡ false = ground arith in
    record { terminal = ground arith; counted = ground arith; enqueued = ground arith }
past-IsSettled n (err message, q) [] shard job e p =
    let not_due : nat_beq (suc job.completed_shards) job.shard_count ≡ false = ground arith in
    record { terminal = ground arith; counted = ground arith; enqueued = ground arith }
past-IsSettled n (err message, q) (next ∷ later) shard job e p =
    let more : leb n (suc shard.attempts) ≡ false = ground arith in
    rw more (
      past-IsSettled n next later
        (record (begin_shard shard) { status = failed; error = some message }) job (omega arith) p)

shard_runs_cases :
    (n : ℕ) (run : Attempt) (later : List Attempt) (shard : Shard) (job : Job)
    → shard.attempts + suc (length later) ≡ n
    → IsSettled n job (shard_runs n run later shard job)
      ⊎ ((any has_raised (run ∷ later) ≡ true) × IsLost job (shard_runs n run later shard job))
unfolding shard_runs run_shard end_run
shard_runs_cases n (ok key, none) [] shard job e =
    inl (record { terminal = ground arith; counted = ground arith; enqueued = ground arith })
shard_runs_cases n (ok key, none) (next ∷ later) shard job e =
    inl (record { terminal = ground arith; counted = ground arith; enqueued = ground arith })
shard_runs_cases n (err message, q) (next ∷ later) shard job e =
    let more : leb n (suc shard.attempts) ≡ false = ground arith in
    let row = record (begin_shard shard) { status = failed; error = some message } in
    rw more (elim (shard_runs_cases n next later row job (omega arith)) [
      | inl settled ↦ inl settled
      | inr (some_raised, lost) ↦ inr (ground arith, lost)
    ])
shard_runs_cases n (err message, none) [] shard job e =
    inl (record { terminal = ground arith; counted = ground arith; enqueued = ground arith })
shard_runs_cases n (err message, some m) [] shard job e =
    elim (Bool-cases (nat_beq (suc job.completed_shards) job.shard_count)) [
      | inr not_due ↦
          inl (record { terminal = ground arith; counted = ground arith; enqueued = ground arith })
      | inl due ↦ inr (
        refl,
        record {
          due = ground arith;
          terminal = ground arith;
          counted = ground arith;
          not_enqueued = ground arith;
        },
      )
    ]
shard_runs_cases n (ok key, some m) [] shard job e =
    elim (Bool-cases (nat_beq (suc job.completed_shards) job.shard_count)) [
      | inr not_due ↦
          inl (record { terminal = ground arith; counted = ground arith; enqueued = ground arith })
      | inl due ↦ inr (
        refl,
        record {
          due = ground arith;
          terminal = ground arith;
          counted = ground arith;
          not_enqueued = ground arith;
        },
      )
    ]
shard_runs_cases n (ok key, some m) (next ∷ later) shard job e =
    elim (Bool-cases (nat_beq (suc job.completed_shards) job.shard_count)) [
      | inr not_due ↦
          inl (record { terminal = ground arith; counted = ground arith; enqueued = ground arith })
      | inl due ↦
          let counted_job : Job = record job { completed_shards = suc job.completed_shards } in
          let row = succeed_shard key (begin_shard shard) in
          let reached : suc job.completed_shards ≡ job.shard_count = ground arith in
          let again : IsSettled n counted_job (shard_runs n next later row counted_job) =
            past-IsSettled n next later row counted_job (omega arith) (omega arith) in
          let no_more : nat_beq (suc (suc job.completed_shards)) job.shard_count ≡ false =
            ground (arith, nat_eq.test_iff (suc (suc job.completed_shards)) job.shard_count) in
          rw due (
            inr (
              refl,
              record {
                due = reached;
                terminal = elim again.terminal [ inl (_, s) ↦ inl s | inr (_, s, _) ↦ inr s ];
                counted = inr (again.counted ∙ ap suc reached);
                not_enqueued = again.enqueued ∙ no_more;
              },
            ))
    ]

-- With the number of retries that plan_and_dispatch asks the queue for, and at least one attempt
-- configured, the runs of a fresh shard, whatever their extractions and uploads give, end in one of
-- two ways. Unless an enqueue of the reduce raises, they end in a return with `succeeded` or, after
-- exactly `max_shard_attempts` runs, with `dead`; the row carries that status, the completion counter
-- is bumped exactly once, and the reduce is enqueued exactly if the counter then equals the shard
-- count. If one raises, it was due: then the row carries `succeeded` or `dead` as well, but the
-- counter may be bumped once more, and the reduce is not enqueued.
pub shard_runs_settle :
    (max_shard_attempts : ℕ) (run : Attempt) (later : List Attempt) (shard : Shard) (job : Job)
    → 0 < max_shard_attempts
    → length later ≡ retries max_shard_attempts
    → shard.attempts ≡ 0
    → let end = shard_runs max_shard_attempts run later shard job in
      IsSettled max_shard_attempts job end
      ⊎ ((any has_raised (run ∷ later) ≡ true) × IsLost job end)
shard_runs_settle n run later shard job p l a = shard_runs_cases n run later shard job (omega arith)
