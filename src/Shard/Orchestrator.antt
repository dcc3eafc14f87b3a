-- ===== src/Shard/Orchestrator.antt =====
-- service/jobs/orchestrator.py over the rows of service/core/models.py: plan_and_dispatch,
-- run_shard, _finalize_shard and reduce_job. Each database transaction is one function. The
-- timestamp columns are left out. What a run of the extractor gives, and the stored objects, are
-- arguments.
pub mod Runs
pub mod Counter
pub mod Enqueue
pub mod Progress
pub mod Reduce
pub mod Samples
use construction_harness.Prelude.{
  ltb, leb, nat_beq, if◌then◌else◌, ltb→lt, leb→le, leb→lt, nat_beq_iff, Bool-cases, Option-cases,
  Result, ok, err, length, get_elem?, set, take, drop, keep, all, any, All, length-append,
  length-keep-le, length-drop, length-set, All-append, All-keep, take-append-drop, length-map,
  concat, join, decimal, nonempty, Eq, ◌==◌, contains, contains-append, nat_eq, string_eq, pair_eq,
  ℤ, pos, negsuc, is_neg, pos_part, min_ℤ, ℕ, zero, suc, ◌+◌, ◌-◌, ◌*◌, ◌/◌, ◌%◌, ◌^◌, ◌≤◌, ◌<◌,
  min, max, String, ◌≡◌, refl, sym, ap, ◌∙◌, ◌≡⟨◌⟩◌, ◌∎, ◌≢◌, ◌↔◌, ◌⊎◌, inl, inr, Bool, true, false,
  not, ◌&&◌, ◌||◌, Option, none, some, List, [], ◌∷◌, ◌++◌, map, append-nil, append_assoc,
  map-append, arith,
}
use construction_harness.Shard.Planner.{ShardWindow}
use construction_harness.Shard.Extract.{ScheduleItem, merge_partials}

-- The job and shard lifecycle states of service/core/models.py.
pub data Status : Type 0 where
  queued running planning mapping reducing succeeded failed dead : Status

pub data Mode : Type 0 where
  single_mode sharded_mode : Mode

-- TakeoffShard. `error` is the message of the exception.
pub record Shard : Type 0 where
  pub shard_index : ℕ
  pub page_start : ℕ
  pub page_end : ℕ
  pub candidate_count : ℕ
  pub status : Status
  pub attempts : ℕ
  pub partial_object_key : Option String
  pub error : Option String

-- An entry of the manifest's `failed_shards`.
pub record FailedShard : Type 0 where
  pub shard_index : ℕ
  pub page_range : ℕ × ℕ
  pub error : Option String

pub record Manifest : Type 0 where
  pub mode : Mode
  pub shard_count : ℕ
  pub shards_merged : ℕ
  pub incomplete : Bool
  pub failed_shards : List FailedShard

-- The columns of TakeoffJob that the orchestrator writes.
pub record Job : Type 0 where
  pub status : Status
  pub mode : Mode
  pub shard_count : ℕ
  pub completed_shards : ℕ
  pub artifact_object_key : Option String
  pub manifest : Option Manifest

-- TakeoffShard(job_id=..., shard_index=w.index, ...)
abbrev pub new_shard : ShardWindow → Shard
new_shard w = record {
  shard_index = w.index;
  page_start = w.start;
  page_end = w.end;
  candidate_count = w.candidate_count;
  status = queued;
  attempts = 0;
  partial_object_key = none;
  error = none;
}

-- What plan_and_dispatch leaves: the single-window hand-off to process_job, or the shard rows and
-- the `run_shard` tasks, each with a number of RQ retries.
pub data Dispatch : Type 0 where
  hand_off : Job → Dispatch
  fan_out : Job → List Shard → List (ℕ × ℕ) → Dispatch

-- retries = max(settings.max_shard_attempts - 1, 0)
abbrev pub retries : ℕ → ℕ
retries max_shard_attempts = max_shard_attempts - 1

unfoldable pub plan_and_dispatch : ℕ → List ShardWindow → Job → Dispatch
plan_and_dispatch max_shard_attempts windows job =
    if leb (length windows) 1
    then hand_off (record job { status = planning; mode = single_mode })
    else fan_out
        (record job { status = mapping; mode = sharded_mode; shard_count = length windows })
        (map new_shard windows) (map (λ w. (w.index, retries max_shard_attempts)) windows)

-- The first transaction of run_shard.
unfoldable pub begin_shard : Shard → Shard
begin_shard shard = record shard { status = running; attempts = suc shard.attempts }

-- terminal = attempt_no >= settings.max_shard_attempts
abbrev pub is_terminal : ℕ → ℕ → Bool
is_terminal max_shard_attempts attempt_no = leb max_shard_attempts attempt_no

-- The transaction of the `except` branch.
unfoldable pub fail_shard : ℕ → ℕ → String → Shard → Shard
fail_shard max_shard_attempts attempt_no message shard = record shard {
  status = if is_terminal max_shard_attempts attempt_no then dead else failed;
  error = some message;
}

-- The transaction after the partial has been stored.
unfoldable pub succeed_shard : String → Shard → Shard
succeed_shard key shard = record shard { status = succeeded; partial_object_key = some key }

-- _finalize_shard: the counter after its atomic update, and whether the reduce is to be enqueued.
unfoldable pub finalize_shard : Job → Job × Bool
finalize_shard job =
    let finished = suc job.completed_shards in
    (record job { completed_shards = finished }, nat_beq finished job.shard_count)

-- What the extraction and the upload of one window give: the key of the stored partial, or the
-- message of an exception.
abbrev pub Outcome : Type 0
Outcome = Result String String

-- How a run of run_shard ends: it returns a status, or it raises and RQ may retry.
pub data RunEnd : Type 0 where
  returned : Status → RunEnd
  raised : String → RunEnd

-- The end of a run whose shard has its terminal status: after _finalize_shard it returns the status,
-- unless the enqueue of the reduce was due and has raised, when the counter's update is committed.
unfoldable pub end_run : Status → Option String → Job → RunEnd × Job × Bool
unfolding finalize_shard
end_run status enqueue job =
    let (job', due) = finalize_shard job in
    if due
    then elim enqueue [
      | none ↦ (returned status, job', true)
      | some message ↦ (raised message, job', false)
    ]
    else (returned status, job', false)

-- The whole of run_shard: its end, the shard's row, the job's row and whether it enqueued the reduce.
-- `enqueue` is the message of the exception that the enqueue raises, if it raises one.
unfoldable pub run_shard : ℕ → Outcome → Option String → Shard → Job → RunEnd × Shard × Job × Bool
unfolding begin_shard fail_shard succeed_shard end_run
run_shard max_shard_attempts (ok key) enqueue shard job =
    let (end, job', enqueued) = end_run succeeded enqueue job in
    (end, succeed_shard key (begin_shard shard), job', enqueued)
run_shard max_shard_attempts (err message) enqueue shard job =
    let started = begin_shard shard in
    let settled = fail_shard max_shard_attempts started.attempts message started in
    let (end, job', enqueued) = end_run dead enqueue job in
    if is_terminal max_shard_attempts started.attempts
    then (end, settled, job', enqueued)
    else (raised message, settled, job, false)

-- sh.status == STATUS_SUCCEEDED and sh.partial_object_key
unfoldable pub merged_key : Shard → Option String
merged_key shard = elim shard.status [
  | succeeded ↦ elim shard.partial_object_key [
    | none ↦ none
    | some key ↦ if nonempty key then some key else none
  ]
  | _ ↦ none
]

abbrev pub is_dead : Status → Bool
is_dead dead = true
is_dead _ = false

unfoldable pub failed_entry : Shard → FailedShard
failed_entry shard = record {
  shard_index = shard.shard_index;
  page_range = (shard.page_start, shard.page_end);
  error = shard.error;
}

abbrev pub keys_of : Option String → List String → List String
keys_of none keys = keys
keys_of (some key) keys = key ∷ keys

-- The partials' keys, in shard order.
unfoldable pub partial_keys : List Shard → List String
unfolding merged_key
partial_keys [] = []
partial_keys (shard ∷ shards) = keys_of (merged_key shard) (partial_keys shards)

unfoldable pub failed_shards : List Shard → List FailedShard
unfolding failed_entry
failed_shards [] = []
failed_shards (shard ∷ shards) =
    let rest = failed_shards shards in
    if is_dead shard.status then failed_entry shard ∷ rest else rest

abbrev pub any_failed : List FailedShard → Bool
any_failed [] = false
any_failed (f ∷ fs) = true

-- reduce_job: the job's row, and the merged items that the artifact is assembled from.
module _ {F : Type 0} (get_partial : String → List (ScheduleItem F)) where
  unfoldable pub reduce_job : String → List Shard → Job → Job × List (ScheduleItem F)
  unfolding partial_keys failed_shards merge_partials
  reduce_job artifact_key shards job =
      let keys = partial_keys shards in
      let failures = failed_shards shards in
      let manifest : Manifest = record {
        mode = sharded_mode;
        shard_count = job.shard_count;
        shards_merged = length keys;
        incomplete = any_failed failures;
        failed_shards = failures;
      } in
      (
        record job {
          status = succeeded;
          artifact_object_key = some artifact_key;
          manifest = some manifest;
        },
        merge_partials (map get_partial keys),
      )
