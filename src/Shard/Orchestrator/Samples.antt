-- ===== src/Shard/Orchestrator/Samples.antt =====
-- Concrete runs of the orchestrator.
use construction_harness.Prelude.{
  if◌then◌else◌, ok, err, length, any, All, ◌==◌, nat_eq, string_eq, pair_eq, pos, ℕ, ◌+◌, ◌*◌, ◌≤◌,
  ◌<◌, String, ◌≡◌, refl, ◌⊎◌, inl, inr, true, none, some, List, [], ◌∷◌, ◌++◌, map, arith,
}
use construction_harness.Shard.Planner.{ShardWindow}
use construction_harness.Shard.Orchestrator.{
  begin_shard, succeed_shard, finalize_shard, run_shard, planning, mapping, succeeded, dead, Shard,
  Job, sharded_mode, single_mode, Manifest, fan_out, plan_and_dispatch, new_shard, reduce_job,
  failed_shards,
}
use construction_harness.Shard.Orchestrator.Runs.{
  Attempt, has_raised, IsLost, shard_runs, IsSettled, shard_runs_settle,
}
use construction_harness.Shard.Orchestrator.Enqueue.{
  Reaches, at_start, and_step, and_raise, enqueue_raises,
}
use construction_harness.Shard.Orchestrator.Counter.{
  System, waiting, begun, settled, Phase, moves, begins, succeeds, Step, IsDispatched, IsTerminal,
  no_step, count_counted, reduce_once,
}
use construction_harness.Shard.Orchestrator.Progress.{steps, reduce_reached}
use construction_harness.Shard.Orchestrator.Reduce.{
  Dealt, IsFlagged, reduce_job_flags, reduce_job-eq-serial,
}
use construction_harness.Shard.Extract.{
  merge_partials, ScheduleItem, extract_schedule_items, extract_shard, range,
}
use construction_harness.Shard.Extract.Samples.{
  window, planned, plan_candidates, every_page, doors_on, candidates,
}

abbrev job : Job
job = record {
  status = planning;
  mode = single_mode;
  shard_count = 0;
  completed_shards = 0;
  artifact_object_key = none;
  manifest = none;
}

abbrev fanned : Job
fanned = record job { status = mapping; mode = sharded_mode; shard_count = 2 }

abbrev rows : List Shard
rows = map new_shard planned

dispatched : plan_and_dispatch 3 planned job ≡ fan_out fanned rows ((0, 2) ∷ (1, 2) ∷ [])
unfolding plan_and_dispatch
dispatched = refl

abbrev fresh_row : Shard
fresh_row = new_shard (record { index = 0; start = 1; end = 5; candidate_count = 2 })

abbrev first_run : Attempt
first_run = (err "timeout", none)

abbrev later_runs : List Attempt
later_runs = (err "timeout", none) ∷ (ok "shards/j/0.json", some "connection refused") ∷ []

shard_runs_settle_example :
    IsSettled 3 fanned (shard_runs 3 first_run later_runs fresh_row fanned)
    ⊎ ((any has_raised (first_run ∷ later_runs) ≡ true)
        × IsLost fanned (shard_runs 3 first_run later_runs fresh_row fanned))
shard_runs_settle_example =
    shard_runs_settle 3 first_run later_runs fresh_row fanned (omega arith) refl refl

-- The last shard's enqueue raises, and its second run bumps the counter past the shard count.
lost_reduce :
    (shard_runs 2
      (ok "shards/j/1.json", some "connection refused")
      ((ok "shards/j/1.json", none) ∷ [])
      fresh_row
      (record fanned { completed_shards = 1 })).2.completed_shards
    ≡ 3
unfolding shard_runs run_shard
lost_reduce = refl

abbrev start : System
start = record {
  slots = map (λ shard. record { shard = shard; phase = waiting }) rows;
  job = fanned;
  reduces = 0;
}

start-IsDispatched : IsDispatched start
start-IsDispatched = record {
  some_shard = omega arith;
  all_waiting = (refl, (refl, tt));
  shard_count = refl;
  none_completed = refl;
  no_reduce = refl;
}

reduce_once_example :
    ((count_counted start.slots < length start.slots) × (start.reduces ≡ 0))
    ⊎ ((count_counted start.slots ≡ length start.slots)
        × (start.reduces ≡ 1)
        × All IsTerminal start.slots)
reduce_once_example = reduce_once 3 start start start-IsDispatched no_step

-- One shard whose extraction succeeds and whose enqueue raises, with two attempts configured.
abbrev alone : Phase → Shard → ℕ → System
alone phase shard completed = record {
  slots = record { shard = shard; phase = phase } ∷ [];
  job = record fanned { shard_count = 1; completed_shards = completed };
  reduces = 0;
}

abbrev begun_row : Shard
begun_row = begin_shard fresh_row

abbrev done_row : Shard
done_row = succeed_shard "shards/j/0.json" begun_row

enqueue_raised : Reaches 2 (alone waiting fresh_row 0) (alone waiting done_row 1) 1
unfolding finalize_shard begin_shard succeed_shard
enqueue_raised =
    and_raise
      (and_step
        (and_step at_start (
          moves [] [] (record { shard = fresh_row; phase = waiting })
            (record { shard = begun_row; phase = begun }) refl (begins refl refl) refl))
        (moves [] [] (record { shard = begun_row; phase = begun })
          (record { shard = done_row; phase = settled }) refl (succeeds "shards/j/0.json" refl refl)
          refl))
      (enqueue_raises [] [] (record { shard = done_row; phase = settled }) refl refl refl refl)

alone-IsDispatched : IsDispatched (alone waiting fresh_row 0)
alone-IsDispatched = record {
  some_shard = omega arith;
  all_waiting = (refl, tt);
  shard_count = refl;
  none_completed = refl;
  no_reduce = refl;
}

reduce_reached_example :
    (steps enqueue_raised ≤ 1 * (3 * 2))
    × (0 + 1 ≤ 1)
    × ((0 + 1 ≡ 1) ⊎ ((u : System) × Step 2 (alone waiting done_row 1) u))
reduce_reached_example =
    reduce_reached 2 (alone waiting fresh_row 0) (alone waiting done_row 1) 1 (omega arith)
      alone-IsDispatched (refl, tt) enqueue_raised

abbrev settled_row : String → ShardWindow → Shard
settled_row key w = record (new_shard w) {
  status = succeeded;
  attempts = 1;
  partial_object_key = some key;
}

abbrev settled_rows : List Shard
settled_rows =
    map (settled_row "p") planned ++ record fresh_row { status = dead; attempts = 3 } ∷ []

abbrev stored : String → List (ScheduleItem ℕ)
stored key = doors_on 2 "door"

reduce_job_flags_example :
    let after = (reduce_job stored "artifact" settled_rows fanned).0 in
    (after.status ≡ succeeded)
    × ((manifest : Manifest) × (keys : List String) × (after.manifest ≡ some manifest)
        × IsFlagged fanned.shard_count settled_rows manifest
        × Dealt settled_rows keys manifest.failed_shards
        × (manifest.shards_merged ≡ length keys)
        × ((reduce_job stored "artifact" settled_rows fanned).1 ≡ merge_partials (map stored keys)))
reduce_job_flags_example =
    reduce_job_flags stored "artifact" settled_rows fanned
      (inl (refl, ("p", refl, refl)), (inl (refl, ("p", refl, refl)), (inr refl, tt)))

abbrev first_rows : List Shard
first_rows = settled_row "0" (window 0 1 5 2) ∷ settled_row "1" (window 1 5 10 2) ∷ []

abbrev partials : String → List (ScheduleItem ℕ)
partials key =
    extract_shard every_page doors_on ("door" ∷ [])
      (if key == "0" then window 0 1 5 2 else window 1 5 10 2)

reduce_job-eq-serial_example :
    ((reduce_job partials "artifact" first_rows fanned).1
      ≡ extract_schedule_items every_page doors_on ("door" ∷ []) (range 1 10))
    × (failed_shards first_rows ≡ [])
reduce_job-eq-serial_example =
    reduce_job-eq-serial every_page doors_on ("door" ∷ []) partials candidates (pos 10) (pos 2)
      (pos 1) none planned first_rows "artifact" fanned plan_candidates
      ((refl, ("0", refl, refl, refl), (refl, ("1", refl, refl, refl), tt)))
