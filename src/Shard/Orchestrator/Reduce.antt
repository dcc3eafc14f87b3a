-- ===== src/Shard/Orchestrator/Reduce.antt =====
-- The reduce over settled shards: what it merges, what it flags.
use construction_harness.Prelude.{
  ok, length, any, All, nonempty, nat_eq, string_eq, pair_eq, ℤ, ℕ, ◌+◌, String, ◌≡◌, refl, ap, ◌∙◌,
  ◌↔◌, ◌⊎◌, inl, inr, Bool, true, false, Option, none, some, List, [], ◌∷◌, map, arith,
}
use construction_harness.Shard.Extract.{ScheduleItem, merge_partials}
use construction_harness.Shard.Orchestrator.{
  succeeded, dead, Shard, FailedShard, Job, Manifest, merged_key, failed_entry, partial_keys,
  failed_shards, any_failed, is_dead, reduce_job,
}
use construction_harness.Shard.Planner.{ShardWindow, plan_shard_windows, window_lo, window_hi}
use construction_harness.Shard.Extract.{extract_shard, extract_schedule_items, range}
use construction_harness.Shard.Extract.Equivalence.{sharded-eq-serial}

-- A shard's row after its last run: succeeded with the key of its partial, or dead.
abbrev pub IsSettledRow : Shard → Type 0
IsSettledRow shard =
    ((shard.status ≡ succeeded)
      × ((key : String) × (shard.partial_object_key ≡ some key) × (nonempty key ≡ true)))
    ⊎ (shard.status ≡ dead)

-- The failure that lists a shard, by its own index, pages and error.
abbrev pub Lists : Shard → FailedShard → Type 0
Lists shard failure =
    (failure.shard_index ≡ shard.shard_index)
    × (failure.page_range ≡ (shard.page_start, shard.page_end))
    × (failure.error ≡ shard.error)

-- In the order of the shards, the key of each shard that has succeeded and a failure for each that
-- is dead, and nothing else.
pub data Dealt : List Shard → List String → List FailedShard → Type 0 where
  no_shard : Dealt [] [] []
  merged :
      {shard : Shard} {key : String} {shards : List Shard} {keys : List String}
      {failures : List FailedShard}
      → shard.status ≡ succeeded
      → shard.partial_object_key ≡ some key
      → Dealt shards keys failures
      → Dealt (shard ∷ shards) (key ∷ keys) failures
  listed :
      {shard : Shard} {failure : FailedShard} {shards : List Shard} {keys : List String}
      {failures : List FailedShard}
      → shard.status ≡ dead
      → Lists shard failure
      → Dealt shards keys failures
      → Dealt (shard ∷ shards) keys (failure ∷ failures)

shards-Dealt :
    (shards : List Shard)
    → All IsSettledRow shards
    → Dealt shards (partial_keys shards) (failed_shards shards)
unfolding partial_keys failed_shards merged_key failed_entry
shards-Dealt [] h = no_shard
shards-Dealt (shard ∷ shards) (inl (s, (key, k, ne)), hs) =
    let own_key : merged_key shard ≡ some key = ground arith in
    let alive : is_dead shard.status ≡ false = ground arith in
    rw (own_key, alive) (merged s k (shards-Dealt shards hs))
shards-Dealt (shard ∷ shards) (inr d, hs) =
    let no_key : merged_key shard ≡ none = ground arith in
    let gone : is_dead shard.status ≡ true = ap is_dead d in
    rw (no_key, gone) (listed d (refl, refl, refl) (shards-Dealt shards hs))

length-partial_keys :
    (shards : List Shard)
    → All IsSettledRow shards
    → length (partial_keys shards) + length (failed_shards shards) ≡ length shards
unfolding partial_keys failed_shards
length-partial_keys [] h = refl
length-partial_keys (shard ∷ shards) (inl (s, (key, k, ne)), hs) =
    ground (arith, length-partial_keys shards hs)
length-partial_keys (shard ∷ shards) (inr d, hs) = ground (arith, length-partial_keys shards hs)

failed_some_dead :
    (shards : List Shard)
    → (any_failed (failed_shards shards) ≡ true) ↔ (any (λ sh. is_dead sh.status) shards ≡ true)
unfolding failed_shards
failed_some_dead [] = ground arith
failed_some_dead (shard ∷ shards) = ground (arith, failed_some_dead shards)

-- What the job's manifest says of the shards.
pub record IsFlagged (total : ℕ) (shards : List Shard) (manifest : Manifest) : Type 0 where
  pub shard_count : manifest.shard_count ≡ total
  pub every_shard : manifest.shards_merged + length manifest.failed_shards ≡ length shards
  pub flagged : (manifest.incomplete ≡ true) ↔ (any (λ sh. is_dead sh.status) shards ≡ true)

-- When every shard's row has succeeded with a key or is dead, the reduce ends with the job
-- `succeeded`, having merged the partials of exactly the shards that succeeded, in their order. The
-- manifest says how many they are, and lists exactly the dead shards, in their order, each with its
-- index, pages and error; it says `incomplete` exactly if some shard is dead.
pub reduce_job_flags :
    {F : Type 0} (get_partial : String → List (ScheduleItem F)) (artifact_key : String)
    (shards : List Shard) (job : Job)
    → All IsSettledRow shards
    → let after = (reduce_job get_partial artifact_key shards job).0 in
      (after.status ≡ succeeded)
      × ((manifest : Manifest) × (keys : List String) × (after.manifest ≡ some manifest)
          × IsFlagged job.shard_count shards manifest
          × Dealt shards keys manifest.failed_shards
          × (manifest.shards_merged ≡ length keys)
          × ((reduce_job get_partial artifact_key shards job).1
              ≡ merge_partials (map get_partial keys)))
unfolding reduce_job
reduce_job_flags get_partial artifact_key shards job h = (
  refl,
  (
    _,
    partial_keys shards,
    refl,
    record {
      shard_count = refl;
      every_shard = length-partial_keys shards h;
      flagged = failed_some_dead shards;
    },
    shards-Dealt shards h,
    refl,
    refl,
  ),
)

module _ {F : Type 0} {Schema : Type 0} (page_matches : ℕ → Schema → Bool)
    (parse_page : ℕ → Schema → List (ScheduleItem F)) (schemas : List Schema)
    (get_partial : String → List (ScheduleItem F)) where
  -- Every window's shard has succeeded, and the object under its key is what its extraction gave.
  abbrev pub Extracted : List ShardWindow → List Shard → Type 0
  Extracted [] [] = Unit
  Extracted (w ∷ ws) (shard ∷ shards) =
      (shard.status ≡ succeeded)
      × ((key : String) × (shard.partial_object_key ≡ some key)
          × (nonempty key ≡ true)
          × (get_partial key ≡ extract_shard page_matches parse_page schemas w))
      × Extracted ws shards
  Extracted _ _ = ⊥

  partials-Extracted :
      (ws : List ShardWindow) (shards : List Shard)
      → Extracted ws shards
      → (map get_partial (partial_keys shards)
          ≡ map (extract_shard page_matches parse_page schemas) ws)
        × (failed_shards shards ≡ [])
  unfolding partial_keys failed_shards
  partials-Extracted [] [] h = (refl, refl)
  partials-Extracted (w ∷ ws) (shard ∷ shards) (s, (key, k, ne, e), hs) =
      ground (arith, partials-Extracted ws shards hs)
  partials-Extracted [] (shard ∷ shards) h = absurd h
  partials-Extracted (w ∷ ws) [] h = absurd h

  -- A sharded job in which every shard of a plan's windows succeeded: the items that the reduce
  -- assembles the artifact from are exactly those of one serial pass over the job's pages, in the
  -- same order, and no shard is listed as failed.
  pub reduce_job-eq-serial :
      (candidate_pages : List ℕ) (total_pages cap' page_start : ℤ) (page_end : Option ℤ)
      (windows : List ShardWindow) (shards : List Shard) (artifact_key : String) (job : Job)
      → plan_shard_windows candidate_pages total_pages cap' page_start page_end ≡ ok windows
      → Extracted windows shards
      → ((reduce_job get_partial artifact_key shards job).1
          ≡ extract_schedule_items page_matches parse_page schemas
              (range (window_lo page_start) (window_hi total_pages page_end)))
        × (failed_shards shards ≡ [])
  unfolding reduce_job
  reduce_job-eq-serial pages total cap' page_start page_end ws shards artifact_key job planned h =
      let (same, none_failed) = partials-Extracted ws shards h in
      (
        ap merge_partials same
            ∙ sharded-eq-serial page_matches parse_page schemas pages total cap' page_start page_end
                ws planned,
        none_failed,
      )
