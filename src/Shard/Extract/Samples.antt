-- ===== src/Shard/Extract/Samples.antt =====
-- Concrete runs of the planner, the extractor and the reduce.
use construction_harness.Prelude.{
  ltb, leb, if◌then◌else◌, ok, err, length, All, nat_eq, string_eq, pair_eq, pos, negsuc, ℕ, ◌≤◌,
  ◌<◌, String, ◌≡◌, refl, ◌⊎◌, Bool, none, some, List, [], ◌∷◌, map,
}
use construction_harness.Shard.Planner.{
  ShardWindow, negative_total_pages, candidates_in, plan_shard_windows, window_lo, window_hi,
}
use construction_harness.Shard.Planner.Tiling.{Tiles, plan_shard_windows_cover}
use construction_harness.Shard.Planner.Bounds.{Within, total_count, plan_shard_windows-le_cap}
use construction_harness.Shard.Extract.{
  ScheduleItem, merge_partials, range, extract_schedule_items, extract_shard,
}
use construction_harness.Shard.Extract.Equivalence.{sharded-eq-serial}

abbrev pub window : ℕ → ℕ → ℕ → ℕ → ShardWindow
window index start end count = record {
  index = index;
  start = start;
  end = end;
  candidate_count = count;
}

abbrev pub candidates : List ℕ
candidates = 9 ∷ 2 ∷ 4 ∷ 2 ∷ 7 ∷ 30 ∷ []

abbrev pub planned : List ShardWindow
planned = window 0 1 5 2 ∷ window 1 5 10 2 ∷ []

pub plan_candidates : plan_shard_windows candidates (pos 10) (pos 2) (pos 1) none ≡ ok planned
unfolding plan_shard_windows
plan_candidates = refl

plan_negative :
    plan_shard_windows candidates (negsuc 0) (pos 2) (pos 0) none
    ≡ err (negative_total_pages (negsuc 0))
unfolding plan_shard_windows
plan_negative = refl

plan_shard_windows_cover_example :
    ((window_hi (pos 10) none ≤ window_lo (pos 1)) × (planned ≡ []))
    ⊎ ((window_lo (pos 1) < window_hi (pos 10) none)
        × Tiles 0 (window_lo (pos 1)) (window_hi (pos 10) none) planned)
plan_shard_windows_cover_example =
    plan_shard_windows_cover candidates (pos 10) (pos 2) (pos 1) none planned plan_candidates

plan_shard_windows-le_cap_example :
    All (Within 2 (candidates_in candidates 1 10)) planned
    × (total_count planned ≡ length (candidates_in candidates 1 10))
plan_shard_windows-le_cap_example =
    plan_shard_windows-le_cap candidates (pos 10) (pos 2) (pos 1) none planned plan_candidates

abbrev pub door : String → ScheduleItem ℕ
door mark = record {
  schedule = "door";
  shape = "instance";
  mark = mark;
  quantity = some 1;
  unit = none;
  quantity_basis = "row_count";
  description = "";
  attributes = [];
  source = [];
}

abbrev pub every_page : ℕ → String → Bool
every_page i schema = ltb 1 i

abbrev pub doors_on : ℕ → String → List (ScheduleItem ℕ)
doors_on i schema = if leb i 4 then door "101A" ∷ door "" ∷ [] else door "101A" ∷ door "102A" ∷ []

sharded-eq-serial_example :
    merge_partials (map (extract_shard every_page doors_on ("door" ∷ [])) planned)
    ≡ extract_schedule_items every_page doors_on ("door" ∷ []) (range 1 10)
sharded-eq-serial_example =
    sharded-eq-serial every_page doors_on ("door" ∷ []) candidates (pos 10) (pos 2) (pos 1) none
      planned plan_candidates

merged_doors :
    merge_partials (map (extract_shard every_page doors_on ("door" ∷ [])) planned)
    ≡ door "101A" ∷ door "102A" ∷ []
unfolding merge_partials extract_shard
merged_doors = refl
