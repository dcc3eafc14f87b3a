-- ===== src/Results/Samples.antt =====
-- A job with three rows.
use construction_harness.Prelude.{
  ok, get_elem?, ◌==◌, nat_eq, string_eq, pair_eq, pos, ℕ, String, ◌≡◌, refl, Bool, not, none, some,
  List, [], ◌∷◌, arith,
}
use construction_harness.Shard.Orchestrator.{Job, succeeded, single_mode}
use construction_harness.Results.{client_page_size, total_pages, get_rows, fetch_pages}
use construction_harness.Shard.Extract.{ScheduleItem}
use construction_harness.Results.Projection.{
  Report, Tables, item_row, area_row, count_row, project, shred_entities,
}
use construction_harness.Results.Projection.Stored.{
  Replaces, rows_of, row_of, shred_entities-Replaces,
}
use construction_harness.Results.Paging.{fetch_pages-keep}

abbrev job : Job
job = record {
  status = succeeded;
  mode = single_mode;
  shard_count = 1;
  completed_shards = 0;
  artifact_object_key = some "artifacts/j/schedule_items.json";
  manifest = none;
}

abbrev marks : List String
marks = "101A" ∷ "P-1" ∷ "102A" ∷ []

abbrev is_door : String → Bool
is_door mark = not (mark == "P-1")

fetch_pages-keep_example :
    fetch_pages (λ page. get_rows is_door marks (some job) (pos page) (pos client_page_size)) 2 1 []
    ≡ some (ok ("101A" ∷ "102A" ∷ []))
unfolding total_pages
fetch_pages-keep_example = fetch_pages-keep is_door marks job 2 refl (omega arith)

abbrev door : ScheduleItem ℕ
door = record {
  schedule = "door";
  shape = "instance";
  mark = "101A";
  quantity = some 1;
  unit = some "EA";
  quantity_basis = "row_count";
  description = "";
  attributes = [];
  source = ("file_id", "a1") ∷ ("page_index", "12") ∷ [];
}

abbrev report : Report ℕ
report = record { items = door ∷ []; room_areas = []; fixture_counts = [] }

abbrev stored : Tables ℕ
stored = record {
  schedule_items = ("old", item_row 0 door) ∷ ("new", item_row 7 door) ∷ [];
  room_areas = [];
  fixture_counts = [];
}

shred_entities-Replaces_example :
    let (counts, after) = shred_entities "new" report stored in
    Replaces "new" (project report).0 stored.schedule_items after.schedule_items
    × Replaces "new" (project report).1 stored.room_areas after.room_areas
    × Replaces "new" (project report).2 stored.fixture_counts after.fixture_counts
    × (counts ≡ (1, 0, 0))
    × (get_elem? (rows_of "new" after.schedule_items) 0
        ≡ row_of (item_row 0) (get_elem? report.items 0))
    × (get_elem? (rows_of "new" after.room_areas) 0
        ≡ row_of (area_row 0) (get_elem? report.room_areas 0))
    × (get_elem? (rows_of "new" after.fixture_counts) 0
        ≡ row_of (count_row 0) (get_elem? report.fixture_counts 0))
shred_entities-Replaces_example = shred_entities-Replaces "new" report stored 0
