-- ===== src/Results/Projection.antt =====
-- service/takeoff/projection.py: the entity rows of a report, and their storage. The records of the
-- report are those of src/models/schedule.py. A table is a list of rows, each with its job's id.
-- The values of a `source` dict are held as texts.
pub mod Stored
use construction_harness.Prelude.{
  ltb, leb, nat_beq, if◌then◌else◌, ltb→lt, leb→le, leb→lt, nat_beq_iff, Bool-cases, Option-cases,
  List-cases, Result, ok, err, length, get_elem?, set, take, drop, keep, all, any, All,
  length-append, length-keep-le, length-drop, length-set, All-append, All-keep, take-append-drop,
  length-map, concat, join, decimal, nonempty, Eq, ◌==◌, contains, contains-append, nat_eq,
  string_eq, pair_eq, ℤ, pos, negsuc, is_neg, pos_part, min_ℤ, ℕ, zero, suc, ◌+◌, ◌-◌, ◌*◌, ◌/◌,
  ◌%◌, ◌^◌, ◌≤◌, ◌<◌, min, max, String, ◌≡◌, refl, sym, ap, ◌∙◌, ◌≡⟨◌⟩◌, ◌∎, ◌≢◌, ◌↔◌, ◌⊎◌, inl,
  inr, Bool, true, false, not, ◌&&◌, ◌||◌, Option, none, some, List, [], ◌∷◌, ◌++◌, map, append-nil,
  append_assoc, map-append, arith, first_chars, char_count, starts_with, difference,
  starts_with-append, length-take, subst,
}
use construction_harness.Harness.Messages.{lookup}
use construction_harness.Shard.Extract.{ScheduleItem}

-- RoomArea and CountResult; a float is a type `F` of the caller's.
pub record RoomArea (F : Type 0) : Type 0 where
  pub room_number : String
  pub area_sf : F
  pub confidence : F
  pub basis : String
  pub source : List (String × String)

pub record CountResult (F : Type 0) : Type 0 where
  pub symbol_id : String
  pub sheet_page : ℕ
  pub count : ℕ
  pub confidence : F
  pub source : String
  pub verified : Bool
  pub boxes : List (F × F)

pub record Report (F : Type 0) : Type 0 where
  pub items : List (ScheduleItem F)
  pub room_areas : List (RoomArea F)
  pub fixture_counts : List (CountResult F)

pub record ItemRow (F : Type 0) : Type 0 where
  pub ordinal : ℕ
  pub schedule : String
  pub shape : String
  pub mark : String
  pub quantity : Option F
  pub unit : Option String
  pub quantity_basis : String
  pub description : String
  pub attributes : List (String × String)
  pub src_file_id : Option String
  pub src_page_index : Option String

pub record AreaRow (F : Type 0) : Type 0 where
  pub ordinal : ℕ
  pub room_number : String
  pub area_sf : F
  pub confidence : F
  pub basis : String
  pub src_file_id : Option String
  pub src_page_index : Option String

pub record CountRow (F : Type 0) : Type 0 where
  pub ordinal : ℕ
  pub symbol_id : String
  pub sheet_page : ℕ
  pub count : ℕ
  pub confidence : F
  pub source : String
  pub verified : Bool
  pub boxes : List (F × F)

-- [row(i, d) for i, d in enumerate(ds)], from the index `i`
unfoldable pub enumerate_from {ℓ κ} : {A : Type ℓ} {B : Type κ} → (ℕ → A → B) → ℕ → List A → List B
enumerate_from row i [] = []
enumerate_from row i (d ∷ ds) = row i d ∷ enumerate_from row (suc i) ds

module _ {F : Type 0} where
  unfoldable pub item_row : ℕ → ScheduleItem F → ItemRow F
  item_row ordinal d = record {
    ordinal = ordinal;
    schedule = d.schedule;
    shape = d.shape;
    mark = d.mark;
    quantity = d.quantity;
    unit = d.unit;
    quantity_basis = d.quantity_basis;
    description = d.description;
    attributes = d.attributes;
    src_file_id = lookup "file_id" d.source;
    src_page_index = lookup "page_index" d.source;
  }

  unfoldable pub area_row : ℕ → RoomArea F → AreaRow F
  area_row ordinal d = record {
    ordinal = ordinal;
    room_number = d.room_number;
    area_sf = d.area_sf;
    confidence = d.confidence;
    basis = d.basis;
    src_file_id = lookup "file_id" d.source;
    src_page_index = lookup "page_index" d.source;
  }

  unfoldable pub count_row : ℕ → CountResult F → CountRow F
  count_row ordinal d = record {
    ordinal = ordinal;
    symbol_id = d.symbol_id;
    sheet_page = d.sheet_page;
    count = d.count;
    confidence = d.confidence;
    source = d.source;
    verified = d.verified;
    boxes = d.boxes;
  }

  -- project: the rows of the three tables
  unfoldable pub project : Report F → List (ItemRow F) × List (AreaRow F) × List (CountRow F)
  unfolding enumerate_from item_row area_row count_row
  project report = (
    enumerate_from item_row 0 report.items,
    enumerate_from area_row 0 report.room_areas,
    enumerate_from count_row 0 report.fixture_counts,
  )

-- The rows of one job in a table, and the others.
abbrev pub of_job {ℓ} : {R : Type ℓ} → String → String × R → Bool
of_job job_id row = row.0 == job_id

-- delete where job_id = ..., then add_all
unfoldable pub replace_rows {ℓ} :
    {R : Type ℓ} → String → List R → List (String × R) → List (String × R)
replace_rows job_id rows table =
    keep (λ row. not (of_job job_id row)) table ++ map (λ r. (job_id, r)) rows

pub record Tables (F : Type 0) : Type 0 where
  pub schedule_items : List (String × ItemRow F)
  pub room_areas : List (String × AreaRow F)
  pub fixture_counts : List (String × CountRow F)

module _ {F : Type 0} where
  -- shred_entities: the numbers of rows per table, and the tables after.
  unfoldable pub shred_entities : String → Report F → Tables F → (ℕ × ℕ × ℕ) × Tables F
  unfolding project replace_rows
  shred_entities job_id report tables =
      let (items, areas, counts) = project report in
      (
        (length items, length areas, length counts),
        record {
          schedule_items = replace_rows job_id items tables.schedule_items;
          room_areas = replace_rows job_id areas tables.room_areas;
          fixture_counts = replace_rows job_id counts tables.fixture_counts;
        },
      )
