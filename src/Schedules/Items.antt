-- ===== src/Schedules/Items.antt =====
-- Quantity-bearing items of a schedule table (src/takeoff/quantity_schedules.py). A quantity is a
-- float: a type `F`, with Python's `float` of a text and the float 1.0 as parameters.
pub mod Quantity
use construction_harness.Prelude.{
  ltb, leb, nat_beq, if◌then◌else◌, ltb→lt, leb→le, leb→lt, nat_beq_iff, Bool-cases, Option-cases,
  List-cases, Result, ok, err, length, get_elem?, set, take, drop, keep, all, any, All,
  length-append, length-keep-le, length-drop, length-set, All-append, All-keep, take-append-drop,
  length-map, concat, join, decimal, nonempty, Eq, ◌==◌, contains, contains-append, nat_eq,
  string_eq, pair_eq, ℤ, pos, negsuc, is_neg, pos_part, min_ℤ, ℕ, zero, suc, ◌+◌, ◌-◌, ◌*◌, ◌/◌,
  ◌%◌, ◌^◌, ◌≤◌, ◌<◌, min, max, String, ◌≡◌, refl, sym, ap, ◌∙◌, ◌≡⟨◌⟩◌, ◌∎, ◌≢◌, ◌↔◌, ◌⊎◌, inl,
  inr, Bool, true, false, not, ◌&&◌, ◌||◌, Option, none, some, List, [], ◌∷◌, ◌++◌, map, append-nil,
  append_assoc, map-append, arith, first_chars, char_count, starts_with, difference,
  starts_with-append, length-take, subst, Distinct, Distinct-append_one, contains_self,
  All-contains,
}
use construction_harness.Harness.Messages.{Dict, lookup, put}
use construction_harness.Shard.Extract.{ScheduleItem}
use construction_harness.Shard.Extract
use construction_harness.Schedules.Cells.{Cell, lower, has_part}
use construction_harness.Schedules.Marks.{find_number}
use construction_harness.Schedules.Schema.{ScheduleSchema, key_field, schedule_registry}
use construction_harness.Schedules.Labels.{or_empty}
use construction_harness.Schedules.Resolver.{Table, ColumnMap, resolve_columns, too_narrow}
use construction_harness.Schedules.Rows.{clean_at, select_rows}

-- {fld: _clean(row[c]) for c, fld in cm.mapping.items() if c < len(row)}
unfoldable pub attributes_of : List Cell → List (ℕ × String) → Dict String → Dict String
unfolding clean_at
attributes_of row [] attrs = attrs
attributes_of row ((c, fld) ∷ mapping) attrs =
    attributes_of row mapping (if ltb c (length row) then put fld (clean_at row c) attrs else attrs)

-- attrs.get(key, "")
abbrev pub attr : String → Dict String → String
attr key attrs = or_empty (lookup key attrs)

abbrev quantity_text : Option String → Dict String → String
quantity_text none attrs = ""
quantity_text (some field) attrs = if nonempty field then attr field attrs else ""

abbrev pub basis_row_count : String
basis_row_count = "row_count"

abbrev pub basis_qty_column : String
basis_qty_column = "qty_column"

abbrev pub basis_unknown : String
basis_unknown = "unknown_plan_count"

module _ {F : Type 0} (parse_float : String → F) (one : F) where
  -- _num
  unfoldable pub num : String → Option F
  unfolding find_number
  num cell = if nonempty (find_number cell) then some (parse_float (find_number cell)) else none

  -- Which quantity a row has: the number in its quantity cell, one, or none.
  unfoldable pub quantity_or : ScheduleSchema → Option F → Option F × Option String × String
  quantity_or schema (some v) = (some v, some schema.qty_unit, basis_qty_column)
  quantity_or schema none =
      if schema.shape == "instance"
      then (some one, some schema.qty_unit, basis_row_count)
      else (none, none, basis_unknown)

  -- _quantity: an empty cell holds no number.
  unfoldable pub row_quantity : ScheduleSchema → Dict String → Option F × Option String × String
  unfolding num quantity_or
  row_quantity schema attrs = quantity_or schema (num (quantity_text schema.qty_field attrs))

  unfoldable pub build_item : List Cell → ColumnMap → ScheduleSchema → Dict String → ScheduleItem F
  unfolding attributes_of row_quantity key_field
  build_item row cm schema source =
      let attrs = attributes_of row cm.mapping [] in
      let (qty, unit, basis) = row_quantity schema attrs in
      record {
        schedule = schema.name;
        shape = schema.shape;
        mark = attr (key_field schema) attrs;
        quantity = qty;
        unit = unit;
        quantity_basis = basis;
        description = attr "description" attrs;
        attributes = attrs;
        source = source;
      }

  abbrev pub source_or : ScheduleSchema → Dict String → Dict String
  source_or schema [] = ("schedule", schema.name) ∷ []
  source_or schema (s ∷ source) = s ∷ source

  unfoldable pub parse_schedule : Table → ScheduleSchema → Dict String → List (ScheduleItem F)
  unfolding build_item select_rows resolve_columns
  parse_schedule table schema source =
      let cm = resolve_columns table schema in
      map (λ row. build_item row cm schema (source_or schema source)) (select_rows table cm schema)

  -- A table that is wide enough, and resolves to the schema.
  unfoldable pub table_resolves : ScheduleSchema → ℕ → ℕ → Table → Bool
  unfolding resolve_columns
  table_resolves schema min_coverage min_cols t =
      not (too_narrow min_cols t) && leb min_coverage (resolve_columns t schema).coverage

  unfoldable pub parse_page :
      List Table → ScheduleSchema → Dict String → ℕ → ℕ → List (ScheduleItem F)
  unfolding parse_schedule table_resolves
  parse_page [] schema source min_coverage min_cols = []
  parse_page (t ∷ tables) schema source min_coverage min_cols =
      let rest = parse_page tables schema source min_coverage min_cols in
      if table_resolves schema min_coverage min_cols t
      then parse_schedule t schema source ++ rest
      else rest

-- _page_matches
unfoldable pub page_matches : String → ScheduleSchema → Bool
unfolding lower has_part
page_matches text schema =
    leb 1 (length schema.title_signature)
    && all (λ tok. has_part tok (lower text)) schema.title_signature

-- dict(Counter(names)), and the counts are in the order of the first occurrences
unfoldable pub count_up : String → Dict ℕ → Dict ℕ
count_up name [] = (name, 1) ∷ []
count_up name ((other, n) ∷ counts) =
    if other == name then (other, suc n) ∷ counts else (other, n) ∷ count_up name counts

unfoldable pub count_names : List String → Dict ℕ → Dict ℕ
unfolding count_up
count_names [] counts = counts
count_names (name ∷ names) counts = count_names names (count_up name counts)

pub record Summary (F : Type 0) : Type 0 where
  pub total_items : ℕ
  pub by_schedule : Dict ℕ
  pub by_basis : Dict ℕ
  pub known_quantity_total : F
  pub count_pending_items : ℕ

-- counts.get(name, 0)
abbrev pub count_of : String → Dict ℕ → ℕ
count_of name [] = 0
count_of name ((other, n) ∷ counts) = if other == name then n else count_of name counts

-- The floats' sum, and round(_, 2), are parameters.
module _ {F : Type 0} (zero_float : F) (add : F → F → F) (round_2 : F → F) where
  unfoldable pub sum_known : F → List (ScheduleItem F) → F
  sum_known total [] = total
  sum_known total (it ∷ items) =
      sum_known (elim it.quantity [ none ↦ total | some q ↦ add total q ]) items

  unfoldable pub summarize : List (ScheduleItem F) → Summary F
  unfolding count_names sum_known
  summarize items =
      let by_basis = count_names (map (λ (it : ScheduleItem F). it.quantity_basis) items) [] in
      record {
        total_items = length items;
        by_schedule = count_names (map (λ (it : ScheduleItem F). it.schedule) items) [];
        by_basis = by_basis;
        known_quantity_total = round_2 (sum_known zero_float items);
        count_pending_items = count_of basis_unknown by_basis;
      }

-- The driver on the page loop of Shard/Extract.antt: the texts and the tables of the pages are
-- arguments, and a page's index stands in the items' source as a decimal text.
module _ {F : Type 0} (parse_float : String → F) (one : F) (file_id : String)
    (get_text : ℕ → String) (tables : ℕ → List Table) where
  abbrev pub page_source : ℕ → ScheduleSchema → Dict String
  page_source i schema =
      ("file_id", file_id) ∷ ("page_index", decimal i) ∷ ("schedule", schema.name) ∷ []

  abbrev pub schemas_or : List ScheduleSchema → List ScheduleSchema
  schemas_or [] = schedule_registry
  schemas_or (s ∷ schemas) = s ∷ schemas

  unfoldable pub extract_items : List ScheduleSchema → List ℕ → List (ScheduleItem F)
  unfolding parse_page page_matches Extract.extract_schedule_items
  extract_items schemas rng =
      Extract.extract_schedule_items (λ i schema. page_matches (get_text i) schema)
        (λ i schema. parse_page parse_float one (tables i) schema (page_source i schema) 750 6)
        (schemas_or schemas) rng
