-- ===== src/Schedules/Samples.antt =====
-- The theorems at a small table, and the texts of its cells.
use construction_harness.Prelude.{
  length, all, All, join, ◌==◌, nat_eq, string_eq, pair_eq, ℕ, ◌≤◌, String, ◌≡◌, refl, true, not,
  none, some, List, [], ◌∷◌, map, arith, char_count, Distinct,
}
use construction_harness.Schedules.Cells.{Cell, clean, split, normalize, has_part}
use construction_harness.Schedules.Marks.{
  find_number, looks_like_tag, is_room, is_door_mark, is_mark_token, looks_like_mark, fire_rating,
}
use construction_harness.Schedules.Schema.{door_schema, plumbing_fixture_schema}
use construction_harness.Schedules.Labels.{header_tokens}
use construction_harness.Schedules.Resolver.{
  Table, resolve_columns, normalized, width, select_schedule_table,
}
use construction_harness.Schedules.Resolver.Mapping.{IsResolved, resolve_columns-IsResolved}
use construction_harness.Schedules.Resolver.Select.{IsFirstBest, select_schedule_table-IsFirstBest}
use construction_harness.Schedules.Resolver.Header.{StopsAt, data_start-StopsAt}
use construction_harness.Schedules.Rows.{select_catalog_rows, expand_merged, clean_at}
use construction_harness.Schedules.Rows.Expand.{IsDealtOut, column, door_count, expand_merged_rows}
use construction_harness.Schedules.Rows.Catalog.{
  row_keys, is_entry, Covered, select_catalog_rows-IsCatalog,
}
use construction_harness.Schedules.Items.{parse_schedule, parse_page}
use construction_harness.Schedules.Items.Quantity.{Quantified, page_rows, parse_page-IsQuantified}
use construction_harness.Schedules.Entries.{door_entries}
use construction_harness.Schedules.Entries.Items.{
  item_texts, entry_texts, parse_schedule-door_entries,
}

abbrev cells : List String → List Cell
cells texts = map (λ s. some s) texts

abbrev doors : Table
doors =
    cells ("DOOR SCHEDULE" ∷ [])
    ∷ cells ("NUMBER" ∷ "WIDTH" ∷ "HEIGHT" ∷ "DOOR MATERIAL" ∷ [])
    ∷ cells ("N105A N105B" ∷ "3 3" ∷ "7" ∷ "WD" ∷ [])
    ∷ cells ("N107B" ∷ "3" ∷ "7" ∷ "HM" ∷ [])
    ∷ []

abbrev merged : List Cell
merged = cells ("N105A N105B" ∷ "3 3" ∷ "7" ∷ "WD" ∷ [])

abbrev fixtures : Table
fixtures =
    cells ("TAG" ∷ "DESCRIPTION" ∷ "QTY" ∷ [])
    ∷ cells ("WC-1" ∷ "WATER CLOSET" ∷ "2.5 EA" ∷ [])
    ∷ cells ("L-1" ∷ "LAVATORY" ∷ "" ∷ [])
    ∷ cells ("WC-1" ∷ "WATER CLOSET" ∷ "" ∷ [])
    ∷ []

abbrev parse_float : String → ℕ
parse_float s = char_count s

cells_read :
    all
      (λ b. b)
      ((find_number "qty -12.5 ea" == "-12.5")
        ∷ looks_like_tag " WC-1 "
        ∷ not (looks_like_tag "TYPE")
        ∷ looks_like_tag "A"
        ∷ is_room "N101A"
        ∷ not (is_room "N10")
        ∷ is_door_mark "NE180B"
        ∷ not (is_mark_token "N1")
        ∷ (join "," (split " a b  c ") == "a,b,c")
        ∷ (clean (some " a  b \n c ") == "a  b c")
        ∷ (normalize (some " FIRE-Rating (min.) ") == "fire rating min")
        ∷ looks_like_mark "B01w"
        ∷ not (looks_like_mark "BASEMENT - EAST")
        ∷ has_part "door" "the door"
        ∷ [])
    ≡ true
unfolding find_number looks_like_tag is_room is_door_mark is_mark_token split clean normalize
    looks_like_mark has_part
cells_read = refl

rating_read : fire_rating (some "20 MIN") ≡ some 20
unfolding fire_rating
rating_read = refl

doors_read : map (λ e. e.door_mark) (door_entries doors) ≡ "N105A" ∷ "N105B" ∷ "N107B" ∷ []
unfolding door_entries
doors_read = refl

fixtures_read :
    map
      (λ it. it.quantity)
      (parse_page parse_float 1 (fixtures ∷ []) plumbing_fixture_schema [] 750 3)
    ≡ some 3 ∷ none ∷ []
unfolding parse_page
fixtures_read = refl

resolve_columns-IsResolved_example : IsResolved (width doors) (
  (resolve_columns doors door_schema).mapping,
  (resolve_columns doors door_schema).unmapped_columns,
)
resolve_columns-IsResolved_example = resolve_columns-IsResolved doors door_schema

select_schedule_table-IsFirstBest_example :
    IsFirstBest door_schema 750 4
      (fixtures ∷ doors ∷ [])
      (select_schedule_table (fixtures ∷ doors ∷ []) door_schema 750 4)
select_schedule_table-IsFirstBest_example =
    select_schedule_table-IsFirstBest (fixtures ∷ doors ∷ []) door_schema 750 4

data_start-StopsAt_example :
    StopsAt
      (header_tokens door_schema)
      (resolve_columns doors door_schema).data_start
      (normalized doors)
data_start-StopsAt_example = data_start-StopsAt doors door_schema

two_marks : 1 ≤ door_count merged 0
unfolding clean_at split clean
two_marks = omega arith

expand_merged_rows_example :
    (length (expand_merged merged 0) ≡ door_count merged 0)
    × All (λ made. length made ≡ length merged) (expand_merged merged 0)
    × (parts : List String) × (column 1 (expand_merged merged 0)
        ≡ map (λ part. some (some part)) parts)
    × IsDealtOut (door_count merged 0) (some "3 3") parts
expand_merged_rows_example = expand_merged_rows merged 0 1 (some "3 3") two_marks refl

select_catalog_rows-IsCatalog_example :
    Distinct (row_keys 0 (select_catalog_rows 0 [] fixtures))
    × All (λ row. is_entry 0 row ≡ true) (select_catalog_rows 0 [] fixtures)
    × All (Covered 0 (row_keys 0 (select_catalog_rows 0 [] fixtures))) fixtures
select_catalog_rows-IsCatalog_example = select_catalog_rows-IsCatalog 0 fixtures

parse_page-IsQuantified_example :
    Quantified parse_float 1 plumbing_fixture_schema
      (page_rows parse_float 1 plumbing_fixture_schema 750 3 (fixtures ∷ []))
      (parse_page parse_float 1 (fixtures ∷ []) plumbing_fixture_schema [] 750 3)
parse_page-IsQuantified_example =
    parse_page-IsQuantified parse_float 1 plumbing_fixture_schema (fixtures ∷ []) [] 750 3

parse_schedule-door_entries_example :
    map item_texts (parse_schedule parse_float 1 doors door_schema [])
    ≡ map entry_texts (door_entries doors)
parse_schedule-door_entries_example = parse_schedule-door_entries parse_float 1 doors []
