-- ===== src/Schedules/Entries.antt =====
-- Door and finish entries, the records that the door and finish parsers of
-- src/pipeline/phase2_schedule_parser.py make of the same rows. The tables that pdfplumber finds on
-- the page are an argument.
pub mod Items
use construction_harness.Prelude.{
  ltb, if◌then◌else◌, Result, ok, err, get_elem?, nonempty, contains, nat_eq, string_eq, pair_eq, ℕ,
  String, ◌||◌, Option, none, some, List, [], ◌∷◌, ◌++◌, map, starts_with,
}
use construction_harness.Schedules.Cells.{Cell}
use construction_harness.Schedules.Marks.{fire_rating}
use construction_harness.Schedules.Schema.{door_schema, finish_schema}
use construction_harness.Schedules.Resolver.{
  Table, ColumnMap, column_of, resolve_columns, too_narrow, select_schedule_table,
}
use construction_harness.Schedules.Rows.{
  clean_at, key_column, select_door_rows_auto, select_finish_rows_auto,
}

pub record DoorEntry : Type 0 where
  pub door_mark : String
  pub fire_rating_minutes : Option ℕ
  pub width : String
  pub height : String
  pub door_elevation_type : String
  pub door_material : String
  pub door_finish : String
  pub frame_elevation_type : Option String
  pub frame_material : String
  pub frame_finish : String
  pub hardware_set : String
  pub glass_film : Option String
  pub glass_type : Option String
  pub special_notes : Option String
  pub building : String

pub record FinishEntry : Type 0 where
  pub room_number : String
  pub room_name : String
  pub floor_finish : String
  pub base_finish : String
  pub wall_finish : String
  pub ceiling_finish : String
  pub comments : Option String

abbrev pub text_at : List Cell → Option ℕ → String
unfolding clean_at
text_at row none = ""
text_at row (some c) = clean_at row c

-- The parsers' `get`.
unfoldable pub get : List Cell → ColumnMap → String → String
unfolding text_at column_of
get row cm field = text_at row (column_of field cm)

-- s or None
abbrev pub none_if_empty : String → Option String
none_if_empty s = if nonempty s then some s else none

abbrev rating_of : Option Cell → Option ℕ
unfolding fire_rating
rating_of none = none
rating_of (some cell) = fire_rating cell

abbrev rating_at : List Cell → Option ℕ → Option ℕ
unfolding rating_of
rating_at row none = none
rating_at row (some c) = rating_of (get_elem? row c)

-- {"N": "North", "S": "South"}.get(mark[0], "") if mark else ""
abbrev building_of : String → String
building_of mark =
    if starts_with mark "N" then "North" else if starts_with mark "S" then "South" else ""

-- _build_entry
unfoldable pub build_entry : ColumnMap → List Cell → DoorEntry
unfolding get column_of fire_rating rating_at
build_entry cm row = record {
  door_mark = get row cm "door_mark";
  fire_rating_minutes = rating_at row (column_of "fire_rating_minutes" cm);
  width = get row cm "width";
  height = get row cm "height";
  door_elevation_type = get row cm "door_elevation_type";
  door_material = get row cm "door_material";
  door_finish = get row cm "door_finish";
  frame_elevation_type = none_if_empty (get row cm "frame_elevation_type");
  frame_material = get row cm "frame_material";
  frame_finish = get row cm "frame_finish";
  hardware_set = get row cm "hardware_set";
  glass_film = none_if_empty (get row cm "glass_film");
  glass_type = none_if_empty (get row cm "glass_type");
  special_notes = none_if_empty (get row cm "special_notes");
  building = building_of (get row cm "door_mark");
}

-- The entries of a table that was selected.
unfoldable pub door_entries : Table → List DoorEntry
unfolding build_entry select_door_rows_auto resolve_columns key_column
door_entries table =
    let cm = resolve_columns table door_schema in
    map (build_entry cm) (select_door_rows_auto table (key_column "door_mark" cm))

abbrev entries_or_error : Option Table → Result String (List DoorEntry)
unfolding door_entries
entries_or_error none = err "No door schedule table (by header coverage) found on page."
entries_or_error (some table) = ok (door_entries table)

-- With the defaults of select_schedule_table: a coverage of 0.75, six columns.
unfoldable pub parse_door_schedule : List Table → Result String (List DoorEntry)
unfolding select_schedule_table entries_or_error
parse_door_schedule tables = entries_or_error (select_schedule_table tables door_schema 750 6)

-- _build_finish_entry
unfoldable pub build_finish_entry : ColumnMap → List Cell → FinishEntry
unfolding get
build_finish_entry cm row = record {
  room_number = get row cm "room_number";
  room_name = get row cm "room_name";
  floor_finish = get row cm "floor_finish";
  base_finish = get row cm "base_finish";
  wall_finish = get row cm "wall_finish";
  ceiling_finish = get row cm "ceiling_finish";
  comments = none_if_empty (get row cm "comments");
}

-- `seen` and `entries`
abbrev pub Found : Type 0
Found = List String × List FinishEntry

unfoldable pub add_finish_row : ColumnMap → ℕ → List Cell → Found → Found
unfolding build_finish_entry clean_at
add_finish_row cm room_col row (seen, entries) =
    if contains seen (clean_at row room_col)
    then (seen, entries)
    else (clean_at row room_col ∷ seen, entries ++ build_finish_entry cm row ∷ [])

unfoldable pub add_finish_rows : ColumnMap → ℕ → Table → Found → Found
unfolding add_finish_row
add_finish_rows cm room_col [] found = found
add_finish_rows cm room_col (row ∷ rows) found =
    add_finish_rows cm room_col rows (add_finish_row cm room_col row found)

unfoldable pub add_finish_table : Table → Found → Found
unfolding add_finish_rows select_finish_rows_auto resolve_columns key_column
add_finish_table t found =
    let cm = resolve_columns t finish_schema in
    let room_col = key_column "room_number" cm in
    if too_narrow 6 t || ltb cm.coverage 750
    then found
    else add_finish_rows cm room_col (select_finish_rows_auto t room_col) found

unfoldable pub add_finish_tables : List Table → Found → Found
unfolding add_finish_table
add_finish_tables [] found = found
add_finish_tables (t ∷ tables) found = add_finish_tables tables (add_finish_table t found)

unfoldable pub parse_finish_schedule : List Table → List FinishEntry
unfolding add_finish_tables
parse_finish_schedule tables = (add_finish_tables tables ([], [])).1
