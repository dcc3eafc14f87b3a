-- ===== src/Schedules/Rows.antt =====
-- The row selectors of a schedule table: doors, which split merged rows, and finishes
-- (src/pipeline/phase2_schedule_parser.py), catalogs and free-form devices (`select_rows` of
-- src/takeoff/quantity_schedules.py).
pub mod Expand
pub mod Catalog
use construction_harness.Prelude.{
  ltb, leb, nat_beq, if◌then◌else◌, length, get_elem?, take, drop, keep, all, join, nonempty, ◌==◌,
  contains, nat_eq, string_eq, pair_eq, ℕ, zero, suc, ◌-◌, ◌/◌, ◌%◌, String, Bool, not, ◌&&◌,
  Option, none, some, List, [], ◌∷◌, ◌++◌, map,
}
use construction_harness.Schedules.Cells.{Cell, clean, split}
use construction_harness.Schedules.Marks.{
  is_door_mark, is_mark_token, is_room, looks_like_tag, looks_like_mark,
}
use construction_harness.Schedules.Schema.{ScheduleSchema, key_field}
use construction_harness.Schedules.Resolver.{Table, ColumnMap, column_of}

abbrev cleaned : Option Cell → String
unfolding clean
cleaned none = ""
cleaned (some cell) = clean cell

-- _clean(row[col]) if col < len(row) else ""
unfoldable pub clean_at : List Cell → ℕ → String
unfolding cleaned
clean_at row col = cleaned (get_elem? row col)

-- toks[i * k:(i + 1) * k] for i in range(n)
unfoldable pub chunks {ℓ} : {A : Type ℓ} → ℕ → ℕ → List A → List (List A)
chunks zero k toks = []
chunks (suc n) k toks = take k toks ∷ chunks n k (drop k toks)

unfoldable pub repeat {ℓ} : {A : Type ℓ} → ℕ → A → List A
repeat zero a = []
repeat (suc n) a = a ∷ repeat n a

-- toks and len(toks) % n == 0; a remainder by zero is Python's ZeroDivisionError, and the callers
-- have a key of two tokens at least
abbrev pub divides : ℕ → List String → Bool
divides n toks = leb 1 (length toks) && nat_beq (length toks % n) 0

-- What the n rows get of one column.
unfoldable pub column_parts : ℕ → Cell → List String
unfolding chunks repeat clean split
column_parts n cell =
    let toks = split (clean cell) in
    if divides n toks
    then map (join " ") (chunks n (length toks / n) toks)
    else clean cell ∷ repeat (n - 1) ""

abbrev pub part_at : ℕ → List String → Cell
part_at r parts = get_elem? parts r

-- [[per_col[c][r] for c in range(len(row))] for r in range(n)], from row r on
unfoldable pub rows_from : List (List String) → ℕ → ℕ → List (List Cell)
rows_from per_col r zero = []
rows_from per_col r (suc n) = map (part_at r) per_col ∷ rows_from per_col (suc r) n

-- _expand_merged
unfoldable pub expand_merged : List Cell → ℕ → List (List Cell)
unfolding rows_from column_parts clean_at split
expand_merged row mark_col =
    let n = length (split (clean_at row mark_col)) in rows_from (map (column_parts n) row) 0 n

-- One row's part of the result of _select_door_rows.
unfoldable pub door_rows : (String → Bool) → (String → Bool) → ℕ → List Cell → List (List Cell)
unfolding expand_merged clean_at split
door_rows is_mark is_token mark_col row =
    let c0 = clean_at row mark_col in
    if leb 2 (length (split c0)) && all is_token (split c0)
    then expand_merged row mark_col
    else if nonempty c0 && is_mark c0
    then row ∷ []
    else []

unfoldable pub select_door_rows : (String → Bool) → (String → Bool) → ℕ → Table → Table
unfolding door_rows
select_door_rows is_mark is_token mark_col [] = []
select_door_rows is_mark is_token mark_col (row ∷ table) =
    door_rows is_mark is_token mark_col row ++ select_door_rows is_mark is_token mark_col table

-- _MIN_BUILTIN_MARKS
abbrev pub min_builtin_marks : ℕ
min_builtin_marks = 5

abbrev enough : Table → Table → Table
enough builtin discovered = if leb min_builtin_marks (length builtin) then builtin else discovered

unfoldable pub select_door_rows_auto : Table → ℕ → Table
unfolding select_door_rows is_door_mark is_mark_token looks_like_mark
select_door_rows_auto table mark_col =
    enough (select_door_rows is_door_mark is_mark_token mark_col table)
      (select_door_rows looks_like_mark looks_like_mark mark_col table)

-- room_col < len(row) and is_room(_clean(row[room_col]))
unfoldable pub is_finish_row : (String → Bool) → ℕ → List Cell → Bool
unfolding clean_at
is_finish_row is_room room_col row = ltb room_col (length row) && is_room (clean_at row room_col)

unfoldable pub select_finish_rows_auto : Table → ℕ → Table
unfolding is_finish_row is_room looks_like_mark
select_finish_rows_auto table room_col =
    enough (keep (is_finish_row is_room room_col) table)
      (keep (is_finish_row looks_like_mark room_col) table)

-- A catalog row: a tag that was not seen, and two filled cells at least.
unfoldable pub is_catalog_row : ℕ → List String → List Cell → Bool
unfolding clean_at clean looks_like_tag
is_catalog_row key_col seen row =
    looks_like_tag (clean_at row key_col)
    && not (contains seen (clean_at row key_col))
    && leb 2 (length (keep (λ c. nonempty (clean c)) row))

-- _select_catalog_rows, with the keys seen so far
unfoldable pub select_catalog_rows : ℕ → List String → Table → Table
unfolding is_catalog_row
select_catalog_rows key_col seen [] = []
select_catalog_rows key_col seen (row ∷ table) =
    let taken = is_catalog_row key_col seen row in
    let rest =
      select_catalog_rows key_col (if taken then clean_at row key_col ∷ seen else seen) table in
    if taken then row ∷ rest else rest

-- key_col < len(row) and _clean(row[key_col])
unfoldable pub select_free_rows : Table → ColumnMap → ℕ → Table
unfolding clean_at
select_free_rows table cm key_col =
    keep (λ row. ltb key_col (length row) && nonempty (clean_at row key_col))
      (drop cm.data_start table)

abbrev or_zero : Option ℕ → ℕ
or_zero none = 0
or_zero (some n) = n

-- cm.by_field.get(field, 0)
unfoldable pub key_column : String → ColumnMap → ℕ
unfolding column_of
key_column field cm = or_zero (column_of field cm)

unfoldable pub select_rows : Table → ColumnMap → ScheduleSchema → Table
unfolding key_column select_catalog_rows select_free_rows select_door_rows_auto
    select_finish_rows_auto key_field
select_rows table cm schema =
    let key_col = key_column (key_field schema) cm in
    if schema.shape == "catalog"
    then select_catalog_rows key_col [] table
    else if schema.row_grammar == "free"
    then select_free_rows table cm key_col
    else if schema.merge_rows
    then select_door_rows_auto table key_col
    else select_finish_rows_auto table key_col
