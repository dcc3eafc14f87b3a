-- ===== src/Schedules/Resolver.antt =====
-- The header-driven column resolver (`resolve_columns` and `select_schedule_table` of
-- src/pipeline/schedule_resolver.py). A coverage is in thousandths, to which the code rounds it: the
-- nearest, for schemas of at most fifteen core fields, where no tie arises.
pub mod Mapping
pub mod Select
pub mod Header
use construction_harness.Prelude.{
  ltb, leb, nat_beq, if◌then◌else◌, length, keep, nonempty, contains, nat_eq, string_eq, pair_eq, ℕ,
  zero, suc, ◌+◌, ◌*◌, ◌/◌, max, String, Bool, true, not, ◌&&◌, ◌||◌, Option, none, some, List, [],
  ◌∷◌, ◌++◌, map,
}
use construction_harness.Harness.Messages.{Dict, lookup, put}
use construction_harness.Schedules.Cells.{Cell, normalize}
use construction_harness.Schedules.Schema.{ScheduleSchema}
use construction_harness.Schedules.Labels.{
  match_label, header_tokens, header_band, primary_label, column_label,
}

abbrev pub Table : Type 0
Table = List (List Cell)

-- `coverage` is in thousandths.
pub record ColumnMap : Type 0 where
  pub schema : String
  pub mapping : List (ℕ × String)
  pub data_start : ℕ
  pub coverage : ℕ
  pub unmapped_columns : List ℕ

-- {f: c for c, f in mapping.items()}: a later column overwrites
unfoldable pub by_field : List (ℕ × String) → Dict ℕ → Dict ℕ
by_field [] fields = fields
by_field ((c, f) ∷ mapping) fields = by_field mapping (put f c fields)

-- by_field.get(f)
unfoldable pub column_of : String → ColumnMap → Option ℕ
unfolding by_field
column_of f cm = lookup f (by_field cm.mapping [])

-- mapping.values()
abbrev pub mapped_fields : List (ℕ × String) → List String
mapped_fields mapping = map (λ m. m.1) mapping

-- `mapping` and `unmapped`, in the order of the columns
abbrev pub Columns : Type 0
Columns = List (ℕ × String) × List ℕ

-- The first column to claim a field wins.
unfoldable pub claim : ℕ → Option String → Columns → Columns
claim c none (mapping, unmapped) = (mapping, unmapped ++ c ∷ [])
claim c (some fld) (mapping, unmapped) =
    if nonempty fld && not (contains (mapped_fields mapping) fld)
    then (mapping ++ (c, fld) ∷ [], unmapped)
    else (mapping, unmapped ++ c ∷ [])

-- The loop's body; a column with no label is neither mapped nor unmapped.
unfoldable pub resolve_column : List (List String) → List ℕ → ScheduleSchema → ℕ → Columns → Columns
unfolding claim primary_label column_label match_label
resolve_column norm band schema c columns =
    let found = primary_label norm c band ("", 0) in
    if nonempty found.0
    then claim c (match_label (column_label norm band c schema found) schema) columns
    else columns

-- for c in range(c, c + n)
unfoldable pub resolve_from :
    List (List String) → List ℕ → ScheduleSchema → ℕ → ℕ → Columns → Columns
unfolding resolve_column
resolve_from norm band schema c zero columns = columns
resolve_from norm band schema c (suc n) columns =
    resolve_from norm band schema (suc c) n (resolve_column norm band schema c columns)

-- max((len(r) for r in table), default=0)
abbrev pub width : Table → ℕ
width [] = 0
width (row ∷ table) = max (length row) (width table)

abbrev pub resolved_core : List String → List (ℕ × String) → List String
resolved_core core_fields mapping = keep (contains (mapped_fields mapping)) core_fields

-- round(resolved / n, 3) in thousandths
unfoldable pub coverage_of : ℕ → ℕ → ℕ
coverage_of resolved zero = 0
coverage_of resolved (suc n) = (2000 * resolved + suc n) / (2 * suc n)

abbrev pub normalized : Table → List (List String)
unfolding normalize
normalized table = map (map normalize) table

unfoldable pub resolve_columns : Table → ScheduleSchema → ColumnMap
unfolding header_band header_tokens resolve_from coverage_of normalized
resolve_columns table schema =
    let norm = normalized table in
    let band = header_band (header_tokens schema) 0 norm in
    let columns = resolve_from norm band.0 schema 0 (width table) ([], []) in
    record {
      schema = schema.name;
      mapping = columns.0;
      data_start = band.1;
      coverage =
          coverage_of (length (resolved_core schema.core_fields columns.0))
            (length schema.core_fields);
      unmapped_columns = columns.1;
    }

-- not t or len(t[0]) < min_cols
abbrev pub too_narrow : ℕ → Table → Bool
too_narrow min_cols [] = true
too_narrow min_cols (row ∷ rows) = ltb (length row) min_cols

-- The best table so far, with its key; `none` stands for the first key, which is below all others.
abbrev pub Best : Type 0
Best = Option (Table × ℕ × ℕ)

abbrev pub beats : ℕ → ℕ → Best → Bool
beats cov rows none = true
beats cov rows (some (t, best_cov, best_rows)) =
    ltb best_cov cov || (nat_beq best_cov cov && ltb best_rows rows)

unfoldable pub consider : ScheduleSchema → ℕ → ℕ → Table → Best → Best
unfolding resolve_columns
consider schema min_coverage min_cols t best =
    let cov = (resolve_columns t schema).coverage in
    if not (too_narrow min_cols t) && (leb min_coverage cov && beats cov (length t) best)
    then some (t, cov, length t)
    else best

unfoldable pub select_best : ScheduleSchema → ℕ → ℕ → List Table → Best → Best
unfolding consider
select_best schema min_coverage min_cols [] best = best
select_best schema min_coverage min_cols (t ∷ tables) best =
    select_best schema min_coverage min_cols tables (consider schema min_coverage min_cols t best)

abbrev table_of : Best → Option Table
table_of none = none
table_of (some (t, cov, rows)) = some t

unfoldable pub select_schedule_table : List Table → ScheduleSchema → ℕ → ℕ → Option Table
unfolding select_best
select_schedule_table tables schema min_coverage min_cols =
    table_of (select_best schema min_coverage min_cols tables none)
