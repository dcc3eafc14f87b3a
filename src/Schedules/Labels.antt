-- ===== src/Schedules/Labels.antt =====
-- The header of a schedule table (src/pipeline/schedule_resolver.py): which rows are headers, the
-- label of a column, and the canonical field that a label names.
use construction_harness.Prelude.{
  ltb, leb, if◌then◌else◌, length, get_elem?, take, keep, all, any, concat, nonempty, ◌==◌,
  contains, nat_eq, string_eq, pair_eq, ℕ, zero, suc, String, Bool, ◌&&◌, ◌||◌, Option, none, some,
  List, [], ◌∷◌, ◌++◌, char_count, starts_with,
}
use construction_harness.Schedules.Cells.{has_part}
use construction_harness.Schedules.Schema.{Fields, ScheduleSchema}

unfoldable pub exact_match : String → Fields → Option String
exact_match label [] = none
exact_match label ((fld, syns) ∷ fields) =
    if contains syns label then some fld else exact_match label fields

abbrev pub near : String → String → Bool
near label syn = starts_with label syn || starts_with syn label

unfoldable pub near_match : String → Fields → Option String
near_match label [] = none
near_match label ((fld, syns) ∷ fields) =
    if leb 3 (char_count label) && any (near label) syns then some fld else near_match label fields

abbrev pub first_some {ℓ} : {A : Type ℓ} → Option A → Option A → Option A
first_some none b = b
first_some (some a) b = some a

-- _match
unfoldable pub match_label : String → ScheduleSchema → Option String
unfolding exact_match near_match
match_label label schema =
    if nonempty label
    then first_some (exact_match label schema.fields) (near_match label schema.fields)
    else none

-- _is_title
unfoldable pub is_title : List String → Bool
unfolding has_part
is_title cells =
    let filled = keep nonempty cells in leb (length filled) 1 || all (has_part "schedule") filled

-- A cell that carries a known token; shorter than two characters it carries none.
unfoldable pub is_hit : List String → String → Bool
is_hit htoks c = leb 2 (char_count c) && any (λ t. c == t || near c t) htoks

-- _row_is_header, with min_hits = 2: the loop stops at the second hit
unfoldable pub row_is_header : List String → List String → Bool
unfolding is_hit
row_is_header cells htoks = leb 2 (length (keep (is_hit htoks) cells))

unfoldable pub synonyms : Fields → List String
synonyms [] = []
synonyms ((fld, syns) ∷ fields) = syns ++ synonyms fields

-- _header_tokens
unfoldable pub header_tokens : ScheduleSchema → List String
unfolding synonyms
header_tokens schema = synonyms schema.fields ++ (schema.group_tokens ++ schema.ambiguous_labels)

-- The band of header rows from row i on, and the first data row: titles are skipped, and the first
-- row that is neither ends the band.
unfoldable pub header_band : List String → ℕ → List (List String) → List ℕ × ℕ
unfolding is_title row_is_header
header_band htoks i [] = ([], i)
header_band htoks i (cells ∷ norm) =
    let rest = header_band htoks (suc i) norm in
    if is_title cells
    then rest
    else if row_is_header cells htoks
    then (i ∷ rest.0, rest.1)
    else ([], i)

abbrev pub or_empty : Option String → String
or_empty none = ""
or_empty (some s) = s

abbrev pub row_of : List (List String) → ℕ → List String
row_of [] r = []
row_of (row ∷ norm) zero = row
row_of (row ∷ norm) (suc r) = row_of norm r

-- norm[r][c] if c < len(norm[r]) else ""
abbrev pub cell_at : List (List String) → ℕ → ℕ → String
cell_at norm r c = or_empty (get_elem? (row_of norm r) c)

-- The lowest filled cell of column c in the band, with its row.
unfoldable pub primary_label : List (List String) → ℕ → List ℕ → String × ℕ → String × ℕ
primary_label norm c [] found = found
primary_label norm c (r ∷ band) found =
    primary_label norm c band (if nonempty (cell_at norm r c) then (cell_at norm r c, r) else found)

-- for cc in range(n - 1, -1, -1): the last of the first n cells that is a group token
unfoldable pub last_group : List String → List String → Option String
last_group group_tokens [] = none
last_group group_tokens (cell ∷ cells) =
    first_some (last_group group_tokens cells)
      (if contains group_tokens cell then some cell else none)

-- _nearest_group: in the first row of the band, above primary_row, that has one at or before col
unfoldable pub nearest_group : List (List String) → List ℕ → ℕ → ℕ → List String → Option String
unfolding last_group
nearest_group norm [] primary_row col group_tokens = none
nearest_group norm (r ∷ band) primary_row col group_tokens =
    first_some
      (if ltb r primary_row then last_group group_tokens (take (suc col) (row_of norm r)) else none)
      (nearest_group norm band primary_row col group_tokens)

abbrev pub grouped : Option String → String → String
grouped none primary = primary
grouped (some group) primary =
    if nonempty group then concat (group ∷ " " ∷ primary ∷ []) else primary

-- label
unfoldable pub column_label : List (List String) → List ℕ → ℕ → ScheduleSchema → String × ℕ → String
unfolding nearest_group
column_label norm band c schema (primary, primary_row) =
    if contains schema.ambiguous_labels primary
    then grouped (nearest_group norm band primary_row c schema.group_tokens) primary
    else primary
