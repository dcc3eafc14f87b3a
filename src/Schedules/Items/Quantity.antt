-- ===== src/Schedules/Items/Quantity.antt =====
-- Where the quantity of an item comes from, and what the summary says of the items that have none.
use construction_harness.Prelude.{
  if◌then◌else◌, Bool-cases, length, keep, nonempty, ◌==◌, nat_eq, string_eq, pair_eq, ℕ, suc, ◌+◌,
  String, ◌≡◌, refl, ap, ◌∙◌, inl, inr, Bool, true, false, Option, none, some, List, [], ◌∷◌, ◌++◌,
  map, arith,
}
use construction_harness.Harness.Messages.{Dict}
use construction_harness.Shard.Extract.{ScheduleItem}
use construction_harness.Schedules.Cells.{Cell}
use construction_harness.Schedules.Marks.{find_number}
use construction_harness.Schedules.Schema.{ScheduleSchema}
use construction_harness.Schedules.Resolver.{Table, resolve_columns}
use construction_harness.Schedules.Rows.{select_rows}
use construction_harness.Schedules.Entries.{text_at}
use construction_harness.Schedules.Entries.Items.{find_column, attributes-text_at}
use construction_harness.Schedules.Items.{
  quantity_text, num, quantity_or, row_quantity, build_item, basis_row_count, basis_qty_column,
  basis_unknown, parse_schedule, source_or, table_resolves, parse_page, attributes_of, count_up,
  count_names, count_of, summarize,
}

module _ {F : Type 0} (parse_float : String → F) (one : F) (schema : ScheduleSchema) where
  -- The text of a row in the table's quantity column: empty without one.
  abbrev pub cell_of : Table → List Cell → Option String → String
  cell_of t row none = ""
  cell_of t row (some field) =
      if nonempty field
      then text_at row (find_column field (resolve_columns t schema).mapping)
      else ""

  abbrev pub quantity_cell : Table × List Cell → String
  quantity_cell (t, row) = cell_of t row schema.qty_field

  -- The three ways an item of a row has its quantity.
  pub data IsQuantified (row : Table × List Cell) (it : ScheduleItem F) : Type 0 where
    from_column :
        it.quantity ≡ some (parse_float (find_number (quantity_cell row)))
        → nonempty (find_number (quantity_cell row)) ≡ true
        → it.unit ≡ some schema.qty_unit
        → it.quantity_basis ≡ basis_qty_column
        → IsQuantified row it
    from_row :
        it.quantity ≡ some one
        → nonempty (find_number (quantity_cell row)) ≡ false
        → (schema.shape == "instance") ≡ true
        → it.unit ≡ some schema.qty_unit
        → it.quantity_basis ≡ basis_row_count
        → IsQuantified row it
    pending :
        it.quantity ≡ none
        → nonempty (find_number (quantity_cell row)) ≡ false
        → (schema.shape == "instance") ≡ false
        → it.unit ≡ none
        → it.quantity_basis ≡ basis_unknown
        → IsQuantified row it

  -- The items belong to the rows, one to one and in their order.
  abbrev pub Quantified : List (Table × List Cell) → List (ScheduleItem F) → Type 0
  Quantified [] [] = Unit
  Quantified (row ∷ rows) (it ∷ items) = IsQuantified row it × Quantified rows items
  Quantified _ _ = ⊥

  -- The rows that are selected from the tables that resolve to the schema.
  abbrev pub page_rows : ℕ → ℕ → List Table → List (Table × List Cell)
  page_rows min_coverage min_cols [] = []
  page_rows min_coverage min_cols (t ∷ tables) =
      let rest = page_rows min_coverage min_cols tables in
      if table_resolves parse_float one schema min_coverage min_cols t
      then map (λ row. (t, row)) (select_rows t (resolve_columns t schema) schema) ++ rest
      else rest

  quantity_text-cell_of :
      (t : Table) (row : List Cell) (field : Option String)
      → quantity_text field (attributes_of row (resolve_columns t schema).mapping [])
        ≡ cell_of t row field
  quantity_text-cell_of t row none = refl
  quantity_text-cell_of t row (some field) =
      ap (λ s. if nonempty field then s else "") (attributes-text_at t schema row field)

  build_item-IsQuantified :
      (t : Table) (row : List Cell) (source : Dict String)
      → IsQuantified
          (t, row)
          (build_item parse_float one row (resolve_columns t schema) schema source)
  unfolding build_item row_quantity num quantity_or
  build_item-IsQuantified t row source =
      let same = quantity_text-cell_of t row schema.qty_field in
      elim (Bool-cases (nonempty (find_number (quantity_cell (t, row))))) [
        | inl number ↦ from_column (ground arith) number (ground arith) (ground arith)
        | inr no_number ↦ elim (Bool-cases (schema.shape == "instance")) [
          | inl one_each ↦ from_row (ground arith) no_number one_each (ground arith) (ground arith)
          | inr one_type ↦ pending (ground arith) no_number one_type (ground arith) (ground arith)
        ]
      ]

  rows-Quantified :
      (t : Table) (source : Dict String) (rows : Table) (more : List (Table × List Cell))
      (items : List (ScheduleItem F))
      → Quantified more items
      → Quantified (map (λ row. (t, row)) rows ++ more) (
          map (λ row. build_item parse_float one row (resolve_columns t schema) schema source) rows
          ++ items)
  rows-Quantified t source [] more items h = h
  rows-Quantified t source (row ∷ rows) more items h =
      (build_item-IsQuantified t row source, rows-Quantified t source rows more items h)

  -- The items of a page belong, one to one and in their order, to the rows selected from the tables
  -- that resolve to the schema, and each has its quantity in one of three ways: the number found in
  -- the row's cell of the schema's quantity column, with the schema's unit; one each with that unit,
  -- if no number is found there and the schema's rows are instances; and no quantity and no unit, if
  -- no number is found and they are not. The basis names the way.
  pub parse_page-IsQuantified :
      (tables : List Table) (source : Dict String) (min_coverage min_cols : ℕ)
      → Quantified
          (page_rows min_coverage min_cols tables)
          (parse_page parse_float one tables schema source min_coverage min_cols)
  unfolding parse_page parse_schedule
  parse_page-IsQuantified [] source min_coverage min_cols = tt
  parse_page-IsQuantified (t ∷ tables) source min_coverage min_cols =
      let ih = parse_page-IsQuantified tables source min_coverage min_cols in
      elim (Bool-cases (table_resolves parse_float one schema min_coverage min_cols t)) [
        | inl resolves ↦ rw resolves (
            rows-Quantified t (source_or parse_float one schema source)
              (select_rows t (resolve_columns t schema) schema)
              (page_rows min_coverage min_cols tables)
              (parse_page parse_float one tables schema source min_coverage min_cols) ih)
        | inr other ↦ rw other ih
      ]

-- How many elements of a list are the name.
abbrev occurrences : String → List String → ℕ
occurrences name names = length (keep (λ other. other == name) names)

count_of-count_up :
    (name other : String) (counts : Dict ℕ)
    → count_of name (count_up other counts)
      ≡ (if other == name then suc (count_of name counts) else count_of name counts)
unfolding count_up
count_of-count_up name other [] = ground (arith, string_eq.test_iff other name)
count_of-count_up name other ((k, n) ∷ counts) = ground (
  arith,
  string_eq.test_iff other name,
  string_eq.test_iff k name,
  string_eq.test_iff k other,
  count_of-count_up name other counts,
)

count_of-count_names :
    (name : String) (names : List String) (counts : Dict ℕ)
    → count_of name (count_names names counts) ≡ count_of name counts + occurrences name names
unfolding count_names
count_of-count_names name [] counts = omega arith
count_of-count_names name (other ∷ names) counts = ground (
  arith,
  count_of-count_names name names (count_up other counts),
  count_of-count_up name other counts,
)

module _ {F : Type 0} where
  abbrev pub is_pending : ScheduleItem F → Bool
  is_pending it = elim it.quantity [ none ↦ true | some q ↦ false ]

  pending_basis :
      (parse_float : String → F) (one : F) (schema : ScheduleSchema)
      (rows : List (Table × List Cell)) (items : List (ScheduleItem F))
      → Quantified parse_float one schema rows items
      → occurrences basis_unknown (map (λ (it : ScheduleItem F). it.quantity_basis) items)
        ≡ length (keep is_pending items)
  pending_basis parse_float one schema [] [] h = refl
  pending_basis parse_float one schema [] (it ∷ items) h = absurd h
  pending_basis parse_float one schema (row ∷ rows) [] h = absurd h
  pending_basis parse_float one schema (row ∷ rows) (it ∷ items) (from_column q _ _ b, h) =
      rw (b, q) (pending_basis parse_float one schema rows items h)
  pending_basis parse_float one schema (row ∷ rows) (it ∷ items) (from_row q _ _ _ b, h) =
      rw (b, q) (pending_basis parse_float one schema rows items h)
  pending_basis parse_float one schema (row ∷ rows) (it ∷ items) (pending q _ _ _ b, h) =
      rw (b, q) (ap suc (pending_basis parse_float one schema rows items h))

-- The summary of a page's items reports as pending, to be counted on the plans, exactly as many
-- items as have no quantity.
pub summarize-parse_page :
    {F : Type 0} (parse_float : String → F) (one zero_float : F) (add : F → F → F) (round_2 : F → F)
    (tables : List Table) (schema : ScheduleSchema) (source : Dict String)
    (min_coverage min_cols : ℕ)
    → (summarize zero_float add round_2
        (parse_page parse_float one tables schema source min_coverage min_cols)).count_pending_items
      ≡ length
          (keep is_pending (parse_page parse_float one tables schema source min_coverage min_cols))
unfolding summarize
summarize-parse_page {F} parse_float one zero_float add round_2 tables schema source min_coverage
      min_cols =
    let items = parse_page parse_float one tables schema source min_coverage min_cols in
    let bases = map (λ (it : ScheduleItem F). it.quantity_basis) items in
    count_of-count_names basis_unknown bases []
    ∙ omega (
      arith,
      pending_basis parse_float one schema
          (page_rows parse_float one schema min_coverage min_cols tables) items
          (parse_page-IsQuantified parse_float one schema tables source min_coverage min_cols),
    )
