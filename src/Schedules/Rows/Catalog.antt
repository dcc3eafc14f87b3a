-- ===== src/Schedules/Rows/Catalog.antt =====
-- The catalog rows: one for each tag of the table.
use construction_harness.Prelude.{
  leb, Bool-cases, length, keep, All, nonempty, contains, contains-append, nat_eq, string_eq,
  pair_eq, ℕ, String, ◌≡◌, refl, ◌⊎◌, inl, inr, Bool, true, false, ◌&&◌, List, [], ◌∷◌, ◌++◌, map,
  arith, Distinct, contains_self,
}
use construction_harness.Schedules.Cells.{Cell, clean}
use construction_harness.Schedules.Marks.{looks_like_tag}
use construction_harness.Schedules.Resolver.{Table}
use construction_harness.Schedules.Rows.{clean_at, is_catalog_row, select_catalog_rows}

module _ (key_col : ℕ) where
  abbrev pub key_of : List Cell → String
  key_of row = clean_at row key_col

  abbrev pub row_keys : Table → List String
  row_keys rows = map key_of rows

  -- A row that is an entry of the catalog: a tag, and two filled cells at least.
  abbrev pub is_entry : List Cell → Bool
  is_entry row = looks_like_tag (key_of row) && leb 2 (length (keep (λ c. nonempty (clean c)) row))

  abbrev pub Covered : List String → List Cell → Type 0
  Covered keys row = (is_entry row ≡ false) ⊎ (contains keys (key_of row) ≡ true)

  -- What is selected of a table, when the keys of `seen` are known.
  pub record IsCatalog (seen : List String) (table rows : Table) : Type 0 where
    pub keys_distinct : Distinct (row_keys rows)
    pub keys_new : All (λ k. contains seen k ≡ false) (row_keys rows)
    pub entries : All (λ row. is_entry row ≡ true) rows
    pub complete : All (Covered (seen ++ row_keys rows)) table

  not_among :
      (k : String) (seen keys : List String)
      → All (λ j. contains (k ∷ seen) j ≡ false) keys
      → contains keys k ≡ false
  not_among k seen [] h = refl
  not_among k seen (j ∷ keys) h =
      ground (arith, not_among k seen keys h.1, string_eq.test_iff j k, string_eq.test_iff k j)

  weaken_new :
      (k : String) (seen keys : List String)
      → All (λ j. contains (k ∷ seen) j ≡ false) keys
      → All (λ j. contains seen j ≡ false) keys
  weaken_new k seen [] h = tt
  weaken_new k seen (j ∷ keys) h = (ground arith, weaken_new k seen keys h.1)

  move_key :
      (k : String) (seen keys : List String) (table : Table)
      → All (Covered ((k ∷ seen) ++ keys)) table
      → All (Covered (seen ++ k ∷ keys)) table
  move_key k seen keys [] h = tt
  move_key k seen keys (row ∷ table) h = (
    ground (
      arith,
      contains-append seen keys (key_of row),
      contains-append seen (k ∷ keys) (key_of row),
    ),
    move_key k seen keys table h.1,
  )

  taken_facts :
      (seen : List String) (row : List Cell)
      → is_catalog_row key_col seen row ≡ true
      → (contains seen (key_of row) ≡ false) × (is_entry row ≡ true)
  unfolding is_catalog_row
  taken_facts seen row h = ground arith

  dropped_fact :
      (seen keys : List String) (row : List Cell)
      → is_catalog_row key_col seen row ≡ false
      → Covered (seen ++ keys) row
  unfolding is_catalog_row
  dropped_fact seen keys row h = ground (arith, contains-append seen keys (key_of row))

  IsCatalog-select_catalog_rows :
      (seen : List String) (table : Table)
      → IsCatalog seen table (select_catalog_rows key_col seen table)
  unfolding select_catalog_rows
  IsCatalog-select_catalog_rows seen [] = record {
    keys_distinct = tt;
    keys_new = tt;
    entries = tt;
    complete = tt;
  }
  IsCatalog-select_catalog_rows seen (row ∷ table) =
      elim (Bool-cases (is_catalog_row key_col seen row)) [
        | inl taken ↦ rw taken (
            let rest = select_catalog_rows key_col (key_of row ∷ seen) table in
            let ih = IsCatalog-select_catalog_rows (key_of row ∷ seen) table in
            record {
              keys_distinct =
                  (not_among (key_of row) seen (row_keys rest) ih.keys_new, ih.keys_distinct);
              keys_new = (
                (taken_facts seen row taken).0,
                weaken_new (key_of row) seen (row_keys rest) ih.keys_new,
              );
              entries = ((taken_facts seen row taken).1, ih.entries);
              complete = (
                inr (
                    ground (
                      arith,
                      contains-append seen (key_of row ∷ row_keys rest) (key_of row),
                      contains_self (key_of row) (row_keys rest),
                    )),
                move_key (key_of row) seen (row_keys rest) table ih.complete,
              );
            })
        | inr left_out ↦ rw left_out (
            let rest = select_catalog_rows key_col seen table in
            let ih = IsCatalog-select_catalog_rows seen table in
            record {
              keys_distinct = ih.keys_distinct;
              keys_new = ih.keys_new;
              entries = ih.entries;
              complete = (dropped_fact seen (row_keys rest) row left_out, ih.complete);
            })
      ]

-- The catalog rows of a table have distinct keys, and each has a tag for its key and two filled
-- cells at least; and for every such row of the table there is one with its key.
pub select_catalog_rows-IsCatalog :
    (key_col : ℕ) (table : Table)
    → Distinct (row_keys key_col (select_catalog_rows key_col [] table))
      × All (λ row. is_entry key_col row ≡ true) (select_catalog_rows key_col [] table)
      × All (Covered key_col (row_keys key_col (select_catalog_rows key_col [] table))) table
select_catalog_rows-IsCatalog key_col table =
    let c = IsCatalog-select_catalog_rows key_col [] table in
    (c.keys_distinct, c.entries, c.complete)
