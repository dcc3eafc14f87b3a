-- ===== src/Results/Projection/Stored.antt =====
-- What shred_entities stores.
use construction_harness.Prelude.{
  length, get_elem?, keep, nat_eq, string_eq, pair_eq, ℕ, zero, suc, ◌+◌, String, ◌≡◌, refl, sym,
  ap, ◌∙◌, not, Option, none, some, List, [], ◌∷◌, ◌++◌, map, append-nil, arith,
}
use construction_harness.Results.Projection.{
  Report, Tables, enumerate_from, item_row, area_row, count_row, project, of_job, replace_rows,
  shred_entities,
}

module _ {R : Type 0} (job_id : String) where
  -- The stored rows of a job.
  abbrev pub rows_of : List (String × R) → List R
  rows_of table = map (λ row. row.1) (keep (of_job job_id) table)

  abbrev pub others : List (String × R) → List (String × R)
  others table = keep (λ row. not (of_job job_id row)) table

  rows_of-append : (xs ys : List (String × R)) → rows_of (xs ++ ys) ≡ rows_of xs ++ rows_of ys
  rows_of-append [] ys = refl
  rows_of-append (x ∷ xs) ys = ground (arith, rows_of-append xs ys)

  others-append : (xs ys : List (String × R)) → others (xs ++ ys) ≡ others xs ++ others ys
  others-append [] ys = refl
  others-append (x ∷ xs) ys = ground (arith, others-append xs ys)

  rows_of-others : (xs : List (String × R)) → rows_of (others xs) ≡ []
  rows_of-others [] = refl
  rows_of-others (x ∷ xs) = ground (arith, rows_of-others xs)

  others-others : (xs : List (String × R)) → others (others xs) ≡ others xs
  others-others [] = refl
  others-others (x ∷ xs) = ground (arith, others-others xs)

  tag : List R → List (String × R)
  tag rows = map (λ r. (job_id, r)) rows

  rows_of-tag : (rows : List R) → rows_of (tag rows) ≡ rows
  unfolding tag
  rows_of-tag [] = refl
  rows_of-tag (r ∷ rows) = ground (arith, string_eq.test_iff job_id job_id, rows_of-tag rows)

  others-tag : (rows : List R) → others (tag rows) ≡ []
  unfolding tag
  others-tag [] = refl
  others-tag (r ∷ rows) = ground (arith, string_eq.test_iff job_id job_id, others-tag rows)

  -- The job's rows are the new ones, in order; the other jobs' rows stay; and again changes nothing.
  abbrev pub Replaces : List R → List (String × R) → List (String × R) → Type 0
  Replaces rows before after =
      (rows_of after ≡ rows)
      × (others after ≡ others before)
      × (replace_rows job_id rows after ≡ after)

  replace_rows-Replaces :
      (rows : List R) (table : List (String × R))
      → Replaces rows table (replace_rows job_id rows table)
  unfolding replace_rows tag
  replace_rows-Replaces rows table =
      let kept : others (others table ++ tag rows) ≡ others table =
        others-append (others table) (tag rows)
        ∙ (ap (λ ys. others (others table) ++ ys) (others-tag rows)
            ∙ (append-nil (others (others table)) ∙ others-others table)) in
      (
        rows_of-append (others table) (tag rows)
            ∙ (ap (λ xs. xs ++ rows_of (tag rows)) (rows_of-others table) ∙ rows_of-tag rows),
        kept,
        ap (λ xs. xs ++ tag rows) kept,
      )

length-enumerate_from {ℓ κ} :
    {A : Type ℓ} {B : Type κ} (row : ℕ → A → B) (i : ℕ) (ds : List A)
    → length (enumerate_from row i ds) ≡ length ds
unfolding enumerate_from
length-enumerate_from row i [] = refl
length-enumerate_from row i (d ∷ ds) = ap suc (length-enumerate_from row (suc i) ds)

-- The row of a record, if there is one.
abbrev pub row_of {ℓ κ} : {A : Type ℓ} {B : Type κ} → (A → B) → Option A → Option B
row_of row none = none
row_of row (some d) = some (row d)

enumerated {ℓ κ} :
    {A : Type ℓ} {B : Type κ} (row : ℕ → A → B) (start i k : ℕ) (ds : List A)
    → k ≡ start + i
    → get_elem? (enumerate_from row start ds) i ≡ row_of (row k) (get_elem? ds i)
unfolding enumerate_from
enumerated row start i k [] e = refl
enumerated row start zero k (d ∷ ds) e =
    let same : k ≡ start = omega arith in ap (λ j. some (row j d)) (sym same)
enumerated row start (suc i) k (d ∷ ds) e = enumerated row (suc start) i k ds (omega arith)

module _ {F : Type 0} where
  -- After the projection each table holds for the job exactly the rows of the report, in its order,
  -- the rows of other jobs are as before, and storing the same rows again changes nothing; the numbers
  -- returned are those of the report's records; and the row at each position is the projection of the
  -- record there, with that position for its ordinal.
  pub shred_entities-Replaces :
      (job_id : String) (report : Report F) (tables : Tables F) (i : ℕ)
      → let (counts, after) = shred_entities job_id report tables in
        Replaces job_id (project report).0 tables.schedule_items after.schedule_items
        × Replaces job_id (project report).1 tables.room_areas after.room_areas
        × Replaces job_id (project report).2 tables.fixture_counts after.fixture_counts
        × (counts ≡ (length report.items, length report.room_areas, length report.fixture_counts))
        × (get_elem? (rows_of job_id after.schedule_items) i
            ≡ row_of (item_row i) (get_elem? report.items i))
        × (get_elem? (rows_of job_id after.room_areas) i
            ≡ row_of (area_row i) (get_elem? report.room_areas i))
        × (get_elem? (rows_of job_id after.fixture_counts) i
            ≡ row_of (count_row i) (get_elem? report.fixture_counts i))
  unfolding shred_entities project
  shred_entities-Replaces job_id report tables i =
      let items = replace_rows-Replaces job_id (project report).0 tables.schedule_items in
      let areas = replace_rows-Replaces job_id (project report).1 tables.room_areas in
      let counts = replace_rows-Replaces job_id (project report).2 tables.fixture_counts in
      (
        items,
        areas,
        counts,
        cc (
          length-enumerate_from (item_row {F = F}) 0 report.items,
          length-enumerate_from (area_row {F = F}) 0 report.room_areas,
          length-enumerate_from (count_row {F = F}) 0 report.fixture_counts,
        ),
        ap (λ rows. get_elem? rows i) items.0
            ∙ enumerated item_row 0 i i report.items (omega arith),
        ap (λ rows. get_elem? rows i) areas.0
            ∙ enumerated area_row 0 i i report.room_areas (omega arith),
        ap (λ rows. get_elem? rows i) counts.0
            ∙ enumerated count_row 0 i i report.fixture_counts (omega arith),
      )
