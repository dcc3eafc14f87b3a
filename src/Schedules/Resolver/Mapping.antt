-- ===== src/Schedules/Resolver/Mapping.antt =====
-- What the resolver makes of the columns: no column and no field is met twice.
use construction_harness.Prelude.{
  Bool-cases, All, All-append, nonempty, contains, contains-append, nat_eq, string_eq, pair_eq, ℕ,
  zero, suc, ◌+◌, ◌<◌, String, ◌≡◌, refl, inl, inr, false, not, ◌&&◌, Option, none, some, List, [],
  ◌∷◌, ◌++◌, map, map-append, arith, subst, Distinct, Distinct-append_one,
}
use construction_harness.Schedules.Schema.{ScheduleSchema}
use construction_harness.Schedules.Labels.{
  match_label, column_label, primary_label, header_band, header_tokens,
}
use construction_harness.Schedules.Resolver.{
  Table, mapped_fields, Columns, claim, resolve_column, resolve_from, width, normalized,
  resolve_columns,
}

abbrev pub mapped_columns : List (ℕ × String) → List ℕ
mapped_columns mapping = map (λ m. m.0) mapping

-- Before column c is looked at.
pub record IsResolved (c : ℕ) (columns : Columns) : Type 0 where
  pub fields_distinct : Distinct (mapped_fields columns.0)
  pub mapped_distinct : Distinct (mapped_columns columns.0)
  pub unmapped_distinct : Distinct columns.1
  pub apart : All (λ u. contains (mapped_columns columns.0) u ≡ false) columns.1
  pub mapped_below : All (λ m. m < c) (mapped_columns columns.0)
  pub unmapped_below : All (λ u. u < c) columns.1

mapped_columns-append :
    (mapping : List (ℕ × String)) (c : ℕ) (f : String)
    → mapped_columns (mapping ++ (c, f) ∷ []) ≡ mapped_columns mapping ++ c ∷ []
mapped_columns-append mapping c f = map-append (λ (m : ℕ × String). m.0) mapping ((c, f) ∷ [])

mapped_fields-append :
    (mapping : List (ℕ × String)) (c : ℕ) (f : String)
    → mapped_fields (mapping ++ (c, f) ∷ []) ≡ mapped_fields mapping ++ f ∷ []
mapped_fields-append mapping c f = map-append (λ (m : ℕ × String). m.1) mapping ((c, f) ∷ [])

-- A number above all of a list is not in it.
fresh : (xs : List ℕ) (c : ℕ) → All (λ x. x < c) xs → contains xs c ≡ false
fresh [] c h = refl
fresh (x ∷ xs) c h = ground (arith, fresh xs c h.1)

All-suc : (xs : List ℕ) (c : ℕ) → All (λ x. x < c) xs → All (λ x. x < suc c) xs
All-suc [] c h = tt
All-suc (x ∷ xs) c h = (omega arith, All-suc xs c h.1)

-- Adding a column above the unmapped ones keeps these apart.
apart-append :
    (mapped unmapped : List ℕ) (c : ℕ)
    → All (λ u. u < c) unmapped
    → All (λ u. contains mapped u ≡ false) unmapped
    → All (λ u. contains (mapped ++ c ∷ []) u ≡ false) unmapped
apart-append mapped [] c b h = tt
apart-append mapped (u ∷ unmapped) c b h =
    (ground (arith, contains-append mapped (c ∷ []) u), apart-append mapped unmapped c b.1 h.1)

IsResolved-suc : (c : ℕ) (columns : Columns) → IsResolved c columns → IsResolved (suc c) columns
IsResolved-suc c columns r = record {
  fields_distinct = r.fields_distinct;
  mapped_distinct = r.mapped_distinct;
  unmapped_distinct = r.unmapped_distinct;
  apart = r.apart;
  mapped_below = All-suc (mapped_columns columns.0) c r.mapped_below;
  unmapped_below = All-suc columns.1 c r.unmapped_below;
}

-- Column c goes to the unmapped ones.
IsResolved-unmapped :
    (c : ℕ) (mapping : List (ℕ × String)) (unmapped : List ℕ)
    → IsResolved c (mapping, unmapped)
    → IsResolved (suc c) (mapping, unmapped ++ c ∷ [])
IsResolved-unmapped c mapping unmapped r = record {
  fields_distinct = r.fields_distinct;
  mapped_distinct = r.mapped_distinct;
  unmapped_distinct =
      Distinct-append_one unmapped c r.unmapped_distinct (fresh unmapped c r.unmapped_below);
  apart =
      All-append (λ u. contains (mapped_columns mapping) u ≡ false) unmapped (c ∷ []) r.apart
        (fresh (mapped_columns mapping) c r.mapped_below, tt);
  mapped_below = All-suc (mapped_columns mapping) c r.mapped_below;
  unmapped_below =
      All-append (λ u. u < suc c) unmapped (c ∷ []) (All-suc unmapped c r.unmapped_below)
        (omega arith, tt);
}

-- Column c takes a field that no column has.
IsResolved-mapped :
    (c : ℕ) (f : String) (mapping : List (ℕ × String)) (unmapped : List ℕ)
    → IsResolved c (mapping, unmapped)
    → contains (mapped_fields mapping) f ≡ false
    → IsResolved (suc c) (mapping ++ (c, f) ∷ [], unmapped)
IsResolved-mapped c f mapping unmapped r new = record {
  fields_distinct =
      rw (mapped_fields-append mapping c f)
        (Distinct-append_one (mapped_fields mapping) f r.fields_distinct new);
  mapped_distinct = rw (mapped_columns-append mapping c f) (
      Distinct-append_one (mapped_columns mapping) c r.mapped_distinct
        (fresh (mapped_columns mapping) c r.mapped_below));
  unmapped_distinct = r.unmapped_distinct;
  apart =
      rw (mapped_columns-append mapping c f)
        (apart-append (mapped_columns mapping) unmapped c r.unmapped_below r.apart);
  mapped_below = rw (mapped_columns-append mapping c f) (
      All-append (λ m. m < suc c) (mapped_columns mapping) (c ∷ [])
        (All-suc (mapped_columns mapping) c r.mapped_below) (omega arith, tt));
  unmapped_below = All-suc unmapped c r.unmapped_below;
}

claim-IsResolved :
    (c : ℕ) (found : Option String) (columns : Columns)
    → IsResolved c columns
    → IsResolved (suc c) (claim c found columns)
unfolding claim
claim-IsResolved c none (mapping, unmapped) r = IsResolved-unmapped c mapping unmapped r
claim-IsResolved c (some f) (mapping, unmapped) r =
    elim (Bool-cases (nonempty f && not (contains (mapped_fields mapping) f))) [
      | inl new ↦ rw new (IsResolved-mapped c f mapping unmapped r (ground arith))
      | inr old ↦ rw old (IsResolved-unmapped c mapping unmapped r)
    ]

module _ (norm : List (List String)) (band : List ℕ) (schema : ScheduleSchema) where
  resolve_column-IsResolved :
      (c : ℕ) (columns : Columns)
      → IsResolved c columns
      → IsResolved (suc c) (resolve_column norm band schema c columns)
  unfolding resolve_column
  resolve_column-IsResolved c columns r =
      let found = primary_label norm c band ("", 0) in
      elim (Bool-cases (nonempty found.0)) [
        | inl labelled ↦ rw labelled (
            claim-IsResolved c (match_label (column_label norm band c schema found) schema) columns
              r)
        | inr blank ↦ rw blank (IsResolved-suc c columns r)
      ]

  resolve_from-IsResolved :
      (c n : ℕ) (columns : Columns)
      → IsResolved c columns
      → IsResolved (c + n) (resolve_from norm band schema c n columns)
  unfolding resolve_from
  resolve_from-IsResolved c zero columns r = subst (λ k. IsResolved k columns) (omega arith) r
  resolve_from-IsResolved c (suc n) columns r =
      let next = resolve_column norm band schema c columns in
      subst (λ k. IsResolved k (resolve_from norm band schema (suc c) n next)) (omega arith)
        (resolve_from-IsResolved (suc c) n next (resolve_column-IsResolved c columns r))

-- In the column map of a table no field is claimed by two columns, no column is met twice, be it
-- mapped or unmapped, and every column lies within the widest row of the table.
pub resolve_columns-IsResolved :
    (table : Table) (schema : ScheduleSchema)
    → IsResolved
        (width table)
        ((resolve_columns table schema).mapping, (resolve_columns table schema).unmapped_columns)
unfolding resolve_columns
resolve_columns-IsResolved table schema =
    let norm = normalized table in
    let band = header_band (header_tokens schema) 0 norm in
    subst (λ k. IsResolved k (resolve_from norm band.0 schema 0 (width table) ([], [])))
      (omega arith)
      (resolve_from-IsResolved norm band.0 schema 0 (width table) ([], [])
        (record {
          fields_distinct = tt;
          mapped_distinct = tt;
          unmapped_distinct = tt;
          apart = tt;
          mapped_below = tt;
          unmapped_below = tt;
        }))
