-- ===== src/Schedules/Resolver/Header.antt =====
-- Where the data of a schedule table begins.
use construction_harness.Prelude.{
  Bool-cases, length, get_elem?, take, All, nat_eq, string_eq, pair_eq, ℕ, suc, ◌+◌, ◌≤◌, String,
  ◌≡◌, refl, ◌⊎◌, inl, inr, Bool, true, false, ◌||◌, some, List, [], ◌∷◌, arith, subst,
}
use construction_harness.Schedules.Schema.{ScheduleSchema}
use construction_harness.Schedules.Labels.{is_title, row_is_header, header_tokens, header_band}
use construction_harness.Schedules.Resolver.{Table, normalized, resolve_columns}

module _ (htoks : List String) where
  -- A row that the band skips or takes.
  abbrev pub heads : List String → Bool
  heads cells = is_title cells || row_is_header cells htoks

  abbrev pub StopsAt : ℕ → List (List String) → Type 0
  StopsAt n norm =
      (n ≤ length norm)
      × All (λ cells. heads cells ≡ true) (take n norm)
      × ((n ≡ length norm)
          ⊎ ((cells : List String) × (get_elem? norm n ≡ some cells) × (heads cells ≡ false)))

  StopsAt-suc :
      (n : ℕ) (cells : List String) (norm : List (List String))
      → heads cells ≡ true
      → StopsAt n norm
      → StopsAt (suc n) (cells ∷ norm)
  StopsAt-suc n cells norm h (le, before, inl ends) = (omega arith, (h, before), inl (omega arith))
  StopsAt-suc n cells norm h (le, before, inr stop) = (omega arith, (h, before), inr stop)

  -- The band ends n rows after the row i where the scan begins.
  header_band-StopsAt :
      (i : ℕ) (norm : List (List String))
      → (n : ℕ) × ((header_band htoks i norm).1 ≡ i + n) × StopsAt n norm
  unfolding header_band
  header_band-StopsAt i [] = (0, omega arith, (omega arith, tt, inl refl))
  header_band-StopsAt i (cells ∷ norm) =
      let (n, at, stop) = header_band-StopsAt (suc i) norm in
      elim (Bool-cases (is_title cells)) [
        | inl title ↦ rw title (suc n, omega arith, StopsAt-suc n cells norm (ground arith) stop)
        | inr not_title ↦ elim (Bool-cases (row_is_header cells htoks)) [
          | inl header ↦
              rw (not_title, header)
                (suc n, omega arith, StopsAt-suc n cells norm (ground arith) stop)
          | inr row ↦
              rw (not_title, row)
                (0, omega arith, (omega arith, tt, inr (cells, refl, ground arith)))
        ]
      ]

-- The data of a table begins at the first row that is neither a title nor a header, or after the
-- last row if there is none.
pub data_start-StopsAt :
    (table : Table) (schema : ScheduleSchema)
    → StopsAt (header_tokens schema) (resolve_columns table schema).data_start (normalized table)
unfolding resolve_columns
data_start-StopsAt table schema =
    let (n, at, stop) = header_band-StopsAt (header_tokens schema) 0 (normalized table) in
    subst (λ k. StopsAt (header_tokens schema) k (normalized table)) (omega arith) stop
