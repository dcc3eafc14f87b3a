-- ===== src/Schedules/Rows/Expand.antt =====
-- Merged rows: what `_expand_merged` deals out to the rows of N identical doors.
use native.Mathlib.Nat.{div-add-mod'}
use construction_harness.Prelude.{
  Bool-cases, length, get_elem?, take, drop, All, length-drop, take-append-drop, length-map, join,
  nat_eq, string_eq, pair_eq, ℕ, zero, suc, ◌-◌, ◌*◌, ◌/◌, ◌%◌, ◌≤◌, String, ◌≡◌, refl, sym, ap,
  ◌∙◌, ◌⊎◌, inl, inr, false, Option, some, List, [], ◌∷◌, ◌++◌, map, arith, length-take, subst,
}
use construction_harness.Schedules.Cells.{Cell, clean, split}
use construction_harness.Schedules.Rows.{
  clean_at, chunks, repeat, divides, column_parts, part_at, rows_from, expand_merged,
}

abbrev pub flatten {ℓ} : {A : Type ℓ} → List (List A) → List A
flatten [] = []
flatten (xs ∷ xss) = xs ++ flatten xss

module _ {ℓ} {A : Type ℓ} where
  length-chunks : (n k : ℕ) (toks : List A) → length (chunks n k toks) ≡ n
  unfolding chunks
  length-chunks zero k toks = refl
  length-chunks (suc n) k toks = ap suc (length-chunks n k (drop k toks))

  length-repeat : (n : ℕ) (a : A) → length (repeat n a) ≡ n
  unfolding repeat
  length-repeat zero a = refl
  length-repeat (suc n) a = ap suc (length-repeat n a)

  length_zero : (xs : List A) → length xs ≡ 0 → xs ≡ []
  length_zero [] h = refl
  length_zero (x ∷ xs) h = absurd (omega arith)

  -- Chunks of k out of n times k elements: all of them, in their order.
  flatten-chunks :
      (n k : ℕ) (toks : List A) → length toks ≡ n * k → flatten (chunks n k toks) ≡ toks
  unfolding chunks
  flatten-chunks zero k toks h = sym (length_zero toks (omega (arith)))
  flatten-chunks (suc n) k toks h =
      let rest : length (drop k toks) ≡ n * k = grind (arith, length-drop k toks) in
      ap (λ more. take k toks ++ more) (flatten-chunks n k (drop k toks) rest)
      ∙ take-append-drop k toks

  chunks-even :
      (n k : ℕ) (toks : List A)
      → length toks ≡ n * k
      → All (λ part. length part ≡ k) (chunks n k toks)
  unfolding chunks
  chunks-even zero k toks h = tt
  chunks-even (suc n) k toks h =
      let rest : length (drop k toks) ≡ n * k = grind (arith, length-drop k toks) in
      (grind (arith, length-take k toks), chunks-even n k (drop k toks) rest)

  -- The element at r, and those after it.
  drop_cons :
      (r n : ℕ) (xs : List A)
      → length (drop r xs) ≡ suc n
      → (x : A) × (drop r xs ≡ x ∷ drop (suc r) xs) × (get_elem? xs r ≡ some x)
  drop_cons zero n [] h = absurd (omega arith)
  drop_cons zero n (x ∷ xs) h = (x, refl, refl)
  drop_cons (suc r) n [] h = absurd (omega arith)
  drop_cons (suc r) n (x ∷ xs) h = drop_cons r n xs h

get_elem?-map {ℓ κ} :
    {A : Type ℓ} {B : Type κ} (f : A → B) (xs : List A) (i : ℕ) {a : A}
    → get_elem? xs i ≡ some a
    → get_elem? (map f xs) i ≡ some (f a)
get_elem?-map f [] i h = cc
get_elem?-map f (x ∷ xs) zero h = ground arith
get_elem?-map f (x ∷ xs) (suc i) h = get_elem?-map f xs i h

length-rows_from : (per_col : List (List String)) (r n : ℕ) → length (rows_from per_col r n) ≡ n
unfolding rows_from
length-rows_from per_col r zero = refl
length-rows_from per_col r (suc n) = ap suc (length-rows_from per_col (suc r) n)

widths-rows_from :
    (per_col : List (List String)) (r n : ℕ)
    → All (λ row. length row ≡ length per_col) (rows_from per_col r n)
unfolding rows_from
widths-rows_from per_col r zero = tt
widths-rows_from per_col r (suc n) =
    (length-map (part_at r) per_col, widths-rows_from per_col (suc r) n)

-- A column of the rows, read downwards.
abbrev pub column : ℕ → List (List Cell) → List (Option Cell)
column c rows = map (λ row. get_elem? row c) rows

abbrev filled : List String → List (Option Cell)
filled parts = map (λ part. some (some part)) parts

column-rows_from :
    (per_col : List (List String)) (c r n : ℕ) (parts : List String)
    → get_elem? per_col c ≡ some parts
    → length (drop r parts) ≡ n
    → column c (rows_from per_col r n) ≡ filled (drop r parts)
unfolding rows_from
column-rows_from per_col c r zero parts h len = rw (length_zero (drop r parts) len)
column-rows_from per_col c r (suc n) parts h len =
    let (p, all_of, at) = drop_cons r n parts len in
    let more : length (drop (suc r) parts) ≡ n = ground (arith, ap length all_of) in
    let here : get_elem? (map (part_at r) per_col) c ≡ some (some p) =
      get_elem?-map (part_at r) per_col c h ∙ ap (λ o. some o) at in
    rw (here, all_of) (ap (◌∷◌ (some (some p))) (column-rows_from per_col c (suc r) n parts h more))

-- What the rows get of a cell, from the first to the last: the cell's words dealt out evenly in
-- their order, or, if they do not divide, the whole cell first and then blanks.
abbrev pub IsDealtOut : ℕ → Cell → List String → Type 0
IsDealtOut n cell parts =
    ((groups : List (List String)) × (parts ≡ map (join " ") groups)
      × (flatten groups ≡ split (clean cell))
      × All (λ group. length group * n ≡ length (split (clean cell))) groups)
    ⊎ ((divides n (split (clean cell)) ≡ false) × (parts ≡ clean cell ∷ repeat (n - 1) ""))

All-scaled :
    (n k m : ℕ) (groups : List (List String))
    → k * n ≡ m
    → All (λ group. length group ≡ k) groups
    → All (λ group. length group * n ≡ m) groups
All-scaled n k m [] e h = tt
All-scaled n k m (g ∷ groups) e h = (rw h.0 e, All-scaled n k m groups e h.1)

column_parts-IsDealtOut : (n : ℕ) (cell : Cell) → IsDealtOut n cell (column_parts n cell)
unfolding column_parts
column_parts-IsDealtOut n cell =
    let words = split (clean cell) in
    let k = length words / n in
    elim (Bool-cases (divides n words)) [
      | inl even ↦
          let exact : length words % n ≡ 0 = ground arith in
          let total : k * n ≡ length words = omega (arith, div-add-mod' (length words) n) in
          let total' : length words ≡ n * k = grind arith in
          rw even (
            inl (
              chunks n k words,
              refl,
              flatten-chunks n k words total',
              All-scaled n k (length words) (chunks n k words) total (chunks-even n k words total'),
            ))
      | inr uneven ↦ rw uneven (inr (refl, refl))
    ]

length-column_parts : (n : ℕ) (cell : Cell) → 1 ≤ n → length (column_parts n cell) ≡ n
unfolding column_parts
length-column_parts n cell h =
    let words = split (clean cell) in
    ground (
      arith,
      length-map (join " ") (chunks n (length words / n) words),
      length-chunks n (length words / n) words,
      length-repeat {A = String} (n - 1) "",
    )

abbrev pub door_count : List Cell → ℕ → ℕ
door_count row mark_col = length (split (clean_at row mark_col))

-- A row whose mark cell has N words, at least one, becomes N rows of its width; in each of its
-- columns, whatever cell stands there, the N rows have from top to bottom either groups of the
-- cell's words, equally many to each row and all in their order, or, where N does not divide the
-- words or there are none, the whole cell in the first row and blanks below it.
pub expand_merged_rows :
    (row : List Cell) (mark_col c : ℕ) (cell : Cell)
    → 1 ≤ door_count row mark_col
    → get_elem? row c ≡ some cell
    → (length (expand_merged row mark_col) ≡ door_count row mark_col)
      × All (λ made. length made ≡ length row) (expand_merged row mark_col)
      × (parts : List String) × (column c (expand_merged row mark_col)
          ≡ map (λ part. some (some part)) parts)
      × IsDealtOut (door_count row mark_col) cell parts
unfolding expand_merged
expand_merged_rows row mark_col c cell h at =
    let n = door_count row mark_col in
    let per_col = map (column_parts n) row in
    (
      length-rows_from per_col 0 n,
      subst (λ w. All (λ made. length made ≡ w) (rows_from per_col 0 n))
          (length-map (column_parts n) row) (widths-rows_from per_col 0 n),
      column_parts n cell,
      column-rows_from per_col c 0 n (column_parts n cell) (get_elem?-map (column_parts n) row c at)
          (length-column_parts n cell h),
      column_parts-IsDealtOut n cell,
    )
