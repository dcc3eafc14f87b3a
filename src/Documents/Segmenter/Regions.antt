-- ===== src/Documents/Segmenter/Regions.antt =====
-- The regions of a file whose pages have consecutive indices.
use construction_harness.Prelude.{
  leb, Bool-cases, Option-cases, length, get_elem?, any, length-map, ◌==◌, nat_eq, string_eq,
  pair_eq, ℕ, zero, suc, ◌+◌, ◌≤◌, ◌<◌, String, ◌≡◌, refl, sym, ap, ◌∙◌, inl, inr, not, ◌||◌, some,
  List, [], ◌∷◌, map, arith, subst,
}
use construction_harness.Documents.Segmenter.{
  PageProfile, index_of, Region, region_page_count, Span, runs, by_index, has_anchor, pages_of,
  mark_region, mark_last, mark_front_matter, insert_profile, sort_pages, region_of,
  provisional_kind, segment_file, segment_sorted,
}
use construction_harness.Documents.Segmenter.Runs.{Tile, runs-Tile}
use construction_harness.Documents.Segmenter.Absorb.{absorbed-Settles}

-- The pages start, start + 1, and so on.
abbrev pub Consecutive : ℕ → List PageProfile → Type 0
Consecutive start [] = Unit {0}
Consecutive start (p ∷ profiles) = (p.page_index ≡ start) × Consecutive (suc start) profiles

-- The regions that follow one another from a page to an end, each with a page at least.
abbrev pub TilePages : ℕ → List Region → ℕ → Type 0
TilePages page [] end_of = page ≡ end_of
TilePages page (r ∷ regions) end_of =
    (r.page_start ≡ page) × (page ≤ r.page_end) × TilePages (suc r.page_end) regions end_of

sort_pages_same :
    (start : ℕ) (profiles : List PageProfile)
    → Consecutive start profiles
    → sort_pages profiles ≡ profiles
unfolding sort_pages
sort_pages_same start [] h = refl
sort_pages_same start (p ∷ []) h = refl
sort_pages_same start (p ∷ q ∷ profiles) h =
    ap (insert_profile p) (sort_pages_same (suc start) (q ∷ profiles) h.1) ∙ ground arith

position_index :
    (start i : ℕ) (profiles : List PageProfile)
    → Consecutive start profiles
    → i < length profiles
    → index_of (get_elem? profiles i) ≡ start + i
position_index start i [] h k = absurd (omega arith)
position_index start zero (p ∷ profiles) h k = omega arith
position_index start (suc i) (p ∷ profiles) h k =
    position_index (suc start) i profiles h.1 (omega arith) ∙ omega arith

Tile-le :
    (position : ℕ) (spans : List Span) (end_of : ℕ) → Tile position spans end_of → position ≤ end_of
Tile-le position [] end_of t = omega arith
Tile-le position (s ∷ []) end_of t = omega arith
Tile-le position (s ∷ u ∷ spans) end_of (a, b, c, t) =
    omega (arith, Tile-le (s.end_pos + 1) (u ∷ spans) end_of t)

module _ (start : ℕ) (profiles : List PageProfile) (consecutive : Consecutive start profiles) where
  region_of-Tile :
      (file_id : String) (position : ℕ) (spans : List Span) (end_of : ℕ)
      → Tile position spans end_of
      → end_of ≤ length profiles
      → TilePages (start + position) (map (region_of file_id profiles) spans) (start + end_of)
  unfolding region_of
  region_of-Tile file_id position [] end_of t h = omega arith
  region_of-Tile file_id position (s ∷ []) end_of t h =
      let first = position_index start s.start_pos profiles consecutive (omega arith) in
      let last = position_index start s.end_pos profiles consecutive (omega arith) in
      (omega arith, omega arith, omega arith)
  region_of-Tile file_id position (s ∷ u ∷ spans) end_of (a, b, c, t) h =
      let inside = Tile-le (s.end_pos + 1) (u ∷ spans) end_of t in
      let first = position_index start s.start_pos profiles consecutive (omega arith) in
      let last = position_index start s.end_pos profiles consecutive (omega arith) in
      let next : start + (s.end_pos + 1) ≡ suc (index_of (get_elem? profiles s.end_pos)) =
        omega arith in
      (
        omega arith,
        omega arith,
        subst
            (λ page. TilePages page (map (region_of file_id profiles) (u ∷ spans)) (start + end_of))
            next (region_of-Tile file_id (s.end_pos + 1) (u ∷ spans) end_of t h),
      )

TilePages-le :
    (page : ℕ) (regions : List Region) (end_of : ℕ) → TilePages page regions end_of → page ≤ end_of
TilePages-le page [] end_of t = omega arith
TilePages-le page (r ∷ regions) end_of (a, b, t) =
    omega (arith, TilePages-le (suc r.page_end) regions end_of t)

retile_pages :
    (regions : List Region) {p q a b : ℕ}
    → p ≡ q
    → a ≡ b
    → TilePages p regions a
    → TilePages q regions b
retile_pages regions {p} {q} {a} {b} h k tiles =
    subst (λ x. TilePages x regions b) h (subst (λ y. TilePages p regions y) k tiles)

by_index_found :
    (start i : ℕ) (profiles : List PageProfile)
    → Consecutive start profiles
    → start ≤ i
    → i < start + length profiles
    → (p : PageProfile) × (by_index i profiles ≡ some p)
unfolding by_index
by_index_found start i [] h k l = absurd (omega arith)
by_index_found start i (p ∷ profiles) h k l = elim (Option-cases (by_index i profiles)) [
  | inr (q, later) ↦ (q, rw (by_index, later))
  | inl none_later ↦ elim (Bool-cases (p.page_index == i)) [
    | inl here ↦ (p, rw (by_index, none_later, here))
    | inr other ↦
        let (q, later) = by_index_found (suc start) i profiles h.1 (ground arith) (omega arith) in
        absurd (cc)
  ]
]

module _ (start : ℕ) (profiles : List PageProfile) (consecutive : Consecutive start profiles) where
  pages_of_found :
      (i n : ℕ)
      → start ≤ i
      → i + n ≤ start + length profiles
      → (pages : List PageProfile) × (pages_of profiles i n ≡ some pages)
  unfolding pages_of
  pages_of_found i zero h k = ([], refl)
  pages_of_found i (suc n) h k =
      let (p, here) = by_index_found start i profiles consecutive h (omega arith) in
      let (pages, rest) = pages_of_found (suc i) n (omega arith) (omega arith) in
      (p ∷ pages, rw (pages_of, here, rest))

  abbrev Kept : Region → Region → Type 0
  Kept r made = (made.page_start ≡ r.page_start) × (made.page_end ≡ r.page_end)

  mark_region-Kept :
      (min_run : ℕ) (r : Region)
      → start ≤ r.page_start
      → r.page_start ≤ r.page_end
      → r.page_end < start + length profiles
      → (made : Region) × (mark_region profiles min_run r ≡ some made) × Kept r made
  unfolding mark_region
  mark_region-Kept min_run r h k l =
      elim (Bool-cases (not (r.kind == "manual") || leb min_run (region_page_count r))) [
        | inl kept ↦ (r, rw (mark_region, kept), (refl, refl))
        | inr short ↦
            let (pages, found) =
              pages_of_found r.page_start (region_page_count r) h (omega arith) in
            elim (Bool-cases (any has_anchor pages)) [
              | inl anchored ↦ (r, rw (mark_region, short, found, anchored), (refl, refl))
              | inr bare ↦ (
                record r { kind = "front_matter" },
                rw (mark_region, short, found, bare),
                (refl, refl),
              )
            ]
      ]

  mark_last-Kept :
      (min_run page end_of : ℕ) (regions : List Region)
      → start ≤ page
      → end_of ≤ start + length profiles
      → TilePages page regions end_of
      → (made : List Region) × (mark_last profiles min_run regions ≡ some made)
        × TilePages page made end_of
  unfolding mark_last
  mark_last-Kept min_run page end_of [] h k t = ([], refl, t)
  mark_last-Kept min_run page end_of (r ∷ []) h k t =
      let (made, marked, kept) =
        mark_region-Kept min_run r (omega arith) (omega arith) (omega arith) in
      (made ∷ [], rw marked refl, (omega arith, omega arith, omega arith))
  mark_last-Kept min_run page end_of (r ∷ next ∷ regions) h k (a, b, t) =
      let (made, marked, tiled) =
        mark_last-Kept min_run (suc r.page_end) end_of (next ∷ regions) (omega arith) k t in
      (r ∷ made, rw marked refl, (a, b, tiled))

  mark_front_matter-Kept :
      (min_run page end_of : ℕ) (regions : List Region)
      → start ≤ page
      → end_of ≤ start + length profiles
      → TilePages page regions end_of
      → (made : List Region) × (mark_front_matter profiles min_run regions ≡ some made)
        × TilePages page made end_of
  unfolding mark_front_matter
  mark_front_matter-Kept min_run page end_of [] h k t = ([], refl, t)
  mark_front_matter-Kept min_run page end_of (r ∷ regions) h k (a, b, t) =
      let inside = TilePages-le (suc r.page_end) regions end_of t in
      let (made, marked, (first, last)) =
        mark_region-Kept min_run r (omega arith) (omega arith) (omega arith) in
      let (rest, marked_rest, tiled) =
        mark_last-Kept min_run (suc r.page_end) end_of regions (omega arith) k t in
      (
        made ∷ rest,
        rw (marked, marked_rest) refl,
        (omega arith, omega arith, subst (λ n. TilePages (suc n) rest end_of) (sym last) tiled),
      )

-- The pages of a file that are given in their order, with consecutive indices from `start`, are
-- segmented, whatever their sizes and anchors: the regions follow one another from the first page to
-- the last, each with one page at least, so that every page lies in exactly one of them.
pub segment_file-TilePages :
    (start min_run : ℕ) (profiles : List PageProfile)
    → Consecutive start profiles
    → (regions : List Region) × (segment_file profiles min_run ≡ some regions)
      × TilePages start regions (start + length profiles)
unfolding segment_file
segment_file-TilePages start min_run [] h = ([], refl, omega arith)
segment_file-TilePages start min_run (p ∷ profs) h =
    let profiles = p ∷ profs in
    let sorted = sort_pages_same start profiles h in
    let kinds = map provisional_kind profiles in
    let (settled, made, same, _) = absorbed-Settles min_run kinds in
    let size : length settled ≡ length profiles = same ∙ length-map provisional_kind profiles in
    let tiles = (runs-Tile settled).0 in
    let regions = map (region_of p.file_id profiles) (runs settled) in
    let tiled : TilePages start regions (start + length profiles) =
      retile_pages regions (omega arith) (omega arith) (
        region_of-Tile start profiles h p.file_id 0 (runs settled) (length settled) tiles
          (omega arith)) in
    let (marked, done, kept) =
      mark_front_matter-Kept start profiles h min_run start (start + length profiles) regions
        (omega arith) (omega arith) tiled in
    (marked, ap (segment_sorted min_run) sorted ∙ rw made done, kept)
