-- ===== src/Documents/Samples.antt =====
-- The segmenter at a small file: a drawing among text pages.
use construction_harness.Prelude.{
  length, nat_eq, string_eq, pair_eq, ℕ, ◌+◌, String, ◌≡◌, refl, none, some, List, [], ◌∷◌, arith,
}
use construction_harness.Documents.Segmenter.{
  PageProfile, Region, runs, find_stray, absorbed, segment_file,
}
use construction_harness.Documents.Segmenter.Runs.{Tile, expand, runs-Tile}
use construction_harness.Documents.Segmenter.Absorb.{absorbed-Settles}
use construction_harness.Documents.Segmenter.Regions.{TilePages, segment_file-TilePages}

abbrev kinds : List String
kinds = "manual" ∷ "manual" ∷ "drawings" ∷ "manual" ∷ []

abbrev page : ℕ → String → PageProfile
page i size = record { file_id = "f"; page_index = i; size_class = size; anchor_hits = [] }

abbrev pages : List PageProfile
pages = page 0 "letter" ∷ page 1 "letter" ∷ page 2 "large" ∷ page 3 "letter" ∷ []

absorbed_test : absorbed 3 kinds ≡ some ("manual" ∷ "manual" ∷ "manual" ∷ "manual" ∷ [])
unfolding absorbed
absorbed_test = refl

segmented_test :
    segment_file pages 3
    ≡ some (
        record { kind = "manual"; file_id = "f"; page_start = 0; page_end = 3; confidence = (3, 4) }
        ∷ [])
unfolding segment_file
segmented_test = refl

runs-Tile_example : Tile 0 (runs kinds) (length kinds) × (expand (runs kinds) ≡ kinds)
runs-Tile_example = runs-Tile kinds

absorbed-Settles_example :
    (settled : List String) × (absorbed 3 kinds ≡ some settled)
    × (length settled ≡ length kinds)
    × (find_stray 3 (runs settled) ≡ none)
absorbed-Settles_example = absorbed-Settles 3 kinds

segment_file-TilePages_example :
    (regions : List Region) × (segment_file pages 3 ≡ some regions)
    × TilePages 0 regions (0 + length pages)
segment_file-TilePages_example = segment_file-TilePages 0 3 pages (omega arith)
