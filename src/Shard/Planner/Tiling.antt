-- ===== src/Shard/Planner/Tiling.antt =====
-- The windows are numbered from 0, adjoin each other, are not empty, and cover `[lo, hi)`.
use construction_harness.Prelude.{
  leb, leb→le, leb→lt, Bool-cases, ok, nat_eq, string_eq, pair_eq, ℤ, pos_part, ℕ, suc, ◌≤◌, ◌<◌,
  ◌≡◌, refl, ◌∙◌, ◌⊎◌, inl, inr, Option, List, [], ◌∷◌, ◌++◌, arith,
}
use construction_harness.Shard.Planner.{
  ShardWindow, boundaries, windows_from, windows_between, candidates_in, plan_shard_windows,
  window_lo, window_hi,
}
use construction_harness.Shard.Planner.Pages.{Ascends, Ascends-weaken, candidates_in-Ascends}

-- `windows`, numbered from `index`, cover `[lo, hi)` in order with no gap and no overlap.
abbrev pub Tiles : ℕ → ℕ → ℕ → List ShardWindow → Type 0
Tiles index lo hi [] = lo ≡ hi
Tiles index lo hi (w ∷ ws) =
    (w.index ≡ index) × (w.start ≡ lo) × (lo < w.end) × Tiles (suc index) w.end hi ws

-- Edges that never fall, the last of which is `hi`.
abbrev pub Edges : ℕ → ℕ → List ℕ → Type 0
Edges lo hi [] = lo ≡ hi
Edges lo hi (e ∷ es) = (lo ≤ e) × Edges e hi es

boundaries-Edges :
    (cap' count lo hi : ℕ) (ps : List ℕ)
    → Ascends lo hi ps
    → Edges lo hi (boundaries cap' count ps ++ hi ∷ [])
unfolding boundaries
boundaries-Edges cap' count lo hi [] h = (h, refl)
boundaries-Edges cap' count lo hi (p ∷ ps) h = ground (
  arith,
  boundaries-Edges cap' 0 (suc p) hi ps h.1,
  boundaries-Edges cap' (suc count) lo hi ps (Ascends-weaken lo (suc p) hi ps (omega arith) h.1),
)

windows_from-Tiles :
    (cands : List ℕ) (index lo hi : ℕ) (es : List ℕ)
    → Edges lo hi es
    → Tiles index lo hi (windows_from cands index lo es)
unfolding windows_from
windows_from-Tiles cands index lo hi [] h = h
windows_from-Tiles cands index lo hi (e ∷ es) h = ground (
  arith,
  windows_from-Tiles cands index e hi es h.1,
  windows_from-Tiles cands (suc index) e hi es h.1,
)

windows_between-Tiles :
    (candidate_pages : List ℕ) (cap' lo hi : ℕ)
    → lo < hi
    → Tiles 0 lo hi (windows_between candidate_pages cap' lo hi)
unfolding windows_between
windows_between-Tiles pages cap' lo hi h =
    let cands = candidates_in pages lo hi in
    let sorted = candidates_in-Ascends pages lo hi (omega arith) in
    ground (
      arith,
      windows_from-Tiles cands 0 lo hi (boundaries cap' 0 cands ++ hi ∷ [])
          (boundaries-Edges cap' 0 lo hi cands sorted),
    )

windows_between-nil :
    (candidate_pages : List ℕ) (cap' lo hi : ℕ)
    → hi ≤ lo
    → windows_between candidate_pages cap' lo hi ≡ []
unfolding windows_between
windows_between-nil pages cap' lo hi h = ground arith

pub plan_windows :
    (candidate_pages : List ℕ) (total_pages cap' page_start : ℤ) (page_end : Option ℤ)
    (windows : List ShardWindow)
    → plan_shard_windows candidate_pages total_pages cap' page_start page_end ≡ ok windows
    → windows
      ≡ windows_between candidate_pages
          (pos_part cap')
          (window_lo page_start)
          (window_hi total_pages page_end)
unfolding plan_shard_windows
plan_windows pages total cap' page_start page_end ws h = ground arith

-- Whenever planning does not raise, either the job's page range is empty and there is no window, or
-- the windows are numbered 0, 1, 2, ..., start at `max(page_start, 0)`, end at
-- `min(page_end or total_pages, total_pages)`, are not empty, and each begins where the one before
-- it ends.
pub plan_shard_windows_cover :
    (candidate_pages : List ℕ) (total_pages cap' page_start : ℤ) (page_end : Option ℤ)
    (windows : List ShardWindow)
    → plan_shard_windows candidate_pages total_pages cap' page_start page_end ≡ ok windows
    → ((window_hi total_pages page_end ≤ window_lo page_start) × (windows ≡ []))
      ⊎ ((window_lo page_start < window_hi total_pages page_end)
          × Tiles 0 (window_lo page_start) (window_hi total_pages page_end) windows)
plan_shard_windows_cover pages total cap' page_start page_end ws h =
    let lo = window_lo page_start in
    let hi = window_hi total page_end in
    let planned = plan_windows pages total cap' page_start page_end ws h in
    elim (Bool-cases (leb hi lo)) [
      | inl empty ↦ inl (
        leb→le hi lo empty,
        planned ∙ windows_between-nil pages (pos_part cap') lo hi (leb→le hi lo empty),
      )
      | inr some_page ↦ inr (
        leb→lt hi lo some_page,
        rw planned (windows_between-Tiles pages (pos_part cap') lo hi (leb→lt hi lo some_page)),
      )
    ]
