-- ===== src/Shard/Planner/Bounds.antt =====
-- The memory bound: how many candidate pages a window holds.
use construction_harness.Prelude.{
  ltb, if◌then◌else◌, ok, length, keep, All, nat_eq, string_eq, pair_eq, ℤ, pos_part, ℕ, suc, ◌+◌,
  ◌≤◌, ◌<◌, ◌≡◌, refl, sym, inl, inr, Option, List, [], ◌∷◌, ◌++◌, arith,
}
use construction_harness.Shard.Planner.{
  ShardWindow, boundaries, windows_from, windows_between, candidates_in, count_in,
  plan_shard_windows, window_lo, window_hi, in_window, sorted_set,
}
use construction_harness.Shard.Planner.Pages.{Ascends, Ascends-le, candidates_in-Ascends}
use construction_harness.Shard.Planner.Tiling.{Tiles, plan_windows, plan_shard_windows_cover}

-- How many of `ps` lie below `e`.
below : ℕ → List ℕ → ℕ
below e [] = 0
below e (p ∷ ps) = if ltb p e then suc (below e ps) else below e ps

count_in-add-below :
    (start end : ℕ) (ps : List ℕ)
    → start ≤ end
    → count_in start end ps + below start ps ≡ below end ps
unfolding below
count_in-add-below start end [] h = omega arith
count_in-add-below start end (p ∷ ps) h = ground (arith, count_in-add-below start end ps)

below-Ascends : (e lo hi : ℕ) (ps : List ℕ) → e ≤ lo → Ascends lo hi ps → below e ps ≡ 0
unfolding below
below-Ascends e lo hi [] l h = refl
below-Ascends e lo hi (p ∷ ps) l h = ground (arith, below-Ascends e (suc p) hi ps)

below_all : (lo hi : ℕ) (ps : List ℕ) → Ascends lo hi ps → below hi ps ≡ length ps
unfolding below
below_all lo hi [] h = refl
below_all lo hi (p ∷ ps) h =
    ground (arith, below_all (suc p) hi ps h.1, Ascends-le (suc p) hi ps h.1)

-- `ps` are the pages of `cands` from the `k`-th on.
Ranked : List ℕ → ℕ → List ℕ → Type 0
Ranked cands k [] = Unit
Ranked cands k (p ∷ ps) = (below (suc p) cands ≡ suc k) × Ranked cands (suc k) ps

Ranked-of_below :
    (cands : List ℕ) (k lo hi : ℕ) (ps : List ℕ)
    → ((e : ℕ) → lo ≤ e → below e cands ≡ k + below e ps)
    → Ascends lo hi ps
    → Ranked cands k ps
unfolding Ranked below
Ranked-of_below cands k lo hi [] g h = tt
Ranked-of_below cands k lo hi (p ∷ ps) g h = (
  ground (arith, g (suc p), below-Ascends (suc p) (suc p) hi ps (omega arith) h.1),
  Ranked-of_below cands (suc k) (suc p) hi ps (λ e l. ground (arith, g e)) h.1,
)

abbrev pub Within : ℕ → List ℕ → ShardWindow → Type 0
Within cap' cands w =
    (w.candidate_count ≤ cap') × (w.candidate_count ≡ count_in w.start w.end cands)

module _ (cands : List ℕ) (cap' hi : ℕ) where
  windows_from-Within :
      (k index count lo start : ℕ) (ps : List ℕ)
      → count < cap'
      → start ≤ lo
      → below start cands + count ≡ k
      → k + length ps ≡ length cands
      → below hi cands ≡ length cands
      → Ranked cands k ps
      → Ascends lo hi ps
      → All
          (Within cap' cands)
          (windows_from cands index start (boundaries cap' count ps ++ hi ∷ []))
  unfolding windows_from boundaries Ranked
  windows_from-Within k index count lo start [] small l e n top r h =
      ground (arith, count_in-add-below start hi cands)
  windows_from-Within k index count lo start (p ∷ ps) small l e n top r h = ground (
    arith,
    count_in-add-below start (suc p) cands,
    windows_from-Within (suc k) index (suc count) (suc p) start ps,
    windows_from-Within (suc k) (suc index) 0 (suc p) (suc p) ps,
  )

count_in_all : (lo hi : ℕ) (ps : List ℕ) → Ascends lo hi ps → count_in lo hi ps ≡ length ps
count_in_all lo hi ps h = omega (
  arith,
  count_in-add-below lo hi ps (Ascends-le lo hi ps h),
  below-Ascends lo lo hi ps (omega arith) h,
  below_all lo hi ps h,
)

windows_between-Within :
    (candidate_pages : List ℕ) (cap' lo hi : ℕ)
    → 0 < cap'
    → lo < hi
    → All
        (Within cap' (candidates_in candidate_pages lo hi))
        (windows_between candidate_pages cap' lo hi)
unfolding windows_between
windows_between-Within pages cap' lo hi small h =
    let cands = candidates_in pages lo hi in
    let sorted = candidates_in-Ascends pages lo hi (omega arith) in
    ground (
      arith,
      count_in_all lo hi cands sorted,
      windows_from-Within cands cap' hi 0 0 0 lo lo cands small (omega arith)
          (omega (arith, below-Ascends lo lo hi cands (omega arith) sorted)) (omega arith)
          (below_all lo hi cands sorted)
          (Ranked-of_below cands 0 lo hi cands (λ e l. omega arith) sorted) sorted,
    )

plan_cap_positive :
    (candidate_pages : List ℕ) (total_pages cap' page_start : ℤ) (page_end : Option ℤ)
    (windows : List ShardWindow)
    → plan_shard_windows candidate_pages total_pages cap' page_start page_end ≡ ok windows
    → 0 < pos_part cap'
unfolding plan_shard_windows
plan_cap_positive pages total cap' page_start page_end ws h = ground arith

keep_empty_window : (lo hi : ℕ) (ps : List ℕ) → hi ≤ lo → keep (in_window lo hi) ps ≡ []
keep_empty_window lo hi [] h = refl
keep_empty_window lo hi (p ∷ ps) h = ground (arith, keep_empty_window lo hi ps)

no_candidates : (ps : List ℕ) (lo hi : ℕ) → hi ≤ lo → length (candidates_in ps lo hi) ≡ 0
unfolding sorted_set
no_candidates ps lo hi h = rw (keep_empty_window lo hi ps h)

abbrev pub total_count : List ShardWindow → ℕ
total_count [] = 0
total_count (w ∷ ws) = w.candidate_count + total_count ws

total_count-Tiles :
    (cands : List ℕ) (cap' index lo hi : ℕ) (ws : List ShardWindow)
    → Tiles index lo hi ws
    → All (Within cap' cands) ws
    → (lo ≤ hi) × (total_count ws + below lo cands ≡ below hi cands)
total_count-Tiles cands cap' index lo hi [] t b = ground arith
total_count-Tiles cands cap' index lo hi (w ∷ ws) t b = ground (
  arith,
  total_count-Tiles cands cap' (suc index) w.end hi ws t.3 b.1,
  count_in-add-below w.start w.end cands,
)

-- Whenever planning does not raise, every window holds at most `max_candidates_per_shard` candidate
-- pages, its `candidate_count` is the number of distinct candidates of the job's page range that
-- lie in it, and the counts add up to the number of those candidates.
pub plan_shard_windows-le_cap :
    (candidate_pages : List ℕ) (total_pages cap' page_start : ℤ) (page_end : Option ℤ)
    (windows : List ShardWindow)
    → plan_shard_windows candidate_pages total_pages cap' page_start page_end ≡ ok windows
    → All
        (Within
          (pos_part cap')
          (candidates_in candidate_pages (window_lo page_start) (window_hi total_pages page_end)))
        windows
      × (total_count windows
          ≡ length (
              candidates_in candidate_pages
                (window_lo page_start)
                (window_hi total_pages page_end)))
plan_shard_windows-le_cap pages total cap' page_start page_end ws h =
    let lo = window_lo page_start in
    let hi = window_hi total page_end in
    let cands = candidates_in pages lo hi in
    let planned = plan_windows pages total cap' page_start page_end ws h in
    elim (plan_shard_windows_cover pages total cap' page_start page_end ws h) [
      | inl e ↦ rw e.1 (tt, sym (no_candidates pages lo hi e.0))
      | inr t ↦
          let sorted = candidates_in-Ascends pages lo hi (omega arith) in
          let bounded : All (Within (pos_part cap') cands) ws = rw planned (
            windows_between-Within pages (pos_part cap') lo hi
              (plan_cap_positive pages total cap' page_start page_end ws h) t.0) in
          (
            bounded,
            omega (
              arith,
              total_count-Tiles cands (pos_part cap') 0 lo hi ws t.1 bounded,
              below-Ascends lo lo hi cands (omega arith) sorted,
              below_all lo hi cands sorted,
            ),
          )
    ]
