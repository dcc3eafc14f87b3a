-- ===== src/Shard/Extract/Equivalence.antt =====
-- The sharded run against the serial run: plan, extract every window, merge in window order.
use construction_harness.Prelude.{
  ok, nat_eq, string_eq, pair_eq, ℤ, ℕ, zero, suc, ◌+◌, ◌-◌, ◌≤◌, ◌≡◌, sym, ap, ◌∙◌, inl, inr, Bool,
  Option, List, [], ◌∷◌, ◌++◌, map, arith,
}
use construction_harness.Shard.Planner.{ShardWindow, plan_shard_windows, window_lo, window_hi}
use construction_harness.Shard.Planner.Pages.{Ascends}
use construction_harness.Shard.Planner.Tiling.{Tiles, plan_shard_windows_cover}
use construction_harness.Shard.Extract.{
  ScheduleItem, Merge, nothing_merged, merge_items, merge_parts, merge_partials, range_from, range,
  extract_schedule_items, extract_shard,
}
use construction_harness.Shard.Extract.Loop.{
  first_wins, out-merge_items, merge_items-append, merge_items-first_wins,
}
use construction_harness.Shard.Extract.Sharded.{
  raw_items, raw_items-append, extract_schedule_items_lem,
}

range_from-Ascends : (n start : ℕ) → Ascends start (start + n) (range_from start n)
unfolding range_from
range_from-Ascends zero start = omega arith
range_from-Ascends (suc n) start =
    let e : suc start + n ≡ start + suc n = omega arith in
    (omega arith, rw (← e) (range_from-Ascends n (suc start)))

range-Ascends : (lo hi : ℕ) → lo ≤ hi → Ascends lo hi (range lo hi)
unfolding range
range-Ascends lo hi h =
    let e : lo + (hi - lo) ≡ hi = omega arith in rw e at (range_from-Ascends (hi - lo) lo)

range_from-append :
    (n k start : ℕ) → range_from start n ++ range_from (start + n) k ≡ range_from start (n + k)
unfolding range_from
range_from-append zero k start =
    let here : start + 0 ≡ start = omega arith in
    let all_of_them : 0 + k ≡ k = omega arith in rw (here, all_of_them)
range_from-append (suc n) k start =
    let next : start + suc n ≡ suc start + n = omega arith in
    let more : suc n + k ≡ suc (n + k) = omega arith in
    rw (next, more) (ap (◌∷◌ start) (range_from-append n k (suc start)))

range-append : (lo mid hi : ℕ) → lo ≤ mid → mid ≤ hi → range lo mid ++ range mid hi ≡ range lo hi
unfolding range
range-append lo mid hi a b =
    let there : lo + (mid - lo) ≡ mid = omega arith in
    let both : (mid - lo) + (hi - mid) ≡ hi - lo = omega arith in
    ap (λ i. range_from lo (mid - lo) ++ range_from i (hi - mid)) (sym there)
    ∙ range_from-append (mid - lo) (hi - mid) lo
    ∙ ap (range_from lo) both

Tiles-le : (index lo hi : ℕ) (ws : List ShardWindow) → Tiles index lo hi ws → lo ≤ hi
Tiles-le index lo hi [] t = omega arith
Tiles-le index lo hi (w ∷ ws) t = omega (arith, Tiles-le (suc index) w.end hi ws t.3)

module _ {F : Type 0} {Schema : Type 0} (page_matches : ℕ → Schema → Bool)
    (parse_page : ℕ → Schema → List (ScheduleItem F)) (schemas : List Schema) where
  abbrev raw : List ℕ → List (ScheduleItem F)
  raw = raw_items page_matches parse_page schemas

  abbrev shard : ShardWindow → List (ScheduleItem F)
  shard = extract_shard page_matches parse_page schemas

  shard_lem :
      (w : ShardWindow) → w.start ≤ w.end → shard w ≡ first_wins [] (raw (range w.start w.end))
  unfolding extract_shard
  shard_lem w h =
      extract_schedule_items_lem page_matches parse_page schemas w.start w.end (range w.start w.end)
        (range-Ascends w.start w.end h)

  raw_empty : (lo hi : ℕ) → hi ≤ lo → raw (range lo hi) ≡ []
  unfolding raw_items range range_from
  raw_empty lo hi h = let none_left : hi - lo ≡ 0 = omega arith in rw none_left

  merge_parts_lem :
      (m : Merge F) (index lo hi : ℕ) (ws : List ShardWindow)
      → Tiles index lo hi ws
      → merge_parts m (map shard ws) ≡ merge_items m (raw (range lo hi))
  unfolding merge_parts
  merge_parts_lem m index lo hi [] t =
      unfold merge_items in sym (ap (merge_items m) (raw_empty lo hi (omega arith)))
  merge_parts_lem m index lo hi (w ∷ ws) t =
      let first = shard_lem w (omega arith) ∙ ap (λ s. first_wins [] (raw (range s w.end))) t.1 in
      let after = merge_items m (raw (range lo w.end)) in
      ap (λ part. merge_parts (merge_items m part) (map shard ws)) first
      ∙ ap (λ n. merge_parts n (map shard ws))
          (merge_items-first_wins m [] (raw (range lo w.end)) (λ k e. cc))
      ∙ merge_parts_lem after (suc index) w.end hi ws t.3
      ∙ sym (merge_items-append m (raw (range lo w.end)) (raw (range w.end hi)))
      ∙ ap (merge_items m)
          (sym (raw_items-append page_matches parse_page schemas (range lo w.end) (range w.end hi)))
      ∙ ap (λ pages. merge_items m (raw pages))
          (range-append lo w.end hi (omega arith) (Tiles-le (suc index) w.end hi ws t.3))

  merge_partials_empty_range :
      (lo hi : ℕ)
      → hi ≤ lo
      → merge_partials {F = F} []
        ≡ extract_schedule_items page_matches parse_page schemas (range lo hi)
  unfolding merge_partials extract_schedule_items range
  merge_partials_empty_range lo hi h = let none_left : hi - lo ≡ 0 = omega arith in rw none_left

  merge_partials_lem :
      (index lo hi : ℕ) (ws : List ShardWindow)
      → Tiles index lo hi ws
      → merge_partials (map shard ws)
        ≡ extract_schedule_items page_matches parse_page schemas (range lo hi)
  unfolding merge_partials
  merge_partials_lem index lo hi ws t =
      ap (λ (m : Merge F). m.out) (merge_parts_lem nothing_merged index lo hi ws t)
      ∙ out-merge_items nothing_merged (raw (range lo hi))
      ∙ sym (
          extract_schedule_items_lem page_matches parse_page schemas lo hi (range lo hi)
            (range-Ascends lo hi (Tiles-le index lo hi ws t)))

  -- Sharding does not change the artifact: for the windows of any plan, extracting each window on
  -- its own and merging the partials in window order gives exactly the items, in the same order,
  -- that one serial pass over the job's pages gives, whatever the page texts and tables hold.
  pub sharded-eq-serial :
      (candidate_pages : List ℕ) (total_pages cap' page_start : ℤ) (page_end : Option ℤ)
      (windows : List ShardWindow)
      → plan_shard_windows candidate_pages total_pages cap' page_start page_end ≡ ok windows
      → merge_partials (map (extract_shard page_matches parse_page schemas) windows)
        ≡ extract_schedule_items page_matches parse_page schemas
            (range (window_lo page_start) (window_hi total_pages page_end))
  sharded-eq-serial pages total cap' page_start page_end ws h =
      let lo = window_lo page_start in
      let hi = window_hi total page_end in
      elim (plan_shard_windows_cover pages total cap' page_start page_end ws h) [
        | inl e ↦ rw e.1 (merge_partials_empty_range lo hi e.0)
        | inr t ↦ merge_partials_lem 0 lo hi ws t.1
      ]
