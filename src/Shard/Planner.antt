-- ===== src/Shard/Planner.antt =====
-- service/takeoff/planner.py: splits the pages `[lo, hi)` into shard windows, with a cut after
-- every `max_candidates_per_shard`-th candidate page. Page indices come from `range(page_count)`,
-- so a candidate page is a natural number; the other arguments may be negative.
pub mod Pages
pub mod Tiling
pub mod Bounds
use construction_harness.Prelude.{
  ℕ, suc, ◌+◌, Bool, List, [], ◌∷◌, ◌++◌, Option, none, some, ℤ, pos, is_neg, pos_part, min_ℤ, ltb,
  leb, nat_beq, ◌&&◌, if◌then◌else◌, length, keep, Result, ok, err,
}

pub record ShardWindow : Type 0 where
  pub index : ℕ
  pub start : ℕ
  pub end : ℕ
  pub candidate_count : ℕ

-- The two `ValueError`s, with the value that each reports.
pub data ValueError : Type 0 where
  negative_total_pages : ℤ → ValueError
  cap_below_one : ℤ → ValueError

-- start <= p < end
abbrev pub in_window : ℕ → ℕ → ℕ → Bool
in_window start end p = leb start p && ltb p end

-- sorted(set(pages))
pub insert_page : ℕ → List ℕ → List ℕ
insert_page p [] = p ∷ []
insert_page p (q ∷ qs) =
    if ltb p q then p ∷ q ∷ qs else if nat_beq p q then q ∷ qs else q ∷ insert_page p qs

unfoldable pub sorted_set : List ℕ → List ℕ
unfolding insert_page
sorted_set [] = []
sorted_set (p ∷ pages) = insert_page p (sorted_set pages)

-- The loop that cuts a boundary right after every `cap`-th candidate.
unfoldable pub boundaries : ℕ → ℕ → List ℕ → List ℕ
boundaries cap count [] = []
boundaries cap count (page ∷ pages) =
    let full = nat_beq (suc count) cap in
    let rest = boundaries cap (if full then 0 else suc count) pages in
    if full then suc page ∷ rest else rest

-- sum(1 for p in cands if start <= p < end)
abbrev pub count_in : ℕ → ℕ → List ℕ → ℕ
count_in start end cands = length (keep (in_window start end) cands)

-- The loop over `zip(edges, edges[1:])`, from the edge `start` and with `index` windows so far.
unfoldable pub windows_from : List ℕ → ℕ → ℕ → List ℕ → List ShardWindow
windows_from cands index start [] = []
windows_from cands index start (end ∷ edges) =
    let empty = leb end start in
    let rest = windows_from cands (if empty then index else suc index) end edges in
    if empty
    then rest
    else record {
      index = index;
      start = start;
      end = end;
      candidate_count = count_in start end cands;
    }
      ∷ rest

-- cands = sorted(set(p for p in candidate_pages if lo <= p < hi))
abbrev pub candidates_in : List ℕ → ℕ → ℕ → List ℕ
candidates_in candidate_pages lo hi = sorted_set (keep (in_window lo hi) candidate_pages)

-- The windows over `[lo, hi)` once the arguments have been checked.
unfoldable pub windows_between : List ℕ → ℕ → ℕ → ℕ → List ShardWindow
unfolding boundaries windows_from sorted_set
windows_between candidate_pages cap lo hi =
    let cands = candidates_in candidate_pages lo hi in
    if leb hi lo
    then []
    else if leb (length cands) cap
    then record { index = 0; start = lo; end = hi; candidate_count = length cands } ∷ []
    else windows_from cands 0 lo (boundaries cap 0 cands ++ hi ∷ [])

-- lo = max(page_start, 0)
abbrev pub window_lo : ℤ → ℕ
window_lo page_start = pos_part page_start

-- hi = min(total_pages if page_end is None else page_end, total_pages). A negative `hi` is below
-- every `lo`, as 0 is at or below it: both give no window.
abbrev pub window_hi : ℤ → Option ℤ → ℕ
window_hi total_pages none = pos_part (min_ℤ total_pages total_pages)
window_hi total_pages (some page_end) = pos_part (min_ℤ page_end total_pages)

unfoldable pub plan_shard_windows :
    List ℕ → ℤ → ℤ → ℤ → Option ℤ → Result ValueError (List ShardWindow)
unfolding windows_between
plan_shard_windows candidate_pages total_pages cap page_start page_end =
    if is_neg total_pages
    then err (negative_total_pages total_pages)
    else if leb (pos_part cap) 0
    then err (cap_below_one cap)
    else ok (
        windows_between candidate_pages (pos_part cap) (window_lo page_start)
          (window_hi total_pages page_end))
