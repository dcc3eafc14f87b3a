-- ===== src/Shard/Extract/Sharded.antt =====
-- Extracting every window on its own and merging the partials gives what one pass gives.
use construction_harness.Prelude.{
  keep, nat_eq, string_eq, pair_eq, ℕ, suc, ◌≤◌, ◌≡◌, refl, sym, ap, ◌∙◌, Bool, List, [], ◌∷◌, ◌++◌,
  map, append_assoc, arith,
}
use construction_harness.Shard.Planner.Pages.{Ascends, Ascends-weaken, sorted_set_of_Ascends}
use construction_harness.Shard.Extract.{
  ScheduleItem, Merge, nothing_merged, merge_items, find_candidates, candidate_schemas,
  add_candidate, extract_page, extract_pages, extract_schedule_items,
}
use construction_harness.Shard.Extract.Loop.{first_wins, out-merge_items, merge_items-append}

module _ {F : Type 0} {Schema : Type 0} (page_matches : ℕ → Schema → Bool)
    (parse_page : ℕ → Schema → List (ScheduleItem F)) where
  -- The items of one page, before duplicates are dropped.
  unfoldable pub items_for : ℕ → List Schema → List (ScheduleItem F)
  items_for i [] = []
  items_for i (s ∷ ss) = parse_page i s ++ items_for i ss

  -- The items of all pages of a range, before duplicates are dropped.
  unfoldable pub raw_items : List Schema → List ℕ → List (ScheduleItem F)
  raw_items schemas [] = []
  raw_items schemas (i ∷ rng) = items_for i (keep (page_matches i) schemas) ++ raw_items schemas rng

  pub raw_items-append :
      (schemas : List Schema) (xs ys : List ℕ)
      → raw_items schemas (xs ++ ys) ≡ raw_items schemas xs ++ raw_items schemas ys
  unfolding raw_items
  raw_items-append schemas [] ys = refl
  raw_items-append schemas (i ∷ xs) ys =
      let here = items_for i (keep (page_matches i) schemas) in
      ap (◌++◌ here) (raw_items-append schemas xs ys)
      ∙ sym (append_assoc here (raw_items schemas xs) (raw_items schemas ys))

  extract_page_lem :
      (m : Merge F) (i : ℕ) (ss : List Schema)
      → extract_page parse_page m i ss ≡ merge_items m (items_for i ss)
  unfolding extract_page items_for merge_items
  extract_page_lem m i [] = refl
  extract_page_lem m i (s ∷ ss) =
      extract_page_lem (merge_items m (parse_page i s)) i ss
      ∙ sym (merge_items-append m (parse_page i s) (items_for i ss))

  found_items : List (ℕ × List Schema) → List (ScheduleItem F)
  found_items [] = []
  found_items ((i, ss) ∷ cs) = items_for i ss ++ found_items cs

  found_items-add_candidate :
      (i : ℕ) (ss : List Schema) (cs : List (ℕ × List Schema))
      → found_items (add_candidate i ss cs) ≡ items_for i ss ++ found_items cs
  unfolding found_items items_for add_candidate
  found_items-add_candidate i [] cs = refl
  found_items-add_candidate i (s ∷ ss) cs = refl

  found_items-find_candidates :
      (schemas : List Schema) (rng : List ℕ)
      → found_items (find_candidates page_matches schemas rng) ≡ raw_items schemas rng
  unfolding find_candidates raw_items
  found_items-find_candidates schemas [] = unfold found_items in refl
  found_items-find_candidates schemas (i ∷ rng) =
      found_items-add_candidate i (keep (page_matches i) schemas)
        (find_candidates page_matches schemas rng)
      ∙ ap (◌++◌ (items_for i (keep (page_matches i) schemas)))
          (found_items-find_candidates schemas rng)

  abbrev keys : List (ℕ × List Schema) → List ℕ
  keys cs = map (λ c. c.0) cs

  keys-add_candidate :
      (lo hi i : ℕ) (ss : List Schema) (cs : List (ℕ × List Schema))
      → lo ≤ i
      → Ascends (suc i) hi (keys cs)
      → Ascends lo hi (keys (add_candidate i ss cs))
  unfolding add_candidate
  keys-add_candidate lo hi i [] cs l h = Ascends-weaken lo (suc i) hi (keys cs) (omega arith) h
  keys-add_candidate lo hi i (s ∷ ss) cs l h = (l, h)

  keys-find_candidates :
      (schemas : List Schema) (lo hi : ℕ) (rng : List ℕ)
      → Ascends lo hi rng
      → Ascends lo hi (keys (find_candidates page_matches schemas rng))
  unfolding find_candidates
  keys-find_candidates schemas lo hi [] h = h
  keys-find_candidates schemas lo hi (i ∷ rng) h =
      keys-add_candidate lo hi i (keep (page_matches i) schemas)
        (find_candidates page_matches schemas rng) h.0
        (keys-find_candidates schemas (suc i) hi rng h.1)

  extract_pages_lem :
      (m : Merge F) (full cs : List (ℕ × List Schema)) (lo hi : ℕ)
      → ((j : ℕ) → lo ≤ j → candidate_schemas full j ≡ candidate_schemas cs j)
      → Ascends lo hi (keys cs)
      → extract_pages parse_page m full (keys cs) ≡ merge_items m (found_items cs)
  unfolding extract_pages candidate_schemas found_items
  extract_pages_lem m full [] lo hi same h = unfold merge_items in refl
  extract_pages_lem m full ((i, ss) ∷ cs) lo hi same h =
      let found : candidate_schemas full i ≡ ss = ground (arith, same i) in
      let after : Merge F = merge_items m (items_for i ss) in
      ap
        (λ found_schemas.
          extract_pages parse_page (extract_page parse_page m i found_schemas) full (keys cs))
        found
      ∙ ap (λ n. extract_pages parse_page n full (keys cs)) (extract_page_lem m i ss)
      ∙ extract_pages_lem after full cs (suc i) hi (λ j l. ground (arith, same j)) h.1
      ∙ sym (merge_items-append m (items_for i ss) (found_items cs))

  -- One pass over an ascending page range keeps the first item of each key.
  pub extract_schedule_items_lem :
      (schemas : List Schema) (lo hi : ℕ) (rng : List ℕ)
      → Ascends lo hi rng
      → extract_schedule_items page_matches parse_page schemas rng
        ≡ first_wins [] (raw_items schemas rng)
  unfolding extract_schedule_items
  extract_schedule_items_lem schemas lo hi rng h =
      let cs = find_candidates page_matches schemas rng in
      let sorted = keys-find_candidates schemas lo hi rng h in
      ap (λ pages. (extract_pages parse_page nothing_merged cs pages).out)
        (sorted_set_of_Ascends lo hi (keys cs) sorted)
      ∙ ap (λ (n : Merge F). n.out)
          (extract_pages_lem nothing_merged cs cs lo hi (λ j l. refl) sorted)
      ∙ ap (λ its. (merge_items nothing_merged its).out) (found_items-find_candidates schemas rng)
      ∙ out-merge_items nothing_merged (raw_items schemas rng)
