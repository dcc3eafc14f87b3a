-- ===== src/Shard/Extract.antt =====
-- The extractor's page loop (`extract_schedule_items` of src/takeoff/quantity_schedules.py), the
-- reduce over shard partials (service/takeoff/reduce.py), and the map step (`extract_shard` of
-- service/takeoff/pipeline_adapter.py). The items a page yields for a schema are a parameter.
pub mod Loop
pub mod Sharded
pub mod Equivalence
pub mod Samples
use construction_harness.Prelude.{
  ltb, leb, nat_beq, if◌then◌else◌, ltb→lt, leb→le, leb→lt, nat_beq_iff, Bool-cases, Option-cases,
  Result, ok, err, length, get_elem?, set, take, drop, keep, all, any, All, length-append,
  length-keep-le, length-drop, length-set, All-append, All-keep, take-append-drop, length-map,
  concat, join, decimal, nonempty, Eq, ◌==◌, contains, contains-append, nat_eq, string_eq, pair_eq,
  ℤ, pos, negsuc, is_neg, pos_part, min_ℤ, ℕ, zero, suc, ◌+◌, ◌-◌, ◌*◌, ◌/◌, ◌%◌, ◌^◌, ◌≤◌, ◌<◌,
  min, max, String, ◌≡◌, refl, sym, ap, ◌∙◌, ◌≡⟨◌⟩◌, ◌∎, ◌≢◌, ◌↔◌, ◌⊎◌, inl, inr, Bool, true, false,
  not, ◌&&◌, ◌||◌, Option, none, some, List, [], ◌∷◌, ◌++◌, map, append-nil, append_assoc,
  map-append, arith,
}
use construction_harness.Shard.Planner.{ShardWindow, sorted_set}

-- src/models/schedule.py. A quantity is a float, a type `F` of the caller's.
pub record ScheduleItem (F : Type 0) : Type 0 where
  pub schedule : String
  pub shape : String
  pub mark : String
  pub quantity : Option F
  pub unit : Option String
  pub quantity_basis : String
  pub description : String
  pub attributes : List (String × String)
  pub source : List (String × String)

-- The two variables of the loops, `seen` and `out` (`items` in the extractor).
pub record Merge (F : Type 0) : Type 0 where
  pub seen : List (String × String)
  pub out : List (ScheduleItem F)

module _ {F : Type 0} where
  -- key = (it.schedule, it.mark)
  abbrev pub item_key : ScheduleItem F → String × String
  item_key it = (it.schedule, it.mark)

  abbrev pub nothing_merged : Merge F
  nothing_merged = record { seen = []; out = [] }

  -- if not it.mark or key in seen: continue
  unfoldable pub skipped : List (String × String) → ScheduleItem F → Bool
  skipped seen it = not (nonempty it.mark) || contains seen (item_key it)

  -- The loops' common body.
  unfoldable pub merge_item : Merge F → ScheduleItem F → Merge F
  merge_item m it =
      if skipped m.seen it
      then m
      else record { seen = item_key it ∷ m.seen; out = m.out ++ it ∷ [] }

  unfoldable pub merge_items : Merge F → List (ScheduleItem F) → Merge F
  merge_items m [] = m
  merge_items m (it ∷ its) = merge_items (merge_item m it) its

  -- for part in partials: for it in part: ...
  unfoldable pub merge_parts : Merge F → List (List (ScheduleItem F)) → Merge F
  merge_parts m [] = m
  merge_parts m (part ∷ parts) = merge_parts (merge_items m part) parts

  unfoldable pub merge_partials : List (List (ScheduleItem F)) → List (ScheduleItem F)
  unfolding merge_parts merge_items merge_item skipped
  merge_partials partials = (merge_parts nothing_merged partials).out

-- range(start, start + n)
unfoldable pub range_from : ℕ → ℕ → List ℕ
range_from start zero = []
range_from start (suc n) = start ∷ range_from (suc start) n

-- range(start, end)
unfoldable pub range : ℕ → ℕ → List ℕ
unfolding range_from
range start end = range_from start (end - start)

-- candidates[i], for a page that is a key
unfoldable pub candidate_schemas {ℓ} : {S : Type ℓ} → List (ℕ × List S) → ℕ → List S
candidate_schemas [] i = []
candidate_schemas ((j, schemas) ∷ candidates) i =
    if j == i then schemas else candidate_schemas candidates i

-- if matched: candidates[i] = matched
unfoldable pub add_candidate {ℓ} : {S : Type ℓ} → ℕ → List S → List (ℕ × List S) → List (ℕ × List S)
add_candidate i [] candidates = candidates
add_candidate i (s ∷ ss) candidates = (i, s ∷ ss) ∷ candidates

-- The first pass: `candidates[i] = matched`, for the pages where some schema matches. Whether a
-- page's text carries a schema's title tokens (`_page_matches`) is a parameter.
module _ {Schema : Type 0} (page_matches : ℕ → Schema → Bool) where
  unfoldable pub find_candidates : List Schema → List ℕ → List (ℕ × List Schema)
  find_candidates schemas [] = []
  find_candidates schemas (i ∷ rng) =
      add_candidate i (keep (page_matches i) schemas) (find_candidates schemas rng)

-- The second pass. The items that `parse_page` makes of a page's tables for a schema are a
-- parameter.
module _ {F : Type 0} {Schema : Type 0} (parse_page : ℕ → Schema → List (ScheduleItem F)) where
  -- for schema in candidates[i]: for it in parse_page(...): ...
  unfoldable pub extract_page : Merge F → ℕ → List Schema → Merge F
  extract_page m i [] = m
  extract_page m i (schema ∷ schemas) = extract_page (merge_items m (parse_page i schema)) i schemas

  unfoldable pub extract_pages : Merge F → List (ℕ × List Schema) → List ℕ → Merge F
  extract_pages m candidates [] = m
  extract_pages m candidates (i ∷ pages) =
      extract_pages (extract_page m i (candidate_schemas candidates i)) candidates pages

module _ {F : Type 0} {Schema : Type 0} (page_matches : ℕ → Schema → Bool)
    (parse_page : ℕ → Schema → List (ScheduleItem F)) where
  unfoldable pub extract_schedule_items : List Schema → List ℕ → List (ScheduleItem F)
  unfolding find_candidates add_candidate extract_pages extract_page candidate_schemas sorted_set
      merge_items merge_item skipped
  extract_schedule_items schemas rng =
      let candidates = find_candidates page_matches schemas rng in
      (extract_pages parse_page nothing_merged candidates
        (sorted_set (map (λ c. c.0) candidates))).out

  -- The map step: one window's items.
  unfoldable pub extract_shard : List Schema → ShardWindow → List (ScheduleItem F)
  unfolding extract_schedule_items range
  extract_shard schemas w = extract_schedule_items schemas (range w.start w.end)
