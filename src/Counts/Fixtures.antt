-- ===== src/Counts/Fixtures.antt =====
-- The counting of fixture tags on plan sheets (src/takeoff/fixture_counts.py). The words of a page
-- are the PDF library's, and the coordinates are floats, with the operations that the code uses.
use construction_harness.Prelude.{
  ltb, leb, nat_beq, if◌then◌else◌, ltb→lt, leb→le, leb→lt, nat_beq_iff, Bool-cases, Option-cases,
  List-cases, Result, ok, err, length, get_elem?, set, take, drop, keep, all, any, All,
  length-append, length-keep-le, length-drop, length-set, All-append, All-keep, take-append-drop,
  length-map, concat, join, decimal, nonempty, Eq, ◌==◌, contains, contains-append, nat_eq,
  string_eq, pair_eq, ℤ, pos, negsuc, is_neg, pos_part, min_ℤ, ℕ, zero, suc, ◌+◌, ◌-◌, ◌*◌, ◌/◌,
  ◌%◌, ◌^◌, ◌≤◌, ◌<◌, min, max, String, ◌≡◌, refl, sym, ap, ◌∙◌, ◌≡⟨◌⟩◌, ◌∎, ◌≢◌, ◌↔◌, ◌⊎◌, inl,
  inr, Bool, true, false, not, ◌&&◌, ◌||◌, Option, none, some, List, [], ◌∷◌, ◌++◌, map, append-nil,
  append_assoc, map-append, arith, first_chars, char_count, starts_with, difference,
  starts_with-append, length-take, subst, Distinct, Distinct-append_one, contains_self,
  All-contains,
}
use construction_harness.Harness.Messages.{lookup, put}
use construction_harness.Results.Projection.{CountResult}
use construction_harness.Schedules.Cells.{strip}
use construction_harness.Counts.{append_to}
pub mod Words

pub record Coordinates (F : Type 0) : Type 0 where
  pub mid : F → F → F
  pub minus : F → F → F
  pub over : F → F → F
  pub larger : F → F → F
  pub smaller : F → F → F
  pub at_least : F → F → Bool
  pub spread_threshold : F
  pub default_confidence : F
  pub round_1 : F → F

pub record Word (F : Type 0) : Type 0 where
  pub x0 : F
  pub y0 : F
  pub x1 : F
  pub y1 : F
  pub word : String

-- A page with its 1-based number.
pub record Sheet (F : Type 0) : Type 0 where
  pub number : ℕ
  pub width : F
  pub height : F
  pub words : List (Word F)

pub data PageKind : Type 0 where
  sparse instance_plan legend_block : PageKind

pub record SymbolCounts : Type 0 where
  pub candidate_total : ℕ
  pub sheets : List (ℕ × ℕ)

abbrev pub min_tags : ℕ
min_tags = 3

abbrev pub is_plan : PageKind → Bool
is_plan sparse = false
is_plan instance_plan = true
is_plan legend_block = false

module _ {F : Type 0} (o : Coordinates F) where
  -- max(xs) - min(xs), over the extent; no points do not occur
  abbrev extremes : (F → F → F) → F → List F → F
  extremes choose x [] = x
  extremes choose x (y ∷ ys) = extremes choose (choose x y) ys

  abbrev extent : F → List F → F → F
  extent x xs size = o.over (o.minus (extremes o.larger x xs) (extremes o.smaller x xs)) size

  unfoldable pub spread_fraction : F × F → List (F × F) → F → F → F
  spread_fraction point points width height =
      o.larger (extent point.0 (map (λ (p : F × F). p.0) points) width)
        (extent point.1 (map (λ (p : F × F). p.1) points) height)

  unfoldable pub classify_page : List (F × F) → F → F → PageKind
  unfolding spread_fraction
  classify_page [] width height = sparse
  classify_page (p ∷ points) width height =
      if ltb (length (p ∷ points)) min_tags
      then sparse
      else if o.at_least (spread_fraction p points width height) o.spread_threshold
      then instance_plan
      else legend_block

  module _ (tags : List String) where
    abbrev add_word : Word F → List (String × List (F × F)) → List (String × List (F × F))
    unfolding append_to
    add_word w out =
        if contains tags (strip w.word)
        then append_to (strip w.word) (o.mid w.x0 w.x1, o.mid w.y0 w.y1) out
        else out

    -- The loop of tag_spans, from what it has so far.
    unfoldable pub spans_with :
        List (Word F) → List (String × List (F × F)) → List (String × List (F × F))
    unfolding add_word
    spans_with [] out = out
    spans_with (w ∷ words) out = spans_with words (add_word w out)

    unfoldable pub tag_spans : Sheet F → List (String × List (F × F))
    unfolding spans_with
    tag_spans page = spans_with page.words []

    abbrev pub all_points : List (String × List (F × F)) → List (F × F)
    all_points [] = []
    all_points ((tag, points) ∷ spans) = points ++ all_points spans

    unfoldable pub kind_of : Sheet F → PageKind
    unfolding classify_page tag_spans
    kind_of page = classify_page (all_points (tag_spans page)) page.width page.height

    abbrev pub count_on : Sheet F → String × List (F × F) → CountResult F
    count_on page (tag, points) = record {
      symbol_id = tag;
      sheet_page = page.number;
      count = length points;
      confidence = o.default_confidence;
      source = "text_tag";
      verified = false;
      boxes = map (λ (p : F × F). (o.round_1 p.0, o.round_1 p.1)) points;
    }

    unfoldable pub counts_on : Sheet F → List (CountResult F)
    unfolding kind_of tag_spans
    counts_on page = if is_plan (kind_of page) then map (count_on page) (tag_spans page) else []

    -- extract_counts over the indexes of a page range
    unfoldable pub extract_counts : (ℕ → Sheet F) → List ℕ → List ℕ → List (CountResult F)
    unfolding counts_on
    extract_counts page skip [] = []
    extract_counts page skip (i ∷ indexes) =
        let rest = extract_counts page skip indexes in
        if contains skip i then rest else counts_on (page i) ++ rest

-- by_symbol of summarize_counts
abbrev pub symbol_entry : Option SymbolCounts → SymbolCounts
symbol_entry none = record { candidate_total = 0; sheets = [] }
symbol_entry (some e) = e

abbrev pub add_count :
    {F : Type 0} → CountResult F → List (String × SymbolCounts) → List (String × SymbolCounts)
add_count c per_symbol =
    let e = symbol_entry (lookup c.symbol_id per_symbol) in
    put c.symbol_id
      (record {
        candidate_total = e.candidate_total + c.count;
        sheets = e.sheets ++ (c.sheet_page, c.count) ∷ [];
      })
      per_symbol

unfoldable pub per_symbol_counts :
    {F : Type 0}
    → List (CountResult F)
    → List (String × SymbolCounts)
    → List (String × SymbolCounts)
per_symbol_counts [] per_symbol = per_symbol
per_symbol_counts (c ∷ counts) per_symbol = per_symbol_counts counts (add_count c per_symbol)

-- sorted({...}), which keeps one of equal pages
abbrev insert_sheet : ℕ → List ℕ → List ℕ
insert_sheet n [] = n ∷ []
insert_sheet n (m ∷ pages) =
    let rest = insert_sheet n pages in
    if ltb n m then n ∷ m ∷ pages else if n == m then m ∷ pages else m ∷ rest

abbrev instance_sheets_of : {F : Type 0} → List (CountResult F) → List ℕ
instance_sheets_of [] = []
instance_sheets_of (c ∷ counts) = insert_sheet c.sheet_page (instance_sheets_of counts)

pub record CountSummary : Type 0 where
  pub symbols_counted : ℕ
  pub instance_sheets : List ℕ
  pub dedup_status : String
  pub by_symbol : List (String × SymbolCounts)

unfoldable pub summarize_counts : {F : Type 0} → List (CountResult F) → CountSummary
unfolding per_symbol_counts
summarize_counts counts = record {
  symbols_counted = length (per_symbol_counts counts []);
  instance_sheets = instance_sheets_of counts;
  dedup_status = "pending_verification";
  by_symbol = per_symbol_counts counts [];
}
