-- ===== src/Counts/Fixtures/Words.antt =====
-- What the counts of a page range add up to.
use construction_harness.Prelude.{
  if◌then◌else◌, Bool-cases, length, length-append, ◌==◌, contains, nat_eq, string_eq, pair_eq, ℕ,
  suc, ◌+◌, String, ◌≡◌, refl, sym, ap, ◌∙◌, inl, inr, Bool, true, false, not, ◌&&◌, Option, some,
  List, [], ◌∷◌, ◌++◌, map, arith,
}
use construction_harness.Harness.Messages.{lookup, lookup-put}
use construction_harness.Results.Projection.{CountResult}
use construction_harness.Schedules.Cells.{strip}
use construction_harness.Counts.{append_to}
use construction_harness.Counts.Fixtures.{
  Coordinates, Word, Sheet, SymbolCounts, is_plan, add_word, spans_with, tag_spans, kind_of,
  count_on, counts_on, extract_counts, symbol_entry, summarize_counts, add_count, per_symbol_counts,
}

-- The points of a tag, the counts of a symbol, and the words that are a tag.
abbrev pub points_at {ℓ} : {A : Type ℓ} → String → List (String × List A) → ℕ
points_at k [] = 0
points_at k ((tag, points) ∷ spans) =
    let rest = points_at k spans in if tag == k then length points + rest else rest

abbrev pub counted_at : {F : Type 0} → String → List (CountResult F) → ℕ
counted_at k [] = 0
counted_at k (c ∷ counts) =
    let rest = counted_at k counts in if c.symbol_id == k then c.count + rest else rest

abbrev pub words_at : {F : Type 0} → String → List (Word F) → ℕ
words_at k [] = 0
words_at k (w ∷ words) = let rest = words_at k words in if strip w.word == k then suc rest else rest

points_at-append_to {ℓ} :
    {A : Type ℓ} (k tag : String) (point : A) (spans : List (String × List A))
    → points_at k (append_to tag point spans)
      ≡ (if tag == k then suc (points_at k spans) else points_at k spans)
unfolding append_to
points_at-append_to k tag point [] = refl
points_at-append_to k tag point ((j, points) ∷ spans) = ground (
  arith,
  string_eq.test_iff j tag,
  string_eq.test_iff j k,
  string_eq.test_iff tag k,
  length-append points (point ∷ []),
  points_at-append_to k tag point spans,
)

counted_at-append :
    {F : Type 0} (k : String) (cs ds : List (CountResult F))
    → counted_at k (cs ++ ds) ≡ counted_at k cs + counted_at k ds
counted_at-append k [] ds = omega arith
counted_at-append k (c ∷ cs) ds = ground (arith, counted_at-append k cs ds)

abbrev pub total_at : String → List (String × SymbolCounts) → ℕ
total_at k per_symbol = (symbol_entry (lookup k per_symbol)).candidate_total

chosen_total :
    (b : Bool) (e : SymbolCounts) (rest : Option SymbolCounts) (n : ℕ)
    → (b ≡ true → (symbol_entry rest).candidate_total + n ≡ e.candidate_total)
    → (symbol_entry (if b then some e else rest)).candidate_total
      ≡ (symbol_entry rest).candidate_total + (if b then n else 0)
chosen_total true e rest n h = sym (h refl)
chosen_total false e rest n h = omega arith

total_at-add_count :
    {F : Type 0} (k : String) (c : CountResult F) (per_symbol : List (String × SymbolCounts))
    → total_at k (add_count c per_symbol)
      ≡ total_at k per_symbol + (if c.symbol_id == k then c.count else 0)
total_at-add_count k c per_symbol =
    let e : SymbolCounts = record {
      candidate_total = (symbol_entry (lookup c.symbol_id per_symbol)).candidate_total + c.count;
      sheets =
          (symbol_entry (lookup c.symbol_id per_symbol)).sheets ++ (c.sheet_page, c.count) ∷ [];
    } in
    ap (λ found. (symbol_entry found).candidate_total) (lookup-put k c.symbol_id e per_symbol)
    ∙ chosen_total (c.symbol_id == k) e (lookup k per_symbol) c.count (λ same.
      ap (λ key. total_at key per_symbol + c.count)
        (sym ((string_eq.test_iff c.symbol_id k).0 same)))

counted_if :
    {F : Type 0} (b : Bool) (k : String) (cs : List (CountResult F)) (n : ℕ)
    → counted_at k cs ≡ n
    → counted_at k (if b then cs else []) ≡ (if b then n else 0)
counted_if true k cs n h = h
counted_if false k cs n h = refl

total_at-per_symbol_counts :
    {F : Type 0} (k : String) (counts : List (CountResult F))
    (per_symbol : List (String × SymbolCounts))
    → total_at k (per_symbol_counts counts per_symbol) ≡ total_at k per_symbol + counted_at k counts
unfolding per_symbol_counts
total_at-per_symbol_counts k [] per_symbol = omega arith
total_at-per_symbol_counts k (c ∷ counts) per_symbol = ground (
  arith,
  total_at-add_count k c per_symbol,
  total_at-per_symbol_counts k counts (add_count c per_symbol),
)

module _ {F : Type 0} (o : Coordinates F) (tags : List String) where
  other_word : (j k : String) → contains tags k ≡ true → contains tags j ≡ false → (j == k) ≡ false
  other_word j k known other = elim (Bool-cases (j == k)) [
    | inl same ↦ ground (arith, ap (contains tags) ((string_eq.test_iff j k).0 same))
    | inr differs ↦ differs
  ]

  points_at-add_word :
      (k : String) (w : Word F) (out : List (String × List (F × F)))
      → contains tags k ≡ true
      → points_at k (add_word o tags w out)
        ≡ (if strip w.word == k then suc (points_at k out) else points_at k out)
  unfolding add_word
  points_at-add_word k w out known = elim (Bool-cases (contains tags (strip w.word))) [
    | inl is_tag ↦
        let point : F × F = (o.mid w.x0 w.x1, o.mid w.y0 w.y1) in
        ap (λ b. points_at k (if b then append_to (strip w.word) point out else out)) is_tag
        ∙ points_at-append_to k (strip w.word) point out
    | inr other ↦
        let point : F × F = (o.mid w.x0 w.x1, o.mid w.y0 w.y1) in
        ap (λ b. points_at k (if b then append_to (strip w.word) point out else out)) other
        ∙ sym (
            ap (λ b. if b then suc (points_at k out) else points_at k out)
              (other_word (strip w.word) k known other))
  ]

  points_at-spans_with :
      (k : String) (words : List (Word F)) (out : List (String × List (F × F)))
      → contains tags k ≡ true
      → points_at k (spans_with o tags words out) ≡ points_at k out + words_at k words
  unfolding spans_with
  points_at-spans_with k [] out known = omega arith
  points_at-spans_with k (w ∷ words) out known = ground (
    arith,
    points_at-add_word k w out known,
    points_at-spans_with k words (add_word o tags w out) known,
  )

  counted_at-count_on :
      (k : String) (page : Sheet F) (spans : List (String × List (F × F)))
      → counted_at k (map (count_on o tags page) spans) ≡ points_at k spans
  counted_at-count_on k page [] = refl
  counted_at-count_on k page ((tag, points) ∷ spans) =
      ground (arith, counted_at-count_on k page spans)

  -- The occurrences of a tag on the plans among the pages of a range.
  abbrev pub plan_words : String → (ℕ → Sheet F) → List ℕ → List ℕ → ℕ
  plan_words k page skip [] = 0
  plan_words k page skip (i ∷ indexes) =
      (if not (contains skip i) && is_plan (kind_of o tags (page i))
        then words_at k (page i).words
        else 0)
      + plan_words k page skip indexes

  counted_at-counts_on :
      (k : String) (page : Sheet F)
      → contains tags k ≡ true
      → counted_at k (counts_on o tags page)
        ≡ (if is_plan (kind_of o tags page) then words_at k page.words else 0)
  unfolding counts_on tag_spans
  counted_at-counts_on k page known =
      counted_if (is_plan (kind_of o tags page)) k
        (map (count_on o tags page) (tag_spans o tags page)) (words_at k page.words)
        (omega (
          arith,
          counted_at-count_on k page (tag_spans o tags page),
          points_at-spans_with k page.words [] known,
        ))

  counted_at-extract_counts :
      (k : String) (page : ℕ → Sheet F) (skip indexes : List ℕ)
      → contains tags k ≡ true
      → counted_at k (extract_counts o tags page skip indexes) ≡ plan_words k page skip indexes
  unfolding extract_counts
  counted_at-extract_counts k page skip [] known = refl
  counted_at-extract_counts k page skip (i ∷ indexes) known = ground (
    arith,
    counted_at-counts_on k (page i) known,
    counted_at-append k (counts_on o tags (page i)) (extract_counts o tags page skip indexes),
    counted_at-extract_counts k page skip indexes known,
  )

  -- The candidate total of one of the tags is the number of the words that are it, on all pages of
  -- the range that are not excluded and are instance plans.
  pub candidate_total-words :
      (k : String) (page : ℕ → Sheet F) (skip indexes : List ℕ)
      → contains tags k ≡ true
      → total_at k (summarize_counts (extract_counts o tags page skip indexes)).by_symbol
        ≡ plan_words k page skip indexes
  unfolding summarize_counts
  candidate_total-words k page skip indexes known = omega (
    arith,
    total_at-per_symbol_counts k (extract_counts o tags page skip indexes) [],
    counted_at-extract_counts k page skip indexes known,
  )
