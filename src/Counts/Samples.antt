-- ===== src/Counts/Samples.antt =====
-- A fixture that is counted on two sheets, with tenths for confidences, and a drawing of two pages.
use construction_harness.Prelude.{
  leb, nat_beq, if◌then◌else◌, decimal, ◌==◌, nat_eq, string_eq, pair_eq, pos, ℕ, zero, suc, ◌+◌,
  ◌-◌, ◌*◌, ◌/◌, min, max, String, ◌≡◌, refl, false, Option, none, some, List, [], ◌∷◌, map,
}
use construction_harness.Harness.Messages.{lookup}
use construction_harness.Shard.Extract.{ScheduleItem}
use construction_harness.Results.Projection.{CountResult}
use construction_harness.Schedules.Cells.{strip}
use construction_harness.Counts.{
  VerifierAnswer, Floats, verify_counts, reconcile, flip_item, total_of,
}
use construction_harness.Counts.Totals.{lookup-reconcile}
use construction_harness.Counts.Flips.{flip_item-verify_counts, Flips}
use construction_harness.Counts.Fixtures.{
  Coordinates, Word, Sheet, CountSummary, extract_counts, summarize_counts,
}
use construction_harness.Counts.Fixtures.Words.{total_at, plan_words, candidate_total-words}

abbrev tenths : Floats ℕ
tenths = record {
  zero_float = 0;
  clamp = λ n. min n 10;
  greater = max;
  smaller = min;
  half = λ n. n / 2;
  round_3 = λ n. n;
  of_nat = λ n. n;
  show = λ n. decimal n;
}

abbrev sheet_count : String → ℕ → ℕ → CountResult ℕ
sheet_count symbol_id page count = record {
  symbol_id = symbol_id;
  sheet_page = page;
  count = count;
  confidence = 8;
  source = "text";
  verified = false;
  boxes = [];
}

abbrev counted : List (CountResult ℕ)
counted = sheet_count "WC-1" 4 3 ∷ sheet_count "L-1" 4 2 ∷ sheet_count "WC-1" 9 5 ∷ []

-- It reads 5 on each sheet, and fails on the page 4 for the lavatory.
abbrev reader : CountResult ℕ → Option (VerifierAnswer ℕ)
reader r =
    if r.symbol_id == "L-1"
    then none
    else some (record {
      verified_count = some (pos 5);
      agrees = nat_beq r.count 5;
      confidence = some 9;
      notes = "";
    })

abbrev fixture : String → ScheduleItem ℕ
fixture mark = record {
  schedule = "PLUMBING";
  shape = "catalog";
  mark = mark;
  quantity = none;
  unit = none;
  quantity_basis = "unknown_plan_count";
  description = "";
  attributes = [];
  source = [];
}

abbrev read_results : List (CountResult ℕ)
unfolding verify_counts
read_results = elim (verify_counts tenths reader counted) [ none ↦ [] | some results ↦ results ]

flips_test :
    map
      (λ (it : ScheduleItem ℕ). (flip_item tenths (reconcile tenths read_results) it).quantity)
      (fixture "WC-1" ∷ fixture "L-1" ∷ fixture "S-1" ∷ [])
    ≡ some 5 ∷ none ∷ none ∷ []
unfolding flip_item reconcile verify_counts
flips_test = refl

lookup-reconcile_example :
    lookup "WC-1" (reconcile tenths counted)
    ≡ some (total_of tenths (sheet_count "WC-1" 4 3 ∷ sheet_count "WC-1" 9 5 ∷ []))
lookup-reconcile_example = lookup-reconcile tenths "WC-1" counted

flip_item-verify_counts_example :
    Flips tenths reader
      (fixture "WC-1")
      (sheet_count "WC-1" 4 3 ∷ sheet_count "WC-1" 9 5 ∷ [])
      (flip_item tenths (reconcile tenths read_results) (fixture "WC-1"))
unfolding verify_counts
flip_item-verify_counts_example =
    flip_item-verify_counts tenths reader counted read_results (fixture "WC-1") refl

abbrev points : Coordinates ℕ
points = record {
  mid = λ a b. (a + b) / 2;
  minus = ◌-◌;
  over = λ a b. a * 100 / b;
  larger = max;
  smaller = min;
  at_least = λ a b. leb b a;
  spread_threshold = 35;
  default_confidence = 7;
  round_1 = λ n. n;
}

abbrev word_at : String → ℕ → Word ℕ
word_at word x = record { x0 = x; y0 = 0; x1 = x + 2; y1 = 2; word = word }

-- A plan on the page 1 and a schedule on the page 2, whose tags stand close to each other.
abbrev drawing : ℕ → Sheet ℕ
drawing zero = record {
  number = 1;
  width = 100;
  height = 100;
  words = word_at "WC-1" 10 ∷ word_at "L-1" 50 ∷ word_at " WC-1" 80 ∷ word_at "NORTH" 90 ∷ [];
}
drawing (suc n) = record {
  number = 2;
  width = 100;
  height = 100;
  words = word_at "WC-1" 10 ∷ word_at "L-1" 12 ∷ word_at "S-1" 14 ∷ [];
}

abbrev summary_of_drawing : CountSummary
unfolding summarize_counts extract_counts
summary_of_drawing =
    summarize_counts (extract_counts points ("WC-1" ∷ "L-1" ∷ "S-1" ∷ []) drawing [] (0 ∷ 1 ∷ []))

drawing_test :
    (summary_of_drawing.instance_sheets ≡ 1 ∷ [])
    × (total_at "WC-1" summary_of_drawing.by_symbol ≡ 2)
    × (total_at "S-1" summary_of_drawing.by_symbol ≡ 0)
unfolding summary_of_drawing strip
drawing_test = (refl, refl, refl)

candidate_total-words_example :
    total_at "WC-1"
      (summarize_counts
        (extract_counts points ("WC-1" ∷ "L-1" ∷ []) drawing (1 ∷ []) (0 ∷ 1 ∷ []))).by_symbol
    ≡ plan_words points ("WC-1" ∷ "L-1" ∷ []) "WC-1" drawing (1 ∷ []) (0 ∷ 1 ∷ [])
candidate_total-words_example =
    candidate_total-words points ("WC-1" ∷ "L-1" ∷ []) "WC-1" drawing (1 ∷ []) (0 ∷ 1 ∷ []) refl
