-- ===== src/Counts.antt =====
-- The verification of fixture counts, their reconciliation to building totals, and the items that
-- take these totals (src/takeoff/count_verifier.py). Confidences are floats, a type `F` of the
-- caller's with the operations that the code uses; the client and the rendered images are
-- parameters.
use construction_harness.Prelude.{
  ltb, leb, nat_beq, if◌then◌else◌, ltb→lt, leb→le, leb→lt, nat_beq_iff, Bool-cases, Option-cases,
  List-cases, Result, ok, err, length, get_elem?, set, take, drop, keep, all, any, All,
  length-append, length-keep-le, length-drop, length-set, All-append, All-keep, take-append-drop,
  length-map, concat, join, decimal, nonempty, Eq, ◌==◌, contains, contains-append, nat_eq,
  string_eq, pair_eq, ℤ, pos, negsuc, is_neg, pos_part, min_ℤ, ℕ, zero, suc, ◌+◌, ◌-◌, ◌*◌, ◌/◌,
  ◌%◌, ◌^◌, ◌≤◌, ◌<◌, min, max, String, ◌≡◌, refl, sym, ap, ◌∙◌, ◌≡⟨◌⟩◌, ◌∎, ◌≢◌, ◌↔◌, ◌⊎◌, inl,
  inr, Bool, true, false, not, ◌&&◌, ◌||◌, Option, none, some, List, [], ◌∷◌, ◌++◌, map, append-nil,
  append_assoc, map-append, arith, first_chars, char_count, starts_with, difference,
  starts_with-append, length-take, subst, Distinct, Distinct-append_one, contains_self,
  All-contains,
}
use construction_harness.Harness.Messages.{lookup, put}
use construction_harness.Shard.Extract.{ScheduleItem}
use construction_harness.Results.Projection.{CountResult}
pub mod Totals
pub mod Flips
pub mod Fixtures
pub mod Samples

pub record Verification (F : Type 0) : Type 0 where
  pub symbol_id : String
  pub verified : Bool
  pub agrees : Bool
  pub verified_count : Option ℤ
  pub confidence : F
  pub notes : String
  pub source : String

-- What a client's answer holds: the count if `int` reads one, and the confidence if `float` does
-- (an answer that is no dict is one without a confidence).
pub record VerifierAnswer (F : Type 0) : Type 0 where
  pub verified_count : Option ℤ
  pub agrees : Bool
  pub confidence : Option F
  pub notes : String

pub record Floats (F : Type 0) : Type 0 where
  pub zero_float : F
  pub clamp : F → F
  pub greater : F → F → F
  pub smaller : F → F → F
  pub half : F → F
  pub round_3 : F → F
  pub of_nat : ℕ → F
  pub show : F → String

-- The summary of one symbol.
pub record Total (F : Type 0) : Type 0 where
  pub building_total : ℕ
  pub verified : Bool
  pub confidence : F
  pub sheets : List (ℕ × ℕ)
  pub multi_sheet_disagreement : Bool

abbrev pub has_value {ℓ} : {A : Type ℓ} → Option A → Bool
has_value none = false
has_value (some a) = true

-- out.setdefault(key, []).append(value)
unfoldable pub append_to {ℓ} :
    {A : Type ℓ} → String → A → List (String × List A) → List (String × List A)
append_to key value [] = (key, value ∷ []) ∷ []
append_to key value ((k, values) ∷ groups) =
    if k == key
    then (k, values ++ value ∷ []) ∷ groups
    else (k, values) ∷ append_to key value groups

module _ {F : Type 0} (o : Floats F) where
  -- CountVerifier.verify, by the client's answer or its exception. `none` is the exception of a
  -- confidence that is no number, which is not caught.
  unfoldable pub verify : CountResult F → Option (VerifierAnswer F) → Option (Verification F)
  verify r none = some (record {
    symbol_id = r.symbol_id;
    verified = false;
    agrees = false;
    verified_count = none;
    confidence = o.zero_float;
    notes = "verifier_error";
    source = "vlm";
  })
  verify r (some answer) = elim answer.confidence [
    | none ↦ none
    | some confidence ↦ some (record {
      symbol_id = r.symbol_id;
      verified = true;
      agrees = has_value answer.verified_count && answer.agrees;
      verified_count = answer.verified_count;
      confidence = o.clamp confidence;
      notes = answer.notes;
      source = "vlm";
    })
  ]

  unfoldable pub merge : CountResult F → Verification F → CountResult F
  merge r v =
      if v.verified
      then record r {
        verified = true;
        confidence =
            if v.agrees
            then o.greater r.confidence v.confidence
            else o.half (o.smaller r.confidence v.confidence);
      }
      else r

  abbrev pub merged : CountResult F → Option (Verification F) → Option (CountResult F)
  unfolding merge
  merged r none = none
  merged r (some v) = some (merge r v)

  abbrev pub cons_result :
      Option (CountResult F) → Option (List (CountResult F)) → Option (List (CountResult F))
  cons_result none rest = none
  cons_result (some r) none = none
  cons_result (some r) (some rest) = some (r ∷ rest)

  -- verify_counts, with the client's answer for each count
  unfoldable pub verify_counts :
      (CountResult F → Option (VerifierAnswer F))
      → List (CountResult F)
      → Option (List (CountResult F))
  unfolding merged verify
  verify_counts client [] = some []
  verify_counts client (c ∷ counts) =
      cons_result (merged c (verify c (client c))) (verify_counts client counts)

  unfoldable pub by_symbol :
      List (CountResult F)
      → List (String × List (CountResult F))
      → List (String × List (CountResult F))
  unfolding append_to
  by_symbol [] groups = groups
  by_symbol (r ∷ results) groups = by_symbol results (append_to r.symbol_id r groups)

  -- max(counts)
  abbrev pub largest : List (CountResult F) → ℕ
  largest [] = 0
  largest (r ∷ rs) = max r.count (largest rs)

  abbrev least_confidence : F → List (CountResult F) → F
  least_confidence f [] = f
  least_confidence f (r ∷ rs) = least_confidence (o.smaller f r.confidence) rs

  abbrev first_confidence : List (CountResult F) → F
  first_confidence [] = o.zero_float
  first_confidence (r ∷ rs) = least_confidence r.confidence rs

  abbrev differ : List (CountResult F) → Bool
  differ [] = false
  differ (r ∷ rs) = any (λ (s : CountResult F). not (nat_beq s.count r.count)) rs

  -- The entry of a symbol, whose results are never none.
  unfoldable pub total_of : List (CountResult F) → Total F
  total_of rs = record {
    building_total = largest rs;
    verified = all (λ (r : CountResult F). r.verified) rs;
    confidence = o.round_3 (first_confidence rs);
    sheets = map (λ (r : CountResult F). (r.sheet_page, r.count)) rs;
    multi_sheet_disagreement = differ rs;
  }

  unfoldable pub totals : List (String × List (CountResult F)) → List (String × Total F)
  unfolding total_of
  totals [] = []
  totals ((sym, rs) ∷ groups) = (sym, total_of rs) ∷ totals groups

  unfoldable pub reconcile : List (CountResult F) → List (String × Total F)
  unfolding totals by_symbol
  reconcile results = totals (by_symbol results [])

  abbrev pub plan_counted : ScheduleItem F → Total F → ScheduleItem F
  plan_counted it total = record it {
    quantity = some (o.of_nat total.building_total);
    unit = some "EA";
    quantity_basis = "plan_count";
    attributes = put "plan_count_confidence" (o.show total.confidence) it.attributes;
  }

  abbrev pub flip_with : ScheduleItem F → Option (Total F) → ScheduleItem F
  flip_with it none = it
  flip_with it (some total) =
      if it.quantity_basis == "unknown_plan_count" && total.verified
      then plan_counted it total
      else it

  -- flip_fixture_items on one item; the confidence stands in the attributes as its text
  unfoldable pub flip_item : List (String × Total F) → ScheduleItem F → ScheduleItem F
  flip_item reconciled it = flip_with it (lookup it.mark reconciled)

  unfoldable pub flip_fixture_items :
      List (String × Total F) → List (ScheduleItem F) → List (ScheduleItem F)
  unfolding flip_item
  flip_fixture_items reconciled items = map (flip_item reconciled) items
