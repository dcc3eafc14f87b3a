-- ===== src/Counts/Flips.antt =====
-- The items that take a verified total.
use construction_harness.Prelude.{
  leb, if◌then◌else◌, Bool-cases, Option-cases, all, All, ◌==◌, contains, nat_eq, string_eq,
  pair_eq, ℕ, ◌≤◌, max, String, ◌≡◌, refl, sym, ap, ◌∙◌, ◌⊎◌, inl, inr, Bool, true, false, ◌&&◌,
  ◌||◌, Option, none, some, List, [], ◌∷◌, map, arith, subst,
}
use mathlib.Core.Option.{some-injective, none-ne-some}
use construction_harness.Shard.Extract.{ScheduleItem}
use construction_harness.Results.Projection.{CountResult}
use construction_harness.Counts.{
  VerifierAnswer, Verification, Total, Floats, has_value, verify, merge, merged, cons_result,
  verify_counts, largest, total_of, reconcile, plan_counted, flip_with, flip_item,
}
use construction_harness.Counts.Totals.{of_symbol, summary, lookup-reconcile}

module _ {F : Type 0} where
  abbrev vouched : (CountResult F → Option (VerifierAnswer F)) → CountResult F → Bool
  vouched client c = c.verified || has_value (client c)

  module _ (client : CountResult F → Option (VerifierAnswer F)) where
    abbrev IsVerdictOn : CountResult F → CountResult F → Type 0
    IsVerdictOn c r =
        (r.symbol_id ≡ c.symbol_id) × (r.count ≡ c.count) × (r.verified ≡ vouched client c)

    -- The results belong to the counts, one to one.
    abbrev Verdicts : List (CountResult F) → List (CountResult F) → Type 0
    Verdicts [] [] = Unit
    Verdicts [] (r ∷ rs) = ⊥
    Verdicts (c ∷ cs) [] = ⊥
    Verdicts (c ∷ cs) (r ∷ rs) = IsVerdictOn c r × Verdicts cs rs

    Verdicts-chosen :
        (hit : Bool) (c r : CountResult F) (cs rs : List (CountResult F))
        → IsVerdictOn c r
        → Verdicts cs rs
        → Verdicts (if hit then c ∷ cs else cs) (if hit then r ∷ rs else rs)
    Verdicts-chosen true c r cs rs h v = (h, v)
    Verdicts-chosen false c r cs rs h v = v

    Verdicts-of_symbol :
        (k : String) (cs rs : List (CountResult F))
        → Verdicts cs rs
        → Verdicts (of_symbol k cs) (of_symbol k rs)
    Verdicts-of_symbol k [] [] v = v
    Verdicts-of_symbol k [] (r ∷ rs) v = elim v [ ]
    Verdicts-of_symbol k (c ∷ cs) [] v = elim v [ ]
    Verdicts-of_symbol k (c ∷ cs) (r ∷ rs) ((same, count_same, verified_same), v) =
        subst
          (λ hit.
            Verdicts (if c.symbol_id == k then c ∷ of_symbol k cs else of_symbol k cs)
              (if hit then r ∷ of_symbol k rs else of_symbol k rs))
          (ap (λ sid. sid == k) (sym same))
          (Verdicts-chosen (c.symbol_id == k) c r (of_symbol k cs) (of_symbol k rs)
            (same, count_same, verified_same) (Verdicts-of_symbol k cs rs v))

    Verdicts-largest :
        (o : Floats F) (cs rs : List (CountResult F)) → Verdicts cs rs → largest o rs ≡ largest o cs
    Verdicts-largest o [] [] v = refl
    Verdicts-largest o [] (r ∷ rs) v = elim v [ ]
    Verdicts-largest o (c ∷ cs) [] v = elim v [ ]
    Verdicts-largest o (c ∷ cs) (r ∷ rs) ((_, count_same, _), v) =
        ap (λ n. max n (largest o rs)) count_same ∙ ap (max c.count) (Verdicts-largest o cs rs v)

    Verdicts-all :
        (cs rs : List (CountResult F))
        → Verdicts cs rs
        → all (λ (r : CountResult F). r.verified) rs ≡ all (vouched client) cs
    Verdicts-all [] [] v = refl
    Verdicts-all [] (r ∷ rs) v = elim v [ ]
    Verdicts-all (c ∷ cs) [] v = elim v [ ]
    Verdicts-all (c ∷ cs) (r ∷ rs) ((_, _, verified_same), v) =
        ap (λ b. b && all (λ (r : CountResult F). r.verified) rs) verified_same
        ∙ ap (λ b. vouched client c && b) (Verdicts-all cs rs v)

    module _ (o : Floats F) where
      merge_keeps :
          (c : CountResult F) (v : Verification F)
          → ((merge o c v).symbol_id ≡ c.symbol_id)
            × ((merge o c v).count ≡ c.count)
            × ((merge o c v).verified ≡ (c.verified || v.verified))
      unfolding merge
      merge_keeps c v = elim (Bool-cases v.verified) [
        | inl is ↦ ground arith
        | inr not_so ↦ ground arith
      ]

      verify_verified :
          (c : CountResult F) (answer : Option (VerifierAnswer F)) (v : Verification F)
          → verify o c answer ≡ some v
          → v.verified ≡ has_value answer
      unfolding verify
      verify_verified c none v e =
          ap (λ (w : Verification F). w.verified) (sym (some-injective _ v e))
      verify_verified c (some answer) v e = elim (Option-cases answer.confidence) [
        | inl no_number ↦ ground arith
        | inr (f, number) ↦ ground arith
      ]

      merged-IsVerdictOn :
          (c r : CountResult F) (w : Option (Verification F))
          → verify o c (client c) ≡ w
          → merged o c w ≡ some r
          → IsVerdictOn c r
      unfolding merged
      merged-IsVerdictOn c r none a e = absurd (none-ne-some r e)
      merged-IsVerdictOn c r (some v) a e =
          let kept = merge_keeps c v in
          subst (IsVerdictOn c) (some-injective (merge o c v) r e)
            (kept.0, kept.1, kept.2 ∙ ap (λ b. c.verified || b) (verify_verified c (client c) v a))

      cons-Verdicts :
          (c : CountResult F) (cs rs : List (CountResult F)) (w : Option (CountResult F))
          (rest : Option (List (CountResult F)))
          → ((r : CountResult F) → w ≡ some r → IsVerdictOn c r)
          → ((more : List (CountResult F)) → rest ≡ some more → Verdicts cs more)
          → cons_result o w rest ≡ some rs
          → Verdicts (c ∷ cs) rs
      cons-Verdicts c cs rs none rest h k e = ground arith
      cons-Verdicts c cs rs (some r) none h k e = ground arith
      cons-Verdicts c cs rs (some r) (some more) h k e =
          subst (Verdicts (c ∷ cs)) (some-injective (r ∷ more) rs e) (h r refl, k more refl)

      verify_counts-Verdicts :
          (cs rs : List (CountResult F)) → verify_counts o client cs ≡ some rs → Verdicts cs rs
      unfolding verify_counts
      verify_counts-Verdicts [] rs e = subst (Verdicts []) (some-injective [] rs e) tt
      verify_counts-Verdicts (c ∷ cs) rs e =
          cons-Verdicts c cs rs (merged o c (verify o c (client c))) (verify_counts o client cs)
            (λ r. merged-IsVerdictOn c r (verify o c (client c)) refl) (verify_counts-Verdicts cs) e

max_choice : (n m : ℕ) → (max n m ≡ n) ⊎ (max n m ≡ m)
max_choice n m = elim (Bool-cases (leb m n)) [
  | inl most ↦ inl grind arith
  | inr less ↦ inr grind arith
]

contains_here : (x : ℕ) (xs : List ℕ) (n : ℕ) → n ≡ x → contains (x ∷ xs) n ≡ true
contains_here x xs n same = ground (arith, nat_eq.test_iff x n)

contains_there : (x : ℕ) (xs : List ℕ) (n : ℕ) → contains xs n ≡ true → contains (x ∷ xs) n ≡ true
contains_there x xs n h = ground arith

-- A number that is one of the counts, and no less than any of them.
abbrev pub IsMost : {F : Type 0} → ℕ → List (CountResult F) → Type 0
IsMost n cs = All (λ c. c.count ≤ n) cs × (contains (map (λ c. c.count) cs) n ≡ true)

module _ {F : Type 0} (o : Floats F) where
  All-largest :
      (n : ℕ) (cs : List (CountResult F))
      → largest o cs ≤ n
      → All (λ (c : CountResult F). c.count ≤ n) cs
  All-largest n [] h = tt
  All-largest n (c ∷ cs) h = (omega arith, All-largest n cs omega arith)

  contains-largest :
      (c : CountResult F) (cs : List (CountResult F))
      → contains (map (λ (c : CountResult F). c.count) (c ∷ cs)) (largest o (c ∷ cs)) ≡ true
  contains-largest c [] = ground (arith, nat_eq.test_iff c.count (max c.count 0))
  contains-largest c (d ∷ cs) = elim (max_choice c.count (largest o (d ∷ cs))) [
    | inl own ↦ contains_here c.count (map (λ c. c.count) (d ∷ cs)) (largest o (c ∷ d ∷ cs)) own
    | inr among ↦ contains_there c.count (map (λ c. c.count) (d ∷ cs)) (largest o (c ∷ d ∷ cs)) (
        subst (λ n. contains (map (λ (c : CountResult F). c.count) (d ∷ cs)) n ≡ true) (sym among)
          (contains-largest d cs))
  ]

  module _ (client : CountResult F → Option (VerifierAnswer F)) where
    -- Whether an item takes the total of its symbol's counts: it waits for one, its symbol was
    -- counted, and each of the counts was verified before or is answered by the client.
    abbrev pub takes_total : ScheduleItem F → List (CountResult F) → Bool
    takes_total it [] = false
    takes_total it (c ∷ cs) =
        it.quantity_basis == "unknown_plan_count" && all (vouched client) (c ∷ cs)

    abbrev pub Flips : ScheduleItem F → List (CountResult F) → ScheduleItem F → Type 0
    Flips it cs after =
        ((takes_total it cs ≡ false) × (after ≡ it))
        ⊎ ((takes_total it cs ≡ true)
            × (total : Total F) × IsMost total.building_total cs
            × (after ≡ plan_counted o it total))

    plan_counted-Flips :
        (it : ScheduleItem F) (cs : List (CountResult F)) (total : Total F)
        → takes_total it cs ≡ (it.quantity_basis == "unknown_plan_count" && total.verified)
        → IsMost total.building_total cs
        → Flips it cs (flip_with o it (some total))
    plan_counted-Flips it cs total same most = elim (Bool-cases (takes_total it cs)) [
      | inl takes ↦ inr (
        takes,
        total,
        most,
        ap (λ b. if b then plan_counted o it total else it) (sym same ∙ takes),
      )
      | inr keeps ↦
          inl (keeps, ap (λ b. if b then plan_counted o it total else it) (sym same ∙ keeps))
    ]

    flip_with-summary :
        (it : ScheduleItem F) (cs rs : List (CountResult F))
        → Verdicts client cs rs
        → Flips it cs (flip_with o it (summary o rs))
    unfolding total_of
    flip_with-summary it [] [] v = inl (refl, refl)
    flip_with-summary it [] (r ∷ rs) v = elim v [ ]
    flip_with-summary it (c ∷ cs) [] v = elim v [ ]
    flip_with-summary it (c ∷ cs) (r ∷ rs) v =
        plan_counted-Flips it (c ∷ cs) (total_of o (r ∷ rs))
          (ap (λ b. it.quantity_basis == "unknown_plan_count" && b)
            (sym (Verdicts-all client (c ∷ cs) (r ∷ rs) v)))
          (subst (λ n. IsMost n (c ∷ cs)) (sym (Verdicts-largest client o (c ∷ cs) (r ∷ rs) v))
            (All-largest (largest o (c ∷ cs)) (c ∷ cs) omega arith, contains-largest c cs))

    -- When the verification of the counts raises no exception, an item of the catalog is changed
    -- only if it waits for a plan count, its mark was counted and each count of the mark was
    -- verified or is answered by the client, whatever the answer says. It then takes a total that
    -- is the largest of the deterministic counts of its mark, and not a number of the client's.
    pub flip_item-verify_counts :
        (counts results : List (CountResult F)) (it : ScheduleItem F)
        → verify_counts o client counts ≡ some results
        → Flips it (of_symbol it.mark counts) (flip_item o (reconcile o results) it)
    unfolding flip_item
    flip_item-verify_counts counts results it e =
        subst (λ entry. Flips it (of_symbol it.mark counts) (flip_with o it entry))
          (sym (lookup-reconcile o it.mark results))
          (flip_with-summary it (of_symbol it.mark counts) (of_symbol it.mark results) (
            Verdicts-of_symbol client it.mark counts results
              (verify_counts-Verdicts client o counts results e)))
