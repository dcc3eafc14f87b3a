-- ===== src/Harness/Plans/Update.antt =====
-- What one call of a plan tool changes.
use construction_harness.Prelude.{
  ltb, nat_beq, if◌then◌else◌, Bool-cases, Option-cases, length, get_elem?, nonempty, nat_eq,
  string_eq, pair_eq, ℤ, pos, negsuc, pos_part, ℕ, zero, suc, ◌<◌, String, ◌≡◌, refl, sym, ap, ◌∙◌,
  ◌≢◌, ◌⊎◌, inl, inr, true, false, not, ◌&&◌, none, some, arith,
}
use mathlib.Core.Option.{none-ne-some}
use construction_harness.Harness.Plans.Statuses.{
  length-change_at, map_some, get_elem?-change_at, map_some_same, get_elem?-inside, done_status,
  parse_status-status_value, status_value-parse_status, parse_status_unknown,
}
use construction_harness.Harness.Plans.{
  StepStatus, done, is_done, status_value, parse_status, PlanStep, Plan, Holder, out_of_range,
  change_at, updated_step, set_step, step_update,
}

-- A 1-based number that names the position of one of `limit` steps, or none of them.
abbrev pub InRange : ℤ → ℕ → ℕ → Type 0
InRange n limit k = (n ≡ pos (suc k)) × (k < limit)

abbrev pub OutOfRange : ℤ → ℕ → Type 0
OutOfRange (pos k) limit = (k ≡ 0) ⊎ (limit < k)
OutOfRange (negsuc k) limit = Unit

-- The calls that step_update accepts, and those that it refuses.
abbrev pub Accepted : ℤ → String → String → Plan → ℕ → StepStatus → Type 0
Accepted n status evidence plan k new =
    InRange n (length plan.steps) k
    × (status_value new ≡ status)
    × ((is_done new ≡ false) ⊎ (evidence ≢ ""))

abbrev pub Refused : ℤ → String → String → Plan → Type 0
Refused n status evidence plan =
    OutOfRange n (length plan.steps)
    ⊎ ((s : StepStatus) → status_value s ≢ status)
    ⊎ ((status ≡ "done") × (evidence ≡ ""))

-- A step with a new status, evidence and notes. An empty evidence is none.
pub record IsUpdated (new : StepStatus) (evidence notes : String) (before after : PlanStep)
    : Type 0 where
  pub id : after.id ≡ before.id
  pub description : after.description ≡ before.description
  pub status : after.status ≡ new
  pub evidence_given :
      ((evidence ≡ "") × (after.evidence ≡ none))
      ⊎ ((evidence ≢ "") × (after.evidence ≡ some evidence))
  pub notes_given : after.notes ≡ notes

-- The plan after an accepted update of the step at `k`, seen at position `j`: nothing but the steps
-- has changed, their number has not, and only the step at `k` is new.
abbrev pub OnlyStep : ℕ → StepStatus → String → String → Plan → ℕ → Plan → Type 0
OnlyStep k new evidence notes before j after =
    (after.objective ≡ before.objective)
    × (after.postconditions ≡ before.postconditions)
    × (length after.steps ≡ length before.steps)
    × (((j ≢ k) × (get_elem? after.steps j ≡ get_elem? before.steps j))
        ⊎ ((j ≡ k)
            × (old : PlanStep) × (fresh : PlanStep) × (get_elem? before.steps j ≡ some old)
            × (get_elem? after.steps j ≡ some fresh)
            × IsUpdated new evidence notes old fresh))

updated_step-IsUpdated :
    (s : PlanStep) (new : StepStatus) (evidence notes : String)
    → IsUpdated new evidence notes s (updated_step s new evidence notes)
updated_step-IsUpdated s new evidence notes = record {
  id = refl;
  description = refl;
  status = refl;
  evidence_given = ground (arith, string_eq.test_iff evidence "");
  notes_given = refl;
}

OutOfRange-test : (m : ℤ) (limit : ℕ) → OutOfRange m limit → out_of_range m limit ≡ true
OutOfRange-test (pos k) limit h = ground arith
OutOfRange-test (negsuc k) limit h = refl

module _ (repr : String → String) (n : ℤ) (status evidence notes : String) (plan : Plan) where
  abbrev pub after_update : Holder
  after_update = (step_update repr n status evidence notes (some plan)).1

  change_at-OnlyStep :
      (j k : ℕ) (new : StepStatus)
      → k < length plan.steps
      → OnlyStep k new evidence notes plan j
          (record plan { steps = change_at (λ s. updated_step s new evidence notes) k plan.steps })
  change_at-OnlyStep j k new inside =
      let f = λ (s : PlanStep). updated_step s new evidence notes in
      let (old, found) = get_elem?-inside plan.steps k inside in
      let seen = get_elem?-change_at f k j plan.steps in
      (
        refl,
        refl,
        length-change_at f k plan.steps,
        elim (Bool-cases (nat_beq k j)) [
          | inl here ↦
              let same : k ≡ j = (nat_eq.test_iff k j).0 here in
              inr (
                sym same,
                old,
                f old,
                ap (get_elem? plan.steps) (sym same) ∙ found,
                seen
                    ∙ ap (map_some (λ x. if nat_beq k j then f x else x))
                        (ap (get_elem? plan.steps) (sym same) ∙ found)
                    ∙ ap (λ b. some (if b then f old else old)) here,
                updated_step-IsUpdated old new evidence notes,
              )
          | inr elsewhere ↦ inl (
            ground (arith, nat_eq.test_iff k j),
            seen ∙ map_some_same (nat_beq k j) f (get_elem? plan.steps j) elsewhere,
          )
        ],
      )

  step_update-Accepted :
      (k : ℕ) (new : StepStatus)
      → Accepted n status evidence plan k new
      → after_update
        ≡ some (record plan {
          steps = change_at (λ s. updated_step s new evidence notes) k plan.steps;
        })
  unfolding step_update set_step
  step_update-Accepted k new ((number, inside), known, evidenced) =
      let position : pos_part n ≡ suc k = ap pos_part number in
      let in_range : out_of_range n (length plan.steps) ≡ false = ground arith in
      let parsed : parse_status status ≡ some new =
        ap parse_status (sym known) ∙ parse_status-status_value new in
      let allowed : (is_done new && not (nonempty evidence)) ≡ false =
        ground (arith, string_eq.test_iff evidence "") in
      ground arith

  step_update-Refused : Refused n status evidence plan → after_update ≡ some plan
  unfolding step_update set_step status_value
  step_update-Refused (inl outside) =
      let outside_test : out_of_range n (length plan.steps) ≡ true =
        OutOfRange-test n (length plan.steps) outside in
      ground arith
  step_update-Refused (inr (inl invalid)) =
      let unknown = parse_status_unknown status invalid in ground arith
  step_update-Refused (inr (inr (finished, bare))) =
      let parsed : parse_status status ≡ some done =
        ap parse_status finished ∙ parse_status-status_value done in
      let empty : nonempty evidence ≡ false = ground (arith, string_eq.test_iff evidence "") in
      ground arith

  range_cases : (m : ℤ) (limit : ℕ) → ((k : ℕ) × InRange m limit k) ⊎ OutOfRange m limit
  range_cases (pos zero) limit = inr (inl refl)
  range_cases (negsuc k) limit = inr tt
  range_cases (pos (suc k)) limit = elim (Bool-cases (ltb k limit)) [
    | inl inside ↦ inl (k, (refl, ground arith))
    | inr outside ↦ inr (inr (ground arith))
  ]

  Accepted-or_Refused :
      ((k : ℕ) × (new : StepStatus) × Accepted n status evidence plan k new)
      ⊎ Refused n status evidence plan
  unfolding status_value
  Accepted-or_Refused = elim (range_cases n (length plan.steps)) [
    | inr outside ↦ inr (inl outside)
    | inl (k, inside) ↦ elim (Option-cases (parse_status status)) [
      | inl invalid ↦ inr (
          inr (
            inl (λ s same.
              none-ne-some s
                (sym invalid ∙ ap parse_status (sym same) ∙ parse_status-status_value s))))
      | inr (new, parsed) ↦ elim (Bool-cases (is_done new && not (nonempty evidence))) [
        | inl bare ↦
            let is_done_now : new ≡ done = done_status new (ground arith) in
            inr (
              inr (
                inr (
                  sym (
                      ap status_value (sym is_done_now)
                      ∙ status_value-parse_status status new parsed),
                  ground (arith, string_eq.test_iff evidence ""),
                )))
        | inr fine ↦ inl (
          k,
          new,
          (
            inside,
            status_value-parse_status status new parsed,
            ground (arith, string_eq.test_iff evidence ""),
          ),
        )
      ]
    ]
  ]

  -- With an active plan, `step_update` either is given the 1-based number of a step, one of the four
  -- statuses by name and, for "done", some evidence: then, at every position `j`, the step is as
  -- before unless it is the one of that number, which keeps its id and description and has the given
  -- status, evidence (none for an empty text) and notes, and nothing else of the plan changes. Or it
  -- is refused, for a number below 1 or above the number of steps, another status, or "done" without
  -- evidence, and the plan is unchanged.
  pub step_update_cases :
      (j : ℕ)
      → ((k : ℕ) × (new : StepStatus) × Accepted n status evidence plan k new
          × ((after : Plan) × (after_update ≡ some after)
              × OnlyStep k new evidence notes plan j after))
        ⊎ (Refused n status evidence plan × (after_update ≡ some plan))
  step_update_cases j = elim Accepted-or_Refused [
    | inl (k, new, accepted) ↦
        let plan' : Plan = record plan {
          steps = change_at (λ s. updated_step s new evidence notes) k plan.steps;
        } in
        inl (
          k,
          new,
          accepted,
          (plan', step_update-Accepted k new accepted, change_at-OnlyStep j k new accepted.0.1),
        )
    | inr refused ↦ inr (refused, step_update-Refused refused)
  ]
