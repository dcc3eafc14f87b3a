-- ===== src/Harness/Plans.antt =====
-- src/harness/plans/model.py and src/harness/plans/tools.py: a plan and the tools that change it
-- through a shared holder. The creation time and the uuid of a plan are left out. `repr` is Python's,
-- a parameter.
pub mod Evidence
pub mod Statuses
pub mod Update
pub mod Samples
use construction_harness.Prelude.{
  ltb, leb, nat_beq, if◌then◌else◌, ltb→lt, leb→le, leb→lt, nat_beq_iff, Bool-cases, Option-cases,
  Result, ok, err, length, get_elem?, set, take, drop, keep, all, any, All, length-append,
  length-keep-le, length-drop, length-set, All-append, All-keep, take-append-drop, length-map,
  concat, join, decimal, nonempty, Eq, ◌==◌, contains, contains-append, nat_eq, string_eq, pair_eq,
  ℤ, pos, negsuc, is_neg, pos_part, min_ℤ, ℕ, zero, suc, ◌+◌, ◌-◌, ◌*◌, ◌/◌, ◌%◌, ◌^◌, ◌≤◌, ◌<◌,
  min, max, String, ◌≡◌, refl, sym, ap, ◌∙◌, ◌≡⟨◌⟩◌, ◌∎, ◌≢◌, ◌↔◌, ◌⊎◌, inl, inr, Bool, true, false,
  not, ◌&&◌, ◌||◌, Option, none, some, List, [], ◌∷◌, ◌++◌, map, append-nil, append_assoc,
  map-append, arith,
}

pub data StepStatus : Type 0 where
  pending in_progress done blocked : StepStatus

-- self.value
unfoldable pub status_value : StepStatus → String
status_value pending = "pending"
status_value in_progress = "in_progress"
status_value done = "done"
status_value blocked = "blocked"

-- StepStatus(status), or the ValueError
unfoldable pub parse_status : String → Option StepStatus
parse_status status =
    if status == "pending"
    then some pending
    else if status == "in_progress"
    then some in_progress
    else if status == "done"
    then some done
    else if status == "blocked"
    then some blocked
    else none

pub record PlanStep : Type 0 where
  pub id : String
  pub description : String
  pub status : StepStatus
  pub evidence : Option String
  pub notes : String

-- self.status in (StepStatus.done, StepStatus.blocked)
unfoldable pub is_terminal : PlanStep → Bool
is_terminal step = elim step.status [ done ↦ true | blocked ↦ true | _ ↦ false ]

pub record Postcondition : Type 0 where
  pub description : String
  pub satisfied : Bool
  pub evidence : Option String

pub record Plan : Type 0 where
  pub objective : String
  pub steps : List PlanStep
  pub postconditions : List Postcondition

unfoldable pub all_steps_terminal : Plan → Bool
unfolding is_terminal
all_steps_terminal plan = all is_terminal plan.steps

unfoldable pub all_postconditions_satisfied : Plan → Bool
all_postconditions_satisfied plan = all (λ pc. pc.satisfied) plan.postconditions

unfoldable pub is_ready_to_finalize : Plan → Bool
unfolding all_steps_terminal all_postconditions_satisfied
is_ready_to_finalize plan = all_steps_terminal plan && all_postconditions_satisfied plan

unfoldable pub step_mark : StepStatus → String
step_mark pending = "[ ]"
step_mark in_progress = "[.]"
step_mark done = "[x]"
step_mark blocked = "[!]"

-- A line for a value that is there and not empty.
abbrev pub optional_line : String → Option String → List String
optional_line label none = []
optional_line label (some text) = if nonempty text then concat (label ∷ text ∷ []) ∷ [] else []

unfoldable pub render_steps : ℕ → List PlanStep → List String
unfolding step_mark decimal
render_steps i [] = []
render_steps i (s ∷ steps) =
    concat (decimal i ∷ ". " ∷ step_mark s.status ∷ " " ∷ s.description ∷ [])
    ∷ (optional_line "     evidence: " s.evidence
        ++ (optional_line "     notes: " (some s.notes) ++ render_steps (suc i) steps))

unfoldable pub render_postconditions : ℕ → List Postcondition → List String
unfolding decimal
render_postconditions i [] = []
render_postconditions i (pc ∷ pcs) =
    concat (decimal i ∷ ". " ∷ (if pc.satisfied then "[x]" else "[ ]") ∷ " " ∷ pc.description ∷ [])
    ∷ (optional_line "     evidence: " pc.evidence ++ render_postconditions (suc i) pcs)

unfoldable pub to_render : Plan → String
unfolding render_steps render_postconditions
to_render plan = join "\n" (
    concat ("# Plan: " ∷ plan.objective ∷ "\n" ∷ [])
    ∷ "## Steps"
    ∷ (render_steps 1 plan.steps
        ++ ("\n## Postconditions" ∷ render_postconditions 1 plan.postconditions)))

-- PlanHolder.plan
abbrev pub Holder : Type 0
Holder = Option Plan

-- What a tool call gives: its text, or the message of the RuntimeError, and the holder after it.
abbrev pub Reply : Type 0
Reply = Result String String × Holder

-- self.require(), and what follows with the plan
abbrev pub require : Holder → (Plan → Reply) → Reply
require none use_plan = (err "no active plan", none)
require (some plan) use_plan = use_plan plan

abbrev pub new_step : ℕ → String → PlanStep
new_step i description = record {
  id = concat ("s" ∷ decimal i ∷ []);
  description = description;
  status = pending;
  evidence = none;
  notes = "";
}

-- enumerate(steps)
unfoldable pub new_steps : ℕ → List String → List PlanStep
new_steps i [] = []
new_steps i (d ∷ ds) = new_step i d ∷ new_steps (suc i) ds

abbrev pub new_postcondition : String → Postcondition
new_postcondition d = record { description = d; satisfied = false; evidence = none }

unfoldable pub plan_create : String → List String → List String → Holder → Reply
unfolding new_steps
plan_create objective steps postconditions holder = (
  ok (
      concat (
        "plan created with "
        ∷ decimal (length steps)
        ∷ " steps and "
        ∷ decimal (length postconditions)
        ∷ " postconditions"
        ∷ [])),
  some (record {
    objective = objective;
    steps = new_steps 0 steps;
    postconditions = map new_postcondition postconditions;
  }),
)

unfoldable pub plan_show : Holder → Reply
unfolding to_render
plan_show holder = require holder (λ plan. (ok (to_render plan), some plan))

-- evidence or None
abbrev pub or_none : String → Option String
or_none s = if nonempty s then some s else none

abbrev pub is_done : StepStatus → Bool
is_done done = true
is_done _ = false

-- str(n) of an integer
unfoldable pub decimal_ℤ : ℤ → String
decimal_ℤ (pos n) = decimal n
decimal_ℤ (negsuc n) = concat ("-" ∷ decimal (suc n) ∷ [])

-- n < 1 or n > limit
abbrev pub out_of_range : ℤ → ℕ → Bool
out_of_range n limit = ltb (pos_part n) 1 || ltb limit (pos_part n)

abbrev pub updated_step : PlanStep → StepStatus → String → String → PlanStep
updated_step s status evidence notes = record {
  id = s.id;
  description = s.description;
  status = status;
  evidence = or_none evidence;
  notes = notes;
}

-- plan.steps[i] = f(plan.steps[i])
unfoldable pub change_at {ℓ} : {A : Type ℓ} → (A → A) → ℕ → List A → List A
change_at f i [] = []
change_at f zero (x ∷ xs) = f x ∷ xs
change_at f (suc i) (x ∷ xs) = x ∷ change_at f i xs

module _ (repr : String → String) where
  unfoldable pub set_step : Plan → ℕ → StepStatus → String → String → String → Reply
  unfolding change_at
  set_step plan number new_status status evidence notes =
      if is_done new_status && not (nonempty evidence)
      then (
        ok
            "error: marking a step 'done' requires evidence. Describe what proved the step complete (e.g., 'wrote file and read it back; content matches').",
        some plan,
      )
      else (
        ok (concat ("step " ∷ decimal number ∷ " → " ∷ status ∷ [])),
        some (record plan {
          steps = change_at (λ s. updated_step s new_status evidence notes) (number - 1) plan.steps;
        }),
      )

  unfoldable pub step_update : ℤ → String → String → String → Holder → Reply
  step_update step_number status evidence notes holder = require holder λ plan.
      if out_of_range step_number (length plan.steps)
      then (
        ok (
            concat (
              "step_number "
              ∷ decimal_ℤ step_number
              ∷ " out of range (1.."
              ∷ decimal (length plan.steps)
              ∷ ")"
              ∷ [])),
        some plan,
      )
      else elim (parse_status status) [
        | none ↦ (
          ok (
              concat
                ("invalid status " ∷ repr status ∷ "; use pending/in_progress/done/blocked" ∷ [])),
          some plan,
        )
        | some new_status ↦ set_step plan (pos_part step_number) new_status status evidence notes
      ]

unfoldable pub postcondition_verify : ℤ → String → Holder → Reply
unfolding change_at
postcondition_verify postcondition_number evidence holder = require holder λ plan.
    if out_of_range postcondition_number (length plan.postconditions)
    then (
      ok (
          concat (
            "postcondition_number "
            ∷ decimal_ℤ postcondition_number
            ∷ " out of range (1.."
            ∷ decimal (length plan.postconditions)
            ∷ ")"
            ∷ [])),
      some plan,
    )
    else if not (nonempty evidence)
    then (ok "error: evidence is required to verify a postcondition", some plan)
    else (
      ok (concat ("postcondition " ∷ decimal (pos_part postcondition_number) ∷ " verified" ∷ [])),
      some (record plan {
        postconditions =
            change_at
              (λ pc. record {
                description = pc.description;
                satisfied = true;
                evidence = some evidence;
              })
              (pos_part postcondition_number - 1) plan.postconditions;
      }),
    )
