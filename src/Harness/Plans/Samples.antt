-- ===== src/Harness/Plans/Samples.antt =====
-- Concrete sessions with the plan tools.
use construction_harness.Prelude.{
  All, concat, decimal, nat_eq, string_eq, pair_eq, pos, ℕ, String, ◌≡◌, refl, ◌⊎◌, true, none,
  some, List, [], ◌∷◌,
}
use construction_harness.Harness.Plans.{
  StepStatus, done, blocked, Plan, is_ready_to_finalize, to_render, plan_create, step_update,
  set_step, parse_status, plan_show, postcondition_verify,
}
use construction_harness.Harness.Plans.Update.{
  Accepted, Refused, OnlyStep, after_update, step_update_cases,
}
use construction_harness.Harness.Plans.Evidence.{
  PlanCall, create, show, update, verify, after_calls, StepSettled, PostconditionVerified,
  ready_has_evidence,
}

abbrev repr : String → String
repr s = concat ("'" ∷ s ∷ "'" ∷ [])

abbrev session : List PlanCall
session =
    create "count doors" ("read the schedule" ∷ "count" ∷ []) ("counts agree" ∷ [])
    ∷ update (pos 1) "done" "" ""
    ∷ update (pos 1) "done" "read page 14" ""
    ∷ update (pos 2) "blocked" "" "no tags"
    ∷ verify (pos 1) "26 = 26"
    ∷ show
    ∷ []

abbrev finished : Plan
finished = record {
  objective = "count doors";
  steps =
      record {
        id = "s0";
        description = "read the schedule";
        status = done;
        evidence = some "read page 14";
        notes = "";
      }
      ∷ record {
        id = "s1";
        description = "count";
        status = blocked;
        evidence = none;
        notes = "no tags";
      }
      ∷ [];
  postconditions =
      record { description = "counts agree"; satisfied = true; evidence = some "26 = 26" } ∷ [];
}

session-finished : after_calls repr session none ≡ some finished
unfolding after_calls plan_create step_update set_step parse_status postcondition_verify plan_show
    decimal
session-finished = refl

finished-ready : is_ready_to_finalize finished ≡ true
unfolding is_ready_to_finalize
finished-ready = refl

rendered :
    to_render finished
    ≡ "# Plan: count doors\n\n## Steps\n1. [x] read the schedule\n     evidence: read page 14\n2. [!] count\n     notes: no tags\n\n## Postconditions\n1. [x] counts agree\n     evidence: 26 = 26"
unfolding to_render
rendered = refl

ready_has_evidence_example :
    All StepSettled finished.steps × All PostconditionVerified finished.postconditions
ready_has_evidence_example =
    ready_has_evidence repr session finished session-finished finished-ready

step_update_cases_example :
    ((k : ℕ) × (new : StepStatus) × Accepted (pos 2) "done" "26 rows" finished k new
      × ((after : Plan) × (after_update repr (pos 2) "done" "26 rows" "" finished ≡ some after)
          × OnlyStep k new "26 rows" "" finished 1 after))
    ⊎ (Refused (pos 2) "done" "26 rows" finished
        × (after_update repr (pos 2) "done" "26 rows" "" finished ≡ some finished))
step_update_cases_example = step_update_cases repr (pos 2) "done" "26 rows" "" finished 1
