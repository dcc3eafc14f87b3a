-- ===== src/Harness/Agent.antt =====
-- src/harness/agent.py: the turn loop `arun`, which stands in Loop. The provider's stream, the choice of a turn's tools, the
-- budget, the clock and `str.strip` are parameters; the plan that the plan tools change is part of
-- the world. The hooks that observe a run are left out.
pub mod Loop
pub mod Outcomes
pub mod Answers
pub mod Samples
use construction_harness.Prelude.{
  ltb, leb, nat_beq, if◌then◌else◌, ltb→lt, leb→le, leb→lt, nat_beq_iff, Bool-cases, Option-cases,
  List-cases, Result, ok, err, length, get_elem?, set, take, drop, keep, all, any, All,
  length-append, length-keep-le, length-drop, length-set, All-append, All-keep, take-append-drop,
  length-map, concat, join, decimal, nonempty, Eq, ◌==◌, contains, contains-append, nat_eq,
  string_eq, pair_eq, ℤ, pos, negsuc, is_neg, pos_part, min_ℤ, ℕ, zero, suc, ◌+◌, ◌-◌, ◌*◌, ◌/◌,
  ◌%◌, ◌^◌, ◌≤◌, ◌<◌, min, max, String, ◌≡◌, refl, sym, ap, ◌∙◌, ◌≡⟨◌⟩◌, ◌∎, ◌≢◌, ◌↔◌, ◌⊎◌, inl,
  inr, Bool, true, false, not, ◌&&◌, ◌||◌, Option, none, some, List, [], ◌∷◌, ◌++◌, map, append-nil,
  append_assoc, map-append, arith, first_chars, char_count, starts_with, difference,
  starts_with-append, length-take,
}
use construction_harness.Harness.Messages.{
  Dict, Role, user, assistant, system, Block, text_block, tool_call, tool_result, reasoning_block,
  Message, Transcript, ProviderResponse, ToolCallRef, text_or_empty, user_text, assistant_text,
  tool_result_message, append_message, is_final, from_assistant_response,
}
use construction_harness.Harness.Plans.{
  Plan, PlanStep, Postcondition, is_terminal, is_ready_to_finalize, to_render,
}
use construction_harness.Harness.Permissions.{PermissionManager}
use construction_harness.Harness.Registry.{Tool, ToolRegistry, Outside, add_tool, dispatch}
use construction_harness.Harness.Context.{drop_orphan_tool_results}
use construction_harness.Harness.Context.Compactor.{BudgetState, is_red, compact_if_needed}

-- MAX_COMPLETION_NUDGES
abbrev pub max_completion_nudges : ℕ
max_completion_nudges = 2

-- GRACE_NUDGE, _EXHAUSTED_MARKER and _EMPTY_MARKER
abbrev pub grace_nudge : String
grace_nudge =
    "You have reached your step budget and cannot call any more tools. Using only the information already gathered above, give your best final answer now. If you could not fully complete the task, say so plainly and report what you did determine — do not fabricate."

abbrev pub exhausted_marker : String
exhausted_marker = "[stopped: reached max_iterations without a final answer]"

abbrev pub empty_marker : String
empty_marker = "[stopped: model returned an empty final response]"

pub data StopReason : Type 0 where
  completed max_iterations deadline empty_response incomplete_plan : StopReason

pub record AgentRunResult (V : Type 0) : Type 0 where
  pub summary : String
  pub tokens_used : ℕ
  pub iterations_used : ℕ
  pub transcript : Transcript V
  pub stop_reason : StopReason

-- How a turn of the provider ends: with a response, with an exception, or cancelled with the text
-- that had come so far.
pub data TurnEnd (V : Type 0) : Type 0 where
  answered : ProviderResponse V → TurnEnd V
  failed : String → TurnEnd V
  cancelled : List String → TurnEnd V

-- What a run is given from outside.
pub record Setting (V W : Type 0) : Type 0 where
  pub outside : Outside V W
  pub number : ℕ → V
  pub astream : Transcript V → List (Tool V W) → W → TurnEnd V × W
  pub for_turn : Transcript V → List (Tool V W)
  pub snapshot_state : List (Tool V W) → Option ℕ → Transcript V → BudgetState
  pub count_text : String → ℕ
  pub show_args : Dict V → String
  pub acomplete : Transcript V → Result String (ProviderResponse V)
  pub keep_recent_results : ℕ
  pub keep_recent_turns : ℕ
  pub plan_of : W → Option Plan
  pub deadline_passed : W → Bool
  pub strip : String → String
  pub has_write_gate : Bool

-- The variables of a run.
pub record Run (V W : Type 0) : Type 0 where
  pub transcript : Transcript V
  pub call_history : List (String × String)
  pub permission_manager : Option (PermissionManager (Dict V))
  pub tokens_used : ℕ
  pub last_input_tokens : Option ℕ
  pub completion_nudges : ℕ
  pub world : W

-- How a run ends, and how one of its turns does.
pub data RunEnd (V W : Type 0) : Type 0 where
  finished : AgentRunResult V → W → RunEnd V W
  raised : String → Transcript V → W → RunEnd V W

pub data TurnResult (V W : Type 0) : Type 0 where
  goes_on : Run V W → TurnResult V W
  stops : RunEnd V W → TurnResult V W

abbrev open_step : PlanStep → List String → List String
open_step s rest =
    if is_terminal s then rest else concat ("  - step not done: " ∷ s.description ∷ []) ∷ rest

unfoldable pub open_steps : List PlanStep → List String
open_steps [] = []
open_steps (s ∷ steps) = open_step s (open_steps steps)

abbrev open_postcondition : Postcondition → List String → List String
open_postcondition pc rest =
    if pc.satisfied
    then rest
    else concat ("  - postcondition not verified: " ∷ pc.description ∷ []) ∷ rest

unfoldable pub open_postconditions : List Postcondition → List String
open_postconditions [] = []
open_postconditions (pc ∷ pcs) = open_postcondition pc (open_postconditions pcs)

unfoldable pub unsatisfied_note : Plan → String
unfolding open_steps open_postconditions
unsatisfied_note plan = join "\n" (
    "[stopped: plan not verified complete]"
    ∷ (open_steps plan.steps ++ open_postconditions plan.postconditions))

unfoldable pub completion_nudge : Plan → String
completion_nudge plan = concat (
    "You indicated you are finished, but the active plan is not yet complete:\n\n"
    ∷ to_render plan
    ∷ "\n\nBefore finishing you must either:\n  - finish each remaining step and mark it 'done' (with evidence), or mark it 'blocked' if it genuinely cannot be completed; and\n  - verify each remaining postcondition (with concrete evidence).\nDo the outstanding work now, or update the plan to reflect reality. Do not claim completion while items remain open."
    ∷ [])

-- The active plan, if it is not ready to finalize.
unfoldable pub open_plan : Option Plan → Option Plan
open_plan none = none
open_plan (some plan) = if is_ready_to_finalize plan then none else some plan

-- text or marker
abbrev pub or_else : Option String → String → String
or_else none marker = marker
or_else (some text) marker = if nonempty text then text else marker

module _ {V : Type 0} where
  -- for block in reversed(message.blocks): ...
  unfoldable pub last_text : List (Block V) → Option String
  last_text [] = none
  last_text (b ∷ blocks) = elim (last_text blocks) [
    | some text ↦ some text
    | none ↦ elim b [ text_block text ↦ some text | _ ↦ none ]
  ]

  abbrev pub assistant_last_text : Message V → Option String
  assistant_last_text m = elim m.role [ assistant ↦ last_text m.blocks | _ ↦ none ]

  unfoldable pub last_assistant_text : List (Message V) → Option String
  unfolding last_text
  last_assistant_text [] = none
  last_assistant_text (m ∷ messages) = elim (last_assistant_text messages) [
    | some text ↦ some text
    | none ↦ assistant_last_text m
  ]

  -- The text that a cancelled turn leaves in the transcript.
  abbrev pub interrupted : List String → Transcript V → Transcript V
  interrupted [] t = t
  interrupted (s ∷ partial) t =
      append_message (assistant_text (concat (concat (s ∷ partial) ∷ " [interrupted]" ∷ []))) t
