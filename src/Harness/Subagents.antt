-- ===== src/Harness/Subagents.antt =====
-- Sub-agents (src/harness/subagents): the spawner with its session budget, the parallel spawner, and
-- the two delegation tools. The agent loop that a sub-agent runs is an argument; the printing of a
-- list is a parameter.
use construction_harness.Prelude.{
  ltb, leb, nat_beq, if◌then◌else◌, ltb→lt, leb→le, leb→lt, nat_beq_iff, Bool-cases, Option-cases,
  List-cases, Result, ok, err, length, get_elem?, set, take, drop, keep, all, any, All,
  length-append, length-keep-le, length-drop, length-set, All-append, All-keep, take-append-drop,
  length-map, concat, join, decimal, nonempty, Eq, ◌==◌, contains, contains-append, nat_eq,
  string_eq, pair_eq, ℤ, pos, negsuc, is_neg, pos_part, min_ℤ, ℕ, zero, suc, ◌+◌, ◌-◌, ◌*◌, ◌/◌,
  ◌%◌, ◌^◌, ◌≤◌, ◌<◌, min, max, String, ◌≡◌, refl, sym, ap, ◌∙◌, ◌≡⟨◌⟩◌, ◌∎, ◌≢◌, ◌↔◌, ◌⊎◌, inl,
  inr, Bool, true, false, not, ◌&&◌, ◌||◌, Option, none, some, List, [], ◌∷◌, ◌++◌, map, append-nil,
  append_assoc, map-append, arith, first_chars, char_count, starts_with, difference,
  starts_with-append, length-take, subst, Distinct, Distinct-append_one, contains_self,
  All-contains,
}
use Prim.Native.String.{compare}
use Prim.Native.Nat.{Ordering}
pub mod Tools
pub mod Budget
pub mod Samples
use construction_harness.Harness.Registry.{Tool}
use construction_harness.Harness.Agent.{StopReason, AgentRunResult}

pub record SubagentSpec : Type 0 where
  pub objective : String
  pub output_format : String
  pub tools_allowed : List String
  pub max_iterations : ℕ
  pub max_tokens : ℕ
  pub system_override : Option String

pub record SubagentResult : Type 0 where
  pub summary : String
  pub tokens_used : ℕ
  pub iterations_used : ℕ
  pub error : Option String

-- SubagentBudgetExceeded, or another exception, with its text
pub data AgentFailure : Type 0 where
  budget_exceeded : String → AgentFailure
  other_failure : String → AgentFailure

pub record SubagentSpawner (V W : Type 0) : Type 0 where
  pub catalog : List (Tool V W)
  pub max_subagents_per_session : ℕ
  pub spawn_count : ℕ

-- The arguments with which a sub-agent's loop is run.
pub record SubagentRun (V W : Type 0) : Type 0 where
  pub tools : List (Tool V W)
  pub system : String
  pub user_message : String
  pub window_size : ℕ
  pub max_iterations : ℕ
  pub has_write_gate : Bool

-- _DELEGATION_TOOL_NAMES
abbrev pub delegation_tool_names : List String
delegation_tool_names = "spawn_subagent" ∷ "spawn_parallel_subagents" ∷ []

-- stop_reason as the text that the source keeps
abbrev pub reason_text : StopReason → String
reason_text StopReason.completed = "completed"
reason_text StopReason.max_iterations = "max_iterations"
reason_text StopReason.deadline = "deadline"
reason_text StopReason.empty_response = "empty_response"
reason_text StopReason.incomplete_plan = "incomplete_plan"

abbrev text_before : String → String → Bool
text_before s t = elim (compare s t) [ Ordering.gt ↦ false | _ ↦ true ]

abbrev insert_text : String → List String → List String
insert_text s [] = s ∷ []
insert_text s (t ∷ texts) =
    let rest = insert_text s texts in if text_before s t then s ∷ t ∷ texts else t ∷ rest

-- sorted(names)
unfoldable pub sorted_texts : List String → List String
sorted_texts [] = []
sorted_texts (s ∷ texts) = insert_text s (sorted_texts texts)

abbrev pub failed_with : String → SubagentResult
failed_with text = record { summary = ""; tokens_used = 0; iterations_used = 0; error = some text }

abbrev or_text : Option String → String → String
or_text none default = default
or_text (some s) default = if nonempty s then s else default

-- The handlers around the loop: a run that did not complete is an error, and so is an exception;
-- an exceeded budget is raised again.
unfoldable pub spawn_result :
    {V : Type 0} → Result AgentFailure (AgentRunResult V) → Result String SubagentResult
spawn_result (ok r) = ok (record {
  summary = r.summary;
  tokens_used = r.tokens_used;
  iterations_used = r.iterations_used;
  error =
      if reason_text r.stop_reason == "completed"
      then none
      else some (concat ("subagent stopped: " ∷ reason_text r.stop_reason ∷ []));
})
spawn_result (err (budget_exceeded text)) = err text
spawn_result (err (other_failure text)) = ok (failed_with text)

-- t.name in spec.tools_allowed and t.name not in _DELEGATION_TOOL_NAMES
abbrev pub is_allowed : {V W : Type 0} → SubagentSpec → Tool V W → Bool
is_allowed spec t =
    contains spec.tools_allowed t.name && not (contains delegation_tool_names t.name)

abbrev pub exhausted_text : {V W : Type 0} → SubagentSpawner V W → String
exhausted_text spawner =
    concat ("spawn budget of " ∷ decimal spawner.max_subagents_per_session ∷ " exhausted" ∷ [])

abbrev pub Loop : Type 0 → Type 0 → Type 0
Loop V W = SubagentRun V W → Result AgentFailure (AgentRunResult V)

-- An exception of a sibling is its own error result.
abbrev pub settled : Result String SubagentResult → SubagentResult
settled (ok r) = r
settled (err text) = failed_with text

module _ (show_list : List String → String) where
  unfoldable pub default_subagent_system : SubagentSpec → String
  default_subagent_system spec = concat (
      "You are a sub-agent. You have one objective:\n\n"
      ∷ spec.objective
      ∷ "\n\nReturn your answer in this format:\n"
      ∷ spec.output_format
      ∷ "\n\nYou have the following tools available: "
      ∷ show_list spec.tools_allowed
      ∷ ".\nYou have a maximum of "
      ∷ decimal spec.max_iterations
      ∷ " iterations.\nYou have a maximum of "
      ∷ decimal spec.max_tokens
      ∷ " tokens of context.\n"
      ∷ (if leb 1 (length spec.tools_allowed)
          then "\nYou MUST call at least one tool from your allowed list before\nproducing your final answer. Do not describe what you would do — do it.\nDescribing a tool call in prose without actually invoking it is a failure.\n"
          else "")
      ∷ "\nWhen you have completed the objective, produce your final answer in the\nrequested format. Do not continue working after you have the answer.\nIf you cannot complete the objective (missing data, scope unclear), say\nso explicitly — do not fabricate.\n"
      ∷ [])

  module _ {V W : Type 0} where
    unfoldable pub run_of : SubagentSpec → Bool → List (Tool V W) → SubagentRun V W
    unfolding default_subagent_system
    run_of spec has_write_gate allowed = record {
      tools = allowed;
      system = or_text spec.system_override (default_subagent_system spec);
      user_message =
          concat ("Objective: " ∷ spec.objective ∷ "\n\nReturn format: " ∷ spec.output_format ∷ []);
      window_size = spec.max_tokens;
      max_iterations = spec.max_iterations;
      has_write_gate = has_write_gate;
    }

    abbrev no_tools : SubagentSpawner V W → SubagentSpec → SubagentResult
    no_tools spawner spec = failed_with (
        concat (
          "none of tools_allowed="
          ∷ show_list spec.tools_allowed
          ∷ " match available tools: "
          ∷ show_list (sorted_texts (map (λ (t : Tool V W). t.name) spawner.catalog))
          ∷ []))

    unfoldable pub run_allowed :
        Loop V W
        → SubagentSpawner V W
        → SubagentSpec
        → Bool
        → List (Tool V W)
        → Result String SubagentResult
    unfolding spawn_result run_of sorted_texts
    run_allowed loop spawner spec has_write_gate [] = ok (no_tools spawner spec)
    run_allowed loop spawner spec has_write_gate (t ∷ allowed) =
        spawn_result (loop (run_of spec has_write_gate (t ∷ allowed)))

    -- SubagentSpawner.spawn; the check and the count are one step
    unfoldable pub spawn :
        Loop V W
        → SubagentSpec
        → Bool
        → SubagentSpawner V W
        → Result String SubagentResult × SubagentSpawner V W
    unfolding run_allowed
    spawn loop spec has_write_gate spawner =
        if leb spawner.max_subagents_per_session spawner.spawn_count
        then (err (exhausted_text spawner), spawner)
        else (
          run_allowed loop spawner spec has_write_gate (keep (is_allowed spec) spawner.catalog),
          record spawner { spawn_count = suc spawner.spawn_count },
        )

    -- ParallelSpawner.spawn_all: the tasks pass the semaphore, and so count, in the order of the
    -- specs; the outcome of a sub-agent's loop, however the loops interleave, is given for each.
    unfoldable pub spawn_all :
        (ℕ → Loop V W)
        → ℕ
        → List SubagentSpec
        → SubagentSpawner V W
        → List SubagentResult × SubagentSpawner V W
    unfolding spawn
    spawn_all loops i [] spawner = ([], spawner)
    spawn_all loops i (spec ∷ specs) spawner =
        let first = spawn (loops i) spec true spawner in
        let rest = spawn_all loops (suc i) specs first.1 in (settled first.0 ∷ rest.0, rest.1)
