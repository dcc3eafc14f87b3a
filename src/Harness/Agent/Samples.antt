-- ===== src/Harness/Agent/Samples.antt =====
-- Concrete runs of the agent.
use construction_harness.Prelude.{
  ok, join, decimal, nat_eq, string_eq, pair_eq, ℕ, suc, String, ◌≡◌, refl, inr, false, Option,
  none, some, [], ◌∷◌, char_count,
}
use construction_harness.Harness.Messages.{
  user, text_block, Transcript, ProviderResponse, append_message, from_assistant_response, is_final,
}
use construction_harness.Harness.Plans.{
  Plan, pending, is_ready_to_finalize, all_steps_terminal, is_terminal,
}
use construction_harness.Harness.Registry.{ToolRegistry, Outside}
use construction_harness.Harness.Context.{drop_orphan_tool_results, keep_messages}
use construction_harness.Harness.Context.Pairing.{Paired}
use construction_harness.Harness.Context.Orphans.{NoOrphans}
use construction_harness.Harness.Context.Summarizer.{has_tool_result}
use construction_harness.Harness.Context.Compactor.{green}
use construction_harness.Harness.Agent.{
  Setting, Run, answered, finished, RunEnd, open_plan, incomplete_plan, StopReason,
}
use construction_harness.Harness.Agent.Loop.{
  arun, on_tool_calls, turns, turn, add_tools, with_registry, one_turn, on_turn_end, on_response,
  on_final, on_open_plan,
}
use construction_harness.Harness.Agent.Outcomes.{Ends, arun_outcome}
use construction_harness.Harness.Agent.Answers.{IsAnswered, on_tool_calls-Paired}

abbrev outside : Outside String ℕ
outside = record {
  dumps = λ args. "{}";
  validate = λ args schema. [];
  close_match = λ name names. none;
  repr = λ s. s;
  show_names = join ", ";
  text_of = λ v. v;
  nonce = λ w. "0f";
  acquire = λ w. w;
  release = λ w. w;
}

abbrev says : String → ProviderResponse String
says text = record {
  text = some text;
  tool_calls = [];
  reasoning_text = none;
  reasoning_metadata = [];
  input_tokens = 9;
  output_tokens = 3;
  reasoning_tokens = 0;
  cache_read_input_tokens = 0;
  cache_creation_input_tokens = 0;
}

abbrev calls : ProviderResponse String
calls = record (says "") {
  text = none;
  tool_calls = record { id = "c1"; name = "count"; args = [] } ∷ [];
}

abbrev unfinished : Plan
unfinished = record {
  objective = "count doors";
  steps =
      record {
        id = "s0";
        description = "read the schedule";
        status = pending;
        evidence = none;
        notes = "";
      }
      ∷ [];
  postconditions = [];
}

-- A provider that says it is done, while the plan is not.
abbrev setting : Setting String ℕ
setting = record {
  outside = outside;
  number = decimal;
  astream = λ t tools w. (answered (says "Done."), suc w);
  for_turn = λ t. [];
  snapshot_state = λ tools floor t. green;
  count_text = char_count;
  show_args = λ args. "{}";
  acomplete = λ t. ok (says "A summary.");
  keep_recent_results = 3;
  keep_recent_turns = 6;
  plan_of = λ w. some unfinished;
  deadline_passed = λ w. false;
  strip = λ s. s;
  has_write_gate = false;
}

abbrev nothing : Transcript String
nothing = record { messages = []; system = none }

abbrev reason_of : RunEnd String ℕ → Option (StopReason × ℕ)
reason_of (finished r w) = some (r.stop_reason, r.iterations_used)
reason_of _ = none

nudged_twice : reason_of (arun setting 20 "Go." nothing none 0) ≡ some (incomplete_plan, 3)
unfolding arun turns turn add_tools with_registry one_turn on_turn_end on_response on_final
    on_open_plan open_plan is_ready_to_finalize all_steps_terminal is_terminal
    drop_orphan_tool_results keep_messages is_final
nudged_twice = refl

arun_outcome_example : Ends setting 20 (arun setting 20 "Go." nothing none 0)
arun_outcome_example = arun_outcome setting 20 "Go." nothing none 0

abbrev no_tools : ToolRegistry String ℕ
no_tools = record {
  tools = [];
  call_history = [];
  permission_manager = none;
  has_write_gate = false;
}

abbrev begun : Run String ℕ
begun = record {
  transcript = record nothing {
    messages = record { role = user; blocks = text_block "Go." ∷ [] } ∷ [];
  };
  call_history = [];
  permission_manager = none;
  tokens_used = 0;
  last_input_tokens = none;
  completion_nudges = 0;
  world = 0;
}

begun-Paired : Paired [] begun.transcript.messages
unfolding has_tool_result
begun-Paired = inr (refl, tt)

on_tool_calls-Paired_example :
    IsAnswered setting calls.tool_calls
      (append_message (from_assistant_response decimal calls) begun.transcript)
      (on_tool_calls setting calls no_tools begun).transcript
    × Paired [] (on_tool_calls setting calls no_tools begun).transcript.messages
    × NoOrphans (on_tool_calls setting calls no_tools begun).transcript.messages
on_tool_calls-Paired_example = on_tool_calls-Paired setting calls no_tools begun begun-Paired
