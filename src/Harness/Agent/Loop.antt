-- ===== src/Harness/Agent/Loop.antt =====
-- The turns of a run.
use construction_harness.Prelude.{
  ltb, if◌then◌else◌, Result, ok, err, concat, nonempty, nat_eq, string_eq, pair_eq, ℕ, zero, suc,
  ◌+◌, max, String, not, Option, none, some, List, [], ◌∷◌,
}
use construction_harness.Harness.Messages.{
  Dict, Message, Transcript, ProviderResponse, ToolCallRef, text_or_empty, user_text,
  tool_result_message, append_message, is_final, from_assistant_response,
}
use construction_harness.Harness.Plans.{Plan}
use construction_harness.Harness.Permissions.{PermissionManager}
use construction_harness.Harness.Registry.{Tool, ToolRegistry, add_tool, dispatch}
use construction_harness.Harness.Context.{drop_orphan_tool_results}
use construction_harness.Harness.Context.Compactor.{is_red, CompactionResult, compact_if_needed}
use construction_harness.Harness.Agent.{
  max_completion_nudges, grace_nudge, exhausted_marker, empty_marker, StopReason, completed,
  max_iterations, deadline, empty_response, incomplete_plan, TurnEnd, answered, failed, cancelled,
  Setting, Run, RunEnd, finished, raised, TurnResult, goes_on, stops, unsatisfied_note,
  completion_nudge, open_plan, last_assistant_text, or_else, interrupted,
}

module _ {V W : Type 0} where
  -- ToolRegistry.__init__: for t in tools: self.add(t)
  unfoldable pub add_tools : List (Tool V W) → ToolRegistry V W → Result String (ToolRegistry V W)
  add_tools [] registry = ok registry
  add_tools (t ∷ tools) registry = elim (add_tool t registry) [
    | err e ↦ err e
    | ok registry' ↦ add_tools tools registry'
  ]

  abbrev pub result : StopReason → String → ℕ → Run V W → RunEnd V W
  result reason summary iterations run =
      finished
        (record {
          summary = summary;
          tokens_used = run.tokens_used;
          iterations_used = iterations;
          transcript = run.transcript;
          stop_reason = reason;
        })
        run.world

  abbrev pub say : Message V → Run V W → Run V W
  say m run = record run { transcript = append_message m run.transcript }

  -- The end of a turn that stops, and the rest of the run after one that goes on.
  abbrev pub proceed : (Run V W → RunEnd V W) → TurnResult V W → RunEnd V W
  proceed rest (stops end) = end
  proceed rest (goes_on run) = rest run

  -- tokens_used += ..., last_input_tokens = ...
  abbrev pub count_response : ProviderResponse V → Run V W → Run V W
  count_response response run = record run {
    tokens_used = run.tokens_used + response.input_tokens + response.output_tokens;
    last_input_tokens = some (
        response.input_tokens + response.cache_read_input_tokens
        + response.cache_creation_input_tokens);
  }

module _ {V W : Type 0} (setting : Setting V W) where
  -- _one_turn, up to the provider's answer.
  unfoldable pub one_turn : List (Tool V W) → Run V W → TurnEnd V × Run V W
  one_turn tools run =
      let (dropped, repaired) = drop_orphan_tool_results run.transcript in
      let (end, w) = setting.astream repaired tools run.world in
      (end, record run { transcript = repaired; world = w })

  -- A final response while the plan is open.
  unfoldable pub on_open_plan : ℕ → ProviderResponse V → Plan → Run V W → TurnResult V W
  on_open_plan iteration response plan run =
      if ltb run.completion_nudges max_completion_nudges
      then goes_on (record (say (user_text (completion_nudge plan)) run) {
        completion_nudges = suc run.completion_nudges;
      })
      else stops (
          result incomplete_plan
            (concat
              (setting.strip (text_or_empty response.text) ∷ "\n\n" ∷ unsatisfied_note plan ∷ []))
            (suc iteration) run)

  -- A final response with the plan complete, or with none.
  unfoldable pub on_answer : ℕ → ProviderResponse V → Run V W → TurnResult V W
  on_answer iteration response run =
      if not (nonempty (setting.strip (text_or_empty response.text)))
      then stops (result empty_response empty_marker (suc iteration) run)
      else stops (result completed (text_or_empty response.text) (suc iteration) run)

  unfoldable pub on_final : ℕ → ProviderResponse V → Run V W → TurnResult V W
  unfolding on_open_plan on_answer
  on_final iteration response run =
      let said = say (from_assistant_response setting.number response) run in
      elim (open_plan (setting.plan_of run.world)) [
        | some plan ↦ on_open_plan iteration response plan said
        | none ↦ on_answer iteration response said
      ]

  -- for ref in response.tool_calls: ...
  unfoldable pub run_calls :
      List (ToolCallRef V)
      → ToolRegistry V W
      → Transcript V
      → W
      → ToolRegistry V W × Transcript V × W
  run_calls [] registry t w = (registry, t, w)
  run_calls (ref ∷ refs) registry t w =
      let (r, registry', w') = dispatch setting.outside ref.name ref.args ref.id registry w in
      run_calls refs registry' (append_message (tool_result_message r) t) w'

  unfoldable pub on_tool_calls : ProviderResponse V → ToolRegistry V W → Run V W → Run V W
  unfolding run_calls
  on_tool_calls response registry run =
      let said = append_message (from_assistant_response setting.number response) run.transcript in
      let (registry', t, w) = run_calls response.tool_calls registry said run.world in
      record run {
        transcript = t;
        world = w;
        call_history = registry'.call_history;
        permission_manager = registry'.permission_manager;
      }

  unfoldable pub on_response : ℕ → ToolRegistry V W → ProviderResponse V → Run V W → TurnResult V W
  unfolding on_final on_tool_calls
  on_response iteration registry response run =
      let counted = count_response response run in
      if is_final response
      then on_final iteration response counted
      else goes_on (on_tool_calls response registry counted)

  unfoldable pub on_turn_end : ℕ → ToolRegistry V W → TurnEnd V × Run V W → TurnResult V W
  unfolding on_response
  on_turn_end iteration registry (answered response, run) =
      on_response iteration registry response run
  on_turn_end iteration registry (failed e, run) = stops (raised e run.transcript run.world)
  on_turn_end iteration registry (cancelled partial, run) =
      stops (raised "CancelledError" (interrupted partial run.transcript) run.world)

  -- The compaction of a transcript in the red, and the turn after it.
  unfoldable pub on_compacted :
      ℕ
      → ToolRegistry V W
      → Run V W
      → Result String CompactionResult × Transcript V
      → TurnResult V W
  unfolding one_turn on_turn_end
  on_compacted iteration registry run (err e, t) = stops (raised e t run.world)
  on_compacted iteration registry run (ok compaction, t) =
      on_turn_end iteration registry (one_turn registry.tools (record run { transcript = t }))

  unfoldable pub with_registry : ℕ → Run V W → Result String (ToolRegistry V W) → TurnResult V W
  unfolding on_compacted one_turn on_turn_end
  with_registry iteration run (err e) = stops (raised e run.transcript run.world)
  with_registry iteration run (ok registry) =
      if is_red (setting.snapshot_state registry.tools run.last_input_tokens run.transcript)
      then on_compacted iteration registry run (
          compact_if_needed (setting.snapshot_state registry.tools none) setting.count_text
            setting.show_args setting.acomplete setting.keep_recent_results
            setting.keep_recent_turns run.transcript)
      else on_turn_end iteration registry (one_turn registry.tools run)

  unfoldable pub turn : ℕ → Run V W → TurnResult V W
  unfolding add_tools with_registry
  turn iteration run =
      let empty : ToolRegistry V W = record {
        tools = [];
        call_history = run.call_history;
        permission_manager = run.permission_manager;
        has_write_gate = setting.has_write_gate;
      } in
      if setting.deadline_passed run.world
      then stops (
          result deadline
            (or_else (last_assistant_text run.transcript.messages)
              "[stopped: wall-clock deadline reached]")
            iteration run)
      else with_registry iteration run (add_tools (setting.for_turn run.transcript) empty)

  -- The grace turn, without tools.
  unfoldable pub grace_end : ℕ → TurnEnd V × Run V W → RunEnd V W
  grace_end iterations (answered response, run) =
      result max_iterations (or_else response.text exhausted_marker) iterations
        (say (from_assistant_response setting.number response) (count_response response run))
  grace_end iterations (failed e, run) =
      result max_iterations (or_else (last_assistant_text run.transcript.messages) exhausted_marker)
        iterations run
  grace_end iterations (cancelled partial, run) =
      raised "CancelledError" (interrupted partial run.transcript) run.world

  unfoldable pub grace_turn : ℕ → Run V W → RunEnd V W
  unfolding one_turn grace_end
  grace_turn iterations run = grace_end iterations (one_turn [] (say (user_text grace_nudge) run))

  -- The loop, after `iteration` turns and with `left` more.
  unfoldable pub turns : (left iteration : ℕ) → Run V W → RunEnd V W
  unfolding turn grace_turn
  turns zero iteration run = grace_turn iteration run
  turns (suc left) iteration run = proceed (turns left (suc iteration)) (turn iteration run)

  unfoldable pub arun :
      (max_iterations : ℕ)
      → String
      → Transcript V
      → Option (PermissionManager (Dict V))
      → W
      → RunEnd V W
  unfolding turns user_text append_message
  arun max user_message transcript manager w = turns max 0 (record {
    transcript = append_message (user_text user_message) transcript;
    call_history = [];
    permission_manager = manager;
    tokens_used = 0;
    last_input_tokens = none;
    completion_nudges = 0;
    world = w;
  })
