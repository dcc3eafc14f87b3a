-- ===== src/Harness/Agent/Outcomes.antt =====
-- What a run's stop reason says.
use construction_harness.Prelude.{
  ltb, Bool-cases, Option-cases, Result, ok, err, nonempty, nat_eq, string_eq, pair_eq, ℕ, zero,
  suc, ◌+◌, ◌≤◌, ◌<◌, String, ◌≡◌, refl, ◌⊎◌, inl, inr, true, Option, none, some, arith,
}
use construction_harness.Harness.Messages.{
  Dict, Transcript, ProviderResponse, text_or_empty, is_final, from_assistant_response,
}
use construction_harness.Harness.Plans.{Plan}
use construction_harness.Harness.Permissions.{PermissionManager}
use construction_harness.Harness.Registry.{ToolRegistry}
use construction_harness.Harness.Context.Compactor.{is_red, CompactionResult}
use construction_harness.Harness.Agent.{
  empty_marker, completed, max_iterations, deadline, empty_response, incomplete_plan,
  AgentRunResult, TurnEnd, answered, failed, cancelled, Setting, Run, RunEnd, finished, raised,
  TurnResult, goes_on, stops, open_plan,
}
use construction_harness.Harness.Agent.Loop.{
  say, count_response, one_turn, on_open_plan, on_answer, on_final, on_tool_calls, on_response,
  on_turn_end, on_compacted, proceed, with_registry, turn, grace_end, grace_turn, turns, arun,
}

module _ {V W : Type 0} (setting : Setting V W) (max_iters : ℕ) where
  -- What each stop reason says of the result and of the world at the end.
  abbrev pub Reason : AgentRunResult V → W → Type 0
  Reason r w =
      ((r.stop_reason ≡ completed)
        × (open_plan (setting.plan_of w) ≡ none)
        × (nonempty (setting.strip r.summary) ≡ true))
      ⊎ ((r.stop_reason ≡ empty_response)
          × (open_plan (setting.plan_of w) ≡ none)
          × (r.summary ≡ empty_marker))
      ⊎ ((r.stop_reason ≡ incomplete_plan)
          × ((plan : Plan) × (open_plan (setting.plan_of w) ≡ some plan))
          × (3 ≤ r.iterations_used))
      ⊎ ((r.stop_reason ≡ deadline) × (setting.deadline_passed w ≡ true))
      ⊎ ((r.stop_reason ≡ max_iterations) × (r.iterations_used ≡ max_iters))

  abbrev pub Ends : RunEnd V W → Type 0
  Ends (finished r w) = (r.iterations_used ≤ max_iters) × Reason r w
  Ends (raised e t w) = Unit

  -- A turn that goes on has used at most one nudge; one that stops gives an outcome.
  abbrev TurnEnds : ℕ → TurnResult V W → Type 0
  TurnEnds iteration (goes_on run) = run.completion_nudges ≤ suc iteration
  TurnEnds iteration (stops end) = Ends end

  open_plan_ends :
      (iteration : ℕ) (response : ProviderResponse V) (plan : Plan) (run : Run V W)
      → iteration < max_iters
      → run.completion_nudges ≤ iteration
      → open_plan (setting.plan_of run.world) ≡ some plan
      → TurnEnds iteration (on_open_plan setting iteration response plan run)
  unfolding on_open_plan
  open_plan_ends iteration response plan run lt le is_open =
      elim (Bool-cases (ltb run.completion_nudges 2)) [
        | inl nudged ↦ rw nudged (omega arith)
        | inr spent ↦
            let two : 2 ≤ run.completion_nudges = ground arith in
            rw spent (omega arith, inr (inr (inl (refl, (plan, is_open), omega (arith, two)))))
      ]

  answer_ends :
      (iteration : ℕ) (response : ProviderResponse V) (run : Run V W)
      → iteration < max_iters
      → open_plan (setting.plan_of run.world) ≡ none
      → TurnEnds iteration (on_answer setting iteration response run)
  unfolding on_answer
  answer_ends iteration response run lt closed =
      elim (Bool-cases (nonempty (setting.strip (text_or_empty response.text)))) [
        | inl text ↦ rw text (omega arith, inl (refl, closed, text))
        | inr blank ↦ rw blank (omega arith, inr (inl (refl, closed, refl)))
      ]

  final_ends :
      (iteration : ℕ) (response : ProviderResponse V) (run : Run V W)
      → iteration < max_iters
      → run.completion_nudges ≤ iteration
      → TurnEnds iteration (on_final setting iteration response run)
  unfolding on_final
  final_ends iteration response run lt le =
      let said = say (from_assistant_response setting.number response) run in
      elim (Option-cases (open_plan (setting.plan_of run.world))) [
        | inl closed ↦ rw (on_final, closed) (answer_ends iteration response said lt closed)
        | inr (plan, is_open) ↦
            rw (on_final, is_open) (open_plan_ends iteration response plan said lt le is_open)
      ]

  response_ends :
      (iteration : ℕ) (registry : ToolRegistry V W) (response : ProviderResponse V) (run : Run V W)
      → iteration < max_iters
      → run.completion_nudges ≤ iteration
      → TurnEnds iteration (on_response setting iteration registry response run)
  unfolding on_response on_tool_calls
  response_ends iteration registry response run lt le = elim (Bool-cases (is_final response)) [
    | inl final ↦ rw final (final_ends iteration response (count_response response run) lt le)
    | inr calls ↦ rw calls (omega arith)
  ]

  turn_end_ends :
      (iteration : ℕ) (registry : ToolRegistry V W) (r : TurnEnd V × Run V W)
      → iteration < max_iters
      → r.1.completion_nudges ≤ iteration
      → TurnEnds iteration (on_turn_end setting iteration registry r)
  unfolding on_turn_end
  turn_end_ends iteration registry (answered response, run) lt le =
      response_ends iteration registry response run lt le
  turn_end_ends iteration registry (failed e, run) lt le = tt
  turn_end_ends iteration registry (cancelled partial, run) lt le = tt

  compacted_ends :
      (iteration : ℕ) (registry : ToolRegistry V W) (run : Run V W)
      (r : Result String CompactionResult × Transcript V)
      → iteration < max_iters
      → run.completion_nudges ≤ iteration
      → TurnEnds iteration (on_compacted setting iteration registry run r)
  unfolding on_compacted one_turn
  compacted_ends iteration registry run (err e, t) lt le = tt
  compacted_ends iteration registry run (ok compaction, t) lt le =
      turn_end_ends iteration registry
        (one_turn setting registry.tools (record run { transcript = t })) lt le

  registry_ends :
      (iteration : ℕ) (run : Run V W) (registry : Result String (ToolRegistry V W))
      → iteration < max_iters
      → run.completion_nudges ≤ iteration
      → TurnEnds iteration (with_registry setting iteration run registry)
  unfolding with_registry one_turn
  registry_ends iteration run (err e) lt le = tt
  registry_ends iteration run (ok registry) lt le =
      let state = setting.snapshot_state registry.tools run.last_input_tokens run.transcript in
      elim (Bool-cases (is_red state)) [
        | inl full ↦ rw full (compacted_ends iteration registry run _ lt le)
        | inr fits ↦
            rw fits (turn_end_ends iteration registry (one_turn setting registry.tools run) lt le)
      ]

  turn_ends :
      (iteration : ℕ) (run : Run V W)
      → iteration < max_iters
      → run.completion_nudges ≤ iteration
      → TurnEnds iteration (turn setting iteration run)
  unfolding turn
  turn_ends iteration run lt le = elim (Bool-cases (setting.deadline_passed run.world)) [
    | inl late ↦ rw late (omega arith, inr (inr (inr (inl (refl, late)))))
    | inr early ↦ rw early (registry_ends iteration run _ lt le)
  ]

  grace-Ends : (r : TurnEnd V × Run V W) → Ends (grace_end setting max_iters r)
  unfolding grace_end
  grace-Ends (answered response, run) = (omega arith, inr (inr (inr (inr (refl, refl)))))
  grace-Ends (failed e, run) = (omega arith, inr (inr (inr (inr (refl, refl)))))
  grace-Ends (cancelled partial, run) = tt

  proceed_end :
      (rest : Run V W → RunEnd V W) (iteration : ℕ) (r : TurnResult V W)
      → ((run : Run V W) → run.completion_nudges ≤ suc iteration → Ends (rest run))
      → TurnEnds iteration r
      → Ends (proceed rest r)
  proceed_end rest iteration (goes_on run) ends h = ends run h
  proceed_end rest iteration (stops end) ends h = h

  turns_end :
      (left iteration : ℕ) (run : Run V W)
      → iteration + left ≡ max_iters
      → run.completion_nudges ≤ iteration
      → Ends (turns setting left iteration run)
  unfolding turns grace_turn
  turns_end zero iteration run e le =
      let at_max : iteration ≡ max_iters = omega arith in rw at_max (grace-Ends _)
  turns_end (suc left) iteration run e le =
      proceed_end (turns setting left (suc iteration)) iteration (turn setting iteration run)
        (λ run' h. turns_end left (suc iteration) run' (omega arith) h)
        (turn_ends iteration run (omega arith) le)

-- A run that does not raise has used at most `max_iterations` iterations, and its stop reason tells the
-- truth: "completed" is said only with a text that is not blank and with no plan open in the world at
-- the end; "empty_response" only with no plan open; "incomplete_plan" only with a plan open and from
-- the third iteration on; "deadline" only past the deadline; and "max_iterations" only when all have
-- been used.
pub arun_outcome :
    {V W : Type 0} (setting : Setting V W) (max_iters : ℕ) (user_message : String)
    (transcript : Transcript V) (manager : Option (PermissionManager (Dict V))) (w : W)
    → Ends setting max_iters (arun setting max_iters user_message transcript manager w)
unfolding arun
arun_outcome setting max_iters user_message transcript manager w =
    turns_end setting max_iters max_iters 0 _ (omega arith) (omega arith)
