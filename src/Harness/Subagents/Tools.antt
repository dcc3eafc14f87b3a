-- ===== src/Harness/Subagents/Tools.antt =====
-- The two delegation tools (spawn_tool.py and parallel_tool.py of src/harness/subagents).
use construction_harness.Prelude.{
  ltb, leb, if◌then◌else◌, Result, ok, err, length, concat, join, decimal, nonempty, contains,
  nat_eq, string_eq, pair_eq, ℕ, suc, String, Bool, false, not, ◌||◌, Option, none, some, List, [],
  ◌∷◌, map,
}
use construction_harness.Harness.Subagents.{
  SubagentSpec, SubagentResult, SubagentSpawner, Loop, spawn, spawn_all,
}

abbrev pub or_no_error : Option String → String
or_no_error none = ""
or_no_error (some text) = text

abbrev pub shown : SubagentResult → String
shown r =
    if nonempty (or_no_error r.error)
    then concat ("sub-agent error: " ∷ or_no_error r.error ∷ [])
    else concat (
        "[sub-agent result; "
        ∷ decimal r.tokens_used
        ∷ " tokens, "
        ∷ decimal r.iterations_used
        ∷ " iters]\n"
        ∷ r.summary
        ∷ [])

abbrev pub shown_or_raised : Result String SubagentResult → Result String String
shown_or_raised (ok r) = ok (shown r)
shown_or_raised (err text) = err text

-- SubagentSpec(objective=obj, ...) with its defaults
abbrev pub spec_for : String → List String → String → SubagentSpec
spec_for output_format tools_allowed objective = record {
  objective = objective;
  output_format = output_format;
  tools_allowed = tools_allowed;
  max_iterations = 20;
  max_tokens = 50000;
  system_override = none;
}

abbrev pub error_or_summary : SubagentResult → String
error_or_summary r =
    if nonempty (or_no_error r.error)
    then concat ("error: " ∷ or_no_error r.error ∷ [])
    else r.summary

abbrev pub numbered : ℕ → List SubagentResult → List String
numbered i [] = []
numbered i (r ∷ results) =
    concat ("--- sub-agent " ∷ decimal i ∷ " ---" ∷ [])
    ∷ error_or_summary r
    ∷ numbered (suc i) results

abbrev pub repeats : List String → Bool
repeats [] = false
repeats (s ∷ texts) = contains texts s || repeats texts

module _ (show_list : List String → String) {V W : Type 0} where
  -- spawn_subagent; an exceeded budget is raised to the registry
  unfoldable pub spawn_subagent :
      Loop V W
      → SubagentSpec
      → (justification : String) → SubagentSpawner V W
      → Result String String × SubagentSpawner V W
  unfolding spawn
  spawn_subagent loop spec justification spawner =
      if not (nonempty justification)
      then (
        ok
            "error: justification is required. If you cannot explain why a sub-agent is better than inline handling, do not spawn one.",
        spawner,
      )
      else if leb (length spec.tools_allowed) 0
      then (
        ok "error: tools_allowed must be non-empty. Specify which tools the sub-agent needs.",
        spawner,
      )
      else (let spawned = spawn show_list loop spec false spawner in
          (shown_or_raised spawned.0, spawned.1))

  unfoldable pub spawn_parallel_subagents :
      (ℕ → Loop V W)
      → (objectives : List String) → (output_format : String) → (tools_allowed : List String)
      → (justification : String) → SubagentSpawner V W
      → String × SubagentSpawner V W
  unfolding spawn_all
  spawn_parallel_subagents loops objectives output_format tools_allowed justification spawner =
      if not (nonempty justification)
      then ("error: justification required", spawner)
      else if ltb (length objectives) 2
      then ("error: use spawn_subagent for a single objective", spawner)
      else if repeats objectives
      then ("error: objectives must be distinct (no duplicates)", spawner)
      else (let spawned =
            spawn_all show_list loops 0 (map (spec_for output_format tools_allowed) objectives)
              spawner in
          (join "\n" (numbered 1 spawned.0), spawned.1))
