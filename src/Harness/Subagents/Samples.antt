-- ===== src/Harness/Subagents/Samples.antt =====
-- A batch of two sub-agents with a budget of one.
use construction_harness.Prelude.{
  if◌then◌else◌, ok, err, length, get_elem?, any, All, join, decimal, contains, nat_eq, string_eq,
  pair_eq, ℕ, String, ◌≡◌, refl, Bool, true, false, none, some, List, [], ◌∷◌, map, arith,
}
use construction_harness.Harness.Registry.{Tool}
use construction_harness.Harness.Agent.{StopReason}
use construction_harness.Harness.Subagents.{
  SubagentSpec, SubagentSpawner, AgentFailure, Loop, delegation_tool_names, spawn, spawn_all,
}
use construction_harness.Harness.Subagents.Tools.{
  spec_for, spawn_subagent, spawn_parallel_subagents,
}
use construction_harness.Harness.Subagents.Budget.{
  spawn_restricted, share, count_after, spawn_all-share,
}

abbrev tool_named : String → Tool ℕ ℕ
tool_named name = record {
  name = name;
  description = "";
  input_schema = 0;
  run = none;
  arun = none;
  side_effects = [];
}

abbrev spawner : SubagentSpawner ℕ ℕ
spawner = record {
  catalog = tool_named "read" ∷ tool_named "spawn_subagent" ∷ [];
  max_subagents_per_session = 1;
  spawn_count = 0;
}

abbrev loop : Loop ℕ ℕ
loop r = ok (record {
  summary = "done";
  tokens_used = 7;
  iterations_used = length r.tools;
  transcript = record { messages = []; system = none };
  stop_reason = StopReason.completed;
})

abbrev show_list : List String → String
show_list texts = join ", " texts

abbrev specs : List SubagentSpec
specs = map (spec_for "text" ("read" ∷ "spawn_subagent" ∷ [])) ("a" ∷ "b" ∷ [])

batch_test :
    (spawn_parallel_subagents show_list
      (λ i. loop)
      ("a" ∷ "b" ∷ [])
      "text"
      ("read" ∷ [])
      "two"
      spawner).0
    ≡ "--- sub-agent 1 ---\ndone\n--- sub-agent 2 ---\nerror: spawn budget of 1 exhausted"
unfolding spawn_parallel_subagents decimal
batch_test = refl

-- An exception with an empty text is shown as a result.
silent_failure_test :
    (spawn_subagent show_list
      (λ r. err (AgentFailure.other_failure ""))
      (spec_for "text" ("read" ∷ []) "a")
      "why"
      spawner).0
    ≡ ok "[sub-agent result; 0 tokens, 0 iters]\n"
unfolding spawn_subagent decimal
silent_failure_test = refl

abbrev delegates : Tool ℕ ℕ → Bool
delegates t = contains delegation_tool_names t.name

-- It fails where the other loop runs, if it is given a tool that delegates.
abbrev wary_loop : Loop ℕ ℕ
wary_loop r = if any delegates r.tools then err (AgentFailure.other_failure "") else loop r

none_delegates-any :
    (tools : List (Tool ℕ ℕ)) → All (λ t. delegates t ≡ false) tools → any delegates tools ≡ false
none_delegates-any [] h = refl
none_delegates-any (t ∷ tools) h = ground (arith, none_delegates-any tools h.1)

spawn_restricted_example :
    spawn show_list loop (spec_for "text" ("read" ∷ "spawn_subagent" ∷ []) "a") true spawner
    ≡ spawn show_list wary_loop (spec_for "text" ("read" ∷ "spawn_subagent" ∷ []) "a") true spawner
spawn_restricted_example =
    spawn_restricted show_list loop wary_loop (spec_for "text" ("read" ∷ "spawn_subagent" ∷ []) "a")
      true spawner (λ r h. rw (none_delegates-any r.tools h.none_delegates) refl)

spawn_all-share_example :
    (length (spawn_all show_list (λ i. loop) 0 specs spawner).0 ≡ length specs)
    × (get_elem? (spawn_all show_list (λ i. loop) 0 specs spawner).0 1
        ≡ some (
            share show_list
              (λ i. loop)
              spawner
              1
              (spec_for "text" ("read" ∷ "spawn_subagent" ∷ []) "b")))
    × ((spawn_all show_list (λ i. loop) 0 specs spawner).1.spawn_count
        ≡ count_after show_list spawner (length specs))
spawn_all-share_example =
    spawn_all-share show_list (λ i. loop) spawner specs 1
      (spec_for "text" ("read" ∷ "spawn_subagent" ∷ []) "b") refl
