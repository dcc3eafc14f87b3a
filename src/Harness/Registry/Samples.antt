-- ===== src/Harness/Registry/Samples.antt =====
-- Concrete registries, with a tool that counts its runs in the world.
use construction_harness.Prelude.{
  ok, join, decimal, nat_eq, string_eq, pair_eq, ℕ, suc, String, ◌≡◌, refl, ◌⊎◌, false, none, some,
  [], ◌∷◌,
}
use construction_harness.Harness.Messages.{Dict, lookup, malformed_args_key}
use construction_harness.Harness.Registry.{
  Tool, ToolRegistry, Outside, find_tool, call_key, dispatch,
}
use construction_harness.Harness.Registry.Guards.{
  Unfit, Refused, Permitted, NoLoop, Ran, dispatch_cases,
}
use construction_harness.Harness.Registry.Loop.{dispatch_times, repeated_call-Refused}

abbrev outside : Outside String ℕ
outside = record {
  dumps = λ args. elim args [ [] ↦ "{}" | entry ∷ more ↦ entry.1 ];
  validate = λ args schema. elim args [ [] ↦ ("", "required") ∷ [] | entry ∷ more ↦ [] ];
  close_match = λ name names. none;
  repr = λ s. s;
  show_names = join ", ";
  text_of = λ v. v;
  nonce = λ w. "0f";
  acquire = λ w. w;
  release = λ w. w;
}

abbrev counter : Tool String ℕ
counter = record {
  name = "count";
  description = "Counts.";
  input_schema = "object";
  run = some (λ args w. (ok (decimal w), suc w));
  arun = none;
  side_effects = "read" ∷ [];
}

abbrev fresh : ToolRegistry String ℕ
fresh = record {
  tools = counter ∷ [];
  call_history = [];
  permission_manager = none;
  has_write_gate = false;
}

abbrev args : Dict String
args = ("by", "1") ∷ []

abbrev twice : ToolRegistry String ℕ
twice = record fresh { call_history = ("count", "1") ∷ ("count", "1") ∷ [] }

dispatch_cases_example :
    (((find_tool "count" fresh.tools ≡ none)
        ⊎ ((tool : Tool String ℕ) × (find_tool "count" fresh.tools ≡ some tool)
            × Unfit outside "count" args "c1" fresh tool))
      × Refused outside "count" args "c1" 0 (dispatch outside "count" args "c1" fresh 0))
    ⊎ ((tool : Tool String ℕ) × (find_tool "count" fresh.tools ≡ some tool)
        × (lookup malformed_args_key args ≡ none)
        × (outside.validate args tool.input_schema ≡ [])
        × Permitted outside "count" args "c1" none tool
        × NoLoop outside "count" args "c1" fresh
        × Ran outside "count" args "c1" fresh tool 0 (dispatch outside "count" args "c1" fresh 0))
dispatch_cases_example = dispatch_cases outside "count" args "c1" fresh 0

repeated_call-Refused_example :
    ((dispatch_times outside "count" args "c3" 4 twice 2).1 ≡ 2)
    × Refused outside "count" args "c3" 2 (
        dispatch outside "count" args "c3"
          (dispatch_times outside "count" args "c3" 4 twice 2).0
          (dispatch_times outside "count" args "c3" 4 twice 2).1)
unfolding call_key
repeated_call-Refused_example =
    repeated_call-Refused outside "count" args "c3" 4 twice 2
      (record { before = []; history_is = refl })
