-- ===== src/Harness/Registry/Guards.antt =====
-- When a tool's body runs.
use construction_harness.Prelude.{
  Option-cases, List-cases, Result, nat_eq, string_eq, pair_eq, String, ◌≡◌, sym, ◌≢◌, ◌⊎◌, inl,
  inr, true, false, Option, none, some, [], arith, subst,
}
use construction_harness.Harness.Messages.{Dict, lookup, malformed_args_key, ToolResult}
use construction_harness.Harness.Permissions.{PermissionManager, check}
use construction_harness.Harness.Registry.Bodies.{
  RanFrom, Answers, gated_body-RanFrom, body_result-Answers,
}
use construction_harness.Harness.Registry.{
  Tool, ToolRegistry, error_result, find_tool, Raised, record_call, is_loop, Outside, gated_body,
  body_result, is_deny, dispatch_permitted, dispatch_valid, dispatch_known, dispatch,
}

module _ {V W : Type 0} (o : Outside V W) (name : String) (args : Dict V) (call_id : String) where
  abbrev pub Reply : Type 0
  Reply = ToolResult × ToolRegistry V W × W

  -- The call was refused: an error for this call, and no tool has touched the world.
  abbrev pub Refused : W → Reply → Type 0
  Refused w r = (r.0.is_error ≡ true) × (r.0.call_id ≡ call_id) × (r.2 ≡ w)

  -- The permission check does not deny.
  abbrev pub Permitted : Option (PermissionManager (Dict V)) → Tool V W → Type 0
  Permitted none tool = Unit
  Permitted (some manager) tool =
      is_deny (check o.dumps tool.name tool.side_effects args manager).0.decision ≡ false

  -- The recorded call is not the third of its kind in a row.
  abbrev pub NoLoop : ToolRegistry V W → Type 0
  NoLoop registry =
      is_loop o.dumps name args (record_call o.dumps name args registry.call_history) ≡ false

  abbrev pub Ran : ToolRegistry V W → Tool V W → W → Reply → Type 0
  Ran registry tool w r =
      (out : Result Raised String) × RanFrom o name args call_id registry.has_write_gate tool w out
        r.2
      × Answers o name args call_id tool r.2 out r.0

  -- The reply made from the gated body.
  abbrev RanBy : ToolRegistry V W → Tool V W → W → Reply → Type 0
  RanBy registry tool w r =
      (r.2 ≡ (gated_body o registry.has_write_gate tool args w).1)
      × (r.0
          ≡ body_result o name call_id tool r.2
              (gated_body o registry.has_write_gate tool args w).0)

  RanBy-Ran :
      (registry : ToolRegistry V W) (tool : Tool V W) (w : W) (r : Reply)
      → RanBy registry tool w r
      → Ran registry tool w r
  RanBy-Ran registry tool w r (last, result) =
      let (out, next) = gated_body o registry.has_write_gate tool args w in
      (
        out,
        subst (RanFrom o name args call_id registry.has_write_gate tool w out) (sym last)
            (gated_body-RanFrom o name args call_id registry.has_write_gate tool w),
        subst (Answers o name args call_id tool r.2 out) (sym result)
            (body_result-Answers o name args call_id tool r.2 out),
      )

  -- Why a call is refused.
  abbrev pub Looping : ToolRegistry V W → Type 0
  Looping registry =
      is_loop o.dumps name args (record_call o.dumps name args registry.call_history) ≡ true

  abbrev pub Denied : Option (PermissionManager (Dict V)) → Tool V W → Type 0
  Denied none tool = ⊥
  Denied (some manager) tool =
      is_deny (check o.dumps tool.name tool.side_effects args manager).0.decision ≡ true

  abbrev pub Unfit : ToolRegistry V W → Tool V W → Type 0
  Unfit registry tool =
      (lookup malformed_args_key args ≢ none)
      ⊎ (o.validate args tool.input_schema ≢ [])
      ⊎ Denied registry.permission_manager tool
      ⊎ Looping registry

  dispatch_permitted_cases :
      (tool : Tool V W) (registry : ToolRegistry V W) (w : W)
      → (Looping registry × Refused w (dispatch_permitted o name args call_id tool registry w))
        ⊎ (NoLoop registry
            × RanBy registry tool w (dispatch_permitted o name args call_id tool registry w))
  unfolding dispatch_permitted error_result
  dispatch_permitted_cases tool registry w = ground arith

  dispatch_valid_cases :
      (manager : Option (PermissionManager (Dict V))) (tool : Tool V W)
      (registry : ToolRegistry V W) (w : W)
      → ((Denied manager tool ⊎ Looping registry)
          × Refused w (dispatch_valid o manager name args call_id tool registry w))
        ⊎ (Permitted manager tool
            × NoLoop registry
            × RanBy registry tool w (dispatch_valid o manager name args call_id tool registry w))
  unfolding dispatch_valid error_result
  dispatch_valid_cases none tool registry w = elim (dispatch_permitted_cases tool registry w) [
    | inl (looping, refused) ↦ inl (inr looping, refused)
    | inr (fresh, ran) ↦ inr (tt, fresh, ran)
  ]
  dispatch_valid_cases (some manager) tool registry w =
      let after = (check o.dumps tool.name tool.side_effects args manager).1 in
      let checked = record registry { permission_manager = some after } in
      ground (arith, dispatch_permitted_cases tool checked w)

  dispatch_known_cases :
      (tool : Tool V W) (registry : ToolRegistry V W) (w : W)
      → (Unfit registry tool × Refused w (dispatch_known o name args call_id tool registry w))
        ⊎ ((lookup malformed_args_key args ≡ none)
            × (o.validate args tool.input_schema ≡ [])
            × Permitted registry.permission_manager tool
            × NoLoop registry
            × RanBy registry tool w (dispatch_known o name args call_id tool registry w))
  unfolding dispatch_known error_result
  dispatch_known_cases tool registry w = elim (Option-cases (lookup malformed_args_key args)) [
    | inr (raw, malformed) ↦ inl (inl (ground arith), ground arith)
    | inl parsed ↦ elim (List-cases (o.validate args tool.input_schema)) [
      | inr (e, more, invalid) ↦ inl (inr (inl (ground arith)), ground arith)
      | inl valid ↦ elim (dispatch_valid_cases registry.permission_manager tool registry w) [
        | inl (why, refused) ↦ inl (inr (inr why), ground arith)
        | inr (permitted, fresh, ran) ↦ inr (parsed, valid, permitted, fresh, ground arith)
      ]
    ]
  ]

  -- A dispatched call is refused exactly if no tool is registered under its name, its arguments were
  -- no JSON, they do not meet the tool's schema, a permission manager denies it, or it is the third
  -- identical call in a row: then the result is an error for this call, and no tool body has run.
  -- Any other call has run the found tool's own body once, between an acquire and a release of the
  -- write gate if the registry has one and the tool's effects are not all "read" or there are none,
  -- and outside the gate otherwise; the result is the fenced content, or an error with the fenced
  -- message if the body raised. A tool without a body raises in its place.
  pub dispatch_cases :
      (registry : ToolRegistry V W) (w : W)
      → (((find_tool name registry.tools ≡ none)
            ⊎ ((tool : Tool V W) × (find_tool name registry.tools ≡ some tool)
                × Unfit registry tool))
          × Refused w (dispatch o name args call_id registry w))
        ⊎ ((tool : Tool V W) × (find_tool name registry.tools ≡ some tool)
            × (lookup malformed_args_key args ≡ none)
            × (o.validate args tool.input_schema ≡ [])
            × Permitted registry.permission_manager tool
            × NoLoop registry
            × Ran registry tool w (dispatch o name args call_id registry w))
  unfolding dispatch error_result
  dispatch_cases registry w = elim (Option-cases (find_tool name registry.tools)) [
    | inl unknown ↦ inl (inl unknown, ground arith)
    | inr (tool, found) ↦ elim (dispatch_known_cases tool registry w) [
      | inl (why, refused) ↦ inl (inr (tool, found, why), ground arith)
      | inr (parsed, valid, permitted, fresh, ran) ↦ inr (
        tool,
        found,
        parsed,
        valid,
        permitted,
        fresh,
        RanBy-Ran registry tool w (dispatch o name args call_id registry w) (ground arith),
      )
    ]
  ]
