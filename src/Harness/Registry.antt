-- ===== src/Harness/Registry.antt =====
-- src/harness/tools/registry.py: the dispatch of one tool call. A tool's body acts on a world `W`.
-- The schema validator, the name suggestion, the printing of a sorted list, `repr` and the lock of the
-- write gate are parameters, and so is the nonce of the fence round untrusted output.
pub mod Bodies
pub mod Guards
pub mod Loop
pub mod Samples
use construction_harness.Prelude.{
  ltb, leb, nat_beq, if◌then◌else◌, ltb→lt, leb→le, leb→lt, nat_beq_iff, Bool-cases, Option-cases,
  List-cases, Result, ok, err, length, get_elem?, set, take, drop, keep, all, any, All,
  length-append, length-keep-le, length-drop, length-set, All-append, All-keep, take-append-drop,
  length-map, concat, join, decimal, nonempty, Eq, ◌==◌, contains, contains-append, nat_eq,
  string_eq, pair_eq, ℤ, pos, negsuc, is_neg, pos_part, min_ℤ, ℕ, zero, suc, ◌+◌, ◌-◌, ◌*◌, ◌/◌,
  ◌%◌, ◌^◌, ◌≤◌, ◌<◌, min, max, String, ◌≡◌, refl, sym, ap, ◌∙◌, ◌≡⟨◌⟩◌, ◌∎, ◌≢◌, ◌↔◌, ◌⊎◌, inl,
  inr, Bool, true, false, not, ◌&&◌, ◌||◌, Option, none, some, List, [], ◌∷◌, ◌++◌, map, append-nil,
  append_assoc, map-append, arith, first_chars, char_count, starts_with,
}
use construction_harness.Harness.Messages.{Dict, lookup, malformed_args_key, ToolResult}
use construction_harness.Harness.Permissions.{
  Decision, deny, PermissionManager, PermissionOutcome, check, wrap_if_untrusted,
}

-- MAX_REPEAT_CALLS
abbrev pub max_repeat_calls : ℕ
max_repeat_calls = 3

-- An exception that a tool raises: `type(e).__name__` and `str(e)`.
pub record Raised : Type 0 where
  pub type_name : String
  pub message : String

-- src/harness/tools/base.py
pub record Tool (V W : Type 0) : Type 0 where
  pub name : String
  pub description : String
  pub input_schema : V
  pub run : Option (Dict V → W → Result Raised String × W)
  pub arun : Option (Dict V → W → Result Raised String × W)
  pub side_effects : List String

pub record ToolRegistry (V W : Type 0) : Type 0 where
  pub tools : List (Tool V W)
  pub call_history : List (String × String)
  pub permission_manager : Option (PermissionManager (Dict V))
  pub has_write_gate : Bool

-- xs[-n:]
unfoldable pub last_of {ℓ} : {A : Type ℓ} → ℕ → List A → List A
last_of n xs = drop (length xs - n) xs

-- ValidationError.__str__
abbrev pub show_error : String × String → String
show_error (path, message) = concat (path ∷ ": " ∷ message ∷ [])

unfoldable pub error_result : String → String → ToolResult
error_result call_id content = record { call_id = call_id; content = content; is_error = true }

module _ {V W : Type 0} where
  unfoldable pub find_tool : String → List (Tool V W) → Option (Tool V W)
  find_tool name [] = none
  find_tool name (t ∷ tools) = if t.name == name then some t else find_tool name tools

  -- add: a duplicate name is a ValueError
  unfoldable pub add_tool : Tool V W → ToolRegistry V W → Result String (ToolRegistry V W)
  unfolding find_tool
  add_tool tool registry = elim (find_tool tool.name registry.tools) [
    | some other ↦ err (concat ("duplicate tool name: " ∷ tool.name ∷ []))
    | none ↦ ok (record registry { tools = registry.tools ++ tool ∷ [] })
  ]

  -- bool(tool.side_effects) and tool.side_effects <= {"read"}
  unfoldable pub is_read_only : Tool V W → Bool
  is_read_only tool = elim tool.side_effects [
    | [] ↦ false
    | e ∷ effects ↦ e == "read" && all (λ f. f == "read") effects
  ]

module _ {V : Type 0} (dumps : Dict V → String) where
  -- (name, json.dumps(args, sort_keys=True))
  unfoldable pub call_key : String → Dict V → String × String
  call_key name args = (name, dumps args)

  -- _record: the last 100 calls are kept.
  unfoldable pub record_call : String → Dict V → List (String × String) → List (String × String)
  record_call name args history =
      let longer = history ++ call_key name args ∷ [] in
      if ltb 100 (length longer) then last_of 100 longer else longer

  -- _check_loop: whether the last three calls are this one.
  unfoldable pub is_loop : String → Dict V → List (String × String) → Bool
  is_loop name args history =
      leb max_repeat_calls
        (length (keep (λ k. k == call_key name args) (last_of max_repeat_calls history)))

-- What the registry takes from outside: `json.dumps(args, sort_keys=True)`, the schema validator's
-- errors, difflib's best match, `repr`, the printing of a list of names, `str` of a JSON value that is a
-- text, and the nonce and the lock that the world provides.
pub record Outside (V W : Type 0) : Type 0 where
  pub dumps : Dict V → String
  pub validate : Dict V → V → List (String × String)
  pub close_match : String → List String → Option String
  pub repr : String → String
  pub show_names : List String → String
  pub text_of : V → String
  pub nonce : W → String
  pub acquire : W → W
  pub release : W → W

abbrev pub is_deny : Decision → Bool
is_deny deny = true
is_deny _ = false

-- raw if len(raw) <= 200 else raw[:200] + "…"
unfoldable pub preview : String → String
preview raw = if leb (char_count raw) 200 then raw else concat (first_chars 200 raw ∷ "…" ∷ [])

-- f" Did you mean {close[0]!r}?" if close else ""
abbrev pub suggestion : (String → String) → Option String → String
suggestion repr none = ""
suggestion repr (some name) = concat (" Did you mean " ∷ repr name ∷ "?" ∷ [])

module _ {V W : Type 0} (o : Outside V W) where
  unfoldable pub unknown_tool : String → List (Tool V W) → String
  unknown_tool name tools =
      let names = map (λ (t : Tool V W). t.name) tools in
      concat (
        "unknown tool: "
        ∷ o.repr name
        ∷ "."
        ∷ suggestion o.repr (o.close_match name names)
        ∷ " Available: "
        ∷ o.show_names names
        ∷ [])

  unfoldable pub malformed_args : String → V → String
  malformed_args name raw = concat (
      name
      ∷ ": arguments were not valid JSON and could not be parsed. Re-issue the call with a single well-formed JSON object. Received: "
      ∷ o.repr (preview (o.text_of raw))
      ∷ [])

  unfoldable pub validation_failure : String → List (String × String) → String
  validation_failure name errors =
      concat (name ∷ ": invalid arguments. " ∷ join "; " (map show_error errors) ∷ [])

  unfoldable pub loop_detected : String → String
  loop_detected name = concat (
      "tool-call loop detected: "
      ∷ name
      ∷ " called with identical arguments "
      ∷ decimal max_repeat_calls
      ∷ " times in a row. Try a different approach or different arguments, or stop and return your current best answer."
      ∷ [])

  -- The content of the tool's own implementation: `arun` if there is one, else `run`.
  unfoldable pub tool_body : Tool V W → Dict V → W → Result Raised String × W
  tool_body tool args w = elim tool.arun [
    | some body ↦ body args w
    | none ↦ elim tool.run [
      | some body ↦ body args w
      | none ↦ (
        err (record {
          type_name = "RuntimeError";
          message = concat ("tool " ∷ o.repr tool.name ∷ " has no implementation" ∷ []);
        }),
        w,
      )
    ]
  ]

  -- if self.write_gate is not None and mutates: async with self.write_gate: ...
  unfoldable pub gated_body : Bool → Tool V W → Dict V → W → Result Raised String × W
  gated_body gate tool args w =
      if gate && not (is_read_only tool)
      then (let (r, w') = tool_body tool args (o.acquire w) in (r, o.release w'))
      else tool_body tool args w

  abbrev pub fence : W → Tool V W → String → String
  fence w tool content = wrap_if_untrusted (o.nonce w) tool.side_effects tool.name content

  -- The result of the body, or of its exception, whose message is fenced like a return value.
  unfoldable pub body_result : String → String → Tool V W → W → Result Raised String → ToolResult
  body_result name call_id tool w (ok content) = record {
    call_id = call_id;
    content = fence w tool content;
    is_error = false;
  }
  body_result name call_id tool w (err e) =
      error_result call_id
        (concat (name ∷ " raised " ∷ e.type_name ∷ ": " ∷ fence w tool e.message ∷ []))

  -- From `self._record` on: the registry has let the call through.
  unfoldable pub dispatch_permitted :
      String → Dict V → String → Tool V W → ToolRegistry V W → W → ToolResult × ToolRegistry V W × W
  dispatch_permitted name args call_id tool registry w =
      let history = record_call o.dumps name args registry.call_history in
      let recorded = record registry { call_history = history } in
      if is_loop o.dumps name args history
      then (error_result call_id (loop_detected name), recorded, w)
      else (let (r, w') = gated_body registry.has_write_gate tool args w in
          (body_result name call_id tool w' r, recorded, w'))

  -- The permission check, where the registry has a manager.
  unfoldable pub dispatch_valid :
      Option (PermissionManager (Dict V))
      → String
      → Dict V
      → String
      → Tool V W
      → ToolRegistry V W
      → W
      → ToolResult × ToolRegistry V W × W
  dispatch_valid none name args call_id tool registry w =
      dispatch_permitted name args call_id tool registry w
  dispatch_valid (some manager) name args call_id tool registry w =
      let (outcome, manager') = check o.dumps tool.name tool.side_effects args manager in
      let registry' = record registry { permission_manager = some manager' } in
      if is_deny outcome.decision
      then (
        error_result call_id (concat (name ∷ ": permission denied — " ∷ outcome.reason ∷ [])),
        registry',
        w,
      )
      else dispatch_permitted name args call_id tool registry' w

  unfoldable pub dispatch_known :
      String → Dict V → String → Tool V W → ToolRegistry V W → W → ToolResult × ToolRegistry V W × W
  dispatch_known name args call_id tool registry w = elim (lookup malformed_args_key args) [
    | some raw ↦ (error_result call_id (malformed_args name raw), registry, w)
    | none ↦
        let errors = o.validate args tool.input_schema in
        let valid = dispatch_valid registry.permission_manager name args call_id tool registry w in
        elim errors [
          | [] ↦ valid
          | e ∷ more ↦ (error_result call_id (validation_failure name (e ∷ more)), registry, w)
        ]
  ]

  unfoldable pub dispatch :
      String → Dict V → String → ToolRegistry V W → W → ToolResult × ToolRegistry V W × W
  dispatch name args call_id registry w = elim (find_tool name registry.tools) [
    | none ↦ (error_result call_id (unknown_tool name registry.tools), registry, w)
    | some tool ↦ dispatch_known name args call_id tool registry w
  ]
