-- ===== src/Harness/Registry/Bodies.antt =====
-- The run of one tool's body, behind the write gate or not, and the result that is made of it.
use construction_harness.Prelude.{
  Bool-cases, Option-cases, Result, ok, err, all, All, concat, ◌==◌, nat_eq, string_eq, pair_eq,
  String, ◌≡◌, refl, sym, ap, ◌≢◌, ◌↔◌, ◌⊎◌, inl, inr, Bool, true, false, not, ◌&&◌, none, some,
  List, [], ◌∷◌, arith,
}
use construction_harness.Harness.Messages.{Dict, ToolResult}
use construction_harness.Harness.Permissions.{wrap_if_untrusted}
use construction_harness.Harness.Registry.{
  Tool, error_result, is_read_only, Raised, tool_body, Outside, gated_body, body_result,
}

-- Every effect of the tool is "read", and it has one.
abbrev pub OnlyReads : List String → Type 0
OnlyReads effects = All (λ e. e ≡ "read") effects × (effects ≢ [])

abbrev pub NeedsGate : Bool → List String → Type 0
NeedsGate gate effects = (gate ≡ true) × ¬ OnlyReads effects

all_read-All :
    (effects : List String)
    → (all (λ f. f == "read") effects ≡ true) ↔ All (λ e. e ≡ "read") effects
all_read-All [] = ((λ h. tt), (λ h. refl))
all_read-All (e ∷ effects) =
    let (to, from) = all_read-All effects in
    let (same, test) = string_eq.test_iff e "read" in
    (
      (λ h. (same (ground arith), to (ground arith))),
      (λ h. let own = test h.0 in let others = from h.1 in ground arith),
    )

-- The tool without its effects, and with others.
abbrev with_effects : {V W : Type 0} → Tool V W → List String → Tool V W
with_effects tool effects = record tool { side_effects = effects }

with_effects-OnlyReads :
    {V W : Type 0} (tool : Tool V W) (effects : List String)
    → (is_read_only (with_effects tool effects) ≡ true) ↔ OnlyReads effects
unfolding is_read_only
with_effects-OnlyReads tool [] = ((λ h. absurd (ground arith)), (λ h. absurd (h.1 refl)))
with_effects-OnlyReads tool (e ∷ effects) =
    let (to, from) = all_read-All (e ∷ effects) in ((λ h. (to h, ground arith)), (λ h. from h.0))

is_read_only-OnlyReads :
    {V W : Type 0} (tool : Tool V W) → (is_read_only tool ≡ true) ↔ OnlyReads tool.side_effects
is_read_only-OnlyReads tool = with_effects-OnlyReads tool tool.side_effects

module _ {V W : Type 0} (o : Outside V W) (name : String) (args : Dict V) (call_id : String) where
  -- One run of the tool's own body takes a world to a result and the next world: of `arun` if there
  -- is one, else of `run`. A tool with neither raises, and leaves the world.
  pub data Runs (tool : Tool V W) (w : W) (out : Result Raised String) (next : W) : Type 0 where
    runs_async :
        (body : Dict V → W → Result Raised String × W)
        → tool.arun ≡ some body
        → body args w ≡ (out, next)
        → Runs tool w out next
    runs_sync :
        (body : Dict V → W → Result Raised String × W)
        → tool.arun ≡ none
        → tool.run ≡ some body
        → body args w ≡ (out, next)
        → Runs tool w out next
    has_no_body :
        (e : Raised)
        → tool.arun ≡ none
        → tool.run ≡ none
        → e.type_name ≡ "RuntimeError"
        → out ≡ err e
        → next ≡ w
        → Runs tool w out next

  -- The tool's body has run once. It ran between an acquire and a release of the write gate, exactly
  -- if the registry has one and the tool is not known to only read.
  abbrev pub RanFrom : Bool → Tool V W → W → Result Raised String → W → Type 0
  RanFrom gate tool w out last =
      (NeedsGate gate tool.side_effects
        × (next : W) × Runs tool (o.acquire w) out next
        × (last ≡ o.release next))
      ⊎ (¬ NeedsGate gate tool.side_effects × Runs tool w out last)

  -- The result for this call: the fenced content of the body, or an error that names the tool, the
  -- exception and its fenced message.
  abbrev pub Answers : Tool V W → W → Result Raised String → ToolResult → Type 0
  Answers tool w (ok content) result =
      (result.is_error ≡ false)
      × (result.call_id ≡ call_id)
      × (result.content ≡ wrap_if_untrusted (o.nonce w) tool.side_effects tool.name content)
  Answers tool w (err e) result =
      (result.is_error ≡ true)
      × (result.call_id ≡ call_id)
      × (result.content
          ≡ concat (
              name
              ∷ " raised "
              ∷ e.type_name
              ∷ ": "
              ∷ wrap_if_untrusted (o.nonce w) tool.side_effects tool.name e.message
              ∷ []))

  tool_body-Runs :
      (tool : Tool V W) (w : W)
      → Runs tool w (tool_body o tool args w).0 (tool_body o tool args w).1
  unfolding tool_body
  tool_body-Runs tool w = elim (Option-cases tool.arun) [
    | inr (body, has) ↦
        let same : tool_body o tool args w ≡ body args w = rw has refl in
        runs_async body has (sym same)
    | inl no_async ↦ elim (Option-cases tool.run) [
      | inr (body, has) ↦
          let same : tool_body o tool args w ≡ body args w = rw (no_async, has) refl in
          runs_sync body no_async has (sym same)
      | inl no_sync ↦
          let e : Raised = record {
            type_name = "RuntimeError";
            message = concat ("tool " ∷ o.repr tool.name ∷ " has no implementation" ∷ []);
          } in
          let raises : tool_body o tool args w ≡ (err e, w) = rw (no_async, no_sync) refl in
          has_no_body e no_async no_sync refl (ap (λ r. r.0) raises) (ap (λ r. r.1) raises)
    ]
  ]

  pub gated_body-RanFrom :
      (gate : Bool) (tool : Tool V W) (w : W)
      → RanFrom gate tool w (gated_body o gate tool args w).0 (gated_body o gate tool args w).1
  unfolding gated_body
  gated_body-RanFrom gate tool w = elim (Bool-cases (gate && not (is_read_only tool))) [
    | inl gated ↦ rw gated (
        inl (
          (
            ground arith,
            (λ only. let reads = (is_read_only-OnlyReads tool).1 only in absurd (ground arith)),
          ),
          _,
          tool_body-Runs tool (o.acquire w),
          refl,
        ))
    | inr free ↦ rw free (
        inr (
          (λ needs. needs.1 ((is_read_only-OnlyReads tool).0 (ground (arith, needs.0)))),
          tool_body-Runs tool w,
        ))
  ]

  pub body_result-Answers :
      (tool : Tool V W) (w : W) (out : Result Raised String)
      → Answers tool w out (body_result o name call_id tool w out)
  unfolding body_result error_result
  body_result-Answers tool w (ok content) = (refl, refl, refl)
  body_result-Answers tool w (err e) = (refl, refl, refl)

  pub Answers-call_id :
      (tool : Tool V W) (w : W) (out : Result Raised String) (result : ToolResult)
      → Answers tool w out result
      → result.call_id ≡ call_id
  Answers-call_id tool w (ok content) result h = h.1
  Answers-call_id tool w (err e) result h = h.1
