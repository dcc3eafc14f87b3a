-- ===== src/Harness/Agent/Answers.antt =====
-- The results of a turn's calls.
use construction_harness.Prelude.{
  if◌then◌else◌, any, All, contains, contains-append, nat_eq, string_eq, pair_eq, ℕ, String, ◌≡◌,
  refl, sym, ap, ◌∙◌, inl, inr, true, false, Option, List, [], ◌∷◌, ◌++◌, map, append-nil,
  append_assoc, arith, subst,
}
use construction_harness.Harness.Messages.{
  Dict, Message, Transcript, ProviderResponse, ToolCallRef, is_nil, text_or_empty, ToolResult,
  Block, text_block, tool_result_message, append_message, from_assistant_response, reasoning_blocks,
  call_block,
}
use construction_harness.Harness.Registry.{ToolRegistry, Outside, dispatch}
use construction_harness.Harness.Registry.Guards.{dispatch_cases}
use construction_harness.Harness.Registry.Bodies.{Answers-call_id}
use construction_harness.Harness.Context.{block_calls}
use construction_harness.Harness.Context.Pairing.{Paired, Paired-NoOrphans}
use construction_harness.Harness.Context.Orphans.{NoOrphans}
use construction_harness.Harness.Context.Summarizer.{is_tool_result, has_tool_result}
use construction_harness.Harness.Agent.{Setting, Run}
use construction_harness.Harness.Agent.Loop.{run_calls, on_tool_calls}

module _ {V W : Type 0} where
  dispatch-call_id :
      (o : Outside V W) (name : String) (args : Dict V) (call_id : String)
      (registry : ToolRegistry V W) (w : W)
      → (dispatch o name args call_id registry w).0.call_id ≡ call_id
  dispatch-call_id o name args call_id registry w =
      elim (dispatch_cases o name args call_id registry w) [
        | inl (why, (error, id, same)) ↦ id
        | inr (tool, found, parsed, valid, permitted, fresh, (out, ran, answers)) ↦
            Answers-call_id o name args call_id tool (dispatch o name args call_id registry w).2 out
              (dispatch o name args call_id registry w).0 answers
      ]

module _ {V : Type 0} where
  Paired-append :
      (calls : List String) (messages rest : List (Message V)) (m : Message V)
      → Paired calls messages
      → has_tool_result m ≡ false
      → Paired (block_calls m.blocks) rest
      → Paired calls (messages ++ (m ∷ rest))
  Paired-append calls [] rest m paired none_there after = inr (none_there, after)
  Paired-append calls (x ∷ messages) rest m (inl (there, closed, paired)) none_there after =
      inl (there, closed, Paired-append calls messages rest m paired none_there after)
  Paired-append calls (x ∷ messages) rest m (inr (there, paired)) none_there after =
      inr (there, Paired-append (block_calls x.blocks) messages rest m paired none_there after)

Paired-results :
    (V : Type 0) (calls : List String) (results : List ToolResult)
    → All (λ (r : ToolResult). contains calls r.call_id ≡ true) results
    → Paired calls (map (tool_result_message {V = V}) results)
unfolding tool_result_message has_tool_result
Paired-results V calls [] h = tt
Paired-results V calls (r ∷ results) (hr, h) =
    inl (refl, (ground arith, tt), Paired-results V calls results h)

contains_self : (ids more : List String) (x : String) → contains (ids ++ (x ∷ more)) x ≡ true
contains_self ids more x = ground (arith, contains-append ids (x ∷ more) x, string_eq.test_iff x x)

All-contained :
    (before : List String) (results : List ToolResult)
    → All
        (λ (r : ToolResult).
          contains (before ++ map (λ (q : ToolResult). q.call_id) results) r.call_id ≡ true)
        results
All-contained before [] = tt
All-contained before (r ∷ results) =
    let ids = map (λ (q : ToolResult). q.call_id) results in
    (
      contains_self before ids r.call_id,
      subst (λ all_ids. All (λ (q : ToolResult). contains all_ids q.call_id ≡ true) results)
          (append_assoc before (r.call_id ∷ []) ids)
          (All-contained (before ++ r.call_id ∷ []) results),
    )

module _ {V : Type 0} where
  reasoning_blocks-calls :
      (number : ℕ → V) (response : ProviderResponse V) (blocks : List (Block V))
      → (block_calls (reasoning_blocks number response ++ blocks) ≡ block_calls blocks)
        × (any is_tool_result (reasoning_blocks number response ++ blocks)
            ≡ any is_tool_result blocks)
  unfolding reasoning_blocks
  reasoning_blocks-calls number response blocks = ground arith

  call_blocks-calls :
      (refs : List (ToolCallRef V))
      → (block_calls (map call_block refs) ≡ map (λ (c : ToolCallRef V). c.id) refs)
        × (any is_tool_result (map call_block refs) ≡ false)
  call_blocks-calls [] = (refl, refl)
  call_blocks-calls (c ∷ refs) =
      let (ids, none_there) = call_blocks-calls refs in (ap (◌∷◌ c.id) ids, none_there)

  spoken_blocks : Option String → List (ToolCallRef V) → List (Block V)
  spoken_blocks text refs =
      if is_nil refs then text_block (text_or_empty text) ∷ [] else map call_block refs

  spoken_blocks-calls :
      (text : Option String) (refs : List (ToolCallRef V))
      → (block_calls (spoken_blocks text refs) ≡ map (λ (c : ToolCallRef V). c.id) refs)
        × (any is_tool_result (spoken_blocks text refs) ≡ false)
  unfolding spoken_blocks
  spoken_blocks-calls text [] = (refl, refl)
  spoken_blocks-calls text (c ∷ refs) = call_blocks-calls (c ∷ refs)

  reply-calls :
      (number : ℕ → V) (response : ProviderResponse V)
      → (has_tool_result (from_assistant_response number response) ≡ false)
        × (block_calls (from_assistant_response number response).blocks
            ≡ map (λ (c : ToolCallRef V). c.id) response.tool_calls)
  unfolding from_assistant_response has_tool_result spoken_blocks
  reply-calls number response =
      let blocks = spoken_blocks response.text response.tool_calls in
      let (ids, none_there) = spoken_blocks-calls response.text response.tool_calls in
      let (same_ids, same_results) = reasoning_blocks-calls number response blocks in
      (same_results ∙ none_there, same_ids ∙ ids)

module _ {V W : Type 0} (setting : Setting V W) where
  -- The results of the calls, in order.
  pub record IsAnswered (refs : List (ToolCallRef V)) (t after : Transcript V) : Type 0 where
    pub results : List ToolResult
    pub appended : after ≡ record t { messages = t.messages ++ map tool_result_message results }
    pub one_each :
        map (λ (r : ToolResult). r.call_id) results ≡ map (λ (c : ToolCallRef V). c.id) refs

  run_calls-IsAnswered :
      (refs : List (ToolCallRef V)) (registry : ToolRegistry V W) (t : Transcript V) (w : W)
      → IsAnswered refs t (run_calls setting refs registry t w).1
  unfolding run_calls append_message
  run_calls-IsAnswered [] registry t w = record {
    results = [];
    appended = ap (λ ms. record t { messages = ms }) (sym (append-nil t.messages));
    one_each = refl;
  }
  run_calls-IsAnswered (ref ∷ refs) registry t w =
      let r = dispatch setting.outside ref.name ref.args ref.id registry w in
      let later = run_calls-IsAnswered refs r.1 (append_message (tool_result_message r.0) t) r.2 in
      record {
        results = r.0 ∷ later.results;
        appended =
            later.appended
            ∙ ap (λ ms. record t { messages = ms })
                (append_assoc t.messages (tool_result_message r.0 ∷ [])
                  (map tool_result_message later.results));
        one_each =
            cc (
              dispatch-call_id setting.outside ref.name ref.args ref.id registry w,
              later.one_each,
            );
      }

  -- A turn with tool calls appends the model's message and then one result for each call, in the
  -- order of the calls and with their ids; if the calls and results of the transcript were in order
  -- before, they are afterwards, and no tool result lacks its call.
  pub on_tool_calls-Paired :
      (response : ProviderResponse V) (registry : ToolRegistry V W) (run : Run V W)
      → Paired [] run.transcript.messages
      → IsAnswered response.tool_calls
          (append_message (from_assistant_response setting.number response) run.transcript)
          (on_tool_calls setting response registry run).transcript
        × Paired [] (on_tool_calls setting response registry run).transcript.messages
        × NoOrphans (on_tool_calls setting response registry run).transcript.messages
  unfolding on_tool_calls append_message
  on_tool_calls-Paired response registry run paired =
      let reply = from_assistant_response setting.number response in
      let said = append_message reply run.transcript in
      let answered = run_calls-IsAnswered response.tool_calls registry said run.world in
      let (no_result, ids) = reply-calls setting.number response in
      let contained : All (λ (r : ToolResult). contains (block_calls reply.blocks) r.call_id ≡ true)
          answered.results =
        rw (ids, sym answered.one_each) (All-contained [] answered.results) in
      let results = Paired-results V (block_calls reply.blocks) answered.results contained in
      let after : Paired []
          (run_calls setting response.tool_calls registry said run.world).1.messages =
        rw answered.appended (
          rw
            (append_assoc run.transcript.messages (reply ∷ [])
              (map tool_result_message answered.results))
            (Paired-append [] run.transcript.messages (map tool_result_message answered.results)
              reply paired no_result results)) in
      (answered, after, Paired-NoOrphans _ after)
