-- ===== src/Harness/Context/Summarizer.antt =====
-- src/harness/context/summarizer.py: a prefix of the transcript is replaced by a summary.
pub mod Cut
use construction_harness.Prelude.{
  ltb, leb, nat_beq, if◌then◌else◌, ltb→lt, leb→le, leb→lt, nat_beq_iff, Bool-cases, Option-cases,
  List-cases, Result, ok, err, length, get_elem?, set, take, drop, keep, all, any, All,
  length-append, length-keep-le, length-drop, length-set, All-append, All-keep, take-append-drop,
  length-map, concat, join, decimal, nonempty, Eq, ◌==◌, contains, contains-append, nat_eq,
  string_eq, pair_eq, ℤ, pos, negsuc, is_neg, pos_part, min_ℤ, ℕ, zero, suc, ◌+◌, ◌-◌, ◌*◌, ◌/◌,
  ◌%◌, ◌^◌, ◌≤◌, ◌<◌, min, max, String, ◌≡◌, refl, sym, ap, ◌∙◌, ◌≡⟨◌⟩◌, ◌∎, ◌≢◌, ◌↔◌, ◌⊎◌, inl,
  inr, Bool, true, false, not, ◌&&◌, ◌||◌, Option, none, some, List, [], ◌∷◌, ◌++◌, map, append-nil,
  append_assoc, map-append, arith, first_chars, char_count, starts_with, difference,
  starts_with-append, length-take,
}
use construction_harness.Harness.Messages.{
  Dict, Role, user, assistant, system, Block, text_block, tool_call, tool_result, reasoning_block,
  Message, Transcript, ProviderResponse, text_or_empty, user_text, append_message,
}

pub record SummarizationResult : Type 0 where
  pub summary_text : String
  pub turns_replaced : ℕ
  pub input_tokens : ℕ
  pub output_tokens : ℕ

unfoldable pub role_value : Role → String
role_value user = "user"
role_value assistant = "assistant"
role_value system = "system"

-- SUMMARIZER_SYSTEM
abbrev pub summarizer_system : String
summarizer_system =
    "You are a conversation summarizer for an AI agent session.\n\nYour job is to condense the provided conversation into a brief summary that\npreserves:\n- Key facts discovered (files read, values computed, decisions made).\n- Open questions and in-progress subtasks.\n- Which tools have been called and what they returned, in sequence.\n- Any user-expressed preferences or constraints.\n\nDO NOT:\n- Invent information not present in the transcript.\n- Omit tool calls — list each tool call with a one-line outcome.\n- Exceed 1000 words.\n\nReturn plain prose. The summary replaces the original turns in the agent's\nmemory, so it must be accurate and complete.\n"

module _ {V : Type 0} where
  abbrev pub is_tool_result : Block V → Bool
  is_tool_result (tool_result call_id content is_error) = true
  is_tool_result (text_block text) = false
  is_tool_result (tool_call id name args) = false
  is_tool_result (reasoning_block text metadata) = false

  unfoldable pub has_tool_result : Message V → Bool
  has_tool_result m = any is_tool_result m.blocks

  -- while prefix_end > 1 and _has_tool_result(messages[prefix_end]): prefix_end -= 1
  unfoldable pub retreat : List (Message V) → ℕ → Result String ℕ
  unfolding has_tool_result
  retreat messages zero = ok 0
  retreat messages (suc zero) = ok 1
  retreat messages (suc (suc n)) =
      let earlier = retreat messages (suc n) in
      elim (get_elem? messages (suc (suc n))) [
        | none ↦ err "list index out of range"
        | some m ↦ if has_tool_result m then earlier else ok (suc (suc n))
      ]

abbrev pub or_empty_summary : String → String
or_empty_summary text = if nonempty text then text else "(empty summary)"

-- What follows the summarizer's answer: `messages[1:prefix_end]` becomes the summary.
module _ {V : Type 0} where
  unfoldable pub store_summary :
      Transcript V
      → ℕ
      → List (Message V)
      → Result String (ProviderResponse V)
      → Result String (Option SummarizationResult) × Transcript V
  unfolding user_text
  store_summary transcript prefix_end prefix (err e) = (err e, transcript)
  store_summary transcript prefix_end prefix (ok response) =
      let summary_text = or_empty_summary (text_or_empty response.text) in
      let summary_message = user_text (
        concat (
          "[session summary — "
          ∷ decimal (length prefix)
          ∷ " turns replaced]\n"
          ∷ summary_text
          ∷ [])) in
      (
        ok (
            some (record {
              summary_text = summary_text;
              turns_replaced = length prefix;
              input_tokens = response.input_tokens;
              output_tokens = response.output_tokens;
            })),
        record transcript {
          messages =
              take 1 transcript.messages ++ (summary_message ∷ drop prefix_end transcript.messages);
        },
      )

-- The rendering, with `show_args` for the printing of a dict, and the summary by the provider, whose
-- call may raise.
module _ {V : Type 0} (show_args : Dict V → String)
    (acomplete : Transcript V → Result String (ProviderResponse V)) where
  unfoldable pub render_block : Role → Block V → List String
  unfolding role_value
  render_block role (text_block text) = concat ("[" ∷ role_value role ∷ "] " ∷ text ∷ []) ∷ []
  render_block role (tool_call id name args) =
      concat ("[assistant→tool] " ∷ name ∷ "(" ∷ show_args args ∷ ")" ∷ []) ∷ []
  render_block role (tool_result call_id content is_error) =
      concat ((if is_error then "[tool→error]" else "[tool→result]") ∷ " " ∷ content ∷ []) ∷ []
  render_block role (reasoning_block text metadata) = []

  unfoldable pub render_blocks : Role → List (Block V) → List String
  unfolding render_block
  render_blocks role [] = []
  render_blocks role (b ∷ blocks) = render_block role b ++ render_blocks role blocks

  unfoldable pub render_messages : List (Message V) → List String
  unfolding render_blocks
  render_messages [] = []
  render_messages (m ∷ messages) = render_blocks m.role m.blocks ++ render_messages messages

  -- The transcript that is sent to the summarizer.
  unfoldable pub sub_transcript : List (Message V) → Transcript V
  unfolding render_messages user_text append_message
  sub_transcript prefix =
      let rendered = join "\n" (render_messages prefix) in
      append_message (user_text (concat ("Summarize this conversation.\n\n" ∷ rendered ∷ [])))
        (record { messages = []; system = some summarizer_system })

  -- From the prefix on.
  unfoldable pub replace_prefix :
      Transcript V
      → ℕ
      → List (Message V)
      → Result String (Option SummarizationResult) × Transcript V
  unfolding sub_transcript store_summary
  replace_prefix transcript prefix_end [] = (ok none, transcript)
  replace_prefix transcript prefix_end (m ∷ more) =
      store_summary transcript prefix_end (m ∷ more) (acomplete (sub_transcript (m ∷ more)))

  unfoldable pub cut_prefix :
      Transcript V → Result String ℕ → Result String (Option SummarizationResult) × Transcript V
  unfolding replace_prefix
  cut_prefix transcript (err e) = (err e, transcript)
  cut_prefix transcript (ok prefix_end) =
      replace_prefix transcript prefix_end (drop 1 (take prefix_end transcript.messages))

  unfoldable pub summarize_prefix :
      Transcript V → ℕ → Result String (Option SummarizationResult) × Transcript V
  unfolding cut_prefix retreat
  summarize_prefix transcript keep_recent_turns =
      let n = length transcript.messages in
      if leb n (keep_recent_turns + 1)
      then (ok none, transcript)
      else cut_prefix transcript (retreat transcript.messages (n - keep_recent_turns))
