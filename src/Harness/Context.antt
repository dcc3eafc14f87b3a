-- ===== src/Harness/Context.antt =====
-- src/harness/context: masking.py here, summarizer.py and compactor.py in children. The number of
-- tokens of a text, the state of a transcript's budget and the provider's answer are parameters.
pub mod Pairing
pub mod Orphans
pub mod Masked
pub mod Summarizer
pub mod Compactor
pub mod Compaction
pub mod Samples
use construction_harness.Prelude.{
  ltb, leb, nat_beq, if◌then◌else◌, ltb→lt, leb→le, leb→lt, nat_beq_iff, Bool-cases, Option-cases,
  List-cases, Result, ok, err, length, get_elem?, set, take, drop, keep, all, any, All,
  length-append, length-keep-le, length-drop, length-set, All-append, All-keep, take-append-drop,
  length-map, concat, join, decimal, nonempty, Eq, ◌==◌, contains, contains-append, nat_eq,
  string_eq, pair_eq, ℤ, pos, negsuc, is_neg, pos_part, min_ℤ, ℕ, zero, suc, ◌+◌, ◌-◌, ◌*◌, ◌/◌,
  ◌%◌, ◌^◌, ◌≤◌, ◌<◌, min, max, String, ◌≡◌, refl, sym, ap, ◌∙◌, ◌≡⟨◌⟩◌, ◌∎, ◌≢◌, ◌↔◌, ◌⊎◌, inl,
  inr, Bool, true, false, not, ◌&&◌, ◌||◌, Option, none, some, List, [], ◌∷◌, ◌++◌, map, append-nil,
  append_assoc, map-append, arith, first_chars, char_count, starts_with, difference,
  starts_with-append,
}
use construction_harness.Harness.Messages.{
  Dict, Role, user, assistant, system, Block, text_block, tool_call, tool_result, reasoning_block,
  Message, Transcript, ProviderResponse, text_or_empty, user_text, append_message,
}

module _ {V : Type 0} where
  -- {b.id for m in transcript.messages for b in m.blocks if isinstance(b, ToolCall)}
  abbrev pub block_calls : List (Block V) → List String
  block_calls [] = []
  block_calls (tool_call id name args ∷ blocks) = id ∷ block_calls blocks
  block_calls (text_block text ∷ blocks) = block_calls blocks
  block_calls (tool_result call_id content is_error ∷ blocks) = block_calls blocks
  block_calls (reasoning_block text metadata ∷ blocks) = block_calls blocks

  abbrev pub call_ids : List (Message V) → List String
  call_ids [] = []
  call_ids (m ∷ messages) = block_calls m.blocks ++ call_ids messages

  -- isinstance(b, ToolResult) and b.call_id not in call_ids
  abbrev pub is_orphan : List String → Block V → Bool
  is_orphan ids (tool_result call_id content is_error) = not (contains ids call_id)
  is_orphan ids (text_block text) = false
  is_orphan ids (tool_call id name args) = false
  is_orphan ids (reasoning_block text metadata) = false

  unfoldable pub kept_blocks : List String → List (Block V) → List (Block V)
  kept_blocks ids blocks = keep (λ b. not (is_orphan ids b)) blocks

  -- What is kept of a message: the message itself if no block goes, and nothing if every block does.
  unfoldable pub kept_message : Message V → List (Block V) → List (Message V)
  kept_message m [] = []
  kept_message m (b ∷ blocks) =
      (if nat_beq (length (b ∷ blocks)) (length m.blocks)
        then m
        else record m { blocks = b ∷ blocks })
      ∷ []

  -- The loop of drop_orphan_tool_results: the messages kept, and the number of blocks dropped.
  unfoldable pub keep_messages : List String → List (Message V) → List (Message V) × ℕ
  unfolding kept_blocks kept_message
  keep_messages ids [] = ([], 0)
  keep_messages ids (m ∷ messages) =
      let (kept, dropped) = keep_messages ids messages in
      let blocks = kept_blocks ids m.blocks in
      (kept_message m blocks ++ kept, (length m.blocks - length blocks) + dropped)

  unfoldable pub drop_orphan_tool_results : Transcript V → ℕ × Transcript V
  unfolding keep_messages
  drop_orphan_tool_results transcript =
      let (kept, dropped) = keep_messages (call_ids transcript.messages) transcript.messages in
      (dropped, if nat_beq dropped 0 then transcript else record transcript { messages = kept })

  -- len(results)
  abbrev pub count_block_results : List (Block V) → ℕ
  count_block_results [] = 0
  count_block_results (tool_result call_id content is_error ∷ blocks) =
      suc (count_block_results blocks)
  count_block_results (text_block text ∷ blocks) = count_block_results blocks
  count_block_results (tool_call id name args ∷ blocks) = count_block_results blocks
  count_block_results (reasoning_block text metadata ∷ blocks) = count_block_results blocks

  abbrev pub count_results : List (Message V) → ℕ
  count_results [] = 0
  count_results (m ∷ messages) = count_block_results m.blocks + count_results messages

-- MASK_TEMPLATE
abbrev pub mask_content : String → ℕ → String
mask_content call_id tokens = concat (
    "[tool_result elided"
    ∷ "; call_id="
    ∷ call_id
    ∷ "; original_tokens="
    ∷ decimal tokens
    ∷ "]"
    ∷ [])

-- len(results[:-keep_recent]), which is 0 for `keep_recent` 0
abbrev pub masked_count : ℕ → ℕ → ℕ
masked_count keep_recent results = if nat_beq keep_recent 0 then 0 else results - keep_recent

module _ (count_text : String → ℕ) where
  -- A block that is a result's: its masked content, and its tokens before and after.
  unfoldable pub mask_result : String → String → String × ℕ × ℕ
  mask_result call_id content =
      if starts_with content "[tool_result elided"
      then (content, 0, 0)
      else (let masked = mask_content call_id (count_text content) in
          (masked, count_text content, count_text masked))

module _ {V : Type 0} (count_text : String → ℕ) where
  -- The loop over `to_mask`, as a walk that masks the next `n` results of the blocks: the blocks,
  -- how many of the `n` are left, and the tokens of the masked contents before and after.
  unfoldable pub mask_blocks : ℕ → List (Block V) → List (Block V) × ℕ × ℕ × ℕ
  unfolding mask_result
  mask_blocks n [] = ([], n, 0, 0)
  mask_blocks zero (b ∷ blocks) = (b ∷ blocks, 0, 0, 0)
  mask_blocks (suc n) (tool_result call_id content is_error ∷ blocks) =
      let (content', before, after) = mask_result count_text call_id content in
      let (blocks', left, before', after') = mask_blocks n blocks in
      (tool_result call_id content' is_error ∷ blocks', left, before + before', after + after')
  mask_blocks (suc n) (text_block text ∷ blocks) =
      let (blocks', left, before, after) = mask_blocks (suc n) blocks in
      (text_block text ∷ blocks', left, before, after)
  mask_blocks (suc n) (tool_call id name args ∷ blocks) =
      let (blocks', left, before, after) = mask_blocks (suc n) blocks in
      (tool_call id name args ∷ blocks', left, before, after)
  mask_blocks (suc n) (reasoning_block text metadata ∷ blocks) =
      let (blocks', left, before, after) = mask_blocks (suc n) blocks in
      (reasoning_block text metadata ∷ blocks', left, before, after)

  unfoldable pub mask_messages : ℕ → List (Message V) → List (Message V) × ℕ × ℕ
  unfolding mask_blocks
  mask_messages n [] = ([], 0, 0)
  mask_messages n (m ∷ messages) =
      let (blocks, left, before, after) = mask_blocks n m.blocks in
      let (messages', before', after') = mask_messages left messages in
      (record m { blocks = blocks } ∷ messages', before + before', after + after')

  unfoldable pub mask_older_results : Transcript V → ℕ → ℤ × Transcript V
  unfolding mask_messages
  mask_older_results transcript keep_recent =
      let results = count_results transcript.messages in
      let (masked, before, after) =
        mask_messages (masked_count keep_recent results) transcript.messages in
      if leb results keep_recent
      then (pos 0, transcript)
      else (difference before after, record transcript { messages = masked })
