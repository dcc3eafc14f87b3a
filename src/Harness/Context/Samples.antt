-- ===== src/Harness/Context/Samples.antt =====
-- Concrete transcripts.
use construction_harness.Prelude.{
  Result, ok, length, decimal, nat_eq, string_eq, pair_eq, ℕ, ◌+◌, String, ◌≡◌, refl, ◌≢◌, ◌⊎◌, inl,
  inr, true, false, none, some, [], ◌∷◌, arith, char_count, difference,
}
use construction_harness.Harness.Messages.{
  Dict, user, assistant, text_block, tool_call, tool_result, Message, Transcript, ProviderResponse,
  user_text,
}
use construction_harness.Harness.Context.{
  call_ids, kept_blocks, kept_message, keep_messages, drop_orphan_tool_results, mask_older_results,
  mask_messages, mask_blocks, mask_result,
}
use construction_harness.Harness.Context.Orphans.{
  all_blocks, NoOrphans, drop_orphan_tool_results-NoOrphans,
}
use construction_harness.Harness.Context.Masked.{outline, Masks, mask_older_results-Masks}
use construction_harness.Harness.Context.Compactor.{BudgetState, red, is_red, compact_if_needed}
use construction_harness.Harness.Context.Compaction.{Reports, compact_if_needed-Paired}
use construction_harness.Harness.Context.Pairing.{Paired}
use construction_harness.Harness.Context.Summarizer.{
  has_tool_result, summarize_prefix, retreat, cut_prefix, replace_prefix, store_summary,
}
use construction_harness.Harness.Context.Summarizer.Cut.{Summarized, summarize_prefix-Paired}

abbrev result_of : String → Message String
result_of id = record { role = user; blocks = tool_result id "ok" false ∷ [] }

abbrev call_of : String → Message String
call_of id = record { role = assistant; blocks = tool_call id "read" [] ∷ [] }

abbrev question : Message String
question = record { role = user; blocks = text_block "How many doors?" ∷ [] }

abbrev session : Transcript String
session = record {
  messages = question ∷ call_of "a" ∷ result_of "a" ∷ call_of "b" ∷ result_of "b" ∷ [];
  system = none;
}

abbrev broken : Transcript String
broken = record session { messages = question ∷ result_of "a" ∷ call_of "b" ∷ result_of "b" ∷ [] }

broken-dropped :
    drop_orphan_tool_results broken
    ≡ (1, record session { messages = question ∷ call_of "b" ∷ result_of "b" ∷ [] })
unfolding drop_orphan_tool_results keep_messages kept_blocks kept_message
broken-dropped = refl

abbrev bytes : String → ℕ
bytes content = char_count content

-- The older of two results is masked.
session-masked : (mask_older_results bytes session 1).0 ≡ difference 2 50
unfolding mask_older_results mask_messages mask_blocks mask_result decimal
session-masked = refl

mask_older_results-Masks_example :
    let after = (mask_older_results bytes session 1).1 in
    (after.system ≡ session.system)
    × (outline bytes after.messages ≡ outline bytes session.messages)
    × Masks bytes 1 (all_blocks session.messages) (all_blocks after.messages)
mask_older_results-Masks_example = mask_older_results-Masks bytes session 1

drop_orphan_tool_results-NoOrphans_example :
    NoOrphans (drop_orphan_tool_results broken).1.messages
    × (all_blocks (drop_orphan_tool_results broken).1.messages
        ≡ kept_blocks (call_ids broken.messages) (all_blocks broken.messages))
    × (length (all_blocks (drop_orphan_tool_results broken).1.messages)
          + (drop_orphan_tool_results broken).0
        ≡ length (all_blocks broken.messages))
    × (((drop_orphan_tool_results broken).0 ≢ 0) ⊎ ((drop_orphan_tool_results broken).1 ≡ broken))
drop_orphan_tool_results-NoOrphans_example = drop_orphan_tool_results-NoOrphans broken

abbrev show_args : Dict String → String
show_args args = "{}"

abbrev answers : Transcript String → Result String (ProviderResponse String)
answers t = ok (record {
  text = some "One door.";
  tool_calls = [];
  reasoning_text = none;
  reasoning_metadata = [];
  input_tokens = 9;
  output_tokens = 3;
  reasoning_tokens = 0;
  cache_read_input_tokens = 0;
  cache_creation_input_tokens = 0;
})

session-Paired : Paired [] session.messages
unfolding has_tool_result
session-Paired =
    inr (refl, inr (refl, inl (refl, (refl, tt), inr (refl, inl (refl, (refl, tt), tt)))))

-- The cut that would leave the result of "b" without its call retreats to the call.
session-summarized :
    (summarize_prefix show_args answers session 1).1.messages
    ≡ question
      ∷ record {
        role = user;
        blocks = text_block "[session summary — 2 turns replaced]\nOne door." ∷ [];
      }
      ∷ call_of "b"
      ∷ result_of "b"
      ∷ []
unfolding summarize_prefix cut_prefix retreat has_tool_result replace_prefix store_summary user_text
    decimal
session-summarized = refl

summarize_prefix-Paired_example :
    Summarized show_args answers 1 session (summarize_prefix show_args answers session 1)
    × Paired [] (summarize_prefix show_args answers session 1).1.messages
    × NoOrphans (summarize_prefix show_args answers session 1).1.messages
summarize_prefix-Paired_example =
    summarize_prefix-Paired show_args answers session 1 (omega arith) session-Paired

abbrev always_red : Transcript String → BudgetState
always_red t = red

compact_if_needed-Paired_example :
    let r = compact_if_needed always_red bytes show_args answers 1 1 session in
    ((is_red (always_red session) ≡ true) ⊎ (r.1 ≡ session))
    × Reports always_red bytes show_args answers r
    × Paired [] r.1.messages
    × NoOrphans r.1.messages
compact_if_needed-Paired_example =
    compact_if_needed-Paired always_red bytes show_args answers 1 1 session (omega arith)
      session-Paired
