-- ===== src/Harness/Context/Compactor.antt =====
-- src/harness/context/compactor.py. The state of the budget that the accountant's snapshot gives for
-- a transcript is a parameter.
use construction_harness.Prelude.{
  if◌then◌else◌, Result, ok, err, nat_eq, string_eq, pair_eq, ℤ, pos, ℕ, String, Bool, true, false,
  not, Option, none, some,
}
use construction_harness.Harness.Messages.{Dict, Transcript, ProviderResponse}
use construction_harness.Harness.Context.{mask_older_results}
use construction_harness.Harness.Context.Summarizer.{SummarizationResult, summarize_prefix}

pub data BudgetState : Type 0 where
  green yellow red : BudgetState

abbrev pub is_red : BudgetState → Bool
is_red red = true
is_red _ = false

pub record CompactionResult : Type 0 where
  pub masking_tokens_freed : ℤ
  pub summarization_turns_replaced : ℕ
  pub summarization_tokens : ℕ
  pub final_state : BudgetState

-- if summary is not None: ...
abbrev pub with_summary : Option SummarizationResult → BudgetState → ℤ → CompactionResult
with_summary none state freed = record {
  masking_tokens_freed = freed;
  summarization_turns_replaced = 0;
  summarization_tokens = 0;
  final_state = state;
}
with_summary (some summary) state freed = record {
  masking_tokens_freed = freed;
  summarization_turns_replaced = summary.turns_replaced;
  summarization_tokens = summary.output_tokens;
  final_state = state;
}

module _ {V : Type 0} (state : Transcript V → BudgetState) (count_text : String → ℕ)
    (show_args : Dict V → String)
    (acomplete : Transcript V → Result String (ProviderResponse V)) where
  abbrev pub summarized :
      ℤ
      → Result String (Option SummarizationResult) × Transcript V
      → Result String CompactionResult × Transcript V
  summarized freed (err e, transcript) = (err e, transcript)
  summarized freed (ok summary, transcript) =
      (ok (with_summary summary (state transcript) freed), transcript)

  unfoldable pub compact_if_needed :
      ℕ → ℕ → Transcript V → Result String CompactionResult × Transcript V
  compact_if_needed keep_recent_results keep_recent_turns transcript =
      let (freed, masked) = mask_older_results count_text transcript keep_recent_results in
      if not (is_red (state transcript))
      then (ok (with_summary none (state transcript) (pos 0)), transcript)
      else if not (is_red (state masked))
      then (ok (with_summary none (state masked) freed), masked)
      else summarized freed (summarize_prefix show_args acomplete masked keep_recent_turns)
