-- ===== src/Harness/Context/Compaction.antt =====
-- What compaction keeps.
use construction_harness.Prelude.{
  leb, Bool-cases, Result, ok, err, any, All, nat_eq, string_eq, pair_eq, ℤ, ℕ, ◌≤◌, String, ◌≡◌,
  refl, sym, ap, ◌∙◌, ◌↔◌, ◌⊎◌, inl, inr, true, false, Option, none, some, List, [], ◌∷◌, arith,
  subst,
}
use construction_harness.Harness.Messages.{
  Block, text_block, tool_call, tool_result, reasoning_block, Message, Transcript, Dict,
  ProviderResponse,
}
use construction_harness.Harness.Context.{
  block_calls, is_orphan, masked_count, count_results, mask_blocks, mask_messages,
  mask_older_results,
}
use construction_harness.Harness.Context.Masked.{skeleton, mask_blocks-Masks}
use construction_harness.Harness.Context.Orphans.{NoOrphans}
use construction_harness.Harness.Context.Pairing.{Paired, Paired-NoOrphans}
use construction_harness.Harness.Context.Summarizer.{
  is_tool_result, has_tool_result, summarize_prefix, SummarizationResult,
}
use construction_harness.Harness.Context.Summarizer.Cut.{summarize_prefix-Paired}
use construction_harness.Harness.Context.Compactor.{
  BudgetState, is_red, CompactionResult, summarized, compact_if_needed,
}

module _ {V : Type 0} where
  any_result-skeleton :
      (blocks : List (Block V)) → any is_tool_result blocks ≡ any is_tool_result (skeleton blocks)
  any_result-skeleton [] = refl
  any_result-skeleton (tool_result call_id content is_error ∷ blocks) = refl
  any_result-skeleton (text_block text ∷ blocks) = any_result-skeleton blocks
  any_result-skeleton (tool_call id name args ∷ blocks) = any_result-skeleton blocks
  any_result-skeleton (reasoning_block text metadata ∷ blocks) = any_result-skeleton blocks

  block_calls-skeleton :
      (blocks : List (Block V)) → block_calls blocks ≡ block_calls (skeleton blocks)
  block_calls-skeleton [] = refl
  block_calls-skeleton (tool_result call_id content is_error ∷ blocks) = block_calls-skeleton blocks
  block_calls-skeleton (text_block text ∷ blocks) = block_calls-skeleton blocks
  block_calls-skeleton (tool_call id name args ∷ blocks) = ap (◌∷◌ id) (block_calls-skeleton blocks)
  block_calls-skeleton (reasoning_block text metadata ∷ blocks) = block_calls-skeleton blocks

  abbrev Closed : List String → List (Block V) → Type 0
  Closed ids blocks = All (λ b. is_orphan ids b ≡ false) blocks

  Closed-skeleton :
      (ids : List String) (blocks : List (Block V))
      → Closed ids blocks ↔ Closed ids (skeleton blocks)
  Closed-skeleton ids [] = ground arith
  Closed-skeleton ids (tool_result call_id content is_error ∷ blocks) =
      ground (arith, Closed-skeleton ids blocks)
  Closed-skeleton ids (text_block text ∷ blocks) = ground (arith, Closed-skeleton ids blocks)
  Closed-skeleton ids (tool_call id name args ∷ blocks) = ground (arith, Closed-skeleton ids blocks)
  Closed-skeleton ids (reasoning_block text metadata ∷ blocks) =
      ground (arith, Closed-skeleton ids blocks)

  Closed-same :
      (ids : List String) (xs ys : List (Block V))
      → skeleton ys ≡ skeleton xs
      → Closed ids xs
      → Closed ids ys
  Closed-same ids xs ys same closed =
      (Closed-skeleton ids ys).1 (rw same ((Closed-skeleton ids xs).0 closed))

module _ {V : Type 0} (count_text : String → ℕ) where
  mask_messages-Paired :
      (n : ℕ) (calls : List String) (messages : List (Message V))
      → Paired calls messages
      → Paired calls (mask_messages count_text n messages).0
  unfolding mask_messages has_tool_result
  mask_messages-Paired n calls [] paired = tt
  mask_messages-Paired n calls (m ∷ messages) (inl (there, closed, rest)) =
      let masked = (mask_blocks count_text n m.blocks).0 in
      let same = (mask_blocks-Masks count_text n m.blocks).0 in
      let left = (mask_blocks count_text n m.blocks).1 in
      inl (
        any_result-skeleton masked
            ∙ (ap (any is_tool_result) same ∙ (sym (any_result-skeleton m.blocks) ∙ there)),
        Closed-same calls m.blocks masked same closed,
        mask_messages-Paired left calls messages rest,
      )
  mask_messages-Paired n calls (m ∷ messages) (inr (there, rest)) =
      let masked = (mask_blocks count_text n m.blocks).0 in
      let same = (mask_blocks-Masks count_text n m.blocks).0 in
      let left = (mask_blocks count_text n m.blocks).1 in
      let ids : block_calls masked ≡ block_calls m.blocks =
        block_calls-skeleton masked ∙ (ap block_calls same ∙ sym (block_calls-skeleton m.blocks)) in
      inr (
        any_result-skeleton masked
            ∙ (ap (any is_tool_result) same ∙ (sym (any_result-skeleton m.blocks) ∙ there)),
        subst (λ c. Paired c (mask_messages count_text left messages).0) (sym ids)
            (mask_messages-Paired left (block_calls m.blocks) messages rest),
      )

  mask_older_results-Paired :
      (t : Transcript V) (keep_recent : ℕ)
      → Paired [] t.messages
      → Paired [] (mask_older_results count_text t keep_recent).1.messages
  unfolding mask_older_results
  mask_older_results-Paired t keep_recent paired =
      let n = masked_count keep_recent (count_results t.messages) in
      elim (Bool-cases (leb (count_results t.messages) keep_recent)) [
        | inl few ↦ rw few paired
        | inr many ↦ rw many (mask_messages-Paired n [] t.messages paired)
      ]

module _ {V : Type 0} (state : Transcript V → BudgetState) (count_text : String → ℕ)
    (show_args : Dict V → String)
    (acomplete : Transcript V → Result String (ProviderResponse V)) where
  -- The state that is reported is that of the transcript that is left.
  abbrev pub Reports : Result String CompactionResult × Transcript V → Type 0
  Reports (err e, t) = Unit
  Reports (ok res, t) = res.final_state ≡ state t

  summarized-Reports :
      (freed : ℤ) (r : Result String (Option SummarizationResult) × Transcript V)
      → Reports (summarized state count_text show_args acomplete freed r)
        × ((summarized state count_text show_args acomplete freed r).1 ≡ r.1)
  summarized-Reports freed (err e, t) = (tt, refl)
  summarized-Reports freed (ok none, t) = (refl, refl)
  summarized-Reports freed (ok (some summary), t) = (refl, refl)

  -- Compaction leaves a transcript alone that is not in the red; it reports the state of the
  -- transcript that it leaves; and where at least one turn is kept and the calls and results were in
  -- order before, they are afterwards, and no tool result lacks its call, even if the summary fails.
  pub compact_if_needed-Paired :
      (keep_recent_results keep_recent_turns : ℕ) (t : Transcript V)
      → 1 ≤ keep_recent_turns
      → Paired [] t.messages
      → let r =
          compact_if_needed state count_text show_args acomplete keep_recent_results
            keep_recent_turns t in
        ((is_red (state t) ≡ true) ⊎ (r.1 ≡ t))
        × Reports r
        × Paired [] r.1.messages
        × NoOrphans r.1.messages
  unfolding compact_if_needed
  compact_if_needed-Paired keep_recent_results keep_recent_turns t h paired =
      let masked = (mask_older_results count_text t keep_recent_results).1 in
      let masked_paired = mask_older_results-Paired count_text t keep_recent_results paired in
      elim (Bool-cases (is_red (state t))) [
        | inr fits ↦ rw fits (inr refl, refl, paired, Paired-NoOrphans t.messages paired)
        | inl full ↦ elim (Bool-cases (is_red (state masked))) [
          | inr fits ↦
              rw (full, fits)
                (inl refl, refl, masked_paired, Paired-NoOrphans masked.messages masked_paired)
          | inl still ↦
              let r = summarize_prefix show_args acomplete masked keep_recent_turns in
              let (reports, same) =
                summarized-Reports (mask_older_results count_text t keep_recent_results).0 r in
              let (cut, after, closed) =
                summarize_prefix-Paired show_args acomplete masked keep_recent_turns h
                  masked_paired in
              rw (full, still)
                (
                  inl refl,
                  reports,
                  subst (λ u. Paired [] u.messages) (sym same) after,
                  subst (λ u. NoOrphans u.messages) (sym same) closed,
                )
        ]
      ]
