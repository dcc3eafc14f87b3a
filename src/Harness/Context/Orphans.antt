-- ===== src/Harness/Context/Orphans.antt =====
-- What drop_orphan_tool_results keeps.
use construction_harness.Prelude.{
  nat_beq, nat_beq_iff, Bool-cases, length, keep, All, length-append, length-keep-le, nat_eq,
  string_eq, pair_eq, ◌+◌, String, ◌≡◌, refl, sym, ap, ◌∙◌, ◌≢◌, ◌⊎◌, inl, inr, Bool, false, not,
  List, [], ◌∷◌, ◌++◌, append-nil, append_assoc, arith,
}
use construction_harness.Harness.Messages.{
  Block, text_block, tool_call, tool_result, reasoning_block, Message, Transcript,
}
use construction_harness.Harness.Context.{
  block_calls, call_ids, is_orphan, kept_blocks, kept_message, keep_messages,
  drop_orphan_tool_results,
}

keep-append {ℓ} :
    {A : Type ℓ} (p : A → Bool) (xs ys : List A) → keep p (xs ++ ys) ≡ keep p xs ++ keep p ys
keep-append p [] ys = refl
keep-append p (x ∷ xs) ys = ground (arith, keep-append p xs ys)

keep-full {ℓ} :
    {A : Type ℓ} (p : A → Bool) (xs : List A) → length (keep p xs) ≡ length xs → keep p xs ≡ xs
keep-full p [] h = refl
keep-full p (x ∷ xs) h = ground (arith, keep-full p xs, length-keep-le p xs)

All-keep-not {ℓ} :
    {A : Type ℓ} (q : A → Bool) (xs : List A) → All (λ x. q x ≡ false) (keep (λ x. not (q x)) xs)
All-keep-not q [] = tt
All-keep-not q (x ∷ xs) = ground (arith, All-keep-not q xs)

block_calls-append :
    {V : Type 0} (xs ys : List (Block V))
    → block_calls (xs ++ ys) ≡ block_calls xs ++ block_calls ys
block_calls-append [] ys = refl
block_calls-append (tool_call id name args ∷ xs) ys = ap (◌∷◌ id) (block_calls-append xs ys)
block_calls-append (text_block text ∷ xs) ys = block_calls-append xs ys
block_calls-append (tool_result call_id content is_error ∷ xs) ys = block_calls-append xs ys
block_calls-append (reasoning_block text metadata ∷ xs) ys = block_calls-append xs ys

module _ {V : Type 0} where
  -- The blocks of all messages, in order.
  abbrev pub all_blocks : List (Message V) → List (Block V)
  all_blocks [] = []
  all_blocks (m ∷ messages) = m.blocks ++ all_blocks messages

  -- No tool result's call is missing.
  abbrev pub NoOrphans : List (Message V) → Type 0
  NoOrphans messages = All (λ b. is_orphan (call_ids messages) b ≡ false) (all_blocks messages)

  call_ids-all_blocks :
      (messages : List (Message V)) → call_ids messages ≡ block_calls (all_blocks messages)
  call_ids-all_blocks [] = refl
  call_ids-all_blocks (m ∷ messages) =
      ap (λ ids. block_calls m.blocks ++ ids) (call_ids-all_blocks messages)
      ∙ sym (block_calls-append m.blocks (all_blocks messages))

  all_blocks-append :
      (xs ys : List (Message V)) → all_blocks (xs ++ ys) ≡ all_blocks xs ++ all_blocks ys
  all_blocks-append [] ys = refl
  all_blocks-append (m ∷ xs) ys =
      ap (λ bs. m.blocks ++ bs) (all_blocks-append xs ys)
      ∙ sym (append_assoc m.blocks (all_blocks xs) (all_blocks ys))

  all_blocks-kept_message :
      (m : Message V) (blocks : List (Block V))
      → (length blocks ≡ length m.blocks → blocks ≡ m.blocks)
      → all_blocks (kept_message m blocks) ≡ blocks
  unfolding kept_message
  all_blocks-kept_message m [] full = refl
  all_blocks-kept_message m (b ∷ blocks) full =
      elim (Bool-cases (nat_beq (length (b ∷ blocks)) (length m.blocks))) [
        | inl same ↦ rw same (
            append-nil m.blocks
            ∙ sym (full ((nat_beq_iff (length (b ∷ blocks)) (length m.blocks)).0 same)))
        | inr fewer ↦ rw fewer (append-nil (b ∷ blocks))
      ]

  all_blocks-keep :
      (ids : List String) (messages : List (Message V))
      → all_blocks (keep_messages ids messages).0 ≡ kept_blocks ids (all_blocks messages)
  unfolding keep_messages kept_blocks
  all_blocks-keep ids [] = refl
  all_blocks-keep ids (m ∷ messages) =
      let kept = kept_blocks ids m.blocks in
      let here = all_blocks-kept_message m kept (keep-full (λ b. not (is_orphan ids b)) m.blocks) in
      let rest = all_blocks-keep ids messages in
      let split = keep-append (λ b. not (is_orphan ids b)) m.blocks (all_blocks messages) in
      all_blocks-append (kept_message m kept) (keep_messages ids messages).0
      ∙ (ap (λ bs. bs ++ all_blocks (keep_messages ids messages).0) here
          ∙ (ap (λ bs. kept ++ bs) rest ∙ sym split))

  block_calls-kept :
      (ids : List String) (blocks : List (Block V))
      → block_calls (kept_blocks ids blocks) ≡ block_calls blocks
  unfolding kept_blocks
  block_calls-kept ids [] = refl
  block_calls-kept ids (tool_call id name args ∷ blocks) = ap (◌∷◌ id) (block_calls-kept ids blocks)
  block_calls-kept ids (text_block text ∷ blocks) = block_calls-kept ids blocks
  block_calls-kept ids (reasoning_block text metadata ∷ blocks) = block_calls-kept ids blocks
  block_calls-kept ids (tool_result call_id content is_error ∷ blocks) =
      ground (arith, block_calls-kept ids blocks)

  dropped-zero :
      (ids : List String) (messages : List (Message V))
      → (keep_messages ids messages).1 ≡ 0
      → kept_blocks ids (all_blocks messages) ≡ all_blocks messages
  unfolding keep_messages kept_blocks
  dropped-zero ids [] h = refl
  dropped-zero ids (m ∷ messages) h =
      let n = length m.blocks in
      let le = length-keep-le (λ b. not (is_orphan ids b)) m.blocks in
      let here = keep-full (λ b. not (is_orphan ids b)) m.blocks (omega (arith, h, le)) in
      let rest = dropped-zero ids messages (omega (arith, h)) in
      keep-append (λ b. not (is_orphan ids b)) m.blocks (all_blocks messages)
      ∙ (ap (λ bs. bs ++ keep (λ b. not (is_orphan ids b)) (all_blocks messages)) here
          ∙ ap (λ bs. m.blocks ++ bs) rest)

  dropped-count :
      (ids : List String) (messages : List (Message V))
      → length (kept_blocks ids (all_blocks messages)) + (keep_messages ids messages).1
        ≡ length (all_blocks messages)
  unfolding keep_messages kept_blocks
  dropped-count ids [] = refl
  dropped-count ids (m ∷ messages) =
      let p : Block V → Bool = λ b. not (is_orphan ids b) in
      rw (keep-append p m.blocks (all_blocks messages)) (
        omega (
          arith,
          length-keep-le p m.blocks,
          dropped-count ids messages,
          length-append m.blocks (all_blocks messages),
          length-append (keep p m.blocks) (keep p (all_blocks messages)),
        ))

  dropped-blocks :
      (t : Transcript V)
      → all_blocks (drop_orphan_tool_results t).1.messages
        ≡ kept_blocks (call_ids t.messages) (all_blocks t.messages)
  unfolding drop_orphan_tool_results
  dropped-blocks t =
      let ids = call_ids t.messages in
      elim (Bool-cases (nat_beq (keep_messages ids t.messages).1 0)) [
        | inl none_dropped ↦ rw none_dropped (
            sym (
              dropped-zero ids t.messages
                ((nat_beq_iff (keep_messages ids t.messages).1 0).0 none_dropped)))
        | inr some_dropped ↦ rw some_dropped (all_blocks-keep ids t.messages)
      ]

  NoOrphans-kept :
      (before after : List (Message V))
      → all_blocks after ≡ kept_blocks (call_ids before) (all_blocks before)
      → NoOrphans after
  unfolding kept_blocks
  NoOrphans-kept before after h =
      let ids = call_ids before in
      let same : call_ids after ≡ ids =
        call_ids-all_blocks after
        ∙ (ap block_calls h
            ∙ (block_calls-kept ids (all_blocks before) ∙ sym (call_ids-all_blocks before))) in
      rw (same, h) (All-keep-not (is_orphan ids) (all_blocks before))

  -- After the repair no tool result lacks its call; the blocks are those of the transcript before,
  -- in order, without the results that lacked theirs; the number returned is how many went; and
  -- where it is 0 the transcript is the one before.
  pub drop_orphan_tool_results-NoOrphans :
      (t : Transcript V)
      → NoOrphans (drop_orphan_tool_results t).1.messages
        × (all_blocks (drop_orphan_tool_results t).1.messages
            ≡ kept_blocks (call_ids t.messages) (all_blocks t.messages))
        × (length (all_blocks (drop_orphan_tool_results t).1.messages)
              + (drop_orphan_tool_results t).0
            ≡ length (all_blocks t.messages))
        × (((drop_orphan_tool_results t).0 ≢ 0) ⊎ ((drop_orphan_tool_results t).1 ≡ t))
  unfolding drop_orphan_tool_results
  drop_orphan_tool_results-NoOrphans t =
      let blocks = dropped-blocks t in
      (
        NoOrphans-kept t.messages (drop_orphan_tool_results t).1.messages blocks,
        blocks,
        omega (arith, ap length blocks, dropped-count (call_ids t.messages) t.messages),
        ground arith,
      )
