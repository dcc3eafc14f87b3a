-- ===== src/Harness/Context/Masked.antt =====
-- What mask_older_results changes.
use construction_harness.Prelude.{
  leb, Bool-cases, take, drop, All, nat_eq, string_eq, pair_eq, ℕ, zero, suc, String, ◌≡◌, refl,
  sym, ap, ◌∙◌, inl, inr, true, List, [], ◌∷◌, ◌++◌, arith, starts_with, starts_with-append,
}
use construction_harness.Harness.Messages.{
  Block, text_block, tool_call, tool_result, reasoning_block, Message, Transcript,
}
use construction_harness.Harness.Context.{
  count_results, masked_count, mask_result, mask_blocks, mask_messages, mask_older_results,
}
use construction_harness.Harness.Context.Orphans.{all_blocks}

-- The content says that it has been elided.
abbrev pub IsElided : String → Type 0
IsElided content = starts_with content "[tool_result elided" ≡ true

module _ {V : Type 0} where
  -- The contents of the results, and the blocks without them.
  abbrev pub contents : List (Block V) → List String
  contents [] = []
  contents (tool_result call_id content is_error ∷ blocks) = content ∷ contents blocks
  contents (text_block text ∷ blocks) = contents blocks
  contents (tool_call id name args ∷ blocks) = contents blocks
  contents (reasoning_block text metadata ∷ blocks) = contents blocks

  abbrev pub skeleton : List (Block V) → List (Block V)
  skeleton [] = []
  skeleton (tool_result call_id content is_error ∷ blocks) =
      tool_result call_id "" is_error ∷ skeleton blocks
  skeleton (text_block text ∷ blocks) = text_block text ∷ skeleton blocks
  skeleton (tool_call id name args ∷ blocks) = tool_call id name args ∷ skeleton blocks
  skeleton (reasoning_block text metadata ∷ blocks) =
      reasoning_block text metadata ∷ skeleton blocks

module _ (count_text : String → ℕ) where
  mask_result-IsElided :
      (call_id content : String) → IsElided (mask_result count_text call_id content).0
  unfolding mask_result
  mask_result-IsElided call_id content =
      elim (Bool-cases (starts_with content "[tool_result elided")) [
        | inl already ↦ rw (mask_result, already) already
        | inr fresh ↦ rw (mask_result, fresh) (starts_with-append "[tool_result elided" _)
      ]

module _ {V : Type 0} (count_text : String → ℕ) where
  -- The first `n` results are elided, the others and every other block are as before.
  abbrev pub Masks : ℕ → List (Block V) → List (Block V) → Type 0
  Masks n before after =
      (skeleton after ≡ skeleton before)
      × All IsElided (take n (contents after))
      × (drop n (contents after) ≡ drop n (contents before))

  pub mask_blocks-Masks :
      (n : ℕ) (blocks : List (Block V)) → Masks n blocks (mask_blocks count_text n blocks).0
  unfolding mask_blocks
  mask_blocks-Masks zero [] = (refl, tt, refl)
  mask_blocks-Masks (suc n) [] = (refl, tt, refl)
  mask_blocks-Masks zero (b ∷ blocks) = (refl, tt, refl)
  mask_blocks-Masks (suc n) (tool_result call_id content is_error ∷ blocks) =
      let (same, elided, rest) = mask_blocks-Masks n blocks in
      (
        ap (◌∷◌ (tool_result call_id "" is_error)) same,
        (mask_result-IsElided count_text call_id content, elided),
        rest,
      )
  mask_blocks-Masks (suc n) (text_block text ∷ blocks) =
      let (same, elided, rest) = mask_blocks-Masks (suc n) blocks in
      (ap (◌∷◌ (text_block text)) same, elided, rest)
  mask_blocks-Masks (suc n) (tool_call id name args ∷ blocks) =
      let (same, elided, rest) = mask_blocks-Masks (suc n) blocks in
      (ap (◌∷◌ (tool_call id name args)) same, elided, rest)
  mask_blocks-Masks (suc n) (reasoning_block text metadata ∷ blocks) =
      let (same, elided, rest) = mask_blocks-Masks (suc n) blocks in
      (ap (◌∷◌ (reasoning_block text metadata)) same, elided, rest)

  mask_blocks_zero : (blocks : List (Block V)) → (mask_blocks count_text 0 blocks).0 ≡ blocks
  unfolding mask_blocks
  mask_blocks_zero [] = refl
  mask_blocks_zero (b ∷ blocks) = refl

  mask_blocks-append :
      (n : ℕ) (xs ys : List (Block V))
      → (mask_blocks count_text n (xs ++ ys)).0
        ≡ (mask_blocks count_text n xs).0
          ++ (mask_blocks count_text (mask_blocks count_text n xs).1 ys).0
  unfolding mask_blocks
  mask_blocks-append n [] ys = refl
  mask_blocks-append zero (b ∷ xs) ys = ap (λ bs. b ∷ (xs ++ bs)) (sym (mask_blocks_zero ys))
  mask_blocks-append (suc n) (tool_result call_id content is_error ∷ xs) ys =
      ap (◌∷◌ (tool_result call_id (mask_result count_text call_id content).0 is_error))
        (mask_blocks-append n xs ys)
  mask_blocks-append (suc n) (text_block text ∷ xs) ys =
      ap (◌∷◌ (text_block text)) (mask_blocks-append (suc n) xs ys)
  mask_blocks-append (suc n) (tool_call id name args ∷ xs) ys =
      ap (◌∷◌ (tool_call id name args)) (mask_blocks-append (suc n) xs ys)
  mask_blocks-append (suc n) (reasoning_block text metadata ∷ xs) ys =
      ap (◌∷◌ (reasoning_block text metadata)) (mask_blocks-append (suc n) xs ys)

  -- The messages with the contents of their results left out.
  abbrev pub outline : List (Message V) → List (Message V)
  outline [] = []
  outline (m ∷ messages) = record m { blocks = skeleton m.blocks } ∷ outline messages

  outline-mask :
      (n : ℕ) (messages : List (Message V))
      → outline (mask_messages count_text n messages).0 ≡ outline messages
  unfolding mask_messages
  outline-mask n [] = refl
  outline-mask n (m ∷ messages) = λ i.
      record m { blocks = (mask_blocks-Masks n m.blocks).0 i }
      ∷ outline-mask (mask_blocks count_text n m.blocks).1 messages i

  all_blocks-mask :
      (n : ℕ) (messages : List (Message V))
      → all_blocks (mask_messages count_text n messages).0
        ≡ (mask_blocks count_text n (all_blocks messages)).0
  unfolding mask_messages mask_blocks
  all_blocks-mask n [] = refl
  all_blocks-mask n (m ∷ messages) =
      ap (λ bs. (mask_blocks count_text n m.blocks).0 ++ bs)
        (all_blocks-mask (mask_blocks count_text n m.blocks).1 messages)
      ∙ sym (mask_blocks-append n m.blocks (all_blocks messages))

  -- Masking changes nothing but contents of tool results: the system text, the messages with their
  -- roles and the blocks of each message are the same, the contents of results left out; the last
  -- `keep_recent` contents stay as they were, and every older one says that it is elided, unless
  -- `keep_recent` is 0, where none is masked.
  pub mask_older_results-Masks :
      (t : Transcript V) (keep_recent : ℕ)
      → let after = (mask_older_results count_text t keep_recent).1 in
        (after.system ≡ t.system)
        × (outline after.messages ≡ outline t.messages)
        × Masks
            (masked_count keep_recent (count_results t.messages))
            (all_blocks t.messages)
            (all_blocks after.messages)
  unfolding mask_older_results
  mask_older_results-Masks t keep_recent =
      let n = masked_count keep_recent (count_results t.messages) in
      elim (Bool-cases (leb (count_results t.messages) keep_recent)) [
        | inl few ↦
            let none_masked : n ≡ 0 = ground arith in
            rw (few, none_masked) (refl, refl, (refl, tt, refl))
        | inr many ↦
            rw (many, all_blocks-mask n t.messages)
              (refl, outline-mask n t.messages, mask_blocks-Masks n (all_blocks t.messages))
      ]
