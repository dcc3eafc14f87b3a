-- ===== src/Harness/Context/Pairing.antt =====
-- The order of calls and results in a transcript: each result follows the turn that made its call,
-- with only results between.
use construction_harness.Prelude.{
  get_elem?, drop, any, All, All-append, contains, contains-append, nat_eq, string_eq, pair_eq, ℕ,
  zero, suc, String, ◌≡◌, refl, ◌⊎◌, inl, inr, true, false, some, List, [], ◌∷◌, ◌++◌, arith,
}
use construction_harness.Harness.Messages.{
  Block, text_block, tool_call, tool_result, reasoning_block, Message,
}
use construction_harness.Harness.Context.{block_calls, call_ids, is_orphan}
use construction_harness.Harness.Context.Summarizer.{is_tool_result, has_tool_result}
use construction_harness.Harness.Context.Orphans.{all_blocks, NoOrphans}

wider-left :
    (xs ys : List String) (x : String) → (contains xs x ≡ false) ⊎ (contains (xs ++ ys) x ≡ true)
wider-left xs ys x = ground (arith, contains-append xs ys x)

wider-middle :
    (xs ys zs : List String) (x : String)
    → (contains (xs ++ zs) x ≡ false) ⊎ (contains (xs ++ (ys ++ zs)) x ≡ true)
wider-middle xs ys zs x =
    ground
      (arith, contains-append xs zs x, contains-append xs (ys ++ zs) x, contains-append ys zs x)

wider-right :
    (xs ys : List String) (x : String) → (contains ys x ≡ false) ⊎ (contains (xs ++ ys) x ≡ true)
wider-right xs ys x = ground (arith, contains-append xs ys x)

module _ {V : Type 0} where
  -- With `calls` the calls of the latest turn that is no result.
  abbrev pub Paired : List String → List (Message V) → Type 0
  Paired calls [] = Unit
  Paired calls (m ∷ messages) =
      ((has_tool_result m ≡ true)
        × All (λ b. is_orphan calls b ≡ false) m.blocks
        × Paired calls messages)
      ⊎ ((has_tool_result m ≡ false) × Paired (block_calls m.blocks) messages)

  -- From a message that holds no result on, the calls before it do not matter.
  pub Paired-drop :
      (calls later : List String) (messages : List (Message V)) (i : ℕ) (m : Message V)
      → Paired calls messages
      → get_elem? messages i ≡ some m
      → has_tool_result m ≡ false
      → Paired later (drop i messages)
  Paired-drop calls later [] zero m paired at_i none_there = tt
  Paired-drop calls later [] (suc i) m paired at_i none_there = tt
  Paired-drop calls later (x ∷ messages) zero m (inl (some_there, closed, rest)) at_i none_there =
      ground arith
  Paired-drop calls later (x ∷ messages) zero m (inr rest) at_i none_there = inr rest
  Paired-drop calls later (x ∷ messages) (suc i) m (inl (there, closed, rest)) at_i none_there =
      Paired-drop calls later messages i m rest at_i none_there
  Paired-drop calls later (x ∷ messages) (suc i) m (inr (there, rest)) at_i none_there =
      Paired-drop (block_calls x.blocks) later messages i m rest at_i none_there

  -- A larger set of calls has no more orphans.
  is_orphan_mono :
      (ids more : List String) (b : Block V)
      → ((x : String) → (contains ids x ≡ false) ⊎ (contains more x ≡ true))
      → is_orphan ids b ≡ false
      → is_orphan more b ≡ false
  is_orphan_mono ids more (tool_result call_id content is_error) wider h =
      ground (arith, wider call_id)
  is_orphan_mono ids more (text_block text) wider h = refl
  is_orphan_mono ids more (tool_call id name args) wider h = refl
  is_orphan_mono ids more (reasoning_block text metadata) wider h = refl

  All-orphan_mono :
      (ids more : List String) (blocks : List (Block V))
      → ((x : String) → (contains ids x ≡ false) ⊎ (contains more x ≡ true))
      → All (λ b. is_orphan ids b ≡ false) blocks
      → All (λ b. is_orphan more b ≡ false) blocks
  All-orphan_mono ids more [] wider h = tt
  All-orphan_mono ids more (b ∷ blocks) wider (hb, h) =
      (is_orphan_mono ids more b wider hb, All-orphan_mono ids more blocks wider h)

  no_results :
      (ids : List String) (blocks : List (Block V))
      → any is_tool_result blocks ≡ false
      → All (λ b. is_orphan ids b ≡ false) blocks
  no_results ids [] h = tt
  no_results ids (text_block text ∷ blocks) h = (refl, no_results ids blocks h)
  no_results ids (tool_call id name args ∷ blocks) h = (refl, no_results ids blocks h)
  no_results ids (reasoning_block text metadata ∷ blocks) h = (refl, no_results ids blocks h)
  no_results ids (tool_result call_id content is_error ∷ blocks) h = ground arith

  Paired-closed :
      (calls : List String) (messages : List (Message V))
      → Paired calls messages
      → All (λ b. is_orphan (calls ++ call_ids messages) b ≡ false) (all_blocks messages)
  unfolding has_tool_result
  Paired-closed calls [] paired = tt
  Paired-closed calls (m ∷ messages) (inl (there, closed, rest)) =
      let ids = block_calls m.blocks in
      All-append (λ b. is_orphan (calls ++ (ids ++ call_ids messages)) b ≡ false) m.blocks
        (all_blocks messages)
        (All-orphan_mono calls (calls ++ (ids ++ call_ids messages)) m.blocks
          (wider-left calls (ids ++ call_ids messages)) closed)
        (All-orphan_mono (calls ++ call_ids messages) (calls ++ (ids ++ call_ids messages))
          (all_blocks messages) (wider-middle calls ids (call_ids messages))
          (Paired-closed calls messages rest))
  Paired-closed calls (m ∷ messages) (inr (there, rest)) =
      let ids = block_calls m.blocks in
      All-append (λ b. is_orphan (calls ++ (ids ++ call_ids messages)) b ≡ false) m.blocks
        (all_blocks messages) (no_results (calls ++ (ids ++ call_ids messages)) m.blocks there)
        (All-orphan_mono (ids ++ call_ids messages) (calls ++ (ids ++ call_ids messages))
          (all_blocks messages) (wider-right calls (ids ++ call_ids messages))
          (Paired-closed ids messages rest))

  -- A transcript in that order has no orphan.
  pub Paired-NoOrphans : (messages : List (Message V)) → Paired [] messages → NoOrphans messages
  Paired-NoOrphans messages paired = Paired-closed [] messages paired
