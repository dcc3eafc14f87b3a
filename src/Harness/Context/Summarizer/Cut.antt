-- ===== src/Harness/Context/Summarizer/Cut.antt =====
-- Where the summarizer cuts.
use construction_harness.Prelude.{
  length-take, length-drop, leb, leb→lt, Bool-cases, Result, ok, err, length, get_elem?, take, drop,
  length-drop, nat_eq, string_eq, pair_eq, ℕ, zero, suc, ◌+◌, ◌-◌, ◌≤◌, ◌<◌, String, ◌≡◌, refl, sym,
  ◌∙◌, ◌⊎◌, inl, inr, true, false, Option, some, List, [], ◌∷◌, ◌++◌, arith,
}
use construction_harness.Harness.Messages.{Dict, Message, Transcript, ProviderResponse, user_text}
use construction_harness.Harness.Context.Orphans.{NoOrphans}
use construction_harness.Harness.Context.Pairing.{Paired, Paired-drop, Paired-NoOrphans}
use construction_harness.Harness.Context.Summarizer.{
  SummarizationResult, has_tool_result, retreat, store_summary, replace_prefix, cut_prefix,
  summarize_prefix,
}

module _ {V : Type 0} where
  -- The cut stands at a message that holds no tool result.
  abbrev pub CutAt : List (Message V) → ℕ → Type 0
  CutAt messages q = (m : Message V) × (get_elem? messages q ≡ some m) × (has_tool_result m ≡ false)

  in_range :
      (messages : List (Message V)) (i : ℕ)
      → i < length messages
      → (m : Message V) × (get_elem? messages i ≡ some m)
  in_range [] i h = absurd (omega arith)
  in_range (m ∷ messages) zero h = (m, refl)
  in_range (m ∷ messages) (suc i) h = in_range messages i (omega arith)

  retreat_past :
      (messages : List (Message V)) (n : ℕ) (m : Message V)
      → get_elem? messages (suc (suc n)) ≡ some m
      → has_tool_result m ≡ true
      → retreat messages (suc (suc n)) ≡ retreat messages (suc n)
  unfolding retreat
  retreat_past messages n m at_m result_there = rw (retreat, at_m, result_there) refl

  retreat_stop :
      (messages : List (Message V)) (n : ℕ) (m : Message V)
      → get_elem? messages (suc (suc n)) ≡ some m
      → has_tool_result m ≡ false
      → retreat messages (suc (suc n)) ≡ ok (suc (suc n))
  unfolding retreat
  retreat_stop messages n m at_m none_there = rw (retreat, at_m, none_there) refl

  -- The cut retreats to 1, or to a message with no tool result.
  pub retreat_lem :
      (messages : List (Message V)) (p : ℕ)
      → 1 ≤ p
      → p < length messages
      → (q : ℕ) × (retreat messages p ≡ ok q) × (q ≤ p) × ((q ≡ 1) ⊎ ((2 ≤ q) × CutAt messages q))
  unfolding retreat
  retreat_lem messages zero h h' = absurd (omega arith)
  retreat_lem messages (suc zero) h h' = (1, refl, omega arith, inl refl)
  retreat_lem messages (suc (suc n)) h h' =
      let (q, at_q, le, cut) = retreat_lem messages (suc n) (omega arith) (omega arith) in
      let (m, at_m) = in_range messages (suc (suc n)) h' in
      elim (Bool-cases (has_tool_result m)) [
        | inl result_there ↦
            (q, retreat_past messages n m at_m result_there ∙ at_q, omega arith, cut)
        | inr none_there ↦ (
          suc (suc n),
          retreat_stop messages n m at_m none_there,
          omega arith,
          inr (omega arith, (m, at_m, none_there)),
        )
      ]

  -- Putting a user's text in place of `messages[1:q]` keeps the order of calls and results.
  pub Paired-replace :
      (text : String) (messages : List (Message V)) (q : ℕ)
      → Paired [] messages
      → CutAt messages q
      → Paired [] (take 1 messages ++ (user_text text ∷ drop q messages))
  unfolding has_tool_result user_text
  Paired-replace text [] q paired (m, at_q, none_there) = ground arith
  Paired-replace text (x ∷ messages) q (inl (there, closed, rest)) (m, at_q, none_there) = inl (
    there,
    closed,
    inr (refl, Paired-drop [] [] (x ∷ messages) q m (inl (there, closed, rest)) at_q none_there),
  )
  Paired-replace text (x ∷ messages) q (inr (there, rest)) (m, at_q, none_there) =
      inr (
        there,
        inr (refl, Paired-drop [] [] (x ∷ messages) q m (inr (there, rest)) at_q none_there),
      )

module _ {V : Type 0} (show_args : Dict V → String)
    (acomplete : Transcript V → Result String (ProviderResponse V)) where
  -- The transcript is the one before; or its messages from the second up to some position, which
  -- are as many as the result says, have been replaced by one text of the user's.
  abbrev pub Summarized :
      ℕ → Transcript V → Result String (Option SummarizationResult) × Transcript V → Type 0
  Summarized keep_recent_turns t r =
      (r.1 ≡ t)
      ⊎ ((cut : ℕ) × (res : SummarizationResult) × (text : String) × (r.0 ≡ ok (some res))
          × (cut ≡ suc res.turns_replaced)
          × (1 ≤ res.turns_replaced)
          × (cut + keep_recent_turns ≤ length t.messages)
          × (r.1
              ≡ record t { messages = take 1 t.messages ++ (user_text text ∷ drop cut t.messages) })
          × CutAt t.messages cut)

  stored :
      (t : Transcript V) (cut keep_recent_turns : ℕ) (prefix : List (Message V))
      (answer : Result String (ProviderResponse V))
      → cut ≡ suc (length prefix)
      → 2 ≤ cut
      → cut + keep_recent_turns ≤ length t.messages
      → CutAt t.messages cut
      → Summarized keep_recent_turns t (store_summary t cut prefix answer)
  unfolding store_summary
  stored t cut keep_recent_turns prefix (err e) counted h le at_cut = inl refl
  stored t cut keep_recent_turns prefix (ok response) counted h le at_cut =
      inr (cut, _, _, refl, counted, omega arith, le, refl, at_cut)

  replaced :
      (t : Transcript V) (cut keep_recent_turns : ℕ) (prefix : List (Message V))
      → suc (length prefix) ≡ cut
      → (cut ≡ 1) ⊎ ((2 ≤ cut) × CutAt t.messages cut)
      → cut + keep_recent_turns ≤ length t.messages
      → Summarized keep_recent_turns t (replace_prefix show_args acomplete t cut prefix)
  unfolding replace_prefix
  replaced t cut keep_recent_turns [] counted at_cut le = inl refl
  replaced t cut keep_recent_turns (m ∷ more) counted (inl one) le = absurd (omega arith)
  replaced t cut keep_recent_turns (m ∷ more) counted (inr (h, at_cut)) le =
      stored t cut keep_recent_turns (m ∷ more) _ (sym counted) h le at_cut

  cut_Summarized :
      (t : Transcript V) (cut keep_recent_turns : ℕ)
      → ((cut ≡ 1) ⊎ ((2 ≤ cut) × CutAt t.messages cut))
      → cut + keep_recent_turns ≤ length t.messages
      → Summarized keep_recent_turns t (cut_prefix show_args acomplete t (ok cut))
  unfolding cut_prefix
  cut_Summarized t cut keep_recent_turns at_cut le =
      replaced t cut keep_recent_turns (drop 1 (take cut t.messages))
        (omega (arith, length-drop 1 (take cut t.messages), length-take cut t.messages, at_cut))
        at_cut le

  Summarized-Paired :
      (keep_recent_turns : ℕ) (t after : Transcript V)
      (answer : Result String (Option SummarizationResult))
      → Summarized keep_recent_turns t (answer, after)
      → Paired [] t.messages
      → Paired [] after.messages
  Summarized-Paired keep_recent_turns t after answer (inl same) paired = rw same paired
  Summarized-Paired keep_recent_turns t after answer
        (inr (cut, res, text, is_some, counted, some_turn, le, replaced_by, at_cut)) paired =
      rw replaced_by (Paired-replace text t.messages cut paired at_cut)

  prefix_Summarized :
      (t : Transcript V) (keep_recent_turns : ℕ)
      → 1 ≤ keep_recent_turns
      → Summarized keep_recent_turns t (summarize_prefix show_args acomplete t keep_recent_turns)
  unfolding summarize_prefix
  prefix_Summarized t keep_recent_turns h =
      let n = length t.messages in
      elim (Bool-cases (leb n (keep_recent_turns + 1))) [
        | inl short ↦ rw short (inl refl)
        | inr long ↦
            let longer = leb→lt n (keep_recent_turns + 1) long in
            let (q, at_q, le, cut) =
              retreat_lem t.messages (n - keep_recent_turns) (omega arith) (omega arith) in
            rw (long, at_q) (cut_Summarized t q keep_recent_turns cut (omega arith))
      ]

  -- With at least one turn to keep, and calls and results in order: the summarizer either leaves the
  -- transcript as it was, or it keeps the first message and at least the last `keep_recent_turns`
  -- messages as they were and puts one user's text in place of the others, as many as it reports;
  -- and the calls and results are again in order, so that no tool result lacks its call.
  pub summarize_prefix-Paired :
      (t : Transcript V) (keep_recent_turns : ℕ)
      → 1 ≤ keep_recent_turns
      → Paired [] t.messages
      → Summarized keep_recent_turns t (summarize_prefix show_args acomplete t keep_recent_turns)
        × Paired [] (summarize_prefix show_args acomplete t keep_recent_turns).1.messages
        × NoOrphans (summarize_prefix show_args acomplete t keep_recent_turns).1.messages
  summarize_prefix-Paired t keep_recent_turns h paired =
      let r = summarize_prefix show_args acomplete t keep_recent_turns in
      let summarized = prefix_Summarized t keep_recent_turns h in
      let after = Summarized-Paired keep_recent_turns t r.1 r.0 summarized paired in
      (summarized, after, Paired-NoOrphans r.1.messages after)
