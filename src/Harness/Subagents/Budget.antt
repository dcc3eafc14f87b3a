-- ===== src/Harness/Subagents/Budget.antt =====
-- What a session's budget and the list of allowed tools guarantee.
use mathlib.Core.Option.{map as map_option}
use construction_harness.Prelude.{
  ltb, leb, if◌then◌else◌, ltb→lt, Bool-cases, Result, err, length, get_elem?, keep, All, contains,
  nat_eq, string_eq, pair_eq, ℕ, zero, suc, ◌+◌, ◌≤◌, ◌<◌, min, max, String, ◌≡◌, refl, ap, ◌∙◌,
  inl, inr, Bool, true, false, Option, some, List, [], ◌∷◌, arith, subst,
}
use construction_harness.Harness.Registry.{Tool}
use construction_harness.Harness.Subagents.{
  SubagentSpec, SubagentResult, SubagentSpawner, SubagentRun, delegation_tool_names, failed_with,
  is_allowed, run_of, spawn_result, Loop, run_allowed, exhausted_text, spawn, settled, spawn_all,
}

-- A run with allowed tools only, none of which delegates, and at most the spec's turns and tokens.
pub record IsRestricted {V W : Type 0} (spec : SubagentSpec) (r : SubagentRun V W) : Type 0 where
  pub tools_allowed : All (λ (t : Tool V W). contains spec.tools_allowed t.name ≡ true) r.tools
  pub none_delegates : All (λ (t : Tool V W). contains delegation_tool_names t.name ≡ false) r.tools
  pub iterations : r.max_iterations ≡ spec.max_iterations
  pub window : r.window_size ≡ spec.max_tokens

module _ (show_list : List String → String) {V W : Type 0} where
  allowed_tools :
      (spec : SubagentSpec) (tools : List (Tool V W))
      → All
          (λ (t : Tool V W). contains spec.tools_allowed t.name ≡ true)
          (keep (is_allowed spec) tools)
        × All
            (λ (t : Tool V W). contains delegation_tool_names t.name ≡ false)
            (keep (is_allowed spec) tools)
  allowed_tools spec [] = (tt, tt)
  allowed_tools spec (t ∷ tools) =
      let ih = allowed_tools spec tools in
      elim (Bool-cases (is_allowed spec t)) [
        | inl kept ↦ rw kept ((ground arith, ih.0), (ground arith, ih.1))
        | inr dropped ↦ rw dropped ih
      ]

  run_of-IsRestricted :
      (spec : SubagentSpec) (gate : Bool) (tools : List (Tool V W))
      → IsRestricted spec (run_of show_list spec gate (keep (is_allowed spec) tools))
  unfolding run_of
  run_of-IsRestricted spec gate tools = record {
    tools_allowed = (allowed_tools spec tools).0;
    none_delegates = (allowed_tools spec tools).1;
    iterations = refl;
    window = refl;
  }

  run_allowed-same :
      (f g : Loop V W) (spawner : SubagentSpawner V W) (spec : SubagentSpec) (gate : Bool)
      (allowed : List (Tool V W))
      → f (run_of show_list spec gate allowed) ≡ g (run_of show_list spec gate allowed)
      → run_allowed show_list f spawner spec gate allowed
        ≡ run_allowed show_list g spawner spec gate allowed
  unfolding run_allowed
  run_allowed-same f g spawner spec gate [] h = refl
  run_allowed-same f g spawner spec gate (t ∷ allowed) h = ap spawn_result h

  -- A spawn runs its sub-agent only with tools that the spec allows, none of them a delegation
  -- tool, and within the spec's turns and tokens: two agent loops that agree on such runs give the
  -- same result and the same count.
  pub spawn_restricted :
      (f g : Loop V W) (spec : SubagentSpec) (gate : Bool) (spawner : SubagentSpawner V W)
      → ((r : SubagentRun V W) → IsRestricted spec r → f r ≡ g r)
      → spawn show_list f spec gate spawner ≡ spawn show_list g spec gate spawner
  unfolding spawn
  spawn_restricted f g spec gate spawner h =
      let allowed = keep (is_allowed spec) spawner.catalog in
      let same =
        run_allowed-same f g spawner spec gate allowed (
          h (run_of show_list spec gate allowed) (run_of-IsRestricted spec gate spawner.catalog)) in
      elim (Bool-cases (leb spawner.max_subagents_per_session spawner.spawn_count)) [
        | inl spent ↦ rw spent refl
        | inr left ↦ rw (left, same) refl
      ]

  -- What the spec at position j gives: within the budget its own run's result, past it the error.
  abbrev pub share : (ℕ → Loop V W) → SubagentSpawner V W → ℕ → SubagentSpec → SubagentResult
  share loops spawner j spec =
      if ltb (spawner.spawn_count + j) spawner.max_subagents_per_session
      then settled (
          run_allowed show_list (loops j) spawner spec true
            (keep (is_allowed spec) spawner.catalog))
      else failed_with (exhausted_text spawner)

  abbrev shares : (ℕ → Loop V W) → SubagentSpawner V W → ℕ → List SubagentSpec → List SubagentResult
  shares loops spawner j [] = []
  shares loops spawner j (spec ∷ specs) =
      share loops spawner j spec ∷ shares loops spawner (suc j) specs

  -- The count when j specs have been taken up.
  abbrev pub count_after : SubagentSpawner V W → ℕ → ℕ
  count_after spawner j =
      max spawner.spawn_count (min spawner.max_subagents_per_session (spawner.spawn_count + j))

  run_allowed-counted :
      (f : Loop V W) (spawner : SubagentSpawner V W) (n : ℕ) (spec : SubagentSpec)
      (allowed : List (Tool V W))
      → run_allowed show_list f (record spawner { spawn_count = n }) spec true allowed
        ≡ run_allowed show_list f spawner spec true allowed
  unfolding run_allowed
  run_allowed-counted f spawner n spec [] = refl
  run_allowed-counted f spawner n spec (t ∷ allowed) = refl

  spawn_within :
      (f : Loop V W) (spawner : SubagentSpawner V W) (n : ℕ) (spec : SubagentSpec)
      → n < spawner.max_subagents_per_session
      → spawn show_list f spec true (record spawner { spawn_count = n }) ≡ (
        run_allowed show_list f spawner spec true (keep (is_allowed spec) spawner.catalog),
        record spawner { spawn_count = suc n },
      )
  unfolding spawn
  spawn_within f spawner n spec h =
      let left : leb spawner.max_subagents_per_session n ≡ false = ground arith in
      rw (left, run_allowed-counted f spawner n spec (keep (is_allowed spec) spawner.catalog)) refl

  spawn_past :
      (f : Loop V W) (spawner : SubagentSpawner V W) (n : ℕ) (spec : SubagentSpec)
      → spawner.max_subagents_per_session ≤ n
      → spawn show_list f spec true (record spawner { spawn_count = n })
        ≡ (err (exhausted_text spawner), record spawner { spawn_count = n })
  unfolding spawn
  spawn_past f spawner n spec h =
      let spent : leb spawner.max_subagents_per_session n ≡ true = ground arith in rw spent refl

  -- One spec and then the others.
  spawn_all-step :
      (loops : ℕ → Loop V W) (spawner : SubagentSpawner V W) (j n m k : ℕ) (spec : SubagentSpec)
      (specs : List SubagentSpec) (r : Result String SubagentResult)
      → spawn show_list (loops j) spec true (record spawner { spawn_count = n })
        ≡ (r, record spawner { spawn_count = m })
      → settled r ≡ share loops spawner j spec
      → spawn_all show_list loops (suc j) specs (record spawner { spawn_count = m })
        ≡ (shares loops spawner (suc j) specs, record spawner { spawn_count = k })
      → spawn_all show_list loops j (spec ∷ specs) (record spawner { spawn_count = n })
        ≡ (shares loops spawner j (spec ∷ specs), record spawner { spawn_count = k })
  unfolding spawn_all
  spawn_all-step loops spawner j n m k spec specs r first own rest =
      (λ i. (
        settled (first i).0 ∷ (spawn_all show_list loops (suc j) specs (first i).1).0,
        (spawn_all show_list loops (suc j) specs (first i).1).1,
      ))
      ∙ (λ i. (own i ∷ (rest i).0, (rest i).1))

  spawn_all-shares :
      (loops : ℕ → Loop V W) (spawner : SubagentSpawner V W) (j n : ℕ) (specs : List SubagentSpec)
      → n ≡ count_after spawner j
      → spawn_all show_list loops j specs (record spawner { spawn_count = n }) ≡ (
        shares loops spawner j specs,
        record spawner { spawn_count = count_after spawner (j + length specs) },
      )
  unfolding spawn_all
  spawn_all-shares loops spawner j n [] h =
      let same : n ≡ count_after spawner (j + 0) = omega arith in
      λ i. ([], record spawner { spawn_count = same i })
  spawn_all-shares loops spawner j n (spec ∷ specs) h =
      let total : count_after spawner (suc j + length specs)
          ≡ count_after spawner (j + suc (length specs)) =
        ap (count_after spawner) {x = suc j + length specs} (omega arith) in
      elim (Bool-cases (ltb (spawner.spawn_count + j) spawner.max_subagents_per_session)) [
        | inl left ↦
            let within = ltb→lt (spawner.spawn_count + j) spawner.max_subagents_per_session left in
            let r =
              run_allowed show_list (loops j) spawner spec true
                (keep (is_allowed spec) spawner.catalog) in
            spawn_all-step loops spawner j n (suc n) (count_after spawner (j + suc (length specs)))
              spec specs r (spawn_within (loops j) spawner n spec (omega arith)) (rw left refl)
              (subst
                (λ k.
                  spawn_all show_list loops (suc j) specs (record spawner { spawn_count = suc n })
                  ≡ (shares loops spawner (suc j) specs, record spawner { spawn_count = k }))
                total (spawn_all-shares loops spawner (suc j) (suc n) specs (omega arith)))
        | inr spent ↦
            let past : spawner.max_subagents_per_session ≤ spawner.spawn_count + j = ground arith in
            spawn_all-step loops spawner j n n (count_after spawner (j + suc (length specs))) spec
              specs (err (exhausted_text spawner))
              (spawn_past (loops j) spawner n spec (omega arith)) (rw spent refl)
              (subst
                (λ k.
                  spawn_all show_list loops (suc j) specs (record spawner { spawn_count = n })
                  ≡ (shares loops spawner (suc j) specs, record spawner { spawn_count = k }))
                total (spawn_all-shares loops spawner (suc j) n specs (omega arith)))
      ]

  get_elem?-shares :
      (loops : ℕ → Loop V W) (spawner : SubagentSpawner V W) (i j : ℕ) (specs : List SubagentSpec)
      (spec : SubagentSpec)
      → get_elem? specs j ≡ some spec
      → get_elem? (shares loops spawner i specs) j ≡ some (share loops spawner (i + j) spec)
  get_elem?-shares loops spawner i j [] spec h = cc
  get_elem?-shares loops spawner i zero (s ∷ specs) spec h =
      let same : i ≡ i + 0 = omega arith in
      ap (λ (t : Option SubagentSpec). map_option (share loops spawner i) t) h
      ∙ ap (λ k. some (share loops spawner k spec)) same
  get_elem?-shares loops spawner i (suc j) (s ∷ specs) spec h =
      get_elem?-shares loops spawner (suc i) j specs spec h
      ∙ ap (λ k. some (share loops spawner k spec)) {x = suc i + j} (omega arith)

  length-shares :
      (loops : ℕ → Loop V W) (spawner : SubagentSpawner V W) (i : ℕ) (specs : List SubagentSpec)
      → length (shares loops spawner i specs) ≡ length specs
  length-shares loops spawner i [] = refl
  length-shares loops spawner i (s ∷ specs) = ap suc (length-shares loops spawner (suc i) specs)

  -- A batch gives one result for each spec, in their order: the spec at position j has its own
  -- sub-agent's result while the session's budget lasts, that is while fewer than the maximum were
  -- spawned with the j specs before it, and else an error that names the budget. Afterwards the
  -- count is that before and the number of specs, but at most the maximum, unless it was past it.
  pub spawn_all-share :
      (loops : ℕ → Loop V W) (spawner : SubagentSpawner V W) (specs : List SubagentSpec) (j : ℕ)
      (spec : SubagentSpec)
      → get_elem? specs j ≡ some spec
      → (length (spawn_all show_list loops 0 specs spawner).0 ≡ length specs)
        × (get_elem? (spawn_all show_list loops 0 specs spawner).0 j
            ≡ some (share loops spawner j spec))
        × ((spawn_all show_list loops 0 specs spawner).1.spawn_count
            ≡ count_after spawner (length specs))
  spawn_all-share loops spawner specs j spec at =
      let all_shares = spawn_all-shares loops spawner 0 spawner.spawn_count specs (omega arith) in
      (
        ap (λ (r : List SubagentResult × SubagentSpawner V W). length r.0) all_shares
            ∙ length-shares loops spawner 0 specs,
        ap (λ (r : List SubagentResult × SubagentSpawner V W). get_elem? r.0 j) all_shares
            ∙ get_elem?-shares loops spawner 0 j specs spec at
            ∙ ap (λ k. some (share loops spawner k spec)) {x = 0 + j} (omega arith),
        ap (λ (r : List SubagentResult × SubagentSpawner V W). r.1.spawn_count) all_shares
            ∙ ap (count_after spawner) {x = 0 + length specs} (omega arith),
      )
