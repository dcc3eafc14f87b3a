-- ===== src/Harness/Permissions/Approvals.antt =====
-- The manager: what it lets through, and what it remembers.
use construction_harness.Prelude.{
  Bool-cases, Option-cases, contains, nat_eq, string_eq, pair_eq, String, ◌≡◌, refl, ◌≢◌, ◌↔◌, ◌⊎◌,
  inl, inr, true, false, none, some, List, ◌∷◌, arith,
}
use construction_harness.Harness.Permissions.{
  Decision, allow, deny, ask, PermissionRequest, PermissionOutcome, PermissionManager, cache_key,
  ask_human, check,
}

decision_cases : (d : Decision) → (d ≡ allow) ⊎ (d ≡ deny) ⊎ (d ≡ ask)
decision_cases allow = inl refl
decision_cases deny = inr (inl refl)
decision_cases ask = inr (inr refl)

module _ {Args : Type 0} (dumps : Args → String) where
  abbrev request : String → List String → Args → PermissionRequest Args
  request tool_name effects args = record {
    tool_name = tool_name;
    args = args;
    side_effects = effects;
  }

  -- With no human to ask, a check never ends in "ask" and remembers nothing, and it allows exactly
  -- the calls that were approved before or that the policy itself allows.
  pub headless_fails_closed :
      (tool_name : String) (effects : List String) (args : Args) (manager : PermissionManager Args)
      → manager.human_prompt ≡ none
      → let result = check dumps tool_name effects args manager in
        (result.0.decision ≢ ask)
        × (result.1 ≡ manager)
        × ((result.0.decision ≡ allow) ↔ (
            (contains manager.session_approvals (cache_key dumps tool_name args) ≡ true)
            ⊎ ((manager.policy (request tool_name effects args)).decision ≡ allow)))
  unfolding check ask_human
  headless_fails_closed tool_name effects args manager h = ground arith

  -- What the human's answer decides: without a human it is "deny".
  abbrev pub Asked :
      String
      → PermissionRequest Args
      → PermissionManager Args
      → PermissionOutcome × PermissionManager Args
      → Type 0
  Asked key req manager result =
      ((manager.human_prompt ≡ none) × (result.0.decision ≡ deny) × (result.1 ≡ manager))
      ⊎ ((human : PermissionRequest Args → Decision) × (manager.human_prompt ≡ some human)
          × (result.0.decision ≡ human req)
          × (((human req ≢ allow) × (result.1 ≡ manager))
              ⊎ ((human req ≡ allow)
                  × (result.1
                      ≡ record manager { session_approvals = key ∷ manager.session_approvals }))))

  ask_human-Asked :
      (key : String) (req : PermissionRequest Args) (manager : PermissionManager Args)
      → Asked key req manager (ask_human dumps key req manager)
  unfolding ask_human
  ask_human-Asked key req manager = elim (Option-cases manager.human_prompt) [
    | inl nobody ↦ inl (ground arith)
    | inr (human, present) ↦ elim (decision_cases (human req)) [
      | inl allows ↦ inr (human, present, ground arith, inr (ground arith))
      | inr (inl denies) ↦ inr (human, present, ground arith, inl (ground arith))
      | inr (inr asks) ↦ inr (human, present, ground arith, inl (ground arith))
    ]
  ]

  -- A check of a call that was approved before allows it, whatever the policy and the human say, and
  -- changes nothing. Any other call is decided by the policy, if it does not ask. If it asks, a
  -- manager without a human denies; with one, the decision is the human's on this very request, and
  -- an allowed call's key is added to the approvals. In no other case does the manager change, and
  -- its policy and human never do.
  pub approvals_grow :
      (tool_name : String) (effects : List String) (args : Args) (manager : PermissionManager Args)
      → let key = cache_key dumps tool_name args in
        let req = request tool_name effects args in
        let result = check dumps tool_name effects args manager in
        ((contains manager.session_approvals key ≡ true)
          × (result.0.decision ≡ allow)
          × (result.1 ≡ manager))
        ⊎ ((contains manager.session_approvals key ≡ false)
            × ((manager.policy req).decision ≢ ask)
            × (result.0 ≡ manager.policy req)
            × (result.1 ≡ manager))
        ⊎ ((contains manager.session_approvals key ≡ false)
            × ((manager.policy req).decision ≡ ask)
            × Asked key req manager result)
  unfolding check
  approvals_grow tool_name effects args manager =
      let key = cache_key dumps tool_name args in
      let req = request tool_name effects args in
      elim (Bool-cases (contains manager.session_approvals key)) [
        | inl approved ↦ inl (ground arith)
        | inr fresh ↦ elim (decision_cases (manager.policy req).decision) [
          | inl allows ↦ inr (inl (fresh, ground arith, ground arith, ground arith))
          | inr (inl denies) ↦ inr (inl (fresh, ground arith, ground arith, ground arith))
          | inr (inr asks) ↦
              let same : check dumps tool_name effects args manager
                  ≡ ask_human dumps key req manager =
                ground arith in
              inr (inr (fresh, asks, rw same (ask_human-Asked key req manager)))
        ]
      ]
