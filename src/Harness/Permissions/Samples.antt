-- ===== src/Harness/Permissions/Samples.antt =====
-- Concrete permission checks.
use construction_harness.Prelude.{
  contains, nat_eq, string_eq, pair_eq, String, ◌≡◌, refl, ◌≢◌, ◌↔◌, ◌⊎◌, true, false, none, some,
  [], ◌∷◌,
}
use construction_harness.Harness.Permissions.{
  allow, deny, ask, PermissionRequest, outcome, Policy, PermissionManager, cache_key, precedence,
  lesser, by_side_effect, check,
}
use construction_harness.Harness.Permissions.Approvals.{
  Asked, headless_fails_closed, approvals_grow,
}

abbrev dumps : String → String
dumps args = args

abbrev shell : PermissionRequest String
shell = record { tool_name = "bash"; args = "{}"; side_effects = "read" ∷ "write" ∷ [] }

abbrev defaults : Policy String
defaults = by_side_effect allow ask ask deny

defaults-shell : defaults shell ≡ outcome ask "write side effect → ask"
unfolding by_side_effect lesser precedence
defaults-shell = refl

abbrev headless : PermissionManager String
headless = record { policy = defaults; human_prompt = none; session_approvals = [] }

headless_fails_closed_example :
    ((check dumps "bash" ("write" ∷ []) "{}" headless).0.decision ≢ ask)
    × ((check dumps "bash" ("write" ∷ []) "{}" headless).1 ≡ headless)
    × (((check dumps "bash" ("write" ∷ []) "{}" headless).0.decision ≡ allow) ↔ (
        (contains [] (cache_key dumps "bash" "{}") ≡ true)
        ⊎ ((defaults
              (record { tool_name = "bash"; args = "{}"; side_effects = "write" ∷ [] })).decision
            ≡ allow)))
headless_fails_closed_example = headless_fails_closed dumps "bash" ("write" ∷ []) "{}" headless refl

abbrev attended : PermissionManager String
attended = record { policy = defaults; human_prompt = some (λ req. allow); session_approvals = [] }

approvals_grow_example :
    let key = cache_key dumps "bash" "{}" in
    let req : PermissionRequest String = record {
      tool_name = "bash";
      args = "{}";
      side_effects = "write" ∷ [];
    } in
    let result = check dumps "bash" ("write" ∷ []) "{}" attended in
    ((contains [] key ≡ true) × (result.0.decision ≡ allow) × (result.1 ≡ attended))
    ⊎ ((contains [] key ≡ false)
        × ((defaults req).decision ≢ ask)
        × (result.0 ≡ defaults req)
        × (result.1 ≡ attended))
    ⊎ ((contains [] key ≡ false)
        × ((defaults req).decision ≡ ask)
        × Asked dumps key req attended result)
approvals_grow_example = approvals_grow dumps "bash" ("write" ∷ []) "{}" attended
