-- ===== src/Harness/Permissions/Policies.antt =====
-- What the policies decide.
use construction_harness.Prelude.{
  keep, All, contains, nat_eq, string_eq, pair_eq, ◌≤◌, String, ◌≡◌, refl, ap, ◌∙◌, ◌≢◌, ◌⊎◌, inl,
  inr, List, [], ◌∷◌, arith,
}
use construction_harness.Harness.Permissions.{
  Decision, allow, ask, PermissionRequest, PermissionOutcome, Policy, precedence, lesser,
  most_restrictive, effect_outcome, by_side_effect, compose,
}

-- Some member of a list has the property.
abbrev pub One {ℓ} : {A : Type ℓ} → (A → Type 0) → List A → Type 0
One P [] = ⊥
One P (x ∷ xs) = P x ⊎ One P xs

One-map {ℓ} :
    {A : Type ℓ} (P Q : A → Type 0) (xs : List A) → ((x : A) → P x → Q x) → One P xs → One Q xs
One-map P Q [] f o = absurd o
One-map P Q (x ∷ xs) f (inl p) = inl (f x p)
One-map P Q (x ∷ xs) f (inr o) = inr (One-map P Q xs f o)

lesser-le :
    (best d : Decision × String)
    → (precedence (lesser best d).0 ≤ precedence best.0)
      × (precedence (lesser best d).0 ≤ precedence d.0)
unfolding lesser
lesser-le best d = ground arith

lesser_one : (best d : Decision × String) → (lesser best d ≡ best) ⊎ (lesser best d ≡ d)
unfolding lesser
lesser_one best d = ground arith

most_restrictive-le :
    (best : Decision × String) (ds : List (Decision × String))
    → (precedence (most_restrictive best ds).0 ≤ precedence best.0)
      × All (λ d. precedence (most_restrictive best ds).0 ≤ precedence d.0) ds
unfolding most_restrictive
most_restrictive-le best [] = (omega arith, tt)
most_restrictive-le best (d ∷ ds) =
    let (bound, bounds) = most_restrictive-le (lesser best d) ds in
    let (low, low') = lesser-le best d in (omega arith, (omega arith, bounds))

effect_outcome-le :
    (ds : List (Decision × String))
    → All (λ d. precedence (effect_outcome ds).decision ≤ precedence d.0) ds
unfolding effect_outcome
effect_outcome-le [] = tt
effect_outcome-le (d ∷ ds) = most_restrictive-le d ds

most_restrictive-One :
    (best : Decision × String) (ds : List (Decision × String))
    → (most_restrictive best ds ≡ best) ⊎ One (λ d. most_restrictive best ds ≡ d) ds
unfolding most_restrictive
most_restrictive-One best [] = inl refl
most_restrictive-One best (d ∷ ds) = elim (most_restrictive-One (lesser best d) ds) [
  | inr later ↦ inr (inr later)
  | inl same ↦ elim (lesser_one best d) [ inl e ↦ inl (same ∙ e) | inr e ↦ inr (inl (same ∙ e)) ]
]

-- The configured decision of each effect, and those of the effects that a tool declares.
abbrev pub configured : Decision → Decision → Decision → Decision → List (Decision × String)
configured read write network mutate =
    (read, "read") ∷ (write, "write") ∷ (network, "network") ∷ (mutate, "mutate") ∷ []

abbrev pub declared : List String → List (Decision × String) → List (Decision × String)
declared effects = keep (λ d. contains effects d.1)

effect_outcome-One :
    (ds : List (Decision × String))
    → ((ds ≡ []) × ((effect_outcome ds).decision ≡ ask))
      ⊎ One (λ d. (effect_outcome ds).decision ≡ d.0) ds
unfolding effect_outcome
effect_outcome-One [] = inl (refl, refl)
effect_outcome-One (d ∷ ds) = inr (elim (most_restrictive-One d ds) [
  | inl e ↦ inl (ap (λ x. x.0) e)
  | inr o ↦ inr (
      One-map (λ x. most_restrictive d ds ≡ x) (λ x. (most_restrictive d ds).0 ≡ x.0) ds
        (λ x e. ap (λ y. y.0) e) o)
])

-- `by_side_effect` is at least as restrictive as the decision configured for every effect that the
-- tool declares, and it is one of these decisions; for a tool that declares none of the four
-- effects it is "ask".
pub by_side_effect_restricts :
    {Args : Type 0} (read write network mutate : Decision) (req : PermissionRequest Args)
    → let result = (by_side_effect read write network mutate req).decision in
      let decisions = declared req.side_effects (configured read write network mutate) in
      All (λ d. precedence result ≤ precedence d.0) decisions
      × (((decisions ≡ []) × (result ≡ ask)) ⊎ One (λ d. result ≡ d.0) decisions)
unfolding by_side_effect
by_side_effect_restricts read write network mutate req =
    let decisions = declared req.side_effects (configured read write network mutate) in
    (effect_outcome-le decisions, effect_outcome-One decisions)

module _ {Args : Type 0} where
  -- The result is a policy's own, which refuses, and before which all policies allow.
  abbrev pub FirstRefusal : List (Policy Args) → PermissionRequest Args → PermissionOutcome → Type 0
  FirstRefusal [] req result = ⊥
  FirstRefusal (p ∷ policies) req result =
      (((p req).decision ≢ allow) × (result ≡ p req))
      ⊎ (((p req).decision ≡ allow) × FirstRefusal policies req result)

  -- `compose` allows exactly if every policy allows, and otherwise gives the outcome of a policy
  -- that does not allow, before which all do.
  pub compose-FirstRefusal :
      (policies : List (Policy Args)) (req : PermissionRequest Args)
      → (((compose policies req).decision ≡ allow) × All (λ p. (p req).decision ≡ allow) policies)
        ⊎ (((compose policies req).decision ≢ allow)
            × FirstRefusal policies req (compose policies req))
  unfolding compose
  compose-FirstRefusal [] req = inl (refl, tt)
  compose-FirstRefusal (p ∷ policies) req = ground (arith, compose-FirstRefusal policies req)
