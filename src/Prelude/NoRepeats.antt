-- ===== src/Prelude/NoRepeats.antt =====
-- Lists without repeats: the keys of a Python dict, and lists that a `seen` set has filtered.
use mathlib.Core.Path.{◌≡◌, refl}
use mathlib.Core.Bool.{true, false}
use mathlib.Core.List.{List, [], ◌∷◌, ◌++◌}
use native.Mathlib.Omega.{arith}
use mathlib.Core.Logic.{inl, inr}
use mathlib.Core.Path.{subst}
use construction_harness.Prelude.Tests.{Bool-cases}
use construction_harness.Prelude.Lists.{All}
use construction_harness.Prelude.Equality.{Eq, ◌==◌, contains, contains-append}

module _ {ℓ} {A : Type ℓ} ⦃e : Eq A⦄ where
  -- No element is one of those after it.
  abbrev pub Distinct : List A → Type 0
  Distinct [] = Unit
  Distinct (x ∷ xs) = (contains xs x ≡ false) × Distinct xs

  pub Distinct-append_one :
      (xs : List A) (a : A) → Distinct xs → contains xs a ≡ false → Distinct (xs ++ a ∷ [])
  Distinct-append_one [] a d h = (refl, tt)
  Distinct-append_one (x ∷ xs) a d h = (
    ground (arith, contains-append xs (a ∷ []) x, e.test_iff x a, e.test_iff a x),
    Distinct-append_one xs a d.1 (ground arith),
  )

  pub contains_self : (a : A) (xs : List A) → contains (a ∷ xs) a ≡ true
  contains_self a xs = ground (arith, e.test_iff a a)

  -- What a list contains has the properties of its elements.
  pub All-contains {κ} :
      (P : A → Type κ) (xs : List A) (a : A) → All P xs → contains xs a ≡ true → P a
  All-contains P [] a h k = absurd (ground arith)
  All-contains P (x ∷ xs) a h k = elim (Bool-cases (x == a)) [
    | inl same ↦ subst P ((e.test_iff x a).0 same) h.0
    | inr other ↦ All-contains P xs a h.1 (ground arith)
  ]
