-- ===== src/Prelude/Equality.antt =====
-- Python's `==` and `in`: Boolean equality as an instance, for numbers, texts and pairs.
use Prim.Native.Nat.{ℕ}
use Prim.Native.String.{String}
use mathlib.Core.Path.{◌≡◌, refl}
use mathlib.Core.Logic.{◌↔◌}
use mathlib.Core.Bool.{Bool, true, false, ◌&&◌, ◌||◌}
use mathlib.Core.List.{List, [], ◌∷◌, ◌++◌}
use native.Mathlib.Omega.{arith}
use text.Mathlib.Text.{◌==◌ as text_test}
use text.Mathlib.TextEquality.{eq_iff as text_test_iff}
use construction_harness.Prelude.Tests.{nat_beq, nat_beq_iff}

-- A type's test, and that it decides equality.
pub record Eq {ℓ} (A : Type ℓ) : Type ℓ where
  pub test : A → A → Bool
  pub test_iff : (x y : A) → (test x y ≡ true) ↔ (x ≡ y)

abbrev pair_test {ℓ κ} : {A : Type ℓ} {B : Type κ} → Eq A → Eq B → A × B → A × B → Bool
pair_test e f (a, b) (c, d) = e.test a c && f.test b d

pub pair_test_iff {ℓ κ} :
    {A : Type ℓ} {B : Type κ} (e : Eq A) (f : Eq B) (p q : A × B)
    → (pair_test e f p q ≡ true) ↔ (p ≡ q)
pair_test_iff e f (a, b) (c, d) = ground (arith, e.test_iff a c, f.test_iff b d)

instance abbrev pub pair_eq {ℓ κ} : {A : Type ℓ} {B : Type κ} ⦃e : Eq A⦄ ⦃f : Eq B⦄ → Eq (A × B)
pair_eq ⦃e⦄ ⦃f⦄ = record { test_iff = pair_test_iff e f; test = pair_test e f }

instance abbrev pub string_eq : Eq String
string_eq = record { test_iff = text_test_iff; test = text_test }

instance abbrev pub nat_eq : Eq ℕ
nat_eq = record { test_iff = nat_beq_iff; test = nat_beq }

module _ {ℓ} {A : Type ℓ} ⦃e : Eq A⦄ where
  infix 50 ◌==◌
  abbrev pub ◌==◌ : A → A → Bool
  x == y = e.test x y

  -- x in xs
  abbrev pub contains : List A → A → Bool
  contains [] a = false
  contains (x ∷ xs) a = x == a || contains xs a

  pub contains-append :
      (xs ys : List A) (a : A) → contains (xs ++ ys) a ≡ (contains xs a || contains ys a)
  contains-append [] ys a = refl
  contains-append (x ∷ xs) ys a = ground (arith, contains-append xs ys a)
