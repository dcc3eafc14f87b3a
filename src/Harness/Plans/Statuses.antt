-- ===== src/Harness/Plans/Statuses.antt =====
-- The statuses by name, and one changed element of a list.
use construction_harness.Prelude.{
  nat_beq, if◌then◌else◌, Option-cases, length, get_elem?, nat_eq, string_eq, pair_eq, ℕ, zero, suc,
  ◌<◌, String, ◌≡◌, refl, ap, ◌≢◌, inl, inr, Bool, true, false, Option, none, some, List, [], ◌∷◌,
  arith,
}
use construction_harness.Harness.Plans.{
  StepStatus, done, pending, in_progress, blocked, is_done, status_value, parse_status, change_at,
}

pub length-change_at {ℓ} :
    {A : Type ℓ} (f : A → A) (i : ℕ) (xs : List A) → length (change_at f i xs) ≡ length xs
unfolding change_at
length-change_at f i [] = refl
length-change_at f zero (x ∷ xs) = refl
length-change_at f (suc i) (x ∷ xs) = ap suc (length-change_at f i xs)

abbrev pub map_some {ℓ} : {A : Type ℓ} → (A → A) → Option A → Option A
map_some f none = none
map_some f (some a) = some (f a)

pub get_elem?-change_at {ℓ} :
    {A : Type ℓ} (f : A → A) (i j : ℕ) (xs : List A)
    → get_elem? (change_at f i xs) j
      ≡ map_some (λ x. if nat_beq i j then f x else x) (get_elem? xs j)
unfolding change_at
get_elem?-change_at f i j [] = refl
get_elem?-change_at f zero zero (y ∷ ys) = ground arith
get_elem?-change_at f zero (suc j) (y ∷ ys) = ground arith
get_elem?-change_at f (suc i) zero (y ∷ ys) = ground arith
get_elem?-change_at f (suc i) (suc j) (y ∷ ys) = ground (arith, get_elem?-change_at f i j ys)

pub map_some_same {ℓ} :
    {A : Type ℓ} (b : Bool) (f : A → A) (o : Option A)
    → b ≡ false
    → map_some (λ x. if b then f x else x) o ≡ o
map_some_same b f none h = refl
map_some_same b f (some x) h = ap (λ c. some (if c then f x else x)) h

pub get_elem?-inside {ℓ} :
    {A : Type ℓ} (xs : List A) (k : ℕ) → k < length xs → (x : A) × (get_elem? xs k ≡ some x)
get_elem?-inside [] k h = absurd (omega arith)
get_elem?-inside (x ∷ xs) zero h = (x, refl)
get_elem?-inside (x ∷ xs) (suc k) h = get_elem?-inside xs k (omega arith)

pub done_status : (s : StepStatus) → is_done s ≡ true → s ≡ done
done_status pending h = absurd (ground arith)
done_status in_progress h = absurd (ground arith)
done_status done h = refl
done_status blocked h = absurd (ground arith)

pub parse_status-status_value : (s : StepStatus) → parse_status (status_value s) ≡ some s
unfolding parse_status status_value
parse_status-status_value pending = refl
parse_status-status_value in_progress = refl
parse_status-status_value done = refl
parse_status-status_value blocked = refl

pub status_value-parse_status :
    (status : String) (s : StepStatus) → parse_status status ≡ some s → status_value s ≡ status
unfolding parse_status status_value
status_value-parse_status status s h = ground (
  arith,
  string_eq.test_iff status "pending",
  string_eq.test_iff status "in_progress",
  string_eq.test_iff status "done",
  string_eq.test_iff status "blocked",
)

pub parse_status_unknown :
    (status : String) → ((s : StepStatus) → status_value s ≢ status) → parse_status status ≡ none
parse_status_unknown status h = elim (Option-cases (parse_status status)) [
  | inl unknown ↦ unknown
  | inr (s, parsed) ↦ absurd (h s (status_value-parse_status status s parsed))
]
