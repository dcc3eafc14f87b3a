-- ===== src/Shard/Planner/Pages.antt =====
-- `sorted(set(...))` of pages is strictly ascending, and holds the same pages.
use construction_harness.Prelude.{
  ℕ, suc, ◌≤◌, ◌<◌, ◌≡◌, refl, List, [], ◌∷◌, arith, keep, All, nat_eq,
}
use construction_harness.Shard.Planner.{in_window, insert_page, sorted_set, candidates_in}

-- Strictly ascending pages of `[lo, hi)`.
abbrev pub Ascends : ℕ → ℕ → List ℕ → Type 0
Ascends lo hi [] = lo ≤ hi
Ascends lo hi (p ∷ ps) = (lo ≤ p) × Ascends (suc p) hi ps

pub Ascends-le : (lo hi : ℕ) (ps : List ℕ) → Ascends lo hi ps → lo ≤ hi
Ascends-le lo hi [] h = h
Ascends-le lo hi (p ∷ ps) h = omega (arith, Ascends-le (suc p) hi ps h.1)

pub Ascends-weaken : (lo' lo hi : ℕ) (ps : List ℕ) → lo' ≤ lo → Ascends lo hi ps → Ascends lo' hi ps
Ascends-weaken lo' lo hi [] l h = omega arith
Ascends-weaken lo' lo hi (p ∷ ps) l h = (omega arith, h.1)

insert_page-Ascends :
    (lo hi p : ℕ) (ps : List ℕ)
    → lo ≤ p
    → p < hi
    → Ascends lo hi ps
    → Ascends lo hi (insert_page p ps)
unfolding insert_page
insert_page-Ascends lo hi p [] l u h = (l, u)
insert_page-Ascends lo hi p (q ∷ qs) l u h = ground (arith, insert_page-Ascends (suc q) hi p qs)

pub sorted_set-Ascends :
    (lo hi : ℕ) (ps : List ℕ)
    → lo ≤ hi
    → All (λ p. (lo ≤ p) × (p < hi)) ps
    → Ascends lo hi (sorted_set ps)
unfolding sorted_set
sorted_set-Ascends lo hi [] b h = b
sorted_set-Ascends lo hi (p ∷ ps) b h =
    insert_page-Ascends lo hi p (sorted_set ps) h.0.0 h.0.1 (sorted_set-Ascends lo hi ps b h.1)

keep-in_window :
    (lo hi : ℕ) (ps : List ℕ) → All (λ p. (lo ≤ p) × (p < hi)) (keep (in_window lo hi) ps)
keep-in_window lo hi [] = tt
keep-in_window lo hi (p ∷ ps) = ground (arith, keep-in_window lo hi ps)

pub candidates_in-Ascends :
    (ps : List ℕ) (lo hi : ℕ) → lo ≤ hi → Ascends lo hi (candidates_in ps lo hi)
candidates_in-Ascends ps lo hi b =
    sorted_set-Ascends lo hi (keep (in_window lo hi) ps) b (keep-in_window lo hi ps)

-- A list that ascends already is its own `sorted(set(...))`.
insert_page-least : (p hi : ℕ) (ps : List ℕ) → Ascends (suc p) hi ps → insert_page p ps ≡ p ∷ ps
unfolding insert_page
insert_page-least p hi [] h = refl
insert_page-least p hi (q ∷ qs) h = ground arith

pub sorted_set_of_Ascends : (lo hi : ℕ) (ps : List ℕ) → Ascends lo hi ps → sorted_set ps ≡ ps
unfolding sorted_set
sorted_set_of_Ascends lo hi [] h = refl
sorted_set_of_Ascends lo hi (p ∷ ps) h =
    ground (arith, sorted_set_of_Ascends (suc p) hi ps h.1, insert_page-least p hi ps h.1)
