-- ===== src/Documents/Segmenter/Relabel.antt =====
-- Writing a kind over some pages, and what it does to the number of runs.
use construction_harness.Prelude.{
  length, set, length-append, nat_eq, string_eq, pair_eq, ℕ, zero, suc, ◌+◌, ◌≤◌, String, ◌≡◌, refl,
  sym, ap, ◌∙◌, List, [], ◌∷◌, ◌++◌, append_assoc, arith,
}
use construction_harness.Documents.Segmenter.{Group, extend, group_by, relabel}
use construction_harness.Documents.Segmenter.Runs.{pages_like, decode}

-- A run of a kind costs one group, however long it is.
pub length-extend_twice :
    (k : String) (groups : List Group)
    → length (extend k (extend k groups)) ≡ length (extend k groups)
length-extend_twice k [] = ground (arith, string_eq.test_iff k k)
length-extend_twice k ((j, n) ∷ groups) =
    ground (arith, string_eq.test_iff k k, string_eq.test_iff j k)

pub length-extend-le :
    (k : String) (groups : List Group) → length (extend k groups) ≤ suc (length groups)
length-extend-le k [] = omega arith
length-extend-le k ((j, n) ∷ groups) = ground arith

pub length-group_by-pages_like :
    (n : ℕ) (k : String) (kinds : List String)
    → length (group_by (pages_like (suc n) k ++ kinds)) ≡ length (extend k (group_by kinds))
unfolding group_by
length-group_by-pages_like zero k kinds = refl
length-group_by-pages_like (suc n) k kinds =
    length-extend_twice k (group_by (pages_like n k ++ kinds))
    ∙ length-group_by-pages_like n k kinds

-- The coding of what a list of groups stands for has no more groups than the list.
pub length-group_by-decode :
    (groups : List Group) → length (group_by (decode groups)) ≤ length groups
unfolding group_by
length-group_by-decode [] = omega arith
length-group_by-decode ((k, zero) ∷ groups) = omega (arith, length-group_by-decode groups)
length-group_by-decode ((k, suc n) ∷ groups) = omega (
  arith,
  length-group_by-pages_like n k (decode groups),
  length-extend-le k (group_by (decode groups)),
  length-group_by-decode groups,
)

pub set-append :
    (front : List String) (m : String) (rest : List String) (v : String)
    → set (front ++ m ∷ rest) (length front) v ≡ (front ++ v ∷ []) ++ rest
set-append [] m rest v = refl
set-append (f ∷ front) m rest v = ap (◌∷◌ f) (set-append front m rest v)

-- Writing one kind over the middle of a list.
pub relabel-append :
    (front middle back : List String) (left : String)
    → relabel (length front) (length middle) left (front ++ (middle ++ back))
      ≡ front ++ (pages_like (length middle) left ++ back)
unfolding relabel
relabel-append front [] back left = refl
relabel-append front (m ∷ middle) back left =
    let front' = front ++ left ∷ [] in
    let at : suc (length front) ≡ length front' = omega (arith, length-append front (left ∷ [])) in
    (λ i. relabel (at i) (length middle) left (set-append front m (middle ++ back) left i))
    ∙ relabel-append front' middle back left
    ∙ append_assoc front (left ∷ []) (pages_like (length middle) left ++ back)

pub decode-append : (xs ys : List Group) → decode (xs ++ ys) ≡ decode xs ++ decode ys
decode-append [] ys = refl
decode-append ((k, n) ∷ xs) ys =
    ap (λ rest. pages_like n k ++ rest) (decode-append xs ys)
    ∙ sym (append_assoc (pages_like n k) (decode xs) (decode ys))

pub pages_like-add :
    (a b : ℕ) (k : String) (rest : List String)
    → pages_like a k ++ (pages_like b k ++ rest) ≡ pages_like (a + b) k ++ rest
pages_like-add zero b k rest = ap (λ n. pages_like n k ++ rest) {x = b} (omega arith)
pages_like-add (suc a) b k rest =
    ap (◌∷◌ k) (pages_like-add a b k rest)
    ∙ ap (λ n. pages_like n k ++ rest) {x = suc (a + b)} (omega arith)
