-- ===== src/Documents/Segmenter/Runs.antt =====
-- The run-length coding of the pages' kinds.
use construction_harness.Prelude.{
  length, length-append, ◌==◌, nat_eq, string_eq, pair_eq, ℕ, zero, suc, ◌+◌, ◌-◌, ◌≤◌, ◌<◌, String,
  ◌≡◌, refl, ap, ◌∙◌, false, List, [], ◌∷◌, ◌++◌, arith, subst,
}
use construction_harness.Documents.Segmenter.{Group, extend, group_by, Span, spans_from, runs}

-- n pages of a kind
abbrev pub pages_like : ℕ → String → List String
pages_like zero k = []
pages_like (suc n) k = k ∷ pages_like n k

abbrev pub decode : List Group → List String
decode [] = []
decode ((k, n) ∷ groups) = pages_like n k ++ decode groups

abbrev pub pages_in : List Group → ℕ
pages_in [] = 0
pages_in ((k, n) ∷ groups) = n + pages_in groups

-- A group that may stand before others: it has pages, and the next is of another kind.
abbrev pub Fits : Group → List Group → Type 0
Fits g [] = 0 < g.1
Fits g (next ∷ groups) = (0 < g.1) × ((g.0 == next.0) ≡ false)

abbrev pub IsRunLength : List Group → Type 0
IsRunLength [] = Unit {0}
IsRunLength (g ∷ groups) = Fits g groups × IsRunLength groups

decode-extend : (k : String) (groups : List Group) → decode (extend k groups) ≡ k ∷ decode groups
decode-extend k [] = refl
decode-extend k ((j, n) ∷ groups) = ground (arith, string_eq.test_iff j k)

pub decode-group_by : (kinds : List String) → decode (group_by kinds) ≡ kinds
unfolding group_by
decode-group_by [] = refl
decode-group_by (k ∷ kinds) = decode-extend k (group_by kinds) ∙ ap (◌∷◌ k) (decode-group_by kinds)

extend-IsRunLength :
    (k : String) (groups : List Group) → IsRunLength groups → IsRunLength (extend k groups)
extend-IsRunLength k [] h = (omega arith, tt)
extend-IsRunLength k ((j, n) ∷ []) h =
    ground (arith, string_eq.test_iff j k, string_eq.test_iff k j)
extend-IsRunLength k ((j, n) ∷ next ∷ groups) h =
    ground (arith, string_eq.test_iff j k, string_eq.test_iff k j)

pub group_by-IsRunLength : (kinds : List String) → IsRunLength (group_by kinds)
unfolding group_by
group_by-IsRunLength [] = tt
group_by-IsRunLength (k ∷ kinds) =
    extend-IsRunLength k (group_by kinds) (group_by-IsRunLength kinds)

pub length-pages_like : (n : ℕ) (k : String) → length (pages_like n k) ≡ n
length-pages_like zero k = refl
length-pages_like (suc n) k = ap suc (length-pages_like n k)

pub length-decode : (groups : List Group) → length (decode groups) ≡ pages_in groups
length-decode [] = refl
length-decode ((k, n) ∷ groups) = omega (
  arith,
  length-append (pages_like n k) (decode groups),
  length-pages_like n k,
  length-decode groups,
)

-- The spans that follow one another from a position to an end, each of at least one page, and no
-- two neighbours of one kind.
abbrev pub Tile : ℕ → List Span → ℕ → Type 0
Tile position [] end_of = position ≡ end_of
Tile position (s ∷ []) end_of =
    (s.start_pos ≡ position) × (position ≤ s.end_pos) × (s.end_pos + 1 ≡ end_of)
Tile position (s ∷ t ∷ spans) end_of =
    (s.start_pos ≡ position)
    × (position ≤ s.end_pos)
    × ((s.kind == t.kind) ≡ false)
    × Tile (s.end_pos + 1) (t ∷ spans) end_of

-- The kinds that the spans stand for.
abbrev pub expand : List Span → List String
expand [] = []
expand (s ∷ spans) = pages_like (s.end_pos + 1 - s.start_pos) s.kind ++ expand spans

expand-spans_from :
    (position : ℕ) (groups : List Group)
    → IsRunLength groups
    → expand (spans_from position groups) ≡ decode groups
unfolding spans_from
expand-spans_from position [] h = refl
expand-spans_from position ((k, n) ∷ []) h =
    let size : position + n - 1 + 1 - position ≡ n = omega arith in rw size refl
expand-spans_from position ((k, n) ∷ next ∷ groups) h =
    let size : position + n - 1 + 1 - position ≡ n = omega arith in
    rw size
      (ap (λ rest. pages_like n k ++ rest) (expand-spans_from (position + n) (next ∷ groups) h.1))

-- The same tiling between equal positions.
retile : (spans : List Span) {p q a b : ℕ} → p ≡ q → a ≡ b → Tile p spans a → Tile q spans b
retile spans {p} {q} {a} {b} h k tiles =
    subst (λ x. Tile x spans b) h (subst (λ y. Tile p spans y) k tiles)

Tile-spans_from :
    (position : ℕ) (groups : List Group)
    → IsRunLength groups
    → Tile position (spans_from position groups) (position + pages_in groups)
unfolding spans_from
Tile-spans_from position [] h = omega arith
Tile-spans_from position ((k, n) ∷ []) h = (refl, omega arith, omega arith)
Tile-spans_from position ((k, n) ∷ (j, m) ∷ groups) h =
    let ih = Tile-spans_from (position + n) ((j, m) ∷ groups) h.1 in
    (
      refl,
      omega arith,
      h.0.1,
      retile (spans_from (position + n) ((j, m) ∷ groups)) (omega arith) (omega arith) ih,
    )

-- The runs of a list of kinds are non-empty, follow one another from position 0 to the end of the
-- list, no two neighbours have one kind, and spelled out they are the list.
pub runs-Tile :
    (kinds : List String) → Tile 0 (runs kinds) (length kinds) × (expand (runs kinds) ≡ kinds)
unfolding runs
runs-Tile kinds =
    let groups = group_by kinds in
    let run_length = group_by-IsRunLength kinds in
    (
      retile (spans_from 0 groups) refl
          (omega (arith, length-decode groups, ap length (decode-group_by kinds)))
          (Tile-spans_from 0 groups run_length),
      expand-spans_from 0 groups run_length ∙ decode-group_by kinds,
    )
