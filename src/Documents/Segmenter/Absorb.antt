-- ===== src/Documents/Segmenter/Absorb.antt =====
-- The absorption of stray runs ends, and leaves none.
use construction_harness.Prelude.{
  Bool-cases, Option-cases, length, set, length-append, length-set, nat_eq, string_eq, pair_eq, ℕ,
  zero, suc, ◌+◌, ◌-◌, ◌≤◌, ◌<◌, String, ◌≡◌, refl, sym, ap, ◌∙◌, inl, inr, none, some, List, [],
  ◌∷◌, ◌++◌, append_assoc, arith,
}
use construction_harness.Documents.Segmenter.{
  Group, group_by, Span, spans_from, runs, is_stray, find_stray, relabel, absorb_strays, absorbed,
}
use construction_harness.Documents.Segmenter.Relabel.{
  length-group_by-decode, relabel-append, decode-append, pages_like-add,
}
use construction_harness.Documents.Segmenter.Runs.{
  pages_like, decode, pages_in, IsRunLength, decode-group_by, group_by-IsRunLength, length-decode,
  length-pages_like,
}

-- A stray run among the groups, the pages before it, and what its absorption makes of them.
pub record IsStrayIn (position : ℕ) (groups : List Group) (run : Span) (left : String)
    : Type 0 where
  pub front : List Group
  pub before : ℕ
  pub kind : String
  pub size : ℕ
  pub after : ℕ
  pub back : List Group
  pub groups_are : groups ≡ front ++ ((left, before) ∷ (kind, size) ∷ (left, after) ∷ back)
  pub start_is : run.start_pos ≡ position + pages_in front + before
  pub size_is : run.end_pos + 1 - run.start_pos ≡ size

module _ (min_run : ℕ) where
  find_stray-IsStrayIn :
      (position : ℕ) (groups : List Group) (run : Span) (left : String)
      → IsRunLength groups
      → find_stray min_run (spans_from position groups) ≡ some (run, left)
      → IsStrayIn position groups run left
  unfolding find_stray spans_from
  find_stray-IsStrayIn position [] run left h e = cc
  find_stray-IsStrayIn position (a ∷ []) run left h e = cc
  find_stray-IsStrayIn position (a ∷ b ∷ []) run left h e = cc
  find_stray-IsStrayIn position ((a, n) ∷ (b, m) ∷ (c, q) ∷ groups) run left h e =
      let first : Span = record { kind = a; start_pos = position; end_pos = position + n - 1 } in
      let second : Span = record {
        kind = b;
        start_pos = position + n;
        end_pos = position + n + m - 1;
      } in
      let third : Span = record {
        kind = c;
        start_pos = position + n + m;
        end_pos = position + n + m + q - 1;
      } in
      elim (Bool-cases (is_stray min_run first second third)) [
        | inl stray ↦ record {
          front = [];
          before = n;
          kind = b;
          size = m;
          after = q;
          back = groups;
          groups_are = ground (arith, string_eq.test_iff a c);
          start_is = ground arith;
          size_is = ground arith;
        }
        | inr other ↦
            let later =
              find_stray-IsStrayIn (position + n) ((b, m) ∷ (c, q) ∷ groups) run left h.1
                (ground arith) in
            record {
              front = (a, n) ∷ later.front;
              before = later.before;
              kind = later.kind;
              size = later.size;
              after = later.after;
              back = later.back;
              groups_are = ap (◌∷◌ (a, n)) later.groups_are;
              start_is = omega (arith, later.start_is);
              size_is = later.size_is;
            }
      ]

-- What a round makes of the groups: the stray run and its neighbours become one group.
merged_groups :
    {run : Span} {left : String} (groups : List Group) → IsStrayIn 0 groups run left → List Group
merged_groups {left = left} groups s = s.front ++ ((left, s.before + s.size + s.after) ∷ s.back)

relabel-decode :
    (groups : List Group) (run : Span) (left : String) (s : IsStrayIn 0 groups run left)
    → relabel run.start_pos (run.end_pos + 1 - run.start_pos) left (decode groups)
      ≡ decode (merged_groups groups s)
unfolding merged_groups
relabel-decode groups run left s =
    let front = decode s.front ++ pages_like s.before left in
    let middle = pages_like s.size s.kind in
    let back = pages_like s.after left ++ decode s.back in
    let start : run.start_pos ≡ length front = omega (
      arith,
      s.start_is,
      length-append (decode s.front) (pages_like s.before left),
      length-decode s.front,
      length-pages_like s.before left,
    ) in
    let size : run.end_pos + 1 - run.start_pos ≡ length middle =
      s.size_is ∙ sym (length-pages_like s.size s.kind) in
    let kinds : decode groups ≡ front ++ (middle ++ back) =
      ap decode s.groups_are
      ∙ decode-append s.front ((left, s.before) ∷ (s.kind, s.size) ∷ (left, s.after) ∷ s.back)
      ∙ sym (append_assoc (decode s.front) (pages_like s.before left) (middle ++ back)) in
    let joined : pages_like s.before left
          ++ (pages_like s.size left ++ (pages_like s.after left ++ decode s.back))
        ≡ pages_like (s.before + s.size + s.after) left ++ decode s.back =
      pages_like-add s.before s.size left (pages_like s.after left ++ decode s.back)
      ∙ pages_like-add (s.before + s.size) s.after left (decode s.back) in
    (λ i. relabel (start i) (size i) left (kinds i))
    ∙ relabel-append front middle back left
    ∙ ap (λ n. front ++ (pages_like n left ++ back)) (length-pages_like s.size s.kind)
    ∙ append_assoc (decode s.front) (pages_like s.before left) (pages_like s.size left ++ back)
    ∙ ap (λ rest. decode s.front ++ rest) joined
    ∙ sym (decode-append s.front ((left, s.before + s.size + s.after) ∷ s.back))

length-spans_from :
    (position : ℕ) (groups : List Group) → length (spans_from position groups) ≡ length groups
unfolding spans_from
length-spans_from position [] = refl
length-spans_from position ((k, n) ∷ groups) = ap suc (length-spans_from (position + n) groups)

length-relabel :
    (s n : ℕ) (left : String) (kinds : List String) → length (relabel s n left kinds) ≡ length kinds
unfolding relabel
length-relabel s zero left kinds = refl
length-relabel s (suc n) left kinds =
    length-relabel (suc s) n left (set kinds s left) ∙ length-set kinds s left

module _ (min_run : ℕ) where
  -- A round has fewer runs than the one before.
  length-runs-relabel :
      (kinds : List String) (run : Span) (left : String)
      → find_stray min_run (runs kinds) ≡ some (run, left)
      → length (runs (relabel run.start_pos (run.end_pos + 1 - run.start_pos) left kinds))
        < length (runs kinds)
  unfolding runs merged_groups
  length-runs-relabel kinds run left e =
      let groups = group_by kinds in
      let s = find_stray-IsStrayIn min_run 0 groups run left (group_by-IsRunLength kinds) e in
      let next = relabel run.start_pos (run.end_pos + 1 - run.start_pos) left kinds in
      let made : next ≡ decode (merged_groups groups s) =
        ap (relabel run.start_pos (run.end_pos + 1 - run.start_pos) left)
          (sym (decode-group_by kinds))
        ∙ relabel-decode groups run left s in
      let fewer : length (group_by next) ≤ length (merged_groups groups s) =
        rw made (length-group_by-decode (merged_groups groups s)) in
      omega (
        arith,
        fewer,
        ap length s.groups_are,
        length-append s.front ((left, s.before + s.size + s.after) ∷ s.back),
        length-append s.front ((left, s.before) ∷ (s.kind, s.size) ∷ (left, s.after) ∷ s.back),
        length-spans_from 0 groups,
        length-spans_from 0 (group_by next),
      )

  absorb_strays-Settles :
      (fuel : ℕ) (kinds : List String)
      → length (runs kinds) < fuel
      → (settled : List String) × (absorb_strays fuel min_run kinds ≡ some settled)
        × (length settled ≡ length kinds)
        × (find_stray min_run (runs settled) ≡ none)
  unfolding absorb_strays
  absorb_strays-Settles zero kinds h = absurd (omega arith)
  absorb_strays-Settles (suc fuel) kinds h = elim (Option-cases (find_stray min_run (runs kinds))) [
    | inl clean ↦ rw (absorb_strays, clean) (kinds, refl, refl, clean)
    | inr ((run, left), stray) ↦
        let size = run.end_pos + 1 - run.start_pos in
        let next = relabel run.start_pos size left kinds in
        let (settled, made, same, none_left) =
          absorb_strays-Settles fuel next
            (omega (arith, length-runs-relabel kinds run left stray)) in
        rw (absorb_strays, stray)
          (settled, made, same ∙ length-relabel run.start_pos size left kinds, none_left)
  ]

-- The absorption of stray runs ends, after at most as many rounds as there are runs: it gives as
-- many kinds as it was given, and among their runs no interior one that is shorter than `min_run`
-- stands between two of one other kind.
pub absorbed-Settles :
    (min_run : ℕ) (kinds : List String)
    → (settled : List String) × (absorbed min_run kinds ≡ some settled)
      × (length settled ≡ length kinds)
      × (find_stray min_run (runs settled) ≡ none)
unfolding absorbed
absorbed-Settles min_run kinds =
    absorb_strays-Settles min_run (suc (length (runs kinds))) kinds (omega arith)
