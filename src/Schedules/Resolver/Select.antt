-- ===== src/Schedules/Resolver/Select.antt =====
-- Which table of a page is the schedule.
use construction_harness.Prelude.{
  leb, if◌then◌else◌, Bool-cases, length, All, All-append, nat_eq, string_eq, pair_eq, ℕ, ◌<◌, ◌≡◌,
  refl, ap, ◌∙◌, ◌⊎◌, inl, inr, Bool, true, false, not, ◌&&◌, Option, none, some, List, [], ◌∷◌,
  ◌++◌, append-nil, append_assoc, arith, subst,
}
use construction_harness.Schedules.Schema.{ScheduleSchema}
use construction_harness.Schedules.Resolver.{
  Table, resolve_columns, too_narrow, Best, beats, consider, select_best, table_of,
  select_schedule_table,
}

module _ (schema : ScheduleSchema) (min_coverage min_cols : ℕ) where
  abbrev pub coverage : Table → ℕ
  coverage t = (resolve_columns t schema).coverage

  -- A table that is wide enough, and resolves well enough.
  abbrev pub eligible : Table → Bool
  eligible t = not (too_narrow min_cols t) && leb min_coverage (coverage t)

  -- u has less coverage than t, or as much and fewer rows.
  abbrev pub Below : Table → Table → Type 0
  Below u t = (coverage u < coverage t) ⊎ ((coverage u ≡ coverage t) × (length u < length t))

  -- The first of the best among the tables.
  abbrev pub IsFirstBest : List Table → Option Table → Type 0
  IsFirstBest tables none = All (λ u. eligible u ≡ false) tables
  IsFirstBest tables (some t) =
      (before : List Table) × (after : List Table) × (tables ≡ before ++ t ∷ after)
      × (eligible t ≡ true)
      × All (λ u. (eligible u ≡ false) ⊎ Below u t) before
      × All
          (λ u.
            (eligible u ≡ false) ⊎ Below u t ⊎ ((coverage u ≡ coverage t) × (length u ≡ length t)))
          after

  -- The key that goes with the best table is its own.
  abbrev HasKey : Best → Type 0
  HasKey none = Unit {0}
  HasKey (some (t, cov, rows)) = (cov ≡ coverage t) × (rows ≡ length t)

  Below-trans : (v u t : Table) → Below v u → Below u t → Below v t
  Below-trans v u t (inl a) (inl b) = inl (omega arith)
  Below-trans v u t (inl a) (inr b) = inl (omega arith)
  Below-trans v u t (inr a) (inl b) = inl (omega arith)
  Below-trans v u t (inr a) (inr b) = inr (omega arith, omega arith)

  abbrev Behind : Table → Table → Type 0
  Behind t v = (eligible v ≡ false) ⊎ Below v t

  abbrev NotAhead : Table → Table → Type 0
  NotAhead t v =
      (eligible v ≡ false) ⊎ Below v t ⊎ ((coverage v ≡ coverage t) × (length v ≡ length t))

  Behind-trans : (t u v : Table) → Below u t → Behind u v → Behind t v
  Behind-trans t u v h (inl e) = inl e
  Behind-trans t u v h (inr b) = inr (Below-trans v u t b h)

  NotAhead-trans : (t u v : Table) → Below u t → NotAhead u v → Behind t v
  NotAhead-trans t u v h (inl e) = inl e
  NotAhead-trans t u v h (inr (inl b)) = inr (Below-trans v u t b h)
  NotAhead-trans t u v (inl h) (inr (inr same)) = inr (inl (omega arith))
  NotAhead-trans t u v (inr h) (inr (inr same)) = inr (inr (omega arith, omega arith))

  All-mono :
      (P Q : Table → Type 0) (tables : List Table)
      → ((v : Table) → P v → Q v)
      → All P tables
      → All Q tables
  All-mono P Q [] f h = tt
  All-mono P Q (v ∷ tables) f h = (f v h.0, All-mono P Q tables f h.1)

  abbrev best_table : Best → Option Table
  best_table best = table_of best

  consider_lem :
      (u : Table) (best : Best)
      → consider schema min_coverage min_cols u best ≡ (
          if eligible u && beats (coverage u) (length u) best
          then some (u, coverage u, length u)
          else best)
  unfolding consider
  consider_lem u best = ground arith

  abbrev Holds : List Table → Best → Type 0
  Holds tables best = IsFirstBest tables (best_table best) × HasKey best

  -- A table that is not eligible changes nothing.
  Holds-ineligible :
      (tables : List Table) (u : Table) (best : Best)
      → eligible u ≡ false
      → Holds tables best
      → Holds (tables ++ u ∷ []) best
  Holds-ineligible tables u none e (h, k) =
      (All-append (λ v. eligible v ≡ false) tables (u ∷ []) h (e, tt), tt)
  Holds-ineligible tables u (some (t, cov, rows)) e ((before, after, parts, el, hb, ha), k) = (
    (
      before,
      after ++ u ∷ [],
      ap (λ ts. ts ++ u ∷ []) parts ∙ append_assoc before (t ∷ after) (u ∷ []),
      el,
      hb,
      All-append (NotAhead t) after (u ∷ []) ha (inl e, tt),
    ),
    k,
  )

  Holds-ahead :
      (tables : List Table) (u : Table) (best : Best)
      → eligible u ≡ true
      → beats (coverage u) (length u) best ≡ true
      → Holds tables best
      → Holds (tables ++ u ∷ []) (some (u, coverage u, length u))
  Holds-ahead tables u none e b (h, k) = (
    (
      tables,
      [],
      refl,
      e,
      All-mono (λ v. eligible v ≡ false) (Behind u) tables (λ v i. inl i) h,
      tt,
    ),
    (refl, refl),
  )
  Holds-ahead tables u (some (t, cov, rows)) e b ((before, after, parts, el, hb, ha), k) =
      let below : Below t u = ground arith in
      (
        (
          tables,
          [],
          refl,
          e,
          rw parts (
              All-append (Behind u) before (t ∷ after)
                (All-mono (Behind t) (Behind u) before (λ v. Behind-trans u t v below) hb)
                (
                  inr below,
                  All-mono (NotAhead t) (Behind u) after (λ v. NotAhead-trans u t v below) ha,
                )),
          tt,
        ),
        (refl, refl),
      )

  Holds-behind :
      (tables : List Table) (u : Table) (best : Best)
      → beats (coverage u) (length u) best ≡ false
      → Holds tables best
      → Holds (tables ++ u ∷ []) best
  Holds-behind tables u none b h = absurd (ground arith)
  Holds-behind tables u (some (t, cov, rows)) b ((before, after, parts, el, hb, ha), k) =
      let behind : NotAhead t u = ground arith in
      (
        (
          before,
          after ++ u ∷ [],
          ap (λ ts. ts ++ u ∷ []) parts ∙ append_assoc before (t ∷ after) (u ∷ []),
          el,
          hb,
          All-append (NotAhead t) after (u ∷ []) ha (behind, tt),
        ),
        k,
      )

  Holds-consider :
      (tables : List Table) (u : Table) (best : Best)
      → Holds tables best
      → Holds (tables ++ u ∷ []) (consider schema min_coverage min_cols u best)
  Holds-consider tables u best h = rw (consider_lem u best) (elim (Bool-cases (eligible u)) [
    | inr e ↦ rw e (Holds-ineligible tables u best e h)
    | inl e ↦ elim (Bool-cases (beats (coverage u) (length u) best)) [
      | inl b ↦ rw (e, b) (Holds-ahead tables u best e b h)
      | inr b ↦ rw (e, b) (Holds-behind tables u best b h)
    ]
  ])

  Holds-select_best :
      (seen tables : List Table) (best : Best)
      → Holds seen best
      → Holds (seen ++ tables) (select_best schema min_coverage min_cols tables best)
  unfolding select_best
  Holds-select_best seen [] best h = rw append-nil h
  Holds-select_best seen (u ∷ tables) best h =
      let next = consider schema min_coverage min_cols u best in
      subst (λ ts. Holds ts (select_best schema min_coverage min_cols tables next))
        (append_assoc seen (u ∷ []) tables)
        (Holds-select_best (seen ++ u ∷ []) tables next (Holds-consider seen u best h))

-- The table selected is the first of the best: it is eligible, no eligible table before it has as
-- much coverage and as many rows, none after it has more; and none is selected only if no table is
-- eligible.
pub select_schedule_table-IsFirstBest :
    (tables : List Table) (schema : ScheduleSchema) (min_coverage min_cols : ℕ)
    → IsFirstBest schema min_coverage min_cols tables
        (select_schedule_table tables schema min_coverage min_cols)
unfolding select_schedule_table
select_schedule_table-IsFirstBest tables schema min_coverage min_cols =
    (Holds-select_best schema min_coverage min_cols [] tables none (tt, tt)).0
