-- ===== src/Counts/Totals.antt =====
-- The totals of a symbol and the items that take them.
use construction_harness.Prelude.{
  if◌then◌else◌, ◌==◌, nat_eq, string_eq, pair_eq, String, ◌≡◌, refl, sym, ap, ◌∙◌, Bool, true,
  false, Option, none, some, List, [], ◌∷◌, ◌++◌, append-nil, append_assoc, arith,
}
use mathlib.Core.Option.{map as map_option}
use construction_harness.Harness.Messages.{lookup}
use construction_harness.Results.Projection.{CountResult}
use construction_harness.Counts.{Total, Floats, append_to, by_symbol, total_of, totals, reconcile}

module _ {F : Type 0} where
  -- The results of a symbol, in their order.
  abbrev pub of_symbol : String → List (CountResult F) → List (CountResult F)
  of_symbol k [] = []
  of_symbol k (r ∷ results) =
      let rest = of_symbol k results in if r.symbol_id == k then r ∷ rest else rest

  abbrev with_group :
      Option (List (CountResult F)) → List (CountResult F) → Option (List (CountResult F))
  with_group none [] = none
  with_group none (r ∷ rs) = some (r ∷ rs)
  with_group (some group) rs = some (group ++ rs)

  module _ (o : Floats F) where
    lookup-append_to :
        (k : String) (r : CountResult F) (groups : List (String × List (CountResult F)))
        → lookup k (append_to r.symbol_id r groups)
          ≡ (if r.symbol_id == k then with_group (lookup k groups) (r ∷ []) else lookup k groups)
    unfolding append_to
    lookup-append_to k r [] = refl
    lookup-append_to k r ((j, rs) ∷ groups) = ground (
      arith,
      string_eq.test_iff r.symbol_id k,
      string_eq.test_iff j r.symbol_id,
      string_eq.test_iff j k,
      lookup-append_to k r groups,
    )

    with_group_step :
        (g : Option (List (CountResult F))) (r : CountResult F) (rs : List (CountResult F))
        → with_group (with_group g (r ∷ [])) rs ≡ with_group g (r ∷ rs)
    with_group_step none r rs = refl
    with_group_step (some group) r rs = ap some (append_assoc group (r ∷ []) rs)

    with_group_empty : (g : Option (List (CountResult F))) → with_group g [] ≡ g
    with_group_empty none = refl
    with_group_empty (some group) = ap some (append-nil group)

    with_group_by :
        (b : Bool) (g : Option (List (CountResult F))) (r : CountResult F)
        (rs : List (CountResult F))
        → with_group (if b then with_group g (r ∷ []) else g) rs
          ≡ with_group g (if b then r ∷ rs else rs)
    with_group_by true g r rs = with_group_step g r rs
    with_group_by false g r rs = refl

    lookup-by_symbol :
        (k : String) (results : List (CountResult F))
        (groups : List (String × List (CountResult F)))
        → lookup k (by_symbol o results groups) ≡ with_group (lookup k groups) (of_symbol k results)
    unfolding by_symbol
    lookup-by_symbol k [] groups = sym (with_group_empty (lookup k groups))
    lookup-by_symbol k (r ∷ results) groups =
        lookup-by_symbol k results (append_to r.symbol_id r groups)
        ∙ ap (λ g. with_group g (of_symbol k results)) (lookup-append_to k r groups)
        ∙ with_group_by (r.symbol_id == k) (lookup k groups) r (of_symbol k results)

    lookup-totals :
        (k : String) (groups : List (String × List (CountResult F)))
        → lookup k (totals o groups) ≡ map_option (total_of o) (lookup k groups)
    unfolding totals
    lookup-totals k [] = refl
    lookup-totals k ((j, rs) ∷ groups) = ground (arith, lookup-totals k groups)

    -- What is said of a symbol by its results, if it has any.
    abbrev pub summary : List (CountResult F) → Option (Total F)
    summary [] = none
    summary (r ∷ rs) = some (total_of o (r ∷ rs))

    map-with_group :
        (rs : List (CountResult F)) → map_option (total_of o) (with_group none rs) ≡ summary rs
    map-with_group [] = refl
    map-with_group (r ∷ rs) = refl

    -- A symbol has an entry in the reconciled totals exactly when one of the results is of that
    -- symbol, and the entry is the total of its results alone, all of them and in their order.
    pub lookup-reconcile :
        (k : String) (results : List (CountResult F))
        → lookup k (reconcile o results) ≡ summary (of_symbol k results)
    unfolding reconcile
    lookup-reconcile k results =
        lookup-totals k (by_symbol o results [])
        ∙ ap (map_option (total_of o)) (lookup-by_symbol k results [])
        ∙ map-with_group (of_symbol k results)
