-- ===== src/Shard/Extract/Loop.antt =====
-- The merging loops against a plain recursion: keep an item unless its key came before it.
use construction_harness.Prelude.{
  if◌then◌else◌, Bool-cases, contains, nat_eq, string_eq, pair_eq, String, ◌≡◌, refl, sym, ap, ◌∙◌,
  inl, inr, true, false, List, [], ◌∷◌, ◌++◌, append-nil, append_assoc, arith,
}
use construction_harness.Shard.Extract.{
  ScheduleItem, Merge, item_key, skipped, merge_item, merge_items,
}

abbrev pub Covers : List (String × String) → List (String × String) → Type 0
Covers known seen = (k : String × String) → contains known k ≡ true → contains seen k ≡ true

module _ {F : Type 0} where
  -- The items that the loop keeps, with the keys of `seen` known before.
  abbrev pub first_wins : List (String × String) → List (ScheduleItem F) → List (ScheduleItem F)
  first_wins seen [] = []
  first_wins seen (it ∷ its) =
      let skip = skipped seen it in
      let rest = first_wins (if skip then seen else item_key it ∷ seen) its in
      if skip then rest else it ∷ rest

  merge_item_skip :
      (m : Merge F) (it : ScheduleItem F) → skipped m.seen it ≡ true → merge_item m it ≡ m
  unfolding merge_item
  merge_item_skip m it h = rw h

  merge_item_keep :
      (m : Merge F) (it : ScheduleItem F)
      → skipped m.seen it ≡ false
      → merge_item m it ≡ record { seen = item_key it ∷ m.seen; out = m.out ++ it ∷ [] }
  unfolding merge_item
  merge_item_keep m it h = rw h

  abbrev out_after : List (ScheduleItem F) → Merge F → List (ScheduleItem F)
  out_after its m = (merge_items m its).out

  pub out-merge_items :
      (m : Merge F) (its : List (ScheduleItem F))
      → (merge_items m its).out ≡ m.out ++ first_wins m.seen its
  unfolding merge_items
  out-merge_items m [] = sym (append-nil m.out)
  out-merge_items m (it ∷ its) = elim (Bool-cases (skipped m.seen it)) [
    | inl skip ↦ rw skip (ap (out_after its) (merge_item_skip m it skip) ∙ out-merge_items m its)
    | inr fresh ↦
        let next : Merge F = record { seen = item_key it ∷ m.seen; out = m.out ++ it ∷ [] } in
        rw fresh (
          ap (out_after its) (merge_item_keep m it fresh)
          ∙ out-merge_items next its
          ∙ append_assoc m.out (it ∷ []) (first_wins next.seen its))
  ]

  pub merge_items-append :
      (m : Merge F) (xs ys : List (ScheduleItem F))
      → merge_items m (xs ++ ys) ≡ merge_items (merge_items m xs) ys
  unfolding merge_items
  merge_items-append m [] ys = refl
  merge_items-append m (x ∷ xs) ys = merge_items-append (merge_item m x) xs ys

  -- An item that a smaller set of keys keeps out is kept out by a larger one.
  skipped_mono :
      (known seen : List (String × String)) (it : ScheduleItem F)
      → Covers known seen
      → skipped known it ≡ true
      → skipped seen it ≡ true
  unfolding skipped
  skipped_mono known seen it c h = ground (arith, c (item_key it))

  -- After an item has been met, its key is known, if it was not there to be dropped.
  Covers-merge_item :
      (m : Merge F) (known : List (String × String)) (it : ScheduleItem F)
      → Covers known m.seen
      → skipped known it ≡ false
      → Covers (item_key it ∷ known) (merge_item m it).seen
  unfolding skipped merge_item
  Covers-merge_item m known it c h k e =
      ground (arith, c k, (pair_eq {A = String} {B = String}).test_iff (item_key it) k)

  -- Dropping duplicates beforehand changes nothing in the loop.
  pub merge_items-first_wins :
      (m : Merge F) (known : List (String × String)) (its : List (ScheduleItem F))
      → Covers known m.seen
      → merge_items m (first_wins known its) ≡ merge_items m its
  unfolding merge_items
  merge_items-first_wins m known [] c = refl
  merge_items-first_wins m known (it ∷ its) c = elim (Bool-cases (skipped known it)) [
    | inl skip ↦ rw skip (
        merge_items-first_wins m known its c
        ∙ sym (
            ap (λ (n : Merge F). merge_items n its)
              (merge_item_skip m it (skipped_mono known m.seen it c skip))))
    | inr fresh ↦ rw fresh (
        merge_items-first_wins (merge_item m it) (item_key it ∷ known) its
          (Covers-merge_item m known it c fresh))
  ]
