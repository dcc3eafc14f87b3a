-- ===== src/Harness/Registry/Loop.antt =====
-- Loop detection: a call that is repeated is not run a third time in a row.
use construction_harness.Prelude.{
  List-cases, ltb, leb, Bool-cases, Option-cases, length, drop, keep, length-append, ◌==◌, nat_eq,
  string_eq, pair_eq, ℕ, zero, suc, ◌-◌, ◌≤◌, String, ◌≡◌, refl, sym, ap, ◌∙◌, inl, inr, true,
  Option, none, some, List, [], ◌∷◌, ◌++◌, append_assoc, arith,
}
use construction_harness.Harness.Messages.{Dict, lookup, malformed_args_key, ToolResult}
use construction_harness.Harness.Permissions.{PermissionManager, check}
use construction_harness.Harness.Registry.{
  Tool, ToolRegistry, last_of, call_key, record_call, is_loop, Outside, find_tool, is_deny,
  error_result, dispatch_permitted, dispatch_valid, dispatch_known, dispatch,
}
use construction_harness.Harness.Registry.Guards.{Refused}

drop-append {ℓ} :
    {A : Type ℓ} (n : ℕ) (xs ys : List A) → n ≤ length xs → drop n (xs ++ ys) ≡ drop n xs ++ ys
drop-append zero xs ys h = refl
drop-append (suc n) [] ys h = absurd (omega arith)
drop-append (suc n) (x ∷ xs) ys h = drop-append n xs ys (omega arith)

drop-all {ℓ} : {A : Type ℓ} (xs ys : List A) → drop (length xs) (xs ++ ys) ≡ ys
drop-all [] ys = refl
drop-all (x ∷ xs) ys = drop-all xs ys

last_of-append {ℓ} :
    {A : Type ℓ} (n : ℕ) (xs ys : List A)
    → length ys ≤ n
    → last_of n (xs ++ ys) ≡ drop (length (xs ++ ys) - n) xs ++ ys
unfolding last_of
last_of-append n xs ys h =
    drop-append (length (xs ++ ys) - n) xs ys (omega (arith, length-append xs ys))

last_of-suffix {ℓ} : {A : Type ℓ} (xs ys : List A) → last_of (length ys) (xs ++ ys) ≡ ys
unfolding last_of
last_of-suffix xs ys =
    let e : length (xs ++ ys) - length ys ≡ length xs = omega (arith, length-append xs ys) in
    ap (λ n. drop n (xs ++ ys)) e ∙ drop-all xs ys

module _ {V : Type 0} (dumps : Dict V → String) (name : String) (args : Dict V) where
  abbrev key : String × String
  key = call_key dumps name args

  -- The last two calls of the history are this one.
  pub record EndsTwice (history : List (String × String)) : Type 0 where
    pub before : List (String × String)
    pub history_is : history ≡ before ++ (key ∷ key ∷ [])

  record_call_thrice :
      (history : List (String × String))
      → EndsTwice history
      → (before : List (String × String)) × (record_call dumps name args history
          ≡ before ++ (key ∷ key ∷ key ∷ []))
  unfolding record_call
  record_call_thrice history e =
      let three = key ∷ key ∷ key ∷ [] in
      let longer : history ++ key ∷ [] ≡ e.before ++ three =
        ap (λ h. h ++ key ∷ []) e.history_is ∙ append_assoc e.before (key ∷ key ∷ []) (key ∷ []) in
      elim (Bool-cases (ltb 100 (length (history ++ key ∷ [])))) [
        | inl full ↦ (
          drop (length (e.before ++ three) - 100) e.before,
          rw full (ap (last_of 100) longer ∙ last_of-append 100 e.before three (omega arith)),
        )
        | inr small ↦ (e.before, rw small longer)
      ]

  is_loop_thrice :
      (before : List (String × String))
      → is_loop dumps name args (before ++ (key ∷ key ∷ key ∷ [])) ≡ true
  unfolding is_loop
  is_loop_thrice before =
      let last = last_of-suffix before (key ∷ key ∷ key ∷ []) in
      let self = (pair_eq {A = String} {B = String}).test_iff key key in
      ap (λ h. leb 3 (length (keep (λ k. k == key) h))) last ∙ ground arith

module _ {V W : Type 0} (o : Outside V W) (name : String) (args : Dict V) (call_id : String) where
  Twice : ToolRegistry V W → Type 0
  Twice registry = EndsTwice o.dumps name args registry.call_history

  -- What a repeated call gives: a refusal, and a history that still ends with the call twice.
  Repeats : W → ToolResult × ToolRegistry V W × W → Type 0
  Repeats w r = Refused o name args call_id w r × Twice r.1

  dispatch_permitted-Repeats :
      (tool : Tool V W) (registry : ToolRegistry V W) (w : W)
      → Twice registry
      → Repeats w (dispatch_permitted o name args call_id tool registry w)
  unfolding Twice Repeats dispatch_permitted error_result
  dispatch_permitted-Repeats tool registry w twice =
      let key = call_key o.dumps name args in
      let (before, thrice) = record_call_thrice o.dumps name args registry.call_history twice in
      let loops : is_loop o.dumps name args (record_call o.dumps name args registry.call_history)
          ≡ true =
        ap (is_loop o.dumps name args) thrice ∙ is_loop_thrice o.dumps name args before in
      let ends : EndsTwice o.dumps name args (record_call o.dumps name args registry.call_history) =
        record {
          before = before ++ key ∷ [];
          history_is = thrice ∙ sym (append_assoc before (key ∷ []) (key ∷ key ∷ []));
        } in
      rw loops ((refl, refl, refl), ends)

  dispatch_valid-Repeats :
      (manager : Option (PermissionManager (Dict V))) (tool : Tool V W)
      (registry : ToolRegistry V W) (w : W)
      → Twice registry
      → Repeats w (dispatch_valid o manager name args call_id tool registry w)
  unfolding Twice Repeats dispatch_valid error_result
  dispatch_valid-Repeats none tool registry w twice =
      dispatch_permitted-Repeats tool registry w twice
  dispatch_valid-Repeats (some manager) tool registry w twice =
      let outcome = check o.dumps tool.name tool.side_effects args manager in
      let checked = record registry { permission_manager = some outcome.1 } in
      elim (Bool-cases (is_deny outcome.0.decision)) [
        | inl denied ↦ rw denied ((refl, refl, refl), twice)
        | inr allowed ↦ rw allowed (dispatch_permitted-Repeats tool checked w twice)
      ]

  dispatch-Repeats :
      (registry : ToolRegistry V W) (w : W)
      → Twice registry
      → Repeats w (dispatch o name args call_id registry w)
  unfolding Twice Repeats dispatch dispatch_known error_result
  dispatch-Repeats registry w twice = elim (Option-cases (find_tool name registry.tools)) [
    | inl unknown ↦ rw (dispatch, unknown) ((refl, refl, refl), twice)
    | inr (tool, found) ↦ elim (Option-cases (lookup malformed_args_key args)) [
      | inr (raw, malformed) ↦
          rw (dispatch, dispatch_known, found, malformed) ((refl, refl, refl), twice)
      | inl parsed ↦ elim (List-cases (o.validate args tool.input_schema)) [
        | inl valid ↦
            rw (dispatch, dispatch_known, found, parsed, valid)
              (dispatch_valid-Repeats registry.permission_manager tool registry w twice)
        | inr (e, more, invalid) ↦
            rw (dispatch, dispatch_known, found, parsed, invalid) ((refl, refl, refl), twice)
      ]
    ]
  ]

  -- The registry and the world after so many dispatches of the call.
  unfoldable pub dispatch_times : ℕ → ToolRegistry V W → W → ToolRegistry V W × W
  dispatch_times zero registry w = (registry, w)
  dispatch_times (suc n) registry w =
      let (result, registry', w') = dispatch o name args call_id registry w in
      dispatch_times n registry' w'

  times_repeats :
      (n : ℕ) (registry : ToolRegistry V W) (w : W)
      → Twice registry
      → Twice (dispatch_times n registry w).0 × ((dispatch_times n registry w).1 ≡ w)
  unfolding Twice Repeats dispatch_times
  times_repeats zero registry w twice = (twice, refl)
  times_repeats (suc n) registry w twice =
      let r = dispatch o name args call_id registry w in
      let (refused, still) = dispatch-Repeats registry w twice in
      let (ends, same) = times_repeats n r.1 r.2 still in (ends, same ∙ refused.2)

  -- Once the history ends with a call twice, then however often that same call is dispatched again,
  -- the world is as it was, and the next dispatch of it is refused with an error and runs no tool.
  pub repeated_call-Refused :
      (n : ℕ) (registry : ToolRegistry V W) (w : W)
      → EndsTwice o.dumps name args registry.call_history
      → ((dispatch_times n registry w).1 ≡ w)
        × Refused o name args call_id w (
            dispatch o name args call_id
              (dispatch_times n registry w).0
              (dispatch_times n registry w).1)
  unfolding Twice Repeats
  repeated_call-Refused n registry w twice =
      let (ends, same) = times_repeats n registry w twice in
      let later = dispatch_times n registry w in
      let ((error, id, world), still) = dispatch-Repeats later.0 later.1 ends in
      (same, (error, id, world ∙ same))
