-- ===== src/Harness/Plans/Evidence.antt =====
-- No step is done and no postcondition is satisfied without evidence.
use construction_harness.Prelude.{
  Bool-cases, Option-cases, length, all, All, nonempty, nat_eq, string_eq, pair_eq, ℤ, pos_part, ℕ,
  zero, suc, ◌-◌, String, ◌≡◌, ◌⊎◌, inl, inr, true, not, ◌&&◌, Option, none, some, List, [], ◌∷◌,
  map, arith,
}
use construction_harness.Harness.Plans.{
  StepStatus, done, blocked, parse_status, is_done, PlanStep, is_terminal, out_of_range,
  Postcondition, Plan, is_ready_to_finalize, Holder, Reply, new_steps, new_postcondition,
  plan_create, plan_show, change_at, updated_step, step_update, set_step, postcondition_verify,
}

-- A text that is there and not empty.
abbrev pub IsGiven : Option String → Type 0
IsGiven none = ⊥
IsGiven (some text) = nonempty text ≡ true

abbrev pub StepEvidenced : PlanStep → Type 0
StepEvidenced s = s.status ≡ done → IsGiven s.evidence

abbrev pub PostconditionEvidenced : Postcondition → Type 0
PostconditionEvidenced pc = pc.satisfied ≡ true → IsGiven pc.evidence

pub record IsEvidenced (plan : Plan) : Type 0 where
  pub steps : All StepEvidenced plan.steps
  pub postconditions : All PostconditionEvidenced plan.postconditions

abbrev pub HolderEvidenced : Holder → Type 0
HolderEvidenced none = Unit
HolderEvidenced (some plan) = IsEvidenced plan

new_steps-evidenced : (i : ℕ) (ds : List String) → All StepEvidenced (new_steps i ds)
unfolding new_steps
new_steps-evidenced i [] = tt
new_steps-evidenced i (d ∷ ds) = ((λ e. cc), new_steps-evidenced (suc i) ds)

new_postconditions-evidenced :
    (ds : List String) → All PostconditionEvidenced (map new_postcondition ds)
new_postconditions-evidenced [] = tt
new_postconditions-evidenced (d ∷ ds) = ((λ e. cc), new_postconditions-evidenced ds)

All-change_at {ℓ κ} :
    {A : Type ℓ} (P : A → Type κ) (f : A → A) (i : ℕ) (xs : List A)
    → ((x : A) → P (f x))
    → All P xs
    → All P (change_at f i xs)
unfolding change_at
All-change_at P f i [] hf h = tt
All-change_at P f zero (x ∷ xs) hf h = (hf x, h.1)
All-change_at P f (suc i) (x ∷ xs) hf h = (h.0, All-change_at P f i xs hf h.1)

-- The calls that a model can make of the plan tools.
pub data PlanCall : Type 0 where
  create : String → List String → List String → PlanCall
  show : PlanCall
  update : ℤ → String → String → String → PlanCall
  verify : ℤ → String → PlanCall

module _ (repr : String → String) where
  unfoldable pub apply_call : PlanCall → Holder → Reply
  apply_call (create objective steps pcs) holder = plan_create objective steps pcs holder
  apply_call show holder = plan_show holder
  apply_call (update n status evidence notes) holder =
      step_update repr n status evidence notes holder
  apply_call (verify n evidence) holder = postcondition_verify n evidence holder

  -- The holder after a session's calls.
  unfoldable pub after_calls : List PlanCall → Holder → Holder
  unfolding apply_call
  after_calls [] holder = holder
  after_calls (c ∷ cs) holder = after_calls cs (apply_call c holder).1

  set_step-Evidenced :
      (plan : Plan) (n : ℕ) (new : StepStatus) (status evidence notes : String)
      → IsEvidenced plan
      → HolderEvidenced (set_step repr plan n new status evidence notes).1
  unfolding set_step
  set_step-Evidenced plan n new status evidence notes h =
      elim (Bool-cases (is_done new && not (nonempty evidence))) [
        | inl refused ↦ rw refused h
        | inr accepted ↦ rw accepted (record {
          steps =
              All-change_at StepEvidenced (λ s. updated_step s new evidence notes) (n - 1)
                plan.steps (λ s e. ground arith) h.steps;
          postconditions = h.postconditions;
        })
      ]

  step_update-Evidenced :
      (n : ℤ) (status evidence notes : String) (plan : Plan)
      → IsEvidenced plan
      → HolderEvidenced (step_update repr n status evidence notes (some plan)).1
  unfolding step_update
  step_update-Evidenced n status evidence notes plan h =
      elim (Bool-cases (out_of_range n (length plan.steps))) [
        | inl outside ↦ rw outside h
        | inr inside ↦ rw inside (elim (Option-cases (parse_status status)) [
          | inl invalid ↦ rw invalid h
          | inr (new, valid) ↦
              rw valid (set_step-Evidenced plan (pos_part n) new status evidence notes h)
        ])
      ]

  postcondition_verify-Evidenced :
      (n : ℤ) (evidence : String) (plan : Plan)
      → IsEvidenced plan
      → HolderEvidenced (postcondition_verify n evidence (some plan)).1
  unfolding postcondition_verify
  postcondition_verify-Evidenced n evidence plan h =
      elim (Bool-cases (out_of_range n (length plan.postconditions))) [
        | inl outside ↦ rw outside h
        | inr inside ↦ rw inside (elim (Bool-cases (not (nonempty evidence))) [
          | inl refused ↦ rw refused h
          | inr accepted ↦ rw accepted (record {
            steps = h.steps;
            postconditions =
                All-change_at PostconditionEvidenced
                  (λ pc. record {
                    description = pc.description;
                    satisfied = true;
                    evidence = some evidence;
                  })
                  (pos_part n - 1) plan.postconditions (λ pc e. ground arith) h.postconditions;
          })
        ])
      ]

  apply_call-Evidenced :
      (c : PlanCall) (holder : Holder)
      → HolderEvidenced holder
      → HolderEvidenced (apply_call c holder).1
  unfolding apply_call plan_create plan_show
  apply_call-Evidenced (create objective steps pcs) holder h = record {
    steps = new_steps-evidenced 0 steps;
    postconditions = new_postconditions-evidenced pcs;
  }
  apply_call-Evidenced show none h = tt
  apply_call-Evidenced show (some plan) h = h
  apply_call-Evidenced (update n status evidence notes) none h = unfold step_update in tt
  apply_call-Evidenced (update n status evidence notes) (some plan) h =
      step_update-Evidenced n status evidence notes plan h
  apply_call-Evidenced (verify n evidence) none h = unfold postcondition_verify in tt
  apply_call-Evidenced (verify n evidence) (some plan) h =
      postcondition_verify-Evidenced n evidence plan h

  after_calls-Evidenced :
      (cs : List PlanCall) (holder : Holder)
      → HolderEvidenced holder
      → HolderEvidenced (after_calls cs holder)
  unfolding after_calls
  after_calls-Evidenced [] holder h = h
  after_calls-Evidenced (c ∷ cs) holder h =
      after_calls-Evidenced cs (apply_call c holder).1 (apply_call-Evidenced c holder h)

-- A step that is done with evidence, or blocked.
abbrev pub StepSettled : PlanStep → Type 0
StepSettled s = ((s.status ≡ done) × IsGiven s.evidence) ⊎ (s.status ≡ blocked)

abbrev pub PostconditionVerified : Postcondition → Type 0
PostconditionVerified pc = (pc.satisfied ≡ true) × IsGiven pc.evidence

steps-settled :
    (steps : List PlanStep)
    → all is_terminal steps ≡ true
    → All StepEvidenced steps
    → All StepSettled steps
unfolding is_terminal
steps-settled [] t h = tt
steps-settled (s ∷ steps) t h = ground (arith, steps-settled steps)

postconditions-verified :
    (pcs : List Postcondition)
    → all (λ pc. pc.satisfied) pcs ≡ true
    → All PostconditionEvidenced pcs
    → All PostconditionVerified pcs
postconditions-verified [] t h = tt
postconditions-verified (pc ∷ pcs) t h = ground (arith, postconditions-verified pcs)

-- Whatever calls of the plan tools a session makes from no plan, a plan that is ready to finalize has
-- every step done with non-empty evidence or blocked, and every postcondition satisfied with
-- non-empty evidence.
pub ready_has_evidence :
    (repr : String → String) (calls : List PlanCall) (plan : Plan)
    → after_calls repr calls none ≡ some plan
    → is_ready_to_finalize plan ≡ true
    → All StepSettled plan.steps × All PostconditionVerified plan.postconditions
unfolding is_ready_to_finalize
ready_has_evidence repr calls plan e ready =
    let evidenced : IsEvidenced plan = rw e at (after_calls-Evidenced repr calls none tt) in
    (
      steps-settled plan.steps (ground arith) evidenced.steps,
      postconditions-verified plan.postconditions (ground arith) evidenced.postconditions,
    )
