-- ===== src/Service/Ingestions/Again.antt =====
-- A submit that is repeated.
use construction_harness.Prelude.{
  Bool-cases, Result, ok, err, nonempty, nat_eq, string_eq, pair_eq, String, ◌≡◌, refl, ap, inl,
  inr, Bool, true, false, Option, none, some, [], ◌∷◌, arith, subst,
}
use construction_harness.Results.{ApiError}
use construction_harness.Shard.Orchestrator.{Status, queued}
use construction_harness.Service.Ingestions.{
  JobRow, JobTable, Request, key_is, same_work, key_text, first_row, find_active, find_existing,
  new_row, Submitted, with_outcome, deduped, violates, create, submit_found, submit,
}

-- A repeated submit finds the job: it makes no row, no upload and no task.
pub Found : Request → String → JobTable → String → Type 0
Found r job_id table id =
    (status : Status) × (submit r job_id (λ t. t) (λ t. t) table
      ≡ with_outcome table (ok (id, status, false)))

module _ (r : Request) (job_id again : String) where
  found_existing :
      (table : JobTable) (row : JobRow)
      → find_existing r table ≡ ok (some row)
      → Found r again table row.id
  unfolding Found submit
  found_existing table row h = (row.status, ap (submit_found r again (λ t. t) (λ t. t) table) h)

  own_key : (k : Option String) → nonempty (key_text k) ≡ true → key_is (key_text k) k ≡ true
  own_key none h = cc
  own_key (some k) h = (string_eq.test_iff k k).1 refl

  same_self : same_work r (new_row job_id r) ≡ true
  same_self = ground (
    arith,
    string_eq.test_iff r.content_sha256 r.content_sha256,
    string_eq.test_iff r.config_hash r.config_hash,
  )

  -- The row of a new job is found by its key, or as active work.
  find_existing-new_row :
      (table : JobTable) → find_existing r (new_row job_id r ∷ table) ≡ ok (some (new_row job_id r))
  unfolding find_existing find_active first_row
  find_existing-new_row table = elim (Bool-cases (nonempty (key_text r.idempotency_key))) [
    | inl keyed ↦ rw (keyed, own_key r.idempotency_key keyed, same_self) refl
    | inr no_key ↦ rw (no_key, same_self) refl
  ]

  -- What a submit leaves, if it gives an id.
  Left : Submitted → Type 0
  Left s =
      (id : String) (status : Status) (created : Bool)
      → s.outcome ≡ ok (id, status, created)
      → Found r again s.table id

  deduped-Left :
      (table : JobTable) (found : Result ApiError (Option JobRow))
      → find_existing r table ≡ found
      → Left (deduped table found)
  unfolding Left
  deduped-Left table (err e) h id status created k = cc
  deduped-Left table (ok none) h id status created k = cc
  deduped-Left table (ok (some row)) h id status created k =
      let same : row.id ≡ id = ground arith in
      subst (λ i. Found r again table i) same (found_existing table row h)

  created-Left :
      (table : JobTable)
      → Left (record {
        outcome = ok (job_id, queued, true);
        table = new_row job_id r ∷ table;
        uploaded = (new_row job_id r).pdf_object_key ∷ [];
        enqueued = job_id ∷ [];
      })
  unfolding Left
  created-Left table id status created k =
      let same : job_id ≡ id = ground arith in
      subst (λ i. Found r again (new_row job_id r ∷ table) i) same
        (found_existing (new_row job_id r ∷ table) (new_row job_id r) (find_existing-new_row table))

  create-Left :
      (afterwards : JobTable → JobTable) (table : JobTable)
      → Left (create r job_id afterwards table)
  unfolding create
  create-Left afterwards table = elim (Bool-cases (violates r table)) [
    | inl conflict ↦
        rw (create, conflict)
          (deduped-Left (afterwards table) (find_existing r (afterwards table)) refl)
    | inr fresh ↦ rw (create, fresh) (created-Left table)
  ]

  submit_found-Left :
      (meanwhile afterwards : JobTable → JobTable) (table : JobTable)
      (found : Result ApiError (Option JobRow))
      → find_existing r table ≡ found
      → Left (submit_found r job_id meanwhile afterwards table found)
  unfolding submit_found create
  submit_found-Left meanwhile afterwards table (err e) h = deduped-Left table (err e) h
  submit_found-Left meanwhile afterwards table (ok none) h =
      create-Left afterwards (meanwhile table)
  submit_found-Left meanwhile afterwards table (ok (some row)) h =
      deduped-Left table (ok (some row)) h

-- If a submit gives an id, whatever other submits did to the table between its transactions, then the same
-- request submitted again gives the same id as a dedupe hit: it adds no row, uploads nothing and
-- enqueues nothing.
pub submit_again :
    (r : Request) (job_id again : String) (meanwhile afterwards : JobTable → JobTable)
    (table : JobTable) (id : String) (status : Status) (created : Bool)
    → (submit r job_id meanwhile afterwards table).outcome ≡ ok (id, status, created)
    → (status' : Status) × (submit r again
          (λ t. t)
          (λ t. t)
          (submit r job_id meanwhile afterwards table).table
        ≡ record {
          outcome = ok (id, status', false);
          table = (submit r job_id meanwhile afterwards table).table;
          uploaded = [];
          enqueued = [];
        })
unfolding submit Left Found
submit_again r job_id again meanwhile afterwards table id status created h =
    submit_found-Left r job_id again meanwhile afterwards table (find_existing r table) refl id
      status created h
