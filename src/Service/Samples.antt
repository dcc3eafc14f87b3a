-- ===== src/Service/Samples.antt =====
-- Submits at a small table of jobs.
use construction_harness.Prelude.{
  ok, err, length, decimal, nat_eq, string_eq, pair_eq, String, ◌≡◌, refl, true, false, some, [],
  ◌∷◌,
}
use construction_harness.Shard.Orchestrator.{Status, queued}
use construction_harness.Service.Ingestions.{
  JobRow, Request, hash_and_validate, new_row, integrity_error, submit,
}
use construction_harness.Service.Ingestions.Again.{submit_again}

abbrev request : String → String → Request
request key sha = record { idempotency_key = some key; content_sha256 = sha; config_hash = "c" }

abbrev other_job : JobRow
other_job = new_row "j0" (request "" "other")

-- A file in two chunks is hashed whole.
upload_test :
    hash_and_validate
      (λ content. decimal (length content))
      10
      ((37 ∷ 80 ∷ 68 ∷ 70 ∷ 45 ∷ 1 ∷ []) ∷ (2 ∷ []) ∷ [])
    ≡ ok ("7", 7)
unfolding hash_and_validate decimal
upload_test = refl

-- An empty key is no key when jobs are looked up, but the index on the keys counts it.
empty_key_test :
    (submit (request "" "new") "j1" (λ t. t) (λ t. t) (other_job ∷ [])).outcome
    ≡ err integrity_error
unfolding submit
empty_key_test = refl

submitted :
    (submit (request "k" "new") "j1" (λ t. t) (λ t. t) (other_job ∷ [])).outcome
    ≡ ok ("j1", queued, true)
unfolding submit
submitted = refl

submit_again_example :
    (status' : Status) × (submit
        (request "k" "new")
        "j2"
        (λ t. t)
        (λ t. t)
        (submit (request "k" "new") "j1" (λ t. t) (λ t. t) (other_job ∷ [])).table
      ≡ record {
        outcome = ok ("j1", status', false);
        table = (submit (request "k" "new") "j1" (λ t. t) (λ t. t) (other_job ∷ [])).table;
        uploaded = [];
        enqueued = [];
      })
submit_again_example =
    submit_again (request "k" "new") "j1" "j2" (λ t. t) (λ t. t) (other_job ∷ []) "j1" queued true
      submitted
