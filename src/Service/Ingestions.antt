-- ===== src/Service/Ingestions.antt =====
-- The submission of a takeoff (service/api/ingestions.py). The table of jobs is a list with the
-- newest row first, and its two unique indexes (migration 0004) are the test `violates`. The hash,
-- the new job's id, and what other transactions do to the table between the two of a submit are
-- arguments.
pub mod Again
use construction_harness.Prelude.{
  ltb, leb, if◌then◌else◌, Result, ok, err, length, take, any, concat, nonempty, ◌==◌, nat_eq,
  string_eq, pair_eq, ℕ, ◌+◌, String, Bool, true, false, ◌&&◌, ◌||◌, Option, none, some, List, [],
  ◌∷◌, ◌++◌,
}
use construction_harness.Results.{ApiError, api_error}
use construction_harness.Shard.Orchestrator.{Status, queued, failed, dead}

-- The columns that a submit reads and writes.
pub record JobRow : Type 0 where
  pub id : String
  pub idempotency_key : Option String
  pub content_sha256 : String
  pub config_hash : String
  pub status : Status
  pub pdf_object_key : String

abbrev pub JobTable : Type 0
JobTable = List JobRow

-- An ApiError, or the IntegrityError of the database, raised again.
pub data SubmitError : Type 0 where
  refused : ApiError → SubmitError
  integrity_error : SubmitError

-- What the loop of _hash_and_validate has read.
pub record Upload : Type 0 where
  pub total : ℕ
  pub head : List ℕ
  pub content : List ℕ

-- for each chunk until an empty one: the head, the size and its limit, the hash's input
unfoldable pub read_chunks : ℕ → Upload → List (List ℕ) → Result ApiError Upload
read_chunks max_bytes upload [] = ok upload
read_chunks max_bytes upload ([] ∷ chunks) = ok upload
read_chunks max_bytes upload ((b ∷ bytes) ∷ chunks) =
    let chunk = b ∷ bytes in
    let total = upload.total + length chunk in
    let rest =
      read_chunks max_bytes
        (record {
          total = total;
          head = if leb (length upload.head) 0 then take 5 chunk else upload.head;
          content = upload.content ++ chunk;
        })
        chunks in
    if ltb max_bytes total then err (api_error 413 "file_too_large") else rest

-- _PDF_MAGIC, in ASCII
abbrev pub pdf_magic : List ℕ
pdf_magic = 37 ∷ 80 ∷ 68 ∷ 70 ∷ 45 ∷ []

abbrev same_bytes : List ℕ → List ℕ → Bool
same_bytes [] [] = true
same_bytes [] (b ∷ bs) = false
same_bytes (a ∷ as_) [] = false
same_bytes (a ∷ as_) (b ∷ bs) = a == b && same_bytes as_ bs

module _ (sha256 : List ℕ → String) where
  abbrev validated : Result ApiError Upload → Result ApiError (String × ℕ)
  validated (err e) = err e
  validated (ok upload) =
      if leb upload.total 0
      then err (api_error 400 "empty_file")
      else if same_bytes upload.head pdf_magic
      then ok (sha256 upload.content, upload.total)
      else err (api_error 415 "not_a_pdf")

  -- _hash_and_validate of the chunks of a file
  unfoldable pub hash_and_validate : ℕ → List (List ℕ) → Result ApiError (String × ℕ)
  unfolding read_chunks
  hash_and_validate max_bytes chunks =
      validated (read_chunks max_bytes (record { total = 0; head = []; content = [] }) chunks)

-- What a submit asks for.
pub record Request : Type 0 where
  pub idempotency_key : Option String
  pub content_sha256 : String
  pub config_hash : String

abbrev pub is_active : Status → Bool
is_active failed = false
is_active dead = false
is_active other = true

abbrev pub key_is : String → Option String → Bool
key_is key none = false
key_is key (some k) = k == key

abbrev pub row_has_key : String → JobRow → Bool
row_has_key key row = key_is key row.idempotency_key

abbrev pub same_work : Request → JobRow → Bool
same_work r row = row.content_sha256 == r.content_sha256 && row.config_hash == r.config_hash

unfoldable pub first_row : (JobRow → Bool) → JobTable → Option JobRow
first_row p [] = none
first_row p (row ∷ rows) = if p row then some row else first_row p rows

-- The newest active job with the same content and config.
unfoldable pub find_active : Request → JobTable → Option JobRow
unfolding first_row
find_active r table = first_row (λ row. same_work r row && is_active row.status) table

abbrev pub key_text : Option String → String
key_text none = ""
key_text (some key) = key

abbrev by_key : Request → Option JobRow → Option JobRow → Result ApiError (Option JobRow)
by_key r none active = ok active
by_key r (some row) active =
    if same_work r row then ok (some row) else err (api_error 409 "idempotency_key_conflict")

-- _find_existing: an empty key is no key
unfoldable pub find_existing : Request → JobTable → Result ApiError (Option JobRow)
unfolding find_active first_row
find_existing r table =
    if nonempty (key_text r.idempotency_key)
    then by_key r (first_row (row_has_key (key_text r.idempotency_key)) table) (find_active r table)
    else ok (find_active r table)

abbrev pub new_row : String → Request → JobRow
new_row job_id r = record {
  id = job_id;
  idempotency_key = r.idempotency_key;
  content_sha256 = r.content_sha256;
  config_hash = r.config_hash;
  status = queued;
  pdf_object_key = concat ("uploads/" ∷ job_id ∷ "/drawings.pdf" ∷ []);
}

abbrev same_key : Option String → JobRow → Bool
same_key none row = false
same_key (some key) row = row_has_key key row

-- The insertion breaks a unique index: one on (content, config) of the active jobs, one on the keys
-- that are not null.
unfoldable pub violates : Request → JobTable → Bool
violates r table =
    any (λ row. (same_work r row && is_active row.status) || same_key r.idempotency_key row) table

-- (job_id, status, created), the table, and the upload and task of a new job
pub record Submitted : Type 0 where
  pub outcome : Result SubmitError (String × Status × Bool)
  pub table : JobTable
  pub uploaded : List String
  pub enqueued : List String

abbrev pub with_outcome : JobTable → Result SubmitError (String × Status × Bool) → Submitted
with_outcome table outcome = record {
  outcome = outcome;
  table = table;
  uploaded = [];
  enqueued = [];
}

-- The second look, after an IntegrityError.
abbrev pub deduped : JobTable → Result ApiError (Option JobRow) → Submitted
deduped table (err e) = with_outcome table (err (refused e))
deduped table (ok none) = with_outcome table (err integrity_error)
deduped table (ok (some row)) = with_outcome table (ok (row.id, row.status, false))

-- The insertion of the new job, its upload and its task. `afterwards` is what other submits do to the
-- table between an IntegrityError and the second look.
unfoldable pub create : Request → String → (JobTable → JobTable) → JobTable → Submitted
unfolding find_existing violates
create r job_id afterwards table =
    if violates r table
    then deduped (afterwards table) (find_existing r (afterwards table))
    else record {
      outcome = ok (job_id, queued, true);
      table = new_row job_id r ∷ table;
      uploaded = (new_row job_id r).pdf_object_key ∷ [];
      enqueued = job_id ∷ [];
    }

abbrev pub submit_found :
    Request
    → String
    → (JobTable → JobTable)
    → (JobTable → JobTable)
    → JobTable
    → Result ApiError (Option JobRow)
    → Submitted
unfolding create
submit_found r job_id meanwhile afterwards table (err e) = with_outcome table (err (refused e))
submit_found r job_id meanwhile afterwards table (ok none) =
    create r job_id afterwards (meanwhile table)
submit_found r job_id meanwhile afterwards table (ok (some row)) =
    with_outcome table (ok (row.id, row.status, false))

-- _submit
unfoldable pub submit :
    Request → String → (JobTable → JobTable) → (JobTable → JobTable) → JobTable → Submitted
unfolding submit_found find_existing
submit r job_id meanwhile afterwards table =
    submit_found r job_id meanwhile afterwards table (find_existing r table)

-- create_ingestion: 202 for a new job, 200 for a dedupe hit
abbrev pub submit_status : Bool → ℕ
submit_status created = if created then 202 else 200

-- get_artifact: the key of the object that is served
unfoldable pub get_artifact : Option (Option String) → Result ApiError String
get_artifact none = err (api_error 404 "job_not_found")
get_artifact (some none) = err (api_error 409 "artifact_not_ready")
get_artifact (some (some key)) =
    if nonempty key then ok key else err (api_error 409 "artifact_not_ready")
