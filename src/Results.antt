-- ===== src/Results.antt =====
-- The paginated results of a job: the entity endpoints of service/api/query.py, and the client's loop
-- over their pages in src/takeoff_agent/reconcile.py. The rows of a table are a list in the order of
-- their ordinals; the filters of a request are one test on a row.
pub mod Paging
pub mod Projection
pub mod Samples
use construction_harness.Prelude.{
  ltb, leb, nat_beq, if◌then◌else◌, ltb→lt, leb→le, leb→lt, nat_beq_iff, Bool-cases, Option-cases,
  List-cases, Result, ok, err, length, get_elem?, set, take, drop, keep, all, any, All,
  length-append, length-keep-le, length-drop, length-set, All-append, All-keep, take-append-drop,
  length-map, concat, join, decimal, nonempty, Eq, ◌==◌, contains, contains-append, nat_eq,
  string_eq, pair_eq, ℤ, pos, negsuc, is_neg, pos_part, min_ℤ, ℕ, zero, suc, ◌+◌, ◌-◌, ◌*◌, ◌/◌,
  ◌%◌, ◌^◌, ◌≤◌, ◌<◌, min, max, String, ◌≡◌, refl, sym, ap, ◌∙◌, ◌≡⟨◌⟩◌, ◌∎, ◌≢◌, ◌↔◌, ◌⊎◌, inl,
  inr, Bool, true, false, not, ◌&&◌, ◌||◌, Option, none, some, List, [], ◌∷◌, ◌++◌, map, append-nil,
  append_assoc, map-append, arith, first_chars, char_count, starts_with, difference,
  starts_with-append, length-take, subst,
}
use construction_harness.Shard.Orchestrator.{Status, succeeded, Job, Manifest}

-- ApiError: the status code and the code.
pub record ApiError : Type 0 where
  pub status_code : ℕ
  pub code : String

abbrev pub api_error : ℕ → String → ApiError
api_error status_code code = record { status_code = status_code; code = code }

-- MAX_PAGE_SIZE, and the client's _PAGE_SIZE
abbrev pub max_page_size : ℕ
max_page_size = 500

abbrev pub client_page_size : ℕ
client_page_size = 500

-- job.status == STATUS_SUCCEEDED
abbrev pub is_succeeded : Status → Bool
is_succeeded succeeded = true
is_succeeded _ = false

unfoldable pub load_queryable : Option Job → Result ApiError Job
load_queryable none = err (api_error 404 "job_not_found")
load_queryable (some job) =
    if is_succeeded job.status then ok job else err (api_error 409 "job_not_ready")

unfoldable pub offset : ℤ → ℤ → Result ApiError ℕ
offset page page_size =
    if leb (pos_part page) 0
    then err (api_error 422 "invalid_page")
    else if not (leb 1 (pos_part page_size) && leb (pos_part page_size) max_page_size)
    then err (api_error 422 "invalid_page_size")
    else ok ((pos_part page - 1) * pos_part page_size)

-- (total + page_size - 1) // page_size, for a page size that `offset` accepts
unfoldable pub total_pages : ℕ → ℕ → ℕ
total_pages total page_size = (total + page_size - 1) / page_size

abbrev pub manifest_incomplete : Option Manifest → Bool
manifest_incomplete none = false
manifest_incomplete (some manifest) = manifest.incomplete

-- A page of an entity: its rows (`data`), and the counts of its pagination.
pub record Page (Row : Type 0) : Type 0 where
  pub entries : List Row
  pub page : ℕ
  pub page_size : ℕ
  pub total : ℕ
  pub page_count : ℕ
  pub incomplete : Bool

module _ {Row : Type 0} where
  -- The query of a handler: `total`, and `.offset(offset).limit(page_size)`.
  unfoldable pub page_of : (Row → Bool) → List Row → Job → ℕ → ℕ → ℕ → Page Row
  unfolding total_pages
  page_of filters rows job skip page page_size =
      let matching = keep filters rows in
      record {
        entries = take page_size (drop skip matching);
        page = page;
        page_size = page_size;
        total = length matching;
        page_count = total_pages (length matching) page_size;
        incomplete = manifest_incomplete job.manifest;
      }

  -- get_items, get_fixture_counts and get_room_areas
  unfoldable pub get_rows :
      (Row → Bool) → List Row → Option Job → (page page_size : ℤ) → Result ApiError (Page Row)
  unfolding load_queryable offset page_of
  get_rows filters rows found page page_size = elim (load_queryable found) [
    | err e ↦ err e
    | ok job ↦ elim (offset page page_size) [
      | err e ↦ err e
      | ok skip ↦ ok (page_of filters rows job skip (pos_part page) (pos_part page_size))
    ]
  ]

-- _fetch_pages, on fuel; `fetch` gives a page of the client's size. Nothing is returned when the fuel
-- runs out.
module _ {Row : Type 0} (fetch : ℕ → Result ApiError (Page Row)) where
  unfoldable pub fetch_pages : ℕ → ℕ → List Row → Option (Result ApiError (List Row))
  fetch_pages zero page rows = none
  fetch_pages (suc fuel) page rows = elim (fetch page) [
    | err e ↦ some (err e)
    | ok resp ↦
        let all_rows = rows ++ resp.entries in
        let rest = fetch_pages fuel (suc page) all_rows in
        if leb resp.page_count page then some (ok all_rows) else rest
  ]
