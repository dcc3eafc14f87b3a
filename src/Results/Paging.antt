-- ===== src/Results/Paging.antt =====
-- The client's loop reads every row.
use construction_harness.Prelude.{
  leb, if◌then◌else◌, leb→le, leb→lt, Bool-cases, Result, ok, err, length, take, drop, keep,
  take-append-drop, nat_eq, string_eq, pair_eq, pos, ℕ, zero, suc, ◌+◌, ◌*◌, ◌≤◌, ◌<◌, ◌≡◌, refl,
  sym, ap, ◌∙◌, inl, inr, Bool, some, List, [], ◌∷◌, ◌++◌, append-nil, append_assoc, arith,
}
use construction_harness.Shard.Orchestrator.{succeeded, Job}
use construction_harness.Results.{
  ApiError, api_error, client_page_size, is_succeeded, load_queryable, offset, total_pages, Page,
  page_of, get_rows, fetch_pages,
}

drop-nil {ℓ} : {A : Type ℓ} (k : ℕ) → drop {A = A} k [] ≡ []
drop-nil zero = refl
drop-nil (suc k) = refl

take-nil {ℓ} : {A : Type ℓ} (k : ℕ) → take {A = A} k [] ≡ []
take-nil zero = refl
take-nil (suc k) = refl

take-drop {ℓ} :
    {A : Type ℓ} (n i k : ℕ) (xs : List A) → k ≡ i + n → take n (drop i xs) ++ drop k xs ≡ drop i xs
take-drop n zero k xs e = let same : k ≡ n = omega arith in rw same (take-append-drop n xs)
take-drop n (suc i) k [] e = cc (take-nil n, drop-nil k)
take-drop n (suc i) zero (x ∷ xs) e = absurd (omega arith)
take-drop n (suc i) (suc k) (x ∷ xs) e = take-drop n i k xs (omega arith)

drop-all {ℓ} : {A : Type ℓ} (n : ℕ) (xs : List A) → length xs ≤ n → drop n xs ≡ []
drop-all zero [] h = refl
drop-all zero (x ∷ xs) h = absurd (omega arith)
drop-all (suc n) [] h = refl
drop-all (suc n) (x ∷ xs) h = drop-all n xs (omega arith)

last_page : (n page : ℕ) → total_pages n 500 ≤ page → n ≤ page * 500
unfolding total_pages
last_page n page h = omega arith

offset-ok : (page : ℕ) → offset (pos (suc page)) (pos 500) ≡ ok (page * 500)
unfolding offset
offset-ok page = ground arith

module _ {Row : Type 0} (filters : Row → Bool) (rows : List Row) (job : Job) where
  fetch : ℕ → Result ApiError (Page Row)
  fetch page = get_rows filters rows (some job) (pos page) (pos client_page_size)

  loaded : job.status ≡ succeeded → load_queryable (some job) ≡ ok job
  unfolding load_queryable
  loaded done =
      ap (λ s. if is_succeeded s then ok job else err (api_error 409 "job_not_ready")) done

  fetch-ok :
      (page : ℕ)
      → job.status ≡ succeeded
      → fetch (suc page) ≡ ok (page_of filters rows job (page * 500) (suc page) 500)
  unfolding fetch get_rows
  fetch-ok page done = rw (get_rows, loaded done, offset-ok page) refl

  fetch_pages-rest :
      (fuel page : ℕ) (read : List Row)
      → job.status ≡ succeeded
      → total_pages (length (keep filters rows)) 500 < fuel + suc page
      → 1 ≤ fuel
      → fetch_pages fetch fuel (suc page) read
        ≡ some (ok (read ++ drop (page * 500) (keep filters rows)))
  unfolding fetch_pages page_of
  fetch_pages-rest zero page read done enough some_fuel = absurd (omega arith)
  fetch_pages-rest (suc fuel) page read done enough some_fuel =
      let matching = keep filters rows in
      let n = length matching in
      let here = take 500 (drop (page * 500) matching) in
      let got = fetch-ok page done in
      let next = drop (suc page * 500) matching in
      let split : take 500 (drop (page * 500) matching) ++ next ≡ drop (page * 500) matching =
        take-drop 500 (page * 500) (suc page * 500) matching (omega arith) in
      elim (Bool-cases (leb (total_pages n 500) (suc page))) [
        | inl last ↦
            let none_left =
              drop-all (suc page * 500) matching
                (last_page n (suc page) (leb→le (total_pages n 500) (suc page) last)) in
            rw (fetch_pages, got, last)
              (ap (λ xs. some (ok (read ++ xs)))
                (sym (append-nil here) ∙ (ap (λ xs. here ++ xs) (sym none_left) ∙ split)))
        | inr more ↦
            let rest =
              fetch_pages-rest fuel (suc page) (read ++ here) done (omega arith)
                (omega (arith, leb→lt (total_pages n 500) (suc page) more)) in
            rw (fetch_pages, got, more)
              (rest
                ∙ ap (λ xs. some (ok xs))
                    (append_assoc read here next ∙ ap (λ xs. read ++ xs) split))
      ]

  -- For a job that has succeeded, the client's loop over the pages of an entity ends, within one more
  -- call than there are pages, with exactly the rows that match the request, in order.
  pub fetch_pages-keep :
      (fuel : ℕ)
      → job.status ≡ succeeded
      → suc (total_pages (length (keep filters rows)) client_page_size) ≤ fuel
      → fetch_pages
          (λ page. get_rows filters rows (some job) (pos page) (pos client_page_size))
          fuel
          1
          []
        ≡ some (ok (keep filters rows))
  unfolding fetch
  fetch_pages-keep fuel done enough = fetch_pages-rest fuel 0 [] done (omega arith) (omega arith)
