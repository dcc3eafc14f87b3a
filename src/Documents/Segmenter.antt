-- ===== src/Documents/Segmenter.antt =====
-- The segmenter (src/pipeline/segmenter.py). A region's confidence is the pair of numbers whose
-- quotient the code rounds to three decimals; the while loop of `_absorb_strays` runs on fuel.
pub mod Runs
pub mod Relabel
pub mod Absorb
pub mod Regions
use construction_harness.Prelude.{
  ltb, leb, if◌then◌else◌, length, get_elem?, set, take, drop, keep, any, ◌==◌, contains, nat_eq,
  string_eq, pair_eq, ℕ, zero, suc, ◌+◌, ◌-◌, String, Bool, not, ◌&&◌, ◌||◌, Option, none, some,
  List, [], ◌∷◌, ◌++◌, map,
}
use construction_harness.Harness.Messages.{Dict}

-- The fields of a page's profile that the segmenter reads.
pub record PageProfile : Type 0 where
  pub file_id : String
  pub page_index : ℕ
  pub size_class : String
  pub anchor_hits : Dict ℕ

pub record Region : Type 0 where
  pub kind : String
  pub file_id : String
  pub page_start : ℕ
  pub page_end : ℕ
  pub confidence : ℕ × ℕ

abbrev pub region_page_count : Region → ℕ
region_page_count r = r.page_end + 1 - r.page_start

-- _DEFAULT_MIN_RUN
abbrev pub default_min_run : ℕ
default_min_run = 3

abbrev pub manual_anchors : List String
manual_anchors = "DIVISION" ∷ "SECTION" ∷ "TABLE OF CONTENTS" ∷ []

-- _provisional_kind
unfoldable pub provisional_kind : PageProfile → String
provisional_kind p = if p.size_class == "large" then "drawings" else "manual"

-- What groupby yields: a kind, and how often it stands in a row.
abbrev pub Group : Type 0
Group = String × ℕ

abbrev pub extend : String → List Group → List Group
extend k [] = (k, 1) ∷ []
extend k ((j, n) ∷ groups) = if j == k then (j, suc n) ∷ groups else (k, 1) ∷ (j, n) ∷ groups

unfoldable pub group_by : List String → List Group
group_by [] = []
group_by (k ∷ kinds) = extend k (group_by kinds)

-- [kind, start_pos, end_pos]
pub record Span : Type 0 where
  pub kind : String
  pub start_pos : ℕ
  pub end_pos : ℕ

unfoldable pub spans_from : ℕ → List Group → List Span
spans_from position [] = []
spans_from position ((k, n) ∷ groups) =
    record { kind = k; start_pos = position; end_pos = position + n - 1 }
    ∷ spans_from (position + n) groups

-- _runs
unfoldable pub runs : List String → List Span
unfolding spans_from group_by
runs kinds = spans_from 0 (group_by kinds)

-- (e - s + 1) < min_run and left == right and left != kind
abbrev pub is_stray : ℕ → Span → Span → Span → Bool
is_stray min_run left run right =
    ltb (run.end_pos + 1 - run.start_pos) min_run
    && left.kind == right.kind
    && not (left.kind == run.kind)

-- The first stray run, with the kind of its neighbours.
unfoldable pub find_stray : ℕ → List Span → Option (Span × String)
find_stray min_run [] = none
find_stray min_run (left ∷ []) = none
find_stray min_run (left ∷ run ∷ []) = none
find_stray min_run (left ∷ run ∷ right ∷ rest) =
    let later = find_stray min_run (run ∷ right ∷ rest) in
    if is_stray min_run left run right then some (run, left.kind) else later

-- for pos in range(s, s + n): kinds[pos] = left
unfoldable pub relabel : ℕ → ℕ → String → List String → List String
relabel s zero left kinds = kinds
relabel s (suc n) left kinds = relabel (suc s) n left (set kinds s left)

-- `none` says that the fuel ran out.
unfoldable pub absorb_strays : ℕ → ℕ → List String → Option (List String)
unfolding find_stray runs relabel
absorb_strays zero min_run kinds = none
absorb_strays (suc fuel) min_run kinds =
    let next =
      λ (s e : ℕ) (left : String). absorb_strays fuel min_run (relabel s (e + 1 - s) left kinds) in
    elim (find_stray min_run (runs kinds)) [
      | none ↦ some kinds
      | some (run, left) ↦ next run.start_pos run.end_pos left
    ]

-- The loop with fuel enough: one more than the number of runs.
unfoldable pub absorbed : ℕ → List String → Option (List String)
unfolding absorb_strays runs
absorbed min_run kinds = absorb_strays (suc (length (runs kinds))) min_run kinds

-- by_index[i], where a later profile of the same index wins; KeyError if there is none
unfoldable pub by_index : ℕ → List PageProfile → Option PageProfile
by_index i [] = none
by_index i (p ∷ profiles) =
    let later = by_index i profiles in
    elim later [ none ↦ if p.page_index == i then some p else none | some q ↦ some q ]

-- tok in p.anchor_hits for some manual anchor
abbrev pub has_anchor : PageProfile → Bool
has_anchor p = any (λ tok. contains (map (λ hit. hit.0) p.anchor_hits) tok) manual_anchors

unfoldable pub pages_of : List PageProfile → ℕ → ℕ → Option (List PageProfile)
unfolding by_index
pages_of profiles i zero = some []
pages_of profiles i (suc n) =
    let rest = pages_of profiles (suc i) n in
    elim (by_index i profiles) [
      | none ↦ none
      | some p ↦ elim rest [ none ↦ none | some ps ↦ some (p ∷ ps) ]
    ]

abbrev with_anchors : Region → Option (List PageProfile) → Option Region
with_anchors r none = none
with_anchors r (some pages) =
    some (if any has_anchor pages then r else record r { kind = "front_matter" })

-- The loop's body on one boundary region; `none` is the KeyError of a page that is not there.
unfoldable pub mark_region : List PageProfile → ℕ → Region → Option Region
unfolding pages_of
mark_region profiles min_run r =
    if not (r.kind == "manual") || leb min_run (region_page_count r)
    then some r
    else with_anchors r (pages_of profiles r.page_start (region_page_count r))

abbrev pub both : Option Region → Option (List Region) → Option (List Region)
both none rest = none
both (some r) none = none
both (some r) (some rest) = some (r ∷ rest)

-- The last region marked, and those before it left alone.
unfoldable pub mark_last : List PageProfile → ℕ → List Region → Option (List Region)
unfolding mark_region
mark_last profiles min_run [] = some []
mark_last profiles min_run (r ∷ []) = both (mark_region profiles min_run r) (some [])
mark_last profiles min_run (r ∷ next ∷ rest) =
    both (some r) (mark_last profiles min_run (next ∷ rest))

-- _mark_front_matter: the first region and, if it is another, the last
unfoldable pub mark_front_matter : List PageProfile → ℕ → List Region → Option (List Region)
unfolding mark_region mark_last
mark_front_matter profiles min_run [] = some []
mark_front_matter profiles min_run (r ∷ rest) =
    both (mark_region profiles min_run r) (mark_last profiles min_run rest)

abbrev pub insert_profile : PageProfile → List PageProfile → List PageProfile
insert_profile p [] = p ∷ []
insert_profile p (q ∷ profiles) =
    let rest = insert_profile p profiles in
    if leb p.page_index q.page_index then p ∷ q ∷ profiles else q ∷ rest

-- sorted(profiles, key=page_index), which is stable
unfoldable pub sort_pages : List PageProfile → List PageProfile
sort_pages [] = []
sort_pages (p ∷ profiles) = insert_profile p (sort_pages profiles)

abbrev pub index_of : Option PageProfile → ℕ
index_of none = 0
index_of (some p) = p.page_index

-- The region of a run: its first and last page, and how many of its pages have its kind.
unfoldable pub region_of : String → List PageProfile → Span → Region
unfolding provisional_kind
region_of file_id profs run =
    let pages = take (run.end_pos + 1 - run.start_pos) (drop run.start_pos profs) in
    record {
      kind = run.kind;
      file_id = file_id;
      page_start = index_of (get_elem? profs run.start_pos);
      page_end = index_of (get_elem? profs run.end_pos);
      confidence = (length (keep (λ p. provisional_kind p == run.kind) pages), length pages);
    }

abbrev regions_of : ℕ → String → List PageProfile → Option (List String) → Option (List Region)
unfolding mark_front_matter region_of runs
regions_of min_run file_id profs none = none
regions_of min_run file_id profs (some kinds) =
    mark_front_matter profs min_run (map (region_of file_id profs) (runs kinds))

abbrev pub segment_sorted : ℕ → List PageProfile → Option (List Region)
unfolding regions_of absorbed provisional_kind
segment_sorted min_run [] = some []
segment_sorted min_run (p ∷ profs) =
    regions_of min_run p.file_id (p ∷ profs) (absorbed min_run (map provisional_kind (p ∷ profs)))

unfoldable pub segment_file : List PageProfile → ℕ → Option (List Region)
unfolding segment_sorted sort_pages
segment_file profiles min_run = segment_sorted min_run (sort_pages profiles)

-- dict.fromkeys: the first occurrences, in their order
unfoldable pub first_ids : List String → List PageProfile → List String
first_ids seen [] = []
first_ids seen (p ∷ profiles) =
    let rest = first_ids (if contains seen p.file_id then seen else p.file_id ∷ seen) profiles in
    if contains seen p.file_id then rest else p.file_id ∷ rest

abbrev joined : Option (List Region) → Option (List Region) → Option (List Region)
joined none rest = none
joined (some regions) none = none
joined (some regions) (some rest) = some (regions ++ rest)

unfoldable pub segment_files : List PageProfile → ℕ → List String → Option (List Region)
unfolding segment_file
segment_files profiles min_run [] = some []
segment_files profiles min_run (file_id ∷ ids) =
    joined (segment_file (keep (λ p. p.file_id == file_id) profiles) min_run)
      (segment_files profiles min_run ids)

unfoldable pub segment_package : List PageProfile → ℕ → Option (List Region)
unfolding segment_files first_ids
segment_package profiles min_run = segment_files profiles min_run (first_ids [] profiles)
