-- ===== src/Schedules/Entries/Items.antt =====
-- The door and finish entries against the quantity-bearing items of the same rows.
use construction_harness.Prelude.{
  ltb, if◌then◌else◌, length, get_elem?, ◌==◌, contains, nat_eq, string_eq, pair_eq, ℕ, zero, suc,
  String, ◌≡◌, refl, sym, ◌∙◌, true, false, Option, none, some, List, [], ◌∷◌, map, arith, Distinct,
}
use construction_harness.Harness.Messages.{lookup-put, Dict, lookup, put}
use construction_harness.Shard.Extract.{ScheduleItem}
use construction_harness.Schedules.Cells.{Cell}
use construction_harness.Schedules.Schema.{ScheduleSchema, door_schema, key_field}
use construction_harness.Schedules.Labels.{first_some, or_empty}
use construction_harness.Schedules.Resolver.{
  Table, by_field, column_of, mapped_fields, resolve_columns,
}
use construction_harness.Schedules.Resolver.Mapping.{resolve_columns-IsResolved}
use construction_harness.Schedules.Rows.{clean_at, select_rows, select_door_rows_auto, key_column}
use construction_harness.Schedules.Items.{
  attributes_of, attr, build_item, parse_schedule, source_or,
}
use construction_harness.Schedules.Entries.{
  DoorEntry, text_at, none_if_empty, get, build_entry, door_entries,
}

-- The first column with a field: the only one, in a resolved map.
abbrev pub find_column : String → List (ℕ × String) → Option ℕ
find_column f [] = none
find_column f ((c, g) ∷ mapping) = if g == f then some c else find_column f mapping

find_column-none :
    (f g : String) (mapping : List (ℕ × String))
    → contains (mapped_fields mapping) g ≡ false
    → (g == f) ≡ true
    → find_column f mapping ≡ none
find_column-none f g [] h e = refl
find_column-none f g ((c, k) ∷ mapping) h e = ground (
  arith,
  string_eq.test_iff g f,
  string_eq.test_iff k f,
  string_eq.test_iff k g,
  find_column-none f g mapping,
)

lookup-by_field :
    (f : String) (mapping : List (ℕ × String)) (d : Dict ℕ)
    → Distinct (mapped_fields mapping)
    → lookup f (by_field mapping d) ≡ first_some (find_column f mapping) (lookup f d)
unfolding by_field
lookup-by_field f [] d h = refl
lookup-by_field f ((c, g) ∷ mapping) d h = ground (
  arith,
  lookup-by_field f mapping (put g c d) h.1,
  lookup-put f g c d,
  find_column-none f g mapping h.0,
)

module _ (row : List Cell) where
  abbrev cell_or : Option ℕ → String → String
  cell_or none old = old
  cell_or (some c) old = if ltb c (length row) then clean_at row c else old

  attr-attributes_of :
      (f : String) (mapping : List (ℕ × String)) (d : Dict String)
      → Distinct (mapped_fields mapping)
      → attr f (attributes_of row mapping d) ≡ cell_or (find_column f mapping) (attr f d)
  unfolding attributes_of
  attr-attributes_of f [] d h = refl
  attr-attributes_of f ((c, g) ∷ mapping) d h =
      let next = if ltb c (length row) then put g (clean_at row c) d else d in
      attr-attributes_of f mapping next h.1
      ∙ ground (arith, lookup-put f g (clean_at row c) d, find_column-none f g mapping h.0)

get_elem?_past {ℓ} :
    {A : Type ℓ} (xs : List A) (i : ℕ) → ltb i (length xs) ≡ false → get_elem? xs i ≡ none
get_elem?_past [] i h = refl
get_elem?_past (x ∷ xs) zero h = absurd (ground arith)
get_elem?_past (x ∷ xs) (suc i) h = get_elem?_past xs i (ground arith)

clean_at_past : (row : List Cell) (c : ℕ) → ltb c (length row) ≡ false → clean_at row c ≡ ""
unfolding clean_at
clean_at_past row c h = rw (get_elem?_past row c h)

cell_or-text_at : (row : List Cell) (found : Option ℕ) → cell_or row found "" ≡ text_at row found
unfolding text_at
cell_or-text_at row none = refl
cell_or-text_at row (some c) = ground (arith, clean_at_past row c)

-- An item's attribute is the text of its row in the field's column.
pub attributes-text_at :
    (table : Table) (schema : ScheduleSchema) (row : List Cell) (f : String)
    → attr f (attributes_of row (resolve_columns table schema).mapping [])
      ≡ text_at row (find_column f (resolve_columns table schema).mapping)
attributes-text_at table schema row f =
    let mapping = (resolve_columns table schema).mapping in
    attr-attributes_of row f mapping [] (resolve_columns-IsResolved table schema).fields_distinct
    ∙ cell_or-text_at row (find_column f mapping)

-- An item's attribute is what the entry's `get` reads, for every field and every table.
pub attributes-get :
    (table : Table) (schema : ScheduleSchema) (row : List Cell) (f : String)
    → attr f (attributes_of row (resolve_columns table schema).mapping [])
      ≡ get row (resolve_columns table schema) f
unfolding get column_of
attributes-get table schema row f =
    let mapping = (resolve_columns table schema).mapping in
    let distinct = (resolve_columns-IsResolved table schema).fields_distinct in
    let columns : lookup f (by_field mapping []) ≡ find_column f mapping =
      ground (arith, lookup-by_field f mapping [] distinct) in
    rw columns (attributes-text_at table schema row f)

-- The texts of a door in the order of the schema's fields, less the rating, which is a number, and
-- the location, which entries do not have.
abbrev pub door_fields : List String
door_fields =
    "width" ∷ "height" ∷ "door_elevation_type" ∷ "door_material" ∷ "door_finish"
    ∷ "frame_elevation_type" ∷ "frame_material" ∷ "frame_finish" ∷ "hardware_set" ∷ "glass_film"
    ∷ "glass_type" ∷ "special_notes" ∷ []

pub item_texts : {F : Type 0} → ScheduleItem F → List String
item_texts it = it.mark ∷ map (λ f. attr f it.attributes) door_fields

pub entry_texts : DoorEntry → List String
entry_texts d =
    d.door_mark
    ∷ d.width
    ∷ d.height
    ∷ d.door_elevation_type
    ∷ d.door_material
    ∷ d.door_finish
    ∷ or_empty d.frame_elevation_type
    ∷ d.frame_material
    ∷ d.frame_finish
    ∷ d.hardware_set
    ∷ or_empty d.glass_film
    ∷ or_empty d.glass_type
    ∷ or_empty d.special_notes
    ∷ []

map-map-eq {ℓ κ μ} :
    {A : Type ℓ} {B : Type κ} {B' : Type κ} {C : Type μ} (f : B → C) (g : A → B) (f' : B' → C)
    (g' : A → B') (xs : List A)
    → ((x : A) → f (g x) ≡ f' (g' x))
    → map f (map g xs) ≡ map f' (map g' xs)
map-map-eq f g f' g' [] h = refl
map-map-eq f g f' g' (x ∷ xs) h = λ i. h x i ∷ map-map-eq f g f' g' xs h i

or_empty-none_if_empty : (s : String) → or_empty (none_if_empty s) ≡ s
or_empty-none_if_empty s = ground (arith, string_eq.test_iff s "")

module _ {F : Type 0} (parse_float : String → F) (one : F) where
  item_texts-build_item :
      (table : Table) (source : Dict String) (row : List Cell)
      → item_texts
          (build_item parse_float one row (resolve_columns table door_schema) door_schema source)
        ≡ entry_texts (build_entry (resolve_columns table door_schema) row)
  unfolding item_texts entry_texts build_item build_entry key_field
  item_texts-build_item table source row =
      let text = attributes-get table door_schema row in
      let optional = λ (f : String).
        text f ∙ sym (or_empty-none_if_empty (get row (resolve_columns table door_schema) f)) in
      λ i.
        text "door_mark" i
        ∷ text "width" i
        ∷ text "height" i
        ∷ text "door_elevation_type" i
        ∷ text "door_material" i
        ∷ text "door_finish" i
        ∷ optional "frame_elevation_type" i
        ∷ text "frame_material" i
        ∷ text "frame_finish" i
        ∷ text "hardware_set" i
        ∷ optional "glass_film" i
        ∷ optional "glass_type" i
        ∷ optional "special_notes" i
        ∷ []

  -- The generic parser reads a door table row for row as the door parser does: the same rows, in
  -- the same order, each with the same mark and the same text in every field of the schema but the
  -- fire rating and the location, where an absent text of the entry stands for the empty one.
  pub parse_schedule-door_entries :
      (table : Table) (source : Dict String)
      → map item_texts (parse_schedule parse_float one table door_schema source)
        ≡ map entry_texts (door_entries table)
  unfolding parse_schedule door_entries select_rows key_field
  parse_schedule-door_entries table source =
      map-map-eq item_texts
        (λ row.
          build_item parse_float one row (resolve_columns table door_schema) door_schema
            (source_or parse_float one door_schema source))
        entry_texts (build_entry (resolve_columns table door_schema))
        (select_door_rows_auto table (key_column "door_mark" (resolve_columns table door_schema)))
        (item_texts-build_item table (source_or parse_float one door_schema source))
