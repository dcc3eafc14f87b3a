-- ===== src/Harness/Stream/Calls.antt =====
-- The tool calls that the accumulation of a stream gives.
use Prim.Native.String.{◌++◌ as ◌+++◌}
use text.Mathlib.TextLemmas.{
  append-nil as text_append-nil, nil-append as text_nil-append, append_assoc as text_append_assoc,
}
use construction_harness.Prelude.{
  if◌then◌else◌, Bool-cases, Option-cases, All, concat, nonempty, ◌==◌, contains, nat_eq, string_eq,
  pair_eq, String, ◌≡◌, refl, sym, ap, ◌∙◌, inl, inr, true, Option, none, some, List, [], ◌∷◌, ◌++◌,
  map, append-nil, append_assoc, arith, subst, Distinct, contains_self,
}
use construction_harness.Harness.Messages.{Dict, lookup, lookup-put, ToolCallRef, ProviderResponse}
use construction_harness.Harness.Stream.{
  StreamEvent, text_delta, reasoning_delta, tool_call_start, tool_call_delta, completed, Entry,
  Stream, has_key, rename, append_args, ids_with, new_stream, open_call, on_start, add_fragment,
  on_fragment, on_event, on_events, call_from, calls_of, response_of, finish, accumulate,
}
use construction_harness.Harness.Stream.Ids.{
  Consistent, open_call-Consistent, add_fragment-Consistent, on_events-Consistent,
}

abbrev pub entry_or_empty : Option Entry → Entry
entry_or_empty none = record { name = ""; args_buffer = "" }
entry_or_empty (some entry) = entry

append_args_lem :
    (fragment : String) (old : Option Entry)
    → append_args fragment old ≡ record {
      name = (entry_or_empty old).name;
      args_buffer = concat ((entry_or_empty old).args_buffer ∷ fragment ∷ []);
    }
append_args_lem fragment none =
    ap (λ (b : String). record { name = ""; args_buffer = b })
      (sym (text_append-nil fragment) ∙ sym (text_nil-append (fragment +++ "")))
append_args_lem fragment (some entry) = refl

concat_pair : (a b c : String) → concat (a ∷ b ∷ []) +++ c ≡ a +++ (b +++ c)
concat_pair a b c = rw text_append-nil (text_append_assoc a b c)

concat_step :
    (buffer fragment : String) (rest : List String)
    → concat (concat (buffer ∷ fragment ∷ []) ∷ rest) ≡ concat (buffer ∷ fragment ∷ rest)
concat_step buffer fragment rest = concat_pair buffer fragment (concat rest)

module _ {V : Type 0} where
  -- An event that says which call it belongs to, if it belongs to one.
  abbrev pub IsNamed : StreamEvent V → Type 0
  IsNamed (text_delta t) = Unit
  IsNamed (reasoning_delta t) = Unit
  IsNamed (completed usage) = Unit
  IsNamed (tool_call_start id name) = nonempty id ≡ true
  IsNamed (tool_call_delta id fragment) = nonempty id ≡ true

  -- The ids that the events mention and that are not known, in the order of their first mention.
  abbrev pub new_ids : List String → List (StreamEvent V) → List String
  new_ids known [] = []
  new_ids known (text_delta t ∷ events) = new_ids known events
  new_ids known (reasoning_delta t ∷ events) = new_ids known events
  new_ids known (completed usage ∷ events) = new_ids known events
  new_ids known (tool_call_start id name ∷ events) =
      let rest = new_ids (if contains known id then known else known ++ id ∷ []) events in
      if contains known id then rest else id ∷ rest
  new_ids known (tool_call_delta id fragment ∷ events) =
      let rest = new_ids (if contains known id then known else known ++ id ∷ []) events in
      if contains known id then rest else id ∷ rest

  -- The name that the last start of a call gave it.
  abbrev pub last_name : String → List (StreamEvent V) → String → String
  last_name i [] name = name
  last_name i (tool_call_start id new_name ∷ events) name =
      last_name i events (if id == i then new_name else name)
  last_name i (tool_call_delta id fragment ∷ events) name = last_name i events name
  last_name i (text_delta t ∷ events) name = last_name i events name
  last_name i (reasoning_delta t ∷ events) name = last_name i events name
  last_name i (completed usage ∷ events) name = last_name i events name

  -- The fragments of a call, in their order.
  abbrev pub fragments_of : String → List (StreamEvent V) → List String
  fragments_of i [] = []
  fragments_of i (tool_call_delta id fragment ∷ events) =
      let rest = fragments_of i events in if id == i then fragment ∷ rest else rest
  fragments_of i (tool_call_start id name ∷ events) = fragments_of i events
  fragments_of i (text_delta t ∷ events) = fragments_of i events
  fragments_of i (reasoning_delta t ∷ events) = fragments_of i events
  fragments_of i (completed usage ∷ events) = fragments_of i events

  -- What the events make of an entry.
  abbrev pub own_entry : String → List (StreamEvent V) → Entry → Entry
  own_entry i events old = record {
    name = last_name i events old.name;
    args_buffer = concat (old.args_buffer ∷ fragments_of i events);
  }

  abbrev entry_of : String → Stream V → Entry
  entry_of i st = entry_or_empty (lookup i st.tool_entries)

  entry_of-open_call :
      (i id name : String) (st : Stream V)
      → entry_of i (open_call id name st) ≡ (
          if id == i
          then record { name = name; args_buffer = (entry_of i st).args_buffer }
          else entry_of i st)
  unfolding open_call
  entry_of-open_call i id name st = ground (
    arith,
    lookup-put i id (rename name (lookup id st.tool_entries)) st.tool_entries,
    string_eq.test_iff id i,
  )

  entry_of-add_fragment :
      (i id fragment : String) (st : Stream V)
      → entry_of i (add_fragment id fragment st) ≡ (
          if id == i
          then record {
            name = (entry_of i st).name;
            args_buffer = concat ((entry_of i st).args_buffer ∷ fragment ∷ []);
          }
          else entry_of i st)
  unfolding add_fragment
  entry_of-add_fragment i id fragment st =
      let old = lookup id st.tool_entries in
      elim (Bool-cases (id == i)) [
        | inl own ↦
            rw (lookup-put i id (append_args fragment old) st.tool_entries, own)
              (append_args_lem fragment old
                ∙ ap
                    (λ j. record {
                      name = (entry_of j st).name;
                      args_buffer = concat ((entry_of j st).args_buffer ∷ fragment ∷ []);
                    })
                    ((string_eq.test_iff id i).0 own))
        | inr other ↦ rw (lookup-put i id (append_args fragment old) st.tool_entries, other) refl
      ]

  own_entry-open_call :
      (i id name : String) (events : List (StreamEvent V)) (st : Stream V)
      → own_entry i events (entry_of i (open_call id name st))
        ≡ own_entry i (tool_call_start id name ∷ events) (entry_of i st)
  own_entry-open_call i id name events st =
      ap (own_entry i events) (entry_of-open_call i id name st) ∙ ground arith

  own_entry-add_fragment :
      (i id fragment : String) (events : List (StreamEvent V)) (st : Stream V)
      → own_entry i events (entry_of i (add_fragment id fragment st))
        ≡ own_entry i (tool_call_delta id fragment ∷ events) (entry_of i st)
  own_entry-add_fragment i id fragment events st =
      ap (own_entry i events) (entry_of-add_fragment i id fragment st)
      ∙ ground (arith, concat_step (entry_of i st).args_buffer fragment (fragments_of i events))

  on_start-named :
      (id name : String) (st : Stream V)
      → nonempty id ≡ true
      → on_start id name st ≡ open_call id name st
  unfolding on_start
  on_start-named id name st h = rw h

  on_fragment-named :
      (id fragment : String) (st : Stream V)
      → nonempty id ≡ true
      → on_fragment id fragment st ≡ add_fragment id fragment st
  unfolding on_fragment
  on_fragment-named id fragment st h = rw h

  -- An entry after some events is made by the events that name it.
  entry_of-on_events :
      (i : String) (events : List (StreamEvent V)) (st : Stream V)
      → All IsNamed events
      → entry_of i (on_events events st) ≡ own_entry i events (entry_of i st)
  unfolding on_events on_event
  entry_of-on_events i [] st h = ground (arith, text_append-nil (entry_of i st).args_buffer)
  entry_of-on_events i (text_delta t ∷ events) st h =
      entry_of-on_events i events (on_event (text_delta t) st) h.1
  entry_of-on_events i (reasoning_delta t ∷ events) st h =
      entry_of-on_events i events (on_event (reasoning_delta t) st) h.1
  entry_of-on_events i (completed usage ∷ events) st h =
      entry_of-on_events i events (on_event (completed usage) st) h.1
  entry_of-on_events i (tool_call_start id name ∷ events) st h =
      ap (λ (s : Stream V). entry_of i (on_events events s)) (on_start-named id name st h.0)
      ∙ (entry_of-on_events i events (open_call id name st) h.1
          ∙ own_entry-open_call i id name events st)
  entry_of-on_events i (tool_call_delta id fragment ∷ events) st h =
      ap (λ (s : Stream V). entry_of i (on_events events s)) (on_fragment-named id fragment st h.0)
      ∙ (entry_of-on_events i events (add_fragment id fragment st) h.1
          ∙ own_entry-add_fragment i id fragment events st)

  -- The id of one event, then those of the events after it.
  ids_step :
      (id : String) (events : List (StreamEvent V)) (next st : Stream V)
      → next.tool_ids_in_order ≡ ids_with id st
      → Consistent st
      → next.tool_ids_in_order ++ new_ids next.tool_ids_in_order events
        ≡ st.tool_ids_in_order
          ++ (let rest =
                new_ids
                  (if contains st.tool_ids_in_order id
                    then st.tool_ids_in_order
                    else st.tool_ids_in_order ++ id ∷ [])
                  events in
              if contains st.tool_ids_in_order id then rest else id ∷ rest)
  ids_step id events next st e c = elim (Bool-cases (contains st.tool_ids_in_order id)) [
    | inl known ↦ rw (e, sym (c.keyed id), known) refl
    | inr new ↦
        rw (e, sym (c.keyed id), new)
          (append_assoc st.tool_ids_in_order (id ∷ [])
            (new_ids (st.tool_ids_in_order ++ id ∷ []) events))
  ]

  ids-on_events :
      (events : List (StreamEvent V)) (st : Stream V)
      → All IsNamed events
      → Consistent st
      → (on_events events st).tool_ids_in_order
        ≡ st.tool_ids_in_order ++ new_ids st.tool_ids_in_order events
  unfolding on_events on_event
  ids-on_events [] st h c = sym (append-nil st.tool_ids_in_order)
  ids-on_events (text_delta t ∷ events) st h c =
      ids-on_events events (on_event (text_delta t) st) h.1 c
  ids-on_events (reasoning_delta t ∷ events) st h c =
      ids-on_events events (on_event (reasoning_delta t) st) h.1 c
  ids-on_events (completed usage ∷ events) st h c =
      ids-on_events events (on_event (completed usage) st) h.1 c
  ids-on_events (tool_call_start id name ∷ events) st h c =
      ap (λ (s : Stream V). (on_events events s).tool_ids_in_order) (on_start-named id name st h.0)
      ∙ (ids-on_events events (open_call id name st) h.1 (open_call-Consistent id name st c)
          ∙ ids_step id events (open_call id name st) st refl c)
  ids-on_events (tool_call_delta id fragment ∷ events) st h c =
      ap (λ (s : Stream V). (on_events events s).tool_ids_in_order)
        (on_fragment-named id fragment st h.0)
      ∙ (ids-on_events events (add_fragment id fragment st) h.1
            (add_fragment-Consistent id fragment st c)
          ∙ ids_step id events (add_fragment id fragment st) st refl c)

All-each {κ} :
    (P : String → Type κ) (xs : List String)
    → ((x : String) → contains xs x ≡ true → P x)
    → All P xs
All-each P [] h = tt
All-each P (x ∷ xs) h = (h x (contains_self x xs), All-each P xs (λ y k. h y (ground (arith, k))))

module _ {V : Type 0} (loads : String → Option (Dict V)) (text_value : String → V) where
  calls_of_found :
      (entries : List (String × Entry)) (ids : List String)
      → All (λ i. has_key (lookup i entries) ≡ true) ids
      → calls_of loads text_value entries ids
        ≡ some (map (λ i. call_from loads text_value i (entry_or_empty (lookup i entries))) ids)
  unfolding calls_of
  calls_of_found entries [] h = refl
  calls_of_found entries (i ∷ ids) h = elim (Option-cases (lookup i entries)) [
    | inl missing ↦ absurd (ground arith)
    | inr (entry, found) ↦ rw (calls_of_found entries ids h.1, found) refl
  ]

  map_same :
      (f g : String → ToolCallRef V) (ids : List String)
      → ((i : String) → f i ≡ g i)
      → map f ids ≡ map g ids
  map_same f g [] h = refl
  map_same f g (i ∷ ids) h = λ j. h i j ∷ map_same f g ids h j

  -- What the accumulation gives for events that name their calls.
  abbrev pub own_call : List (StreamEvent V) → String → ToolCallRef V
  own_call events i = call_from loads text_value i (own_entry i events (entry_or_empty none))

  -- If every start and every fragment says which call it belongs to, the stream is accumulated into
  -- a response, however the calls' events are interleaved: it has one call for each id, in the
  -- order in which the ids are first mentioned, with the name that the last start of the id gave
  -- and the arguments that the id's own fragments spell, joined in their order.
  pub accumulate-own_call :
      (events : List (StreamEvent V))
      → All IsNamed events
      → (response : ProviderResponse V) × (accumulate loads text_value events ≡ some response)
        × (response.tool_calls ≡ map (own_call events) (new_ids [] events))
        × Distinct (new_ids [] events)
  unfolding accumulate response_of
  accumulate-own_call events h =
      let st = on_events events new_stream in
      let empty : Consistent {V = V} new_stream = record { ids_distinct = tt; keyed = λ i. refl } in
      let c = on_events-Consistent events new_stream empty in
      let ids : st.tool_ids_in_order ≡ new_ids [] events =
        ids-on_events events new_stream h empty in
      let keyed =
        All-each (λ i. has_key (lookup i st.tool_entries) ≡ true) st.tool_ids_in_order
          (λ i k. sym (c.keyed i) ∙ k) in
      let found = calls_of_found st.tool_entries st.tool_ids_in_order keyed in
      let own =
        map_same (λ i. call_from loads text_value i (entry_or_empty (lookup i st.tool_entries)))
          (own_call events) st.tool_ids_in_order
          (λ i. ap (call_from loads text_value i) (entry_of-on_events i events new_stream h)) in
      (
        response_of loads text_value st (map (own_call events) (new_ids [] events)),
        ap (finish loads text_value st) (found ∙ ap (λ calls. some calls) own)
            ∙ ap (λ is. some (response_of loads text_value st (map (own_call events) is))) ids,
        refl,
        subst (λ is. Distinct is) ids c.ids_distinct,
      )
