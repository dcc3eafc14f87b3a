-- ===== src/Harness/Stream/Ids.antt =====
-- The ids of a stream's calls are the keys of its entries, each once.
use construction_harness.Prelude.{
  Bool-cases, nonempty, contains, contains-append, nat_eq, string_eq, pair_eq, suc, String, ◌≡◌,
  inl, inr, Option, none, some, List, [], ◌∷◌, arith, Distinct, Distinct-append_one,
}
use construction_harness.Harness.Messages.{lookup, put, lookup-put}
use construction_harness.Harness.Stream.{
  StreamEvent, text_delta, reasoning_delta, tool_call_start, tool_call_delta, completed, Entry,
  Stream, has_key, orphan_id, rename, append_args, ids_with, open_call, on_start, add_fragment,
  add_orphan, on_fragment, on_event, on_events,
}

-- The ids are those of the entries, each once.
pub record IsConsistent (ids : List String) (entries : List (String × Entry)) : Type 0 where
  pub ids_distinct : Distinct ids
  pub keyed : (i : String) → contains ids i ≡ has_key (lookup i entries)

module _ {V : Type 0} where
  -- Writing an entry, new or not.
  touched :
      (st : Stream V) (id : String) (entry : Entry)
      → IsConsistent st.tool_ids_in_order st.tool_entries
      → IsConsistent (ids_with id st) (put id entry st.tool_entries)
  touched st id entry c = elim (Bool-cases (has_key (lookup id st.tool_entries))) [
    | inl old ↦ rw old (record {
      ids_distinct = c.ids_distinct;
      keyed = λ i.
          ground (arith, c.keyed i, lookup-put i id entry st.tool_entries, string_eq.test_iff id i);
    })
    | inr new ↦ rw new (record {
      ids_distinct =
          Distinct-append_one st.tool_ids_in_order id c.ids_distinct (ground (arith, c.keyed id));
      keyed = λ i. ground (
        arith,
        c.keyed i,
        contains-append st.tool_ids_in_order (id ∷ []) i,
        lookup-put i id entry st.tool_entries,
      );
    })
  ]

  abbrev pub Consistent : Stream V → Type 0
  Consistent st = IsConsistent st.tool_ids_in_order st.tool_entries

  pub open_call-Consistent :
      (id name : String) (st : Stream V) → Consistent st → Consistent (open_call id name st)
  unfolding open_call
  open_call-Consistent id name st c = touched st id (rename name (lookup id st.tool_entries)) c

  pub add_fragment-Consistent :
      (id fragment : String) (st : Stream V)
      → Consistent st
      → Consistent (add_fragment id fragment st)
  unfolding add_fragment
  add_fragment-Consistent id fragment st c =
      touched st id (append_args fragment (lookup id st.tool_entries)) c

  abbrev skip_orphan : Stream V → Stream V
  skip_orphan st = record st { orphan_counter = suc st.orphan_counter }

  add_orphan-Consistent :
      (fragment : String) (last : Option String) (st : Stream V)
      → Consistent st
      → Consistent (add_orphan fragment last st)
  unfolding add_orphan
  add_orphan-Consistent fragment (some id) st c = add_fragment-Consistent id fragment st c
  add_orphan-Consistent fragment none st c =
      add_fragment-Consistent (orphan_id st.orphan_counter) fragment (skip_orphan st) c

  on_event-Consistent :
      (event : StreamEvent V) (st : Stream V) → Consistent st → Consistent (on_event event st)
  unfolding on_event on_start on_fragment
  on_event-Consistent (text_delta t) st c = c
  on_event-Consistent (reasoning_delta t) st c = c
  on_event-Consistent (completed usage) st c = c
  on_event-Consistent (tool_call_start id name) st c = elim (Bool-cases (nonempty id)) [
    | inl named ↦ rw named (open_call-Consistent id name st c)
    | inr blank ↦
        rw blank (open_call-Consistent (orphan_id st.orphan_counter) name (skip_orphan st) c)
  ]
  on_event-Consistent (tool_call_delta id fragment) st c = elim (Bool-cases (nonempty id)) [
    | inl named ↦ rw named (add_fragment-Consistent id fragment st c)
    | inr blank ↦ rw blank (add_orphan-Consistent fragment st.last_opened_id st c)
  ]

  pub on_events-Consistent :
      (events : List (StreamEvent V)) (st : Stream V)
      → Consistent st
      → Consistent (on_events events st)
  unfolding on_events
  on_events-Consistent [] st c = c
  on_events-Consistent (event ∷ events) st c =
      on_events-Consistent events (on_event event st) (on_event-Consistent event st c)
