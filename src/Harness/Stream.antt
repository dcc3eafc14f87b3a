-- ===== src/Harness/Stream.antt =====
-- A provider's stream of events and its accumulation into one response (src/harness/providers:
-- events.py, and `accumulate` of base.py), and the retries around a call of the provider (retry.py).
-- `json.loads` is a parameter, on the texts whose value is an object.
pub mod Ids
pub mod Calls
pub mod Samples
use construction_harness.Prelude.{
  if◌then◌else◌, concat, decimal, nonempty, nat_eq, string_eq, pair_eq, ℕ, suc, String, Bool, true,
  false, Option, none, some, List, [], ◌∷◌, ◌++◌,
}
use construction_harness.Harness.Messages.{
  Dict, lookup, put, malformed_args_key, ToolCallRef, ProviderResponse,
}

pub record Usage (V : Type 0) : Type 0 where
  pub input_tokens : ℕ
  pub output_tokens : ℕ
  pub reasoning_tokens : ℕ
  pub cache_read_input_tokens : ℕ
  pub cache_creation_input_tokens : ℕ
  pub reasoning_metadata : Dict V

pub data StreamEvent (V : Type 0) : Type 0 where
  text_delta : String → StreamEvent V
  reasoning_delta : String → StreamEvent V
  tool_call_start : (id name : String) → StreamEvent V
  tool_call_delta : (id args_fragment : String) → StreamEvent V
  completed : Usage V → StreamEvent V

-- {"name": ..., "args_buffer": ...}
pub record Entry : Type 0 where
  pub name : String
  pub args_buffer : String

-- The variables of the loop.
pub record Stream (V : Type 0) : Type 0 where
  pub text_parts : List String
  pub reasoning_parts : List String
  pub tool_entries : List (String × Entry)
  pub tool_ids_in_order : List String
  pub last_opened_id : Option String
  pub orphan_counter : ℕ
  pub usage : Usage V

-- f"_orphan_{n}"
abbrev pub orphan_id : ℕ → String
unfolding decimal
orphan_id n = concat ("_orphan_" ∷ decimal n ∷ [])

abbrev pub has_key {ℓ} : {A : Type ℓ} → Option A → Bool
has_key none = false
has_key (some a) = true

-- tool_entries[id]["name"] = name, for an id that is there or is opened by it
abbrev pub rename : String → Option Entry → Entry
rename name none = record { name = name; args_buffer = "" }
rename name (some entry) = record entry { name = name }

-- tool_entries[id]["args_buffer"] += fragment
abbrev pub append_args : String → Option Entry → Entry
append_args fragment none = record { name = ""; args_buffer = fragment }
append_args fragment (some entry) = record entry {
  args_buffer = concat (entry.args_buffer ∷ fragment ∷ []);
}

module _ {V : Type 0} where
  abbrev pub no_usage : Usage V
  no_usage = record {
    input_tokens = 0;
    output_tokens = 0;
    reasoning_tokens = 0;
    cache_read_input_tokens = 0;
    cache_creation_input_tokens = 0;
    reasoning_metadata = [];
  }

  abbrev pub new_stream : Stream V
  new_stream = record {
    text_parts = [];
    reasoning_parts = [];
    tool_entries = [];
    tool_ids_in_order = [];
    last_opened_id = none;
    orphan_counter = 0;
    usage = no_usage;
  }

  -- tool_ids_in_order.append(id), for an id that is new
  abbrev pub ids_with : String → Stream V → List String
  ids_with id st =
      if has_key (lookup id st.tool_entries)
      then st.tool_ids_in_order
      else st.tool_ids_in_order ++ id ∷ []

  -- The case of a start, for the id that it is given.
  unfoldable pub open_call : String → String → Stream V → Stream V
  open_call id name st = record st {
    tool_entries = put id (rename name (lookup id st.tool_entries)) st.tool_entries;
    tool_ids_in_order = ids_with id st;
    last_opened_id = some id;
  }

  unfoldable pub on_start : String → String → Stream V → Stream V
  unfolding open_call orphan_id
  on_start id name st =
      if nonempty id
      then open_call id name st
      else open_call (orphan_id st.orphan_counter) name
          (record st { orphan_counter = suc st.orphan_counter })

  -- The case of a fragment, for the id of its target; only a target that is new is the last opened.
  unfoldable pub add_fragment : String → String → Stream V → Stream V
  add_fragment id fragment st = record st {
    tool_entries = put id (append_args fragment (lookup id st.tool_entries)) st.tool_entries;
    tool_ids_in_order = ids_with id st;
    last_opened_id = if has_key (lookup id st.tool_entries) then st.last_opened_id else some id;
  }

  unfoldable pub add_orphan : String → Option String → Stream V → Stream V
  unfolding add_fragment orphan_id
  add_orphan fragment (some id) st = add_fragment id fragment st
  add_orphan fragment none st =
      add_fragment (orphan_id st.orphan_counter) fragment
        (record st { orphan_counter = suc st.orphan_counter })

  unfoldable pub on_fragment : String → String → Stream V → Stream V
  unfolding add_fragment add_orphan
  on_fragment id fragment st =
      if nonempty id then add_fragment id fragment st else add_orphan fragment st.last_opened_id st

  unfoldable pub on_event : StreamEvent V → Stream V → Stream V
  unfolding on_start on_fragment
  on_event (text_delta t) st = record st { text_parts = st.text_parts ++ t ∷ [] }
  on_event (reasoning_delta t) st = record st { reasoning_parts = st.reasoning_parts ++ t ∷ [] }
  on_event (tool_call_start id name) st = on_start id name st
  on_event (tool_call_delta id fragment) st = on_fragment id fragment st
  on_event (completed usage) st = record st { usage = usage }

  unfoldable pub on_events : List (StreamEvent V) → Stream V → Stream V
  unfolding on_event
  on_events [] st = st
  on_events (event ∷ events) st = on_events events (on_event event st)

-- "".join(parts) if parts else None
abbrev pub joined_parts : List String → Option String
joined_parts [] = none
joined_parts (p ∷ parts) = some (concat (p ∷ parts))

module _ {V : Type 0} (loads : String → Option (Dict V)) (text_value : String → V) where
  abbrev args_or_malformed : String → Option (Dict V) → Dict V
  args_or_malformed buffer none = (malformed_args_key, text_value buffer) ∷ []
  args_or_malformed buffer (some args) = args

  -- json.loads of the buffer, {} for an empty one, and the sentinel for malformed JSON
  unfoldable pub args_of : String → Dict V
  args_of buffer = if nonempty buffer then args_or_malformed buffer (loads buffer) else []

  unfoldable pub call_from : String → Entry → ToolCallRef V
  unfolding args_of
  call_from id entry = record { id = id; name = entry.name; args = args_of entry.args_buffer }

  abbrev pub add_call :
      Option Entry → String → Option (List (ToolCallRef V)) → Option (List (ToolCallRef V))
  unfolding call_from
  add_call none id calls = none
  add_call (some entry) id none = none
  add_call (some entry) id (some calls) = some (call_from id entry ∷ calls)

  -- for tid in tool_ids_in_order; `none` is the KeyError of an id that has no entry
  unfoldable pub calls_of : List (String × Entry) → List String → Option (List (ToolCallRef V))
  unfolding add_call
  calls_of entries [] = some []
  calls_of entries (id ∷ ids) = add_call (lookup id entries) id (calls_of entries ids)

  abbrev text_unless : List (ToolCallRef V) → List String → Option String
  text_unless [] text_parts = some (concat text_parts)
  text_unless (call ∷ calls) text_parts = none

  unfoldable pub response_of : Stream V → List (ToolCallRef V) → ProviderResponse V
  response_of st calls = record {
    text = text_unless calls st.text_parts;
    tool_calls = calls;
    reasoning_text = joined_parts st.reasoning_parts;
    reasoning_metadata = st.usage.reasoning_metadata;
    input_tokens = st.usage.input_tokens;
    output_tokens = st.usage.output_tokens;
    reasoning_tokens = st.usage.reasoning_tokens;
    cache_read_input_tokens = st.usage.cache_read_input_tokens;
    cache_creation_input_tokens = st.usage.cache_creation_input_tokens;
  }

  abbrev pub finish : Stream V → Option (List (ToolCallRef V)) → Option (ProviderResponse V)
  unfolding response_of
  finish st none = none
  finish st (some calls) = some (response_of st calls)

  unfoldable pub accumulate : List (StreamEvent V) → Option (ProviderResponse V)
  unfolding finish calls_of on_events
  accumulate events =
      let st = on_events events new_stream in
      finish st (calls_of st.tool_entries st.tool_ids_in_order)
