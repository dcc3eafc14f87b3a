-- ===== src/Harness/Messages.antt =====
-- src/harness/messages.py, and the response type of src/harness/providers/base.py. A JSON value is a
-- type `V` of the caller's, and a Python dict a list of its entries. The uuid and the creation time
-- of a message are left out: nothing that is modelled reads them.
use construction_harness.Prelude.{
  if◌then◌else◌, nonempty, ◌==◌, nat_eq, string_eq, pair_eq, ℕ, String, ◌≡◌, refl, Bool, true,
  false, not, ◌||◌, Option, none, some, List, [], ◌∷◌, ◌++◌, map, arith,
}

abbrev pub Dict : Type 0 → Type 0
Dict V = List (String × V)

-- d.get(k)
abbrev pub lookup {ℓ} : {V : Type ℓ} → String → List (String × V) → Option V
lookup k [] = none
lookup k ((j, v) ∷ d) = if j == k then some v else lookup k d

-- MALFORMED_ARGS_KEY
abbrev pub malformed_args_key : String
malformed_args_key = "__malformed_json__"

pub data Role : Type 0 where
  user assistant system : Role

pub data Block (V : Type 0) : Type 0 where
  text_block : String → Block V
  tool_call : (id name : String) → Dict V → Block V
  tool_result : (call_id content : String) → Bool → Block V
  reasoning_block : String → Dict V → Block V

pub record Message (V : Type 0) : Type 0 where
  pub role : Role
  pub blocks : List (Block V)

pub record Transcript (V : Type 0) : Type 0 where
  pub messages : List (Message V)
  pub system : Option String

-- ToolCallRef
pub record ToolCallRef (V : Type 0) : Type 0 where
  pub id : String
  pub name : String
  pub args : Dict V

-- ToolResult
pub record ToolResult : Type 0 where
  pub call_id : String
  pub content : String
  pub is_error : Bool

pub record ProviderResponse (V : Type 0) : Type 0 where
  pub text : Option String
  pub tool_calls : List (ToolCallRef V)
  pub reasoning_text : Option String
  pub reasoning_metadata : Dict V
  pub input_tokens : ℕ
  pub output_tokens : ℕ
  pub reasoning_tokens : ℕ
  pub cache_read_input_tokens : ℕ
  pub cache_creation_input_tokens : ℕ

-- s or ""
abbrev pub text_or_empty : Option String → String
text_or_empty none = ""
text_or_empty (some s) = s

abbrev pub is_nil {ℓ} : {A : Type ℓ} → List A → Bool
is_nil [] = true
is_nil (x ∷ xs) = false

module _ {V : Type 0} where
  -- Message.user_text
  unfoldable pub user_text : String → Message V
  user_text text = record { role = user; blocks = text_block text ∷ [] }

  -- Message.assistant_text, with no reasoning
  unfoldable pub assistant_text : String → Message V
  assistant_text text = record { role = assistant; blocks = text_block text ∷ [] }

  -- Message.tool_result
  unfoldable pub tool_result_message : ToolResult → Message V
  tool_result_message r = record {
    role = user;
    blocks = tool_result r.call_id r.content r.is_error ∷ [];
  }

  -- Transcript.append
  unfoldable pub append_message : Message V → Transcript V → Transcript V
  append_message m t = record t { messages = t.messages ++ m ∷ [] }

  -- ProviderResponse.is_final: self.text is not None and not self.tool_calls
  unfoldable pub is_final : ProviderResponse V → Bool
  is_final response = elim response.text [ none ↦ false | some text ↦ is_nil response.tool_calls ]

  -- meta.update(metadata)
  abbrev pub put : String → V → Dict V → Dict V
  put k v [] = (k, v) ∷ []
  put k v ((j, w) ∷ d) = if j == k then (j, v) ∷ d else (j, w) ∷ put k v d

  -- A key is looked up after it is put, or another one.
  pub lookup-put :
      (j k : String) (v : V) (d : Dict V)
      → lookup j (put k v d) ≡ (if k == j then some v else lookup j d)
  lookup-put j k v [] = refl
  lookup-put j k v ((i, w) ∷ d) = ground (
    arith,
    string_eq.test_iff k j,
    string_eq.test_iff i k,
    string_eq.test_iff i j,
    lookup-put j k v d,
  )

  abbrev pub update_dict : Dict V → Dict V → Dict V
  update_dict d [] = d
  update_dict d ((k, v) ∷ more) = update_dict (put k v d) more

  abbrev pub call_block : ToolCallRef V → Block V
  call_block call = tool_call call.id call.name call.args

  -- The reasoning block of a response that has a reasoning text or reasoning metadata. `number`
  -- makes a JSON value of an int.
  unfoldable pub reasoning_blocks : (ℕ → V) → ProviderResponse V → List (Block V)
  reasoning_blocks number response =
      if nonempty (text_or_empty response.reasoning_text)
        || not (is_nil response.reasoning_metadata)
      then reasoning_block (text_or_empty response.reasoning_text) (
          update_dict (("provider_tokens", number response.reasoning_tokens) ∷ [])
            response.reasoning_metadata)
        ∷ []
      else []

  -- Message.from_assistant_response
  unfoldable pub from_assistant_response : (ℕ → V) → ProviderResponse V → Message V
  unfolding reasoning_blocks
  from_assistant_response number response = record {
    role = assistant;
    blocks =
        reasoning_blocks number response
        ++ (if is_nil response.tool_calls
            then text_block (text_or_empty response.text) ∷ []
            else map call_block response.tool_calls);
  }
