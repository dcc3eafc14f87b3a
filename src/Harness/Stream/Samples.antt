-- ===== src/Harness/Stream/Samples.antt =====
-- The accumulation of a stream with two interleaved calls.
use construction_harness.Prelude.{
  if◌then◌else◌, ◌==◌, nat_eq, string_eq, pair_eq, String, ◌≡◌, refl, Option, none, some, List, [],
  ◌∷◌, map, Distinct,
}
use construction_harness.Harness.Messages.{Dict, ProviderResponse}
use construction_harness.Harness.Stream.{
  StreamEvent, text_delta, tool_call_start, tool_call_delta, accumulate,
}
use construction_harness.Harness.Stream.Calls.{new_ids, own_call, accumulate-own_call}

abbrev events : List (StreamEvent String)
events =
    text_delta "hm"
    ∷ tool_call_start "a" "read"
    ∷ tool_call_start "b" "list"
    ∷ tool_call_delta "a" "{\"p\":"
    ∷ tool_call_delta "b" "nonsense"
    ∷ tool_call_delta "a" "1}"
    ∷ []

abbrev loads : String → Option (Dict String)
loads s = if s == "{\"p\":1}" then some (("p", "1") ∷ []) else none

accumulate_test :
    accumulate loads (λ s. s) events
    ≡ some (record {
      text = none;
      tool_calls =
          record { id = "a"; name = "read"; args = ("p", "1") ∷ [] }
          ∷ record { id = "b"; name = "list"; args = ("__malformed_json__", "nonsense") ∷ [] }
          ∷ [];
      reasoning_text = none;
      reasoning_metadata = [];
      input_tokens = 0;
      output_tokens = 0;
      reasoning_tokens = 0;
      cache_read_input_tokens = 0;
      cache_creation_input_tokens = 0;
    })
unfolding accumulate
accumulate_test = refl

accumulate-own_call_example :
    (response : ProviderResponse String) × (accumulate loads (λ s. s) events ≡ some response)
    × (response.tool_calls ≡ map (own_call loads (λ s. s) events) (new_ids [] events))
    × Distinct (new_ids [] events)
accumulate-own_call_example =
    accumulate-own_call loads (λ s. s) events (tt, (refl, (refl, (refl, (refl, (refl, tt))))))
