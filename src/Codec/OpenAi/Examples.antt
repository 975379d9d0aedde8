-- ===== src/Codec/OpenAi/Examples.antt =====
-- The theorems on the OpenAI format at concrete inputs, and runs of its encoder.
use ultiproxy.Base.{
  ◌≡◌, refl, ℕ, not, ◌==◌, Bool, true, false, Option, none, some, List, [], ◌∷◌, Text, bytes, pos,
  text_eq,
}
use ultiproxy.Base.Json.{Json, null, string, boolean}
use ultiproxy.Ir.{
  Block, text_block, reasoning_block, tool_call_block, ToolCallBlock, text_delta, message_stop,
}
use ultiproxy.Codec.OpenAi.Once.{IsOnce, run-IsOnce}
use ultiproxy.Codec.OpenAi.Stream.{Call, encode, finish, run, new_encoder}
use ultiproxy.Codec.OpenAi.Request.{ChatMessage, thought, reasoning_blocks}
use ultiproxy.Codec.OpenAi.Echo.{turn_blocks}
use ultiproxy.Codec.OpenAi.Merged.{returned, merged_blocks, echoed_turn}
use ultiproxy.Codec.OpenAi.Named.{last_called}
use ultiproxy.Codec.OpenAi.Options.{ChatRequest}

-- Two stops, two closes; the third write fails.
abbrev calls : List Call
calls =
    encode (text_delta (pos 0) (bytes "hi"))
    ∷ encode (message_stop [])
    ∷ encode (message_stop (bytes "stop"))
    ∷ finish
    ∷ finish
    ∷ []

abbrev third_fails : ℕ → Bool
third_fails n = not (n == 2)

run-IsOnce_example : IsOnce (
    run calls (
      new_encoder
        (record { accepts = third_fails; attempts = 0; written = [] })
        (bytes "glm")
        (bytes "id")
        (pos 7)
        true))
run-IsOnce_example = run-IsOnce third_fails (bytes "glm") (bytes "id") (pos 7) true calls

abbrev look : ToolCallBlock
look = record {
  index = pos 0;
  call_id = bytes "c1";
  name = bytes "look";
  arguments = bytes "{\"a\": 1}";
}

-- A stand-in for json.Marshal.
abbrev marshal : Json → Text
marshal v = bytes "true"

-- Text, a call, a signed summary, another text, a second call.
abbrev mixed : List (Option Block)
mixed =
    some (text_block (bytes "a"))
    ∷ some (tool_call_block look)
    ∷ some (
        reasoning_block (record {
          reasoning_kind = bytes "summary";
          text = bytes "hm";
          signature = bytes "sig";
          opaque = [];
        }))
    ∷ some (text_block (bytes "b"))
    ∷ none
    ∷ some (tool_call_block look)
    ∷ []

echoed_turn_example :
    (returned marshal [] mixed ≡ merged_blocks mixed)
    × (returned marshal [] (turn_blocks (bytes "hm") (bytes " ok ") (look ∷ []))
        ≡ turn_blocks (bytes "hm") (bytes " ok ") (look ∷ []))
echoed_turn_example = echoed_turn marshal [] mixed (bytes "hm") (bytes " ok ") (look ∷ [])

mixed_joined :
    merged_blocks mixed
    ≡ some (thought (bytes "hm"))
      ∷ some (text_block (bytes "ab"))
      ∷ some (tool_call_block look)
      ∷ some (tool_call_block look)
      ∷ []
unfolding reasoning_blocks
mixed_joined = refl

abbrev assistant : ChatMessage
assistant = record {
  role = bytes "assistant";
  content = null;
  reasoning_content = [];
  tool_calls =
      (record {
        index = none;
        call_id = bytes "c1";
        call_type = bytes "function";
        name = bytes "look";
        arguments = bytes "{}";
      })
      ∷ [];
  tool_call_id = [];
  name = [];
}

-- The call is found.
assistant_called : last_called (bytes "c1") (assistant ∷ []) ≡ some (bytes "look")
unfolding text_eq
assistant_called = refl

abbrev request : ChatRequest
request = record {
  model = bytes "glm";
  messages = [];
  tools = [];
  tool_choice = string (bytes "auto");
  temperature = none;
  max_tokens = none;
  max_completion_tokens = some (pos 100);
  stream = true;
  stream_options = some true;
  reasoning_effort = [];
  extra_fields = (bytes "metadata", boolean true) ∷ (bytes "top_p", boolean false) ∷ [];
}
