-- ===== src/Codec/OpenAi/Stream.antt =====
-- OpenAIStreamEncoder of pkg/codec/openai.go: every event to its chunks.
use ultiproxy.Base.{
  Bool, true, false, Option, none, some, List, [], ◌∷◌, Text, bytes, ℤ, is_empty, if◌then◌else◌,
}
use ultiproxy.Ir.{
  Event, message_start, block_start, text_delta, reasoning_delta, reasoning_signature,
  tool_call_start, tool_arguments_delta, tool_call_stop, usage_update, message_stop, upstream_error,
}
use ultiproxy.Codec.Out.{Out, fprintf, ◌then_do◌}
use ultiproxy.Codec.OpenAi.{
  Usage, Delta, empty_delta, Frame, chunk, usage_chunk, error_frame, done, stream_finish,
}

pub record Encoder : Type 0 where
  pub out : Out Frame
  pub model : Text
  pub stream_id : Text
  pub created : ℤ
  pub include_usage : Bool
  pub started : Bool
  pub saw_tool_calls : Bool
  pub stopped : Bool
  pub closed : Bool
  pub last_usage : Option Usage

-- The generated id and the clock are arguments.
unfoldable pub new_encoder : Out Frame → Text → Text → ℤ → Bool → Encoder
new_encoder out model id now include_usage = record {
  out = out;
  model = model;
  stream_id = id;
  created = now;
  include_usage = include_usage;
  started = false;
  saw_tool_calls = false;
  stopped = false;
  closed = false;
  last_usage = none;
}

abbrev pub with_out : Encoder → Out Frame × Bool → Encoder × Bool
with_out e (out, ok) = (record e { out = out }, ok)

abbrev pub emit : Frame → Encoder → Encoder × Bool
emit f e = with_out e (fprintf f e.out)

unfoldable pub write_chunk : Delta → Option Text → Encoder → Encoder × Bool
write_chunk delta finish e =
    emit
      (chunk (record {
        chunk_id = e.stream_id;
        created = e.created;
        model = e.model;
        delta = delta;
        finish_reason = finish;
      }))
      e

abbrev pub role_delta : Delta
role_delta = record empty_delta { role = bytes "assistant" }

-- `if !e.started { e.started = true; ... }` with the chunk that names the role.
unfoldable pub ensure_started : Encoder → Encoder × Bool
ensure_started e =
    if e.started then (e, true) else write_chunk role_delta none (record e { started = true })

abbrev pub named : Text → Encoder → Encoder
named id e = if is_empty id then e else record e { stream_id = id }

unfoldable pub encode_text : Text → Encoder → Encoder × Bool
encode_text t e = ensure_started e then_do write_chunk (record empty_delta { content = t }) none

unfoldable pub encode_reasoning : Text → Encoder → Encoder × Bool
encode_reasoning t e =
    ensure_started e then_do write_chunk (record empty_delta { reasoning_content = t }) none

abbrev pub call_delta : ℤ → Text → Text → Delta
call_delta i id name = record empty_delta {
  tool_calls =
      (record {
        index = some i;
        call_id = id;
        call_type = bytes "function";
        name = name;
        arguments = [];
      })
      ∷ [];
}

unfoldable pub encode_call_start : ℤ → Text → Text → Encoder → Encoder × Bool
encode_call_start i id name e =
    ensure_started (record e { saw_tool_calls = true })
    then_do write_chunk (call_delta i id name) none

abbrev pub arguments_delta : ℤ → Text → Delta
arguments_delta i a = record empty_delta {
  tool_calls =
      (record { index = some i; call_id = []; call_type = []; name = []; arguments = a }) ∷ [];
}

-- EventMessageStop: a second one writes nothing.
unfoldable pub encode_stop : Text → Encoder → Encoder × Bool
encode_stop reason e =
    if e.stopped
    then (e, true)
    else write_chunk empty_delta
        (some (if e.saw_tool_calls then bytes "tool_calls" else stream_finish reason))
        (record e { stopped = true })

unfoldable pub encode_event : Event → Encoder → Encoder × Bool
encode_event (message_start id) e = ensure_started (named id e)
encode_event (block_start i kind) e = (e, true)
encode_event (text_delta i t) e = encode_text t e
encode_event (reasoning_delta i t) e = encode_reasoning t e
encode_event (reasoning_signature i s) e = (e, true)
encode_event (tool_call_start i id name) e = encode_call_start i id name e
encode_event (tool_arguments_delta i a) e = write_chunk (arguments_delta i a) none e
encode_event (tool_call_stop i) e = (e, true)
encode_event (usage_update u) e =
    let counted : Usage = record {
      prompt_tokens = u.prompt_tokens;
      completion_tokens = u.completion_tokens;
      total_tokens = u.total_tokens;
      reasoning_tokens = none;
    } in
    (record e { last_usage = some counted }, true)
encode_event (message_stop reason) e = encode_stop reason e
encode_event (upstream_error kind message) e = emit (error_frame message kind) e

abbrev pub write_usage : Bool → Option Usage → Encoder → Encoder × Bool
write_usage false u e = (e, true)
write_usage true none e = (e, true)
write_usage true (some u) e = emit (usage_chunk e.stream_id e.created e.model u) e

unfoldable pub close : Encoder → Encoder × Bool
close e =
    if e.closed
    then (e, true)
    else write_usage e.include_usage e.last_usage (record e { closed = true }) then_do emit done

-- What a caller does with an encoder.
pub data Call : Type 0 where
  encode : Event → Call
  finish : Call

unfoldable pub step : Call → Encoder → Encoder
step (encode ev) e = (encode_event ev e).0
step finish e = (close e).0

unfoldable pub run : List Call → Encoder → Encoder
run [] e = e
run (c ∷ cs) e = run cs (step c e)

-- The events of a stream one after the other, up to the first error.
unfoldable pub encode_all : List Event → Encoder → Encoder × Bool
encode_all [] e = (e, true)
encode_all (ev ∷ evs) e = encode_event ev e then_do encode_all evs
