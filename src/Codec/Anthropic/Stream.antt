-- ===== src/Codec/Anthropic/Stream.antt =====
-- AnthropicStreamEncoder of pkg/codec/anthropic.go: every event to its frames.
use ultiproxy.Base.{
  Bool, true, false, ◌&&◌, ◌||◌, not, List, [], ◌∷◌, Text, bytes, ℤ, negsuc, eq_ℤ, is_empty,
  text_eq, if◌then◌else◌,
}
use ultiproxy.Ir
use ultiproxy.Ir.{Event}
use ultiproxy.Codec.Out.{Out, fprintf, ◌then_do◌}
use ultiproxy.Codec.Anthropic.{
  Usage, no_usage, Opening, opens_text, opens_thinking, opens_tool_use, Delta, text_delta,
  thinking_delta, signature_delta, input_json_delta, Frame, message_start, content_block_start,
  content_block_delta, content_block_stop, message_delta, message_stop, error_frame,
  stream_stop_reason,
}

-- `active_block_index` is -1 where no block is open. `started_blocks` lists the indexes whose
-- entry in the map is true.
pub record Encoder : Type 0 where
  pub out : Out Frame
  pub model : Text
  pub message_id : Text
  pub started : Bool
  pub stopped : Bool
  pub active_block_index : ℤ
  pub started_blocks : List ℤ
  pub usage : Usage

abbrev pub no_block : ℤ
no_block = negsuc 0

-- The generated id is an argument.
unfoldable pub new_encoder : Out Frame → Text → Text → Encoder
new_encoder out model id = record {
  out = out;
  model = model;
  message_id = id;
  started = false;
  stopped = false;
  active_block_index = no_block;
  started_blocks = [];
  usage = no_usage;
}

unfoldable pub is_started : ℤ → List ℤ → Bool
is_started i [] = false
is_started i (j ∷ js) = eq_ℤ j i || is_started i js

abbrev pub with_out : Encoder → Out Frame × Bool → Encoder × Bool
with_out e (out, ok) = (record e { out = out }, ok)

unfoldable pub emit : Frame → Encoder → Encoder × Bool
emit f e = with_out e (fprintf f e.out)

unfoldable pub ensure_message_start : Encoder → Encoder × Bool
ensure_message_start e =
    if e.started
    then (e, true)
    else emit (message_start e.message_id e.model e.usage) (record e { started = true })

abbrev pub idle : Encoder → Encoder × Bool
idle e = (record e { active_block_index = no_block }, true)

unfoldable pub stop_active_block_if_needed : ℤ → Encoder → Encoder × Bool
stop_active_block_if_needed i e =
    if not (eq_ℤ e.active_block_index no_block) && not (eq_ℤ e.active_block_index i)
    then emit (content_block_stop e.active_block_index) e then_do idle
    else (e, true)

-- The two calls that every block event begins with.
unfoldable pub turn_to : ℤ → Encoder → Encoder × Bool
turn_to i e = ensure_message_start e then_do stop_active_block_if_needed i

-- `e.startedBlocks[i] = true; e.activeBlockIndex = i`, and the frame.
unfoldable pub start_block : ℤ → Opening → Encoder → Encoder × Bool
start_block i o e =
    emit (content_block_start i o)
      (record e { started_blocks = i ∷ e.started_blocks; active_block_index = i })

unfoldable pub open_block : ℤ → Opening → Encoder → Encoder × Bool
open_block i o e = if is_started i e.started_blocks then (e, true) else start_block i o e

abbrev pub opening_of : Text → Opening
opening_of kind =
    if text_eq kind (bytes "thinking")
    then opens_thinking
    else if text_eq kind (bytes "tool_use")
    then opens_tool_use [] []
    else opens_text

-- EventTextDelta, EventReasoningDelta, EventReasoningSignature, EventToolArgumentsDelta.
unfoldable pub encode_delta : ℤ → Opening → Delta → Encoder → Encoder × Bool
encode_delta i o d e = turn_to i e then_do open_block i o then_do emit (content_block_delta i d)

unfoldable pub encode_call_stop : ℤ → Encoder → Encoder × Bool
encode_call_stop i e =
    if eq_ℤ e.active_block_index i
    then emit (content_block_stop i) (record e { active_block_index = no_block })
    else (e, true)

unfoldable pub stop_open_block : Encoder → Encoder × Bool
stop_open_block e =
    if eq_ℤ e.active_block_index no_block
    then (e, true)
    else emit (content_block_stop e.active_block_index) e then_do idle

abbrev pub write_message_stop : Encoder → Encoder × Bool
write_message_stop e = emit message_stop (record e { stopped = true })

abbrev pub write_message_delta : Text → Encoder → Encoder × Bool
write_message_delta reason e = emit (message_delta reason e.usage.output_tokens) e

unfoldable pub encode_stop : Text → Encoder → Encoder × Bool
encode_stop reason e =
    if e.stopped
    then (e, true)
    else ensure_message_start e
      then_do stop_open_block
      then_do write_message_delta (stream_stop_reason reason)
      then_do write_message_stop

unfoldable pub encode_event : Event → Encoder → Encoder × Bool
encode_event (Ir.message_start id) e =
    ensure_message_start (if is_empty id then e else record e { message_id = id })
encode_event (Ir.block_start i kind) e = turn_to i e then_do open_block i (opening_of kind)
encode_event (Ir.text_delta i t) e = encode_delta i opens_text (text_delta t) e
encode_event (Ir.reasoning_delta i t) e = encode_delta i opens_thinking (thinking_delta t) e
encode_event (Ir.reasoning_signature i s) e = encode_delta i opens_thinking (signature_delta s) e
encode_event (Ir.tool_call_start i id name) e =
    turn_to i e then_do start_block i (opens_tool_use id name)
encode_event (Ir.tool_arguments_delta i a) e =
    encode_delta i (opens_tool_use [] []) (input_json_delta a) e
encode_event (Ir.tool_call_stop i) e = encode_call_stop i e
encode_event (Ir.usage_update u) e =
    let counted : Usage = record {
      input_tokens = u.prompt_tokens;
      output_tokens = u.completion_tokens;
      cache_creation_input_tokens = u.cache_creation_input_tokens;
      cache_read_input_tokens = u.cache_read_input_tokens;
    } in
    (record e { usage = counted }, true)
encode_event (Ir.message_stop reason) e = encode_stop reason e
encode_event (Ir.upstream_error kind message) e = emit (error_frame kind message) e

-- The ends of Close, whose write errors are dropped.
abbrev pub close_block : Encoder → Encoder
close_block e =
    if eq_ℤ e.active_block_index no_block
    then e
    else record ((emit (content_block_stop e.active_block_index) e).0) {
      active_block_index = no_block;
    }

abbrev pub close_message : Encoder → Encoder
close_message e =
    if e.started
    then record ((emit message_stop ((write_message_delta (bytes "end_turn") e).0)).0) {
      stopped = true;
    }
    else e

unfoldable pub close : Encoder → Encoder × Bool
close e = if e.stopped then (e, true) else (close_message (close_block e), true)

-- The events of a stream one after the other, up to the first error.
unfoldable pub encode_all : List Event → Encoder → Encoder × Bool
encode_all [] e = (e, true)
encode_all (ev ∷ evs) e = encode_event ev e then_do encode_all evs
