-- ===== src/Codec/Anthropic.antt =====
-- The Anthropic format, pkg/codec/anthropic.go: its frames and its stop reasons.
pub mod Stream
pub mod Faithful
pub mod Request
pub mod Options
pub mod Response
pub mod Echo
mod Examples
pub mod Protocol
pub mod Conforms
use ultiproxy.Base.{List, [], Text, bytes, ℤ, pos, if◌then◌else◌, is_empty, text_eq}

-- AnthropicUsage.
pub record Usage : Type 0 where
  pub input_tokens : ℤ
  pub output_tokens : ℤ
  pub cache_creation_input_tokens : ℤ
  pub cache_read_input_tokens : ℤ

abbrev pub no_usage : Usage
no_usage = record {
  input_tokens = pos 0;
  output_tokens = pos 0;
  cache_creation_input_tokens = pos 0;
  cache_read_input_tokens = pos 0;
}

-- The content_block of a content_block_start, as it opens.
pub data Opening : Type 0 where
  opens_text opens_thinking : Opening
  opens_tool_use : (id name : Text) → Opening

-- The delta of a content_block_delta.
pub data Delta : Type 0 where
  text_delta : Text → Delta
  thinking_delta : Text → Delta
  signature_delta : Text → Delta
  input_json_delta : Text → Delta

-- What is written to the stream as one event.
pub data Frame : Type 0 where
  message_start : (id model : Text) (usage : Usage) → Frame
  content_block_start : ℤ → Opening → Frame
  content_block_delta : ℤ → Delta → Frame
  content_block_stop : ℤ → Frame
  message_delta : (stop_reason : Text) (output_tokens : ℤ) → Frame
  message_stop : Frame
  error_frame : (kind message : Text) → Frame

-- The stop reason of EventMessageStop.
unfoldable pub stream_stop_reason : Text → Text
stream_stop_reason reason =
    if is_empty reason
    then bytes "end_turn"
    else if text_eq reason (bytes "stop")
    then bytes "end_turn"
    else if text_eq reason (bytes "tool_calls")
    then bytes "tool_use"
    else if text_eq reason (bytes "length")
    then bytes "max_tokens"
    else reason
