-- ===== src/Codec/OpenAi.antt =====
-- The OpenAI format, pkg/codec/openai.go: its messages, its chunks and its finish reasons.
pub mod Stream
pub mod Once
pub mod Faithful
pub mod Request
pub mod Options
pub mod Response
pub mod Reason
pub mod Extras
pub mod Named
mod Examples
pub mod Echo
pub mod Merged
use ultiproxy.Base.{Bool, Option, List, [], Text, bytes, ℤ, if◌then◌else◌, is_empty, text_eq, ◌||◌}

-- OpenAIToolCall with its OpenAIFunctionCall.
pub record ToolCall : Type 0 where
  pub index : Option ℤ
  pub call_id : Text
  pub call_type : Text
  pub name : Text
  pub arguments : Text

-- OpenAIUsage; the reasoning tokens are its details, absent where they are not positive.
pub record Usage : Type 0 where
  pub prompt_tokens : ℤ
  pub completion_tokens : ℤ
  pub total_tokens : ℤ
  pub reasoning_tokens : Option ℤ

-- OpenAIChunkDelta. An empty field is left out of the JSON.
pub record Delta : Type 0 where
  pub role : Text
  pub content : Text
  pub reasoning_content : Text
  pub tool_calls : List ToolCall

abbrev pub empty_delta : Delta
empty_delta = record { role = []; content = []; reasoning_content = []; tool_calls = [] }

-- A chunk with its one choice.
pub record Chunk : Type 0 where
  pub chunk_id : Text
  pub created : ℤ
  pub model : Text
  pub delta : Delta
  pub finish_reason : Option Text

-- What is written to the stream as one `data:` line.
pub data Frame : Type 0 where
  chunk : Chunk → Frame
  usage_chunk : (id : Text) (created : ℤ) (model : Text) (usage : Usage) → Frame
  error_frame : (message kind : Text) → Frame
  done : Frame

-- The finish reason of a stream that has not called tools, at EventMessageStop.
unfoldable pub stream_finish : Text → Text
stream_finish reason =
    if is_empty reason
    then bytes "stop"
    else if text_eq reason (bytes "tool_use")
    then bytes "tool_calls"
    else if text_eq reason (bytes "stop") || text_eq reason (bytes "end_turn")
    then bytes "stop"
    else if text_eq reason (bytes "max_tokens")
    then bytes "length"
    else reason
