-- ===== src/Ir.antt =====
-- The messages and the events that the wire formats are translated to and from: pkg/ir/types.go,
-- pkg/ir/events.go and pkg/ir/response.go.
pub mod Envelope
pub mod RoundTrip
mod Examples
use ultiproxy.Base.{Bool, Option, List, Text, bytes, ℤ}

pub record ImageBlock : Type 0 where
  pub url : Text
  pub detail : Text

pub record ToolCallBlock : Type 0 where
  pub index : ℤ
  pub call_id : Text
  pub name : Text
  pub arguments : Text

pub record ToolResultBlock : Type 0 where
  pub tool_call_id : Text
  pub name : Text
  pub content : Text

-- ReasoningKind is the string itself. `opaque` is a json.RawMessage, its bytes.
pub record ReasoningBlock : Type 0 where
  pub reasoning_kind : Text
  pub text : Text
  pub signature : Text
  pub opaque : Text

abbrev pub reasoning_text : Text
reasoning_text = bytes "text"

abbrev pub reasoning_redacted : Text
reasoning_redacted = bytes "redacted"

-- The implementations of the interface Block; a pointer to a block is the block. `other_block`
-- is one that another package might add, with what its Kind returns.
pub data Block : Type 0 where
  text_block : Text → Block
  image_block : ImageBlock → Block
  tool_call_block : ToolCallBlock → Block
  tool_result_block : ToolResultBlock → Block
  reasoning_block : ReasoningBlock → Block
  cache_control : Bool → Block
  other_block : Text → Block

unfoldable pub block_kind : Block → Text
block_kind (text_block t) = bytes "text"
block_kind (image_block b) = bytes "image"
block_kind (tool_call_block b) = bytes "tool_call"
block_kind (tool_result_block b) = bytes "tool_result"
block_kind (reasoning_block b) = bytes "reasoning"
block_kind (cache_control b) = bytes "cache_control"
block_kind (other_block k) = k

-- A nil in Blocks is `none`.
pub record Message : Type 0 where
  pub role : Text
  pub blocks : List (Option Block)
  pub meta : List (Text × Text)

-- The cost, a float64 that is only copied, is left out.
pub record Usage : Type 0 where
  pub prompt_tokens : ℤ
  pub completion_tokens : ℤ
  pub total_tokens : ℤ
  pub reasoning_tokens : ℤ
  pub cache_creation_input_tokens : ℤ
  pub cache_read_input_tokens : ℤ

pub record Response : Type 0 where
  pub response_id : Text
  pub message : Option Message
  pub finish_reason : Text
  pub usage : Option Usage

-- The fields of EventUsageUpdate, without the cost.
pub record UsageUpdate : Type 0 where
  pub prompt_tokens : ℤ
  pub completion_tokens : ℤ
  pub total_tokens : ℤ
  pub cache_creation_input_tokens : ℤ
  pub cache_read_input_tokens : ℤ

-- The implementations of the interface Event.
pub data Event : Type 0 where
  message_start : (id : Text) → Event
  block_start : (index : ℤ) (kind : Text) → Event
  text_delta : (index : ℤ) (text : Text) → Event
  reasoning_delta : (index : ℤ) (text : Text) → Event
  reasoning_signature : (index : ℤ) (signature : Text) → Event
  tool_call_start : (index : ℤ) (id name : Text) → Event
  tool_arguments_delta : (index : ℤ) (arguments : Text) → Event
  tool_call_stop : (index : ℤ) → Event
  usage_update : UsageUpdate → Event
  message_stop : (finish_reason : Text) → Event
  upstream_error : (kind message : Text) → Event
