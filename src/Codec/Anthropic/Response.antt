-- ===== src/Codec/Anthropic/Response.antt =====
-- EncodeMessagesResponse of pkg/codec/anthropic.go, up to json.Marshal.
use ultiproxy.Base.{
  Bool, true, false, Option, none, some, List, [], ◌∷◌, ◌++◌, Text, bytes, is_empty, text_eq,
  if◌then◌else◌,
}
use ultiproxy.Base.Json.{Json, null, object, no_fields}
use ultiproxy.Ir
use ultiproxy.Ir.{
  Block, text_block, image_block, tool_call_block, tool_result_block, reasoning_block,
  cache_control, other_block, ToolCallBlock, ReasoningBlock, reasoning_redacted, Message,
}
use ultiproxy.Codec.Anthropic.{Usage, no_usage}

-- The fields of AnthropicContentBlock that a response sets.
pub record ContentBlock : Type 0 where
  pub block_type : Text
  pub text : Text
  pub block_id : Text
  pub name : Text
  pub input : Json
  pub thinking : Text
  pub signature : Text
  pub redacted : Text

abbrev pub empty_block : Text → ContentBlock
empty_block kind = record {
  block_type = kind;
  text = [];
  block_id = [];
  name = [];
  input = null;
  thinking = [];
  signature = [];
  redacted = [];
}

-- AnthropicMessagesResponse.
pub record MessagesResponse : Type 0 where
  pub response_id : Text
  pub model : Text
  pub content : List ContentBlock
  pub stop_reason : Text
  pub usage : Usage

abbrev pub is_call : Block → Bool
is_call (tool_call_block b) = true
is_call (text_block t) = false
is_call (reasoning_block b) = false
is_call (image_block b) = false
is_call (tool_result_block b) = false
is_call (cache_control b) = false
is_call (other_block k) = false

abbrev pub add_block :
    Option ContentBlock → Bool → List ContentBlock × Bool → List ContentBlock × Bool
add_block none call c = c
add_block (some b) call (content, last) = (content ++ (b ∷ []), call)

-- json.Unmarshal into an `any` is an argument; `none` is its error.
module _ (unmarshal : Text → Option Json) where
  abbrev pub input_of : Option Json → Json
  input_of none = object no_fields
  input_of (some v) = v

  abbrev pub encode_reasoning : ReasoningBlock → ContentBlock
  encode_reasoning b =
      if text_eq b.reasoning_kind reasoning_redacted
      then record (empty_block (bytes "redacted_thinking")) { redacted = b.text }
      else record (empty_block (bytes "thinking")) { thinking = b.text; signature = b.signature }

  -- A block's content block, `none` for one that the loop passes over.
  unfoldable pub encode_block : Block → Option ContentBlock
  encode_block (text_block t) = some (record (empty_block (bytes "text")) { text = t })
  encode_block (reasoning_block b) = some (encode_reasoning b)
  encode_block (tool_call_block b) = some (record (empty_block (bytes "tool_use")) {
    block_id = b.call_id;
    name = b.name;
    input = input_of (unmarshal b.arguments);
  })
  encode_block (image_block b) = none
  encode_block (tool_result_block b) = none
  encode_block (cache_control b) = none
  encode_block (other_block k) = none

  -- The loop: the content so far and whether its last block is a tool call.
  unfoldable pub encode_blocks :
      List (Option Block) → List ContentBlock × Bool → List ContentBlock × Bool
  encode_blocks [] c = c
  encode_blocks (none ∷ bs) c = encode_blocks bs c
  encode_blocks (some b ∷ bs) c = encode_blocks bs (add_block (encode_block b) (is_call b) c)

unfoldable pub stop_reason_of : Bool → Text → Text
stop_reason_of last_is_tool_call reason =
    if is_empty reason
    then if last_is_tool_call then bytes "tool_use" else bytes "end_turn"
    else if text_eq reason (bytes "stop")
    then bytes "end_turn"
    else if text_eq reason (bytes "tool_calls")
    then bytes "tool_use"
    else if text_eq reason (bytes "length")
    then bytes "max_tokens"
    else reason

abbrev pub usage_of : Option Ir.Usage → Usage
usage_of none = no_usage
usage_of (some u) = record {
  input_tokens = u.prompt_tokens;
  output_tokens = u.completion_tokens;
  cache_creation_input_tokens = u.cache_creation_input_tokens;
  cache_read_input_tokens = u.cache_read_input_tokens;
}

abbrev pub blocks_of : Option Message → List (Option Block)
blocks_of none = []
blocks_of (some m) = m.blocks

-- The generated id is an argument.
unfoldable pub encode_response : (Text → Option Json) → Text → Ir.Response → Text → MessagesResponse
encode_response unmarshal fresh_id resp model =
    let (content, last) = encode_blocks unmarshal (blocks_of resp.message) ([], false) in
    record {
      response_id = if is_empty resp.response_id then fresh_id else resp.response_id;
      model = model;
      content = content;
      stop_reason = stop_reason_of last resp.finish_reason;
      usage = usage_of resp.usage;
    }
