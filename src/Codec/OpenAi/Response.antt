-- ===== src/Codec/OpenAi/Response.antt =====
-- EncodeChatCompletionResponse of pkg/codec/openai.go, up to json.Marshal.
use ultiproxy.Base.{
  ℤ, pos, ltb_ℤ, Bool, true, false, not, ◌&&◌, ◌||◌, Option, none, some, List, [], ◌∷◌, ◌++◌, Text,
  bytes, is_empty, text_eq, if◌then◌else◌,
}
use ultiproxy.Ir
use ultiproxy.Ir.{
  Block, text_block, image_block, tool_call_block, tool_result_block, reasoning_block,
  cache_control, other_block, ToolCallBlock, Message,
}
use ultiproxy.Codec.OpenAi.{ToolCall, Usage}

-- OpenAIResponseMessage, whose role is assistant.
pub record Reply : Type 0 where
  pub content : Option Text
  pub reasoning_content : Option Text
  pub tool_calls : List ToolCall

-- OpenAIChatCompletionResponse with its one choice.
pub record ChatResponse : Type 0 where
  pub response_id : Text
  pub created : ℤ
  pub model : Text
  pub message : Reply
  pub finish_reason : Text
  pub usage : Option Usage

-- What the loop over the blocks collects.
pub record Collected : Type 0 where
  pub text_content : Text
  pub has_text : Bool
  pub reasoning_content : Text
  pub has_reasoning : Bool
  pub tool_calls : List ToolCall

abbrev pub nothing : Collected
nothing = record {
  text_content = [];
  has_text = false;
  reasoning_content = [];
  has_reasoning = false;
  tool_calls = [];
}

abbrev pub call_of : ToolCallBlock → ToolCall
call_of b = record {
  index = some b.index;
  call_id = b.call_id;
  call_type = bytes "function";
  name = b.name;
  arguments = b.arguments;
}

unfoldable pub collect : Block → Collected → Collected
collect (text_block t) c = record c { text_content = c.text_content ++ t; has_text = true }
collect (reasoning_block b) c = record c {
  reasoning_content = c.reasoning_content ++ b.text;
  has_reasoning = true;
}
collect (tool_call_block b) c = record c { tool_calls = c.tool_calls ++ (call_of b ∷ []) }
collect (image_block b) c = c
collect (tool_result_block b) c = c
collect (cache_control b) c = c
collect (other_block k) c = c

unfoldable pub collect_all : List (Option Block) → Collected → Collected
collect_all [] c = c
collect_all (none ∷ bs) c = collect_all bs c
collect_all (some b ∷ bs) c = collect_all bs (collect b c)

unfoldable pub finish_of : Bool → Text → Text
finish_of calls reason =
    if calls
    then bytes "tool_calls"
    else if is_empty reason
    then bytes "stop"
    else if text_eq reason (bytes "end_turn")
    then bytes "stop"
    else if text_eq reason (bytes "tool_use")
    then bytes "tool_calls"
    else if text_eq reason (bytes "max_tokens")
    then bytes "length"
    else reason

unfoldable pub reply_of : Collected → Reply
reply_of c =
    let calls = not (is_empty c.tool_calls) in
    record {
      content =
          if c.has_text || (not calls && not c.has_reasoning) then some c.text_content else none;
      reasoning_content = if c.has_reasoning then some c.reasoning_content else none;
      tool_calls = c.tool_calls;
    }

abbrev pub usage_of : Option Ir.Usage → Option Usage
usage_of none = none
usage_of (some u) = some (record {
  prompt_tokens = u.prompt_tokens;
  completion_tokens = u.completion_tokens;
  total_tokens = u.total_tokens;
  reasoning_tokens = if ltb_ℤ (pos 0) u.reasoning_tokens then some u.reasoning_tokens else none;
})

abbrev pub blocks_of : Option Message → List (Option Block)
blocks_of none = []
blocks_of (some m) = m.blocks

-- The generated id and the clock are arguments.
unfoldable pub encode_response : Text → ℤ → Ir.Response → Text → ChatResponse
encode_response fresh_id now resp model =
    let c = collect_all (blocks_of resp.message) nothing in
    record {
      response_id = if is_empty resp.response_id then fresh_id else resp.response_id;
      created = now;
      model = model;
      message = reply_of c;
      finish_reason = finish_of (not (is_empty c.tool_calls)) resp.finish_reason;
      usage = usage_of resp.usage;
    }
