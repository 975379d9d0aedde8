-- ===== src/Codec/OpenAi/Request.antt =====
-- DecodeChatCompletionRequest of pkg/codec/openai.go, after encoding/json has read the request:
-- the conversation.
use ultiproxy.Base.{
  ℕ, ◌+◌, Bool, not, ◌&&◌, ◌||◌, Option, some, List, [], ◌∷◌, ◌++◌, Text, bytes, pos, is_empty,
  text_eq, if◌then◌else◌, or_else, lookup, insert,
}
use ultiproxy.Base.Json.{
  Json, null, boolean, number, string, array, object, Items, no_items, item, get_field,
  string_field,
}
use ultiproxy.Ir.{
  Block, text_block, image_block, tool_call_block, tool_result_block, reasoning_block,
  reasoning_text, Message,
}
use ultiproxy.Codec.OpenAi.{ToolCall}

-- OpenAIMessage.
pub record ChatMessage : Type 0 where
  pub role : Text
  pub content : Json
  pub reasoning_content : Text
  pub tool_calls : List ToolCall
  pub tool_call_id : Text
  pub name : Text

-- A reasoning block of a text.
abbrev pub thought : Text → Block
thought t =
    reasoning_block
      (record { reasoning_kind = reasoning_text; text = t; signature = []; opaque = [] })

-- 1. The reasoning, if present.
unfoldable pub reasoning_blocks : Text → List (Option Block)
reasoning_blocks t = if is_empty t then [] else some (thought t) ∷ []

unfoldable pub image_part : Json → Block
image_part (string url) = image_block (record { url = url; detail = [] })
image_part (object m) =
    image_block
      (record { url = string_field (bytes "url") m; detail = string_field (bytes "detail") m })
image_part null = image_block (record { url = []; detail = [] })
image_part (boolean b) = image_block (record { url = []; detail = [] })
image_part (number n) = image_block (record { url = []; detail = [] })
image_part (array a) = image_block (record { url = []; detail = [] })

unfoldable pub part_blocks : Json → List (Option Block)
part_blocks (object m) =
    let kind = string_field (bytes "type") m in
    if text_eq kind (bytes "text")
    then some (text_block (string_field (bytes "text") m)) ∷ []
    else if text_eq kind (bytes "image_url")
    then some (image_part (get_field (bytes "image_url") m)) ∷ []
    else []
part_blocks null = []
part_blocks (boolean b) = []
part_blocks (number n) = []
part_blocks (string s) = []
part_blocks (array a) = []

unfoldable pub parts_blocks : Items → List (Option Block)
parts_blocks no_items = []
parts_blocks (item v vs) = part_blocks v ++ parts_blocks vs

-- 2. The content, for a role other than tool; `alone` is that there is neither reasoning nor a
-- tool call.
unfoldable pub content_blocks : Bool → Json → List (Option Block)
content_blocks alone (string s) = if not (is_empty s) || alone then some (text_block s) ∷ [] else []
content_blocks alone (array vs) = parts_blocks vs
content_blocks alone null = []
content_blocks alone (boolean b) = []
content_blocks alone (number n) = []
content_blocks alone (object m) = []

-- 3. The tool calls, the i-th and those after it.
unfoldable pub call_blocks : ℕ → List ToolCall → List (Option Block)
call_blocks i [] = []
call_blocks i (c ∷ cs) =
    some (
      tool_call_block (record {
        index = or_else c.index (pos i);
        call_id = c.call_id;
        name = c.name;
        arguments = c.arguments;
      }))
    ∷ call_blocks (i + 1) cs

-- The names by call id.
abbrev pub Names : Type 0
Names = List (Text × Text)

unfoldable pub note_calls : List ToolCall → Names → Names
note_calls [] names = names
note_calls (c ∷ cs) names = note_calls cs (
    if not (is_empty c.call_id) && not (is_empty c.name)
    then insert c.call_id c.name names
    else names)

-- json.Marshal of a decoded value is an argument.
module _ (marshal : Json → Text) where
  unfoldable pub result_content : Json → Text
  result_content (string s) = s
  result_content null = []
  result_content (boolean b) = marshal (boolean b)
  result_content (number n) = marshal (number n)
  result_content (array a) = marshal (array a)
  result_content (object m) = marshal (object m)

  abbrev pub result_name : ChatMessage → Names → Text
  result_name m names =
      if is_empty m.name && not (is_empty m.tool_call_id)
      then or_else (lookup m.tool_call_id names) []
      else m.name

  -- 4. The tool result.
  unfoldable pub result_blocks : ChatMessage → Names → List (Option Block)
  result_blocks m names =
      some (
        tool_result_block (record {
          tool_call_id = m.tool_call_id;
          name = result_name m names;
          content = result_content m.content;
        }))
      ∷ []

  unfoldable pub decode_role : Text → Text
  decode_role role = if text_eq role (bytes "developer") then bytes "system" else role

  -- The body of the loop over the messages: the blocks of a message and the names after it.
  unfoldable pub decode_message : ChatMessage → Names → Message × Names
  decode_message m names =
      let role = decode_role m.role in
      let is_tool = text_eq role (bytes "tool") in
      let thoughts = reasoning_blocks m.reasoning_content in
      let alone = is_empty thoughts && is_empty m.tool_calls in
      let content = if is_tool then [] else content_blocks alone m.content in
      let calls = call_blocks 0 m.tool_calls in
      let names' = note_calls m.tool_calls names in
      let result = if is_tool then result_blocks m names' else [] in
      (
        record { role = role; blocks = thoughts ++ (content ++ (calls ++ result)); meta = [] },
        names',
      )

  unfoldable pub decode_messages : List ChatMessage → Names → List Message
  decode_messages [] names = []
  decode_messages (m ∷ ms) names =
      let (message, names') = decode_message m names in message ∷ decode_messages ms names'
