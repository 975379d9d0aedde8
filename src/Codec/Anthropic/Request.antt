-- ===== src/Codec/Anthropic/Request.antt =====
-- DecodeMessagesRequest of pkg/codec/anthropic.go, after encoding/json has read the request: the
-- system prompt and the conversation.
use ultiproxy.Base.{
  Bool, true, not, Option, none, some, List, [], ◌∷◌, ◌++◌, Text, bytes, pos, is_empty, text_eq,
  if◌then◌else◌,
}
use ultiproxy.Base.Json.{
  Json, null, boolean, number, string, array, object, Items, no_items, item, Fields, get_field,
  string_field, is_null,
}
use ultiproxy.Ir.{
  Block, text_block, image_block, tool_call_block, tool_result_block, reasoning_block,
  cache_control, reasoning_text, reasoning_redacted, Message,
}

-- AnthropicMsg.
pub record AnthropicMessage : Type 0 where
  pub role : Text
  pub content : Json

-- `fmt.Sprintf("data:%s;base64,%s", mediaType, data)`.
abbrev data_url : Text → Text → Text
data_url media data_ = bytes "data:" ++ media ++ bytes ";base64," ++ data_

abbrev pub source_url : Json → Text
source_url (object src) =
    let kind = string_field (bytes "type") src in
    if text_eq kind (bytes "base64")
    then data_url (string_field (bytes "media_type") src) (string_field (bytes "data") src)
    else if text_eq kind (bytes "url")
    then string_field (bytes "url") src
    else []
source_url null = []
source_url (boolean b) = []
source_url (number n) = []
source_url (string s) = []
source_url (array a) = []

-- json.Marshal of a decoded value is an argument.
module _ (marshal : Json → Text) where
  abbrev pub input_text : Json → Text
  input_text v = if is_null v then bytes "{}" else marshal v

  abbrev pub result_text : Json → Text
  result_text (string s) = s
  result_text null = []
  result_text (boolean b) = marshal (boolean b)
  result_text (number n) = marshal (number n)
  result_text (array a) = marshal (array a)
  result_text (object m) = marshal (object m)

  -- The block of a recognized content block; `none` for another type.
  unfoldable pub content_block : Fields → Option Block
  content_block m =
      let kind = string_field (bytes "type") m in
      if text_eq kind (bytes "text")
      then some (text_block (string_field (bytes "text") m))
      else if text_eq kind (bytes "image")
      then some
          (image_block (record { url = source_url (get_field (bytes "source") m); detail = [] }))
      else if text_eq kind (bytes "thinking")
      then some (
          reasoning_block (record {
            reasoning_kind = reasoning_text;
            text = string_field (bytes "thinking") m;
            signature = string_field (bytes "signature") m;
            opaque = [];
          }))
      else if text_eq kind (bytes "redacted_thinking")
      then some (
          reasoning_block (record {
            reasoning_kind = reasoning_redacted;
            text = string_field (bytes "data") m;
            signature = [];
            opaque = [];
          }))
      else if text_eq kind (bytes "tool_use")
      then some (
          tool_call_block (record {
            index = pos 0;
            call_id = string_field (bytes "id") m;
            name = string_field (bytes "name") m;
            arguments = input_text (get_field (bytes "input") m);
          }))
      else if text_eq kind (bytes "tool_result")
      then some (
          tool_result_block (record {
            tool_call_id = string_field (bytes "tool_use_id") m;
            name = [];
            content = result_text (get_field (bytes "content") m);
          }))
      else none

  -- The marker directly after the block that it annotates.
  abbrev pub with_marker : Bool → Option Block → List (Option Block)
  with_marker marked none = []
  with_marker marked (some b) = some b ∷ (if marked then some (cache_control true) ∷ [] else [])

  abbrev pub is_marked : Fields → Bool
  is_marked m = not (is_null (get_field (bytes "cache_control") m))

  unfoldable pub item_blocks : Json → List (Option Block)
  item_blocks (object m) = with_marker (is_marked m) (content_block m)
  item_blocks null = []
  item_blocks (boolean b) = []
  item_blocks (number n) = []
  item_blocks (string s) = []
  item_blocks (array a) = []

  unfoldable pub items_blocks : Items → List (Option Block)
  items_blocks no_items = []
  items_blocks (item v vs) = item_blocks v ++ items_blocks vs

  unfoldable pub content_blocks : Json → List (Option Block)
  content_blocks (string s) = some (text_block s) ∷ []
  content_blocks (array vs) = items_blocks vs
  content_blocks null = []
  content_blocks (boolean b) = []
  content_blocks (number n) = []
  content_blocks (object m) = []

  unfoldable pub decode_message : AnthropicMessage → Message
  decode_message m = record { role = m.role; blocks = content_blocks m.content; meta = [] }

  unfoldable pub decode_messages : List AnthropicMessage → List Message
  decode_messages [] = []
  decode_messages (m ∷ ms) = decode_message m ∷ decode_messages ms

-- The text blocks of a system prompt; other types are skipped.
abbrev pub system_item : Json → List (Option Block)
system_item (object m) =
    if text_eq (string_field (bytes "type") m) (bytes "text")
    then some (text_block (string_field (bytes "text") m))
      ∷ (if is_null (get_field (bytes "cache_control") m)
          then []
          else some (cache_control true) ∷ [])
    else []
system_item null = []
system_item (boolean b) = []
system_item (number n) = []
system_item (string s) = []
system_item (array a) = []

unfoldable pub system_items : Items → List (Option Block)
system_items no_items = []
system_items (item v vs) = system_item v ++ system_items vs

unfoldable pub system_blocks : Json → List (Option Block)
system_blocks (string s) = if is_empty s then [] else some (text_block s) ∷ []
system_blocks (array vs) = system_items vs
system_blocks null = []
system_blocks (boolean b) = []
system_blocks (number n) = []
system_blocks (object m) = []

unfoldable pub system_messages : Json → List Message
system_messages v =
    let blocks = system_blocks v in
    if is_empty blocks
    then []
    else record { role = bytes "system"; blocks = blocks; meta = [] } ∷ []
