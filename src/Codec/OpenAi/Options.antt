-- ===== src/Codec/OpenAi/Options.antt =====
-- DecodeChatCompletionRequest of pkg/codec/openai.go: the options and the extra fields.
use ultiproxy.Base.{
  ℤ, Bool, false, not, Option, none, some, List, [], ◌∷◌, ◌++◌, Text, bytes, is_empty,
  if◌then◌else◌, or_else, insert,
}
use ultiproxy.Base.Json.{
  Json, string, array, object, Items, no_items, item, Fields, no_fields, field, is_null,
}
use ultiproxy.Ir.{Message}
use ultiproxy.Codec.Options.{
  value, stream_options, ExtraBody, ProviderOption, with_model, with_max_tokens, with_temperature,
  with_reasoning_effort, copy_fields, positive, first_of, option_if, text_option, put_if,
  extra_option,
}
use ultiproxy.Codec.OpenAi.Request.{ChatMessage, decode_messages}

-- OpenAITool with its OpenAIFunctionDef.
pub record Tool : Type 0 where
  pub tool_type : Text
  pub name : Text
  pub description : Text
  pub parameters : Json

-- OpenAIChatCompletionRequest. A nil pointer is `none`; `extra_fields` is the whole body.
pub record ChatRequest : Type 0 where
  pub model : Text
  pub messages : List ChatMessage
  pub tools : List Tool
  pub tool_choice : Json
  pub temperature : Option Text
  pub max_tokens : Option ℤ
  pub max_completion_tokens : Option ℤ
  pub stream : Bool
  pub stream_options : Option Bool
  pub reasoning_effort : Text
  pub extra_fields : List (Text × Json)

-- A tool written as JSON and read back as plain values; empty fields are left out.
abbrev pub text_if : Text → Text → Fields → Fields
text_if k t m = if is_empty t then m else field k (string t) m

abbrev pub json_if : Text → Json → Fields → Fields
json_if k v m = if is_null v then m else field k v m

abbrev pub plain_tool : Tool → Json
plain_tool t = object (
    field (bytes "type") (string t.tool_type) (
      field (bytes "function")
        (object (
          field (bytes "name") (string t.name) (
            text_if (bytes "description") t.description
              (json_if (bytes "parameters") t.parameters no_fields))))
        no_fields))

abbrev pub plain_tools : List Tool → Items
plain_tools [] = no_items
plain_tools (t ∷ ts) = item (plain_tool t) (plain_tools ts)

-- The keys of the body that are handled elsewhere, and those that only Anthropic knows.
abbrev pub held_keys : List Text
held_keys =
    bytes "model"
    ∷ bytes "messages"
    ∷ bytes "tools"
    ∷ bytes "tool_choice"
    ∷ bytes "temperature"
    ∷ bytes "max_tokens"
    ∷ bytes "max_completion_tokens"
    ∷ bytes "stream"
    ∷ bytes "stream_options"
    ∷ bytes "reasoning_effort"
    ∷ bytes "metadata"
    ∷ bytes "output_config"
    ∷ bytes "context_management"
    ∷ []

abbrev pub put_stream_options : Option Bool → ExtraBody → ExtraBody
put_stream_options none extra = extra
put_stream_options (some b) extra = insert (bytes "stream_options") (stream_options b) extra

-- The extras that the decoder sets itself, one after the other.
unfoldable pub tools_extra : ChatRequest → ExtraBody
tools_extra req =
    put_if (not (is_empty req.tools)) (bytes "tools") (value (array (plain_tools req.tools))) []

unfoldable pub choice_extra : ChatRequest → ExtraBody
choice_extra req =
    put_if (not (is_null req.tool_choice)) (bytes "tool_choice") (value req.tool_choice)
      (tools_extra req)

unfoldable pub effort_extra : ChatRequest → ExtraBody
effort_extra req =
    put_if (not (is_empty req.reasoning_effort)) (bytes "reasoning_effort")
      (value (string req.reasoning_effort)) (choice_extra req)

unfoldable pub own_extra : ChatRequest → ExtraBody
own_extra req = put_stream_options req.stream_options (effort_extra req)

unfoldable pub extra_body : ChatRequest → ExtraBody
extra_body req = copy_fields held_keys req.extra_fields (own_extra req)

unfoldable pub decode_options : ChatRequest → List ProviderOption
decode_options req =
    text_option req.model with_model
    ++ (option_if (first_of (positive req.max_completion_tokens) (positive req.max_tokens))
          with_max_tokens
        ++ (option_if req.temperature with_temperature
            ++ (text_option req.reasoning_effort with_reasoning_effort
                ++ extra_option (extra_body req))))

-- ChatCompletionDecoded.
pub record ChatDecoded : Type 0 where
  pub messages : List Message
  pub options : List ProviderOption
  pub model : Text
  pub stream : Bool
  pub include_usage : Bool
  pub tools_requested : Bool

unfoldable pub decode_request : (Json → Text) → ChatRequest → ChatDecoded
decode_request marshal req = record {
  messages = decode_messages marshal req.messages [];
  options = decode_options req;
  model = req.model;
  stream = req.stream;
  include_usage = or_else req.stream_options false;
  tools_requested = not (is_empty req.tools);
}
