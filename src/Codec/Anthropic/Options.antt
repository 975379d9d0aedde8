-- ===== src/Codec/Anthropic/Options.antt =====
-- DecodeMessagesRequest of pkg/codec/anthropic.go: the options and the extra fields.
use ultiproxy.Base.{
  ℤ, pos, ltb_ℤ, Bool, not, Option, none, some, List, [], ◌∷◌, ◌++◌, Text, bytes, is_empty, insert,
}
use ultiproxy.Base.Json.{Json, is_null}
use ultiproxy.Ir.{Message}
use ultiproxy.Codec.Options.{
  value, thinking, budget, typed_tools, ExtraBody, ProviderOption, with_model, with_max_tokens,
  with_temperature, copy_fields, positive, option_if, text_option, put_if, extra_option,
}
use ultiproxy.Codec.Anthropic.Request.{AnthropicMessage, system_messages, decode_messages}

-- ThinkingConfig.
pub record ThinkingConfig : Type 0 where
  pub kind : Text
  pub budget_tokens : ℤ

-- AnthropicTool: name, description and input_schema.
abbrev pub Tool : Type 0
Tool = Text × Text × Json

-- AnthropicMessagesRequest. `extra_fields` is the whole body.
pub record MessagesRequest : Type 0 where
  pub model : Text
  pub messages : List AnthropicMessage
  pub system : Json
  pub max_tokens : ℤ
  pub temperature : Option Text
  pub thinking : Option ThinkingConfig
  pub tools : List Tool
  pub tool_choice : Json
  pub stream : Bool
  pub extra_fields : List (Text × Json)

abbrev pub held_keys : List Text
held_keys =
    bytes "model"
    ∷ bytes "messages"
    ∷ bytes "system"
    ∷ bytes "max_tokens"
    ∷ bytes "temperature"
    ∷ bytes "thinking"
    ∷ bytes "tools"
    ∷ bytes "tool_choice"
    ∷ bytes "stream"
    ∷ bytes "metadata"
    ∷ bytes "output_config"
    ∷ bytes "context_management"
    ∷ []

-- The extras that the decoder sets itself, one after the other.
abbrev pub thinking_extra : Option ThinkingConfig → ExtraBody
thinking_extra none = []
thinking_extra (some t) =
    put_if (ltb_ℤ (pos 0) t.budget_tokens) (bytes "budget_tokens") (budget t.budget_tokens)
      (insert (bytes "thinking") (thinking t.kind t.budget_tokens) [])

unfoldable pub tools_extra : MessagesRequest → ExtraBody
tools_extra req =
    put_if (not (is_empty req.tools)) (bytes "tools") (typed_tools req.tools)
      (thinking_extra req.thinking)

unfoldable pub own_extra : MessagesRequest → ExtraBody
own_extra req =
    put_if (not (is_null req.tool_choice)) (bytes "tool_choice") (value req.tool_choice)
      (tools_extra req)

unfoldable pub extra_body : MessagesRequest → ExtraBody
extra_body req = copy_fields held_keys req.extra_fields (own_extra req)

unfoldable pub decode_options : MessagesRequest → List ProviderOption
decode_options req =
    text_option req.model with_model
    ++ (option_if (positive (some req.max_tokens)) with_max_tokens
        ++ (option_if req.temperature with_temperature ++ extra_option (extra_body req)))

-- MessagesDecoded.
pub record MessagesDecoded : Type 0 where
  pub messages : List Message
  pub options : List ProviderOption
  pub model : Text
  pub stream : Bool
  pub tools_requested : Bool

unfoldable pub decode_request : (Json → Text) → MessagesRequest → MessagesDecoded
decode_request marshal req = record {
  messages = system_messages req.system ++ decode_messages marshal req.messages;
  options = decode_options req;
  model = req.model;
  stream = req.stream;
  tools_requested = not (is_empty req.tools);
}
