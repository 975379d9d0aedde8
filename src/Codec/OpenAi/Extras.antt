-- ===== src/Codec/OpenAi/Extras.antt =====
-- Which fields of a chat completion's body go along to the lane: pkg/codec/openai.go.
use ultiproxy.Base.{
  ◌≡◌, refl, ◌∙◌, Bool, false, not, Option, none, some, [], Text, bytes, is_empty, text_eq,
  if◌then◌else◌, lookup, lookup-insert, elem, arith,
}
use ultiproxy.Base.Json.{is_null, array, string}
use ultiproxy.Codec.Options.{
  Extra, value, stream_options, ExtraBody, lookup-copy_fields, row_if, forwarded, lookup-put_if,
}
use ultiproxy.Codec.OpenAi.Options.{
  ChatRequest, plain_tools, held_keys, put_stream_options, tools_extra, choice_extra, effort_extra,
  own_extra, extra_body,
}

abbrev stream_options_row : Option Bool → Option Extra
stream_options_row none = none
stream_options_row (some b) = some (stream_options b)

abbrev tools_row : ChatRequest → Option Extra
tools_row req = row_if (not (is_empty req.tools)) (value (array (plain_tools req.tools)))

abbrev choice_row : ChatRequest → Option Extra
choice_row req = row_if (not (is_null req.tool_choice)) (value req.tool_choice)

abbrev effort_row : ChatRequest → Option Extra
effort_row req = row_if (not (is_empty req.reasoning_effort)) (value (string req.reasoning_effort))

-- What the lane gets under a key: the decoder's own four rows, nothing for the other keys that it
-- handles or drops, and the body's field for all others.
abbrev pub extra_row : ChatRequest → Text → Option Extra
extra_row req k =
    if text_eq (bytes "stream_options") k
    then stream_options_row req.stream_options
    else if text_eq (bytes "reasoning_effort") k
    then effort_row req
    else if text_eq (bytes "tool_choice") k
    then choice_row req
    else if text_eq (bytes "tools") k
    then tools_row req
    else if elem k held_keys
    then none
    else forwarded (lookup k req.extra_fields)

lookup-put_stream_options :
    (k : Text) (o : Option Bool) (extra : ExtraBody)
    → lookup (bytes "stream_options") extra ≡ none
    → lookup k (put_stream_options o extra)
      ≡ (if text_eq (bytes "stream_options") k then stream_options_row o else lookup k extra)
lookup-put_stream_options k (some b) extra h =
    lookup-insert (bytes "stream_options") k (stream_options b) extra
lookup-put_stream_options k none extra h =
    lookup-put_if k (bytes "stream_options") false (stream_options false) extra h

lookup-tools_extra :
    (req : ChatRequest) (k : Text)
    → lookup k (tools_extra req) ≡ (if text_eq (bytes "tools") k then tools_row req else none)
unfolding tools_extra lookup
lookup-tools_extra req k = lookup-put_if k (bytes "tools") _ _ [] refl

lookup-choice_extra :
    (req : ChatRequest) (k : Text)
    → lookup k (choice_extra req)
      ≡ (if text_eq (bytes "tool_choice") k then choice_row req else lookup k (tools_extra req))
unfolding choice_extra text_eq
lookup-choice_extra req k =
    lookup-put_if k (bytes "tool_choice") _ _ (tools_extra req)
      (lookup-tools_extra req (bytes "tool_choice"))

lookup-effort_extra :
    (req : ChatRequest) (k : Text)
    → lookup k (effort_extra req) ≡ (
        if text_eq (bytes "reasoning_effort") k
        then effort_row req
        else lookup k (choice_extra req))
unfolding effort_extra text_eq
lookup-effort_extra req k =
    let j = bytes "reasoning_effort" in
    lookup-put_if k j _ _ (choice_extra req) (lookup-choice_extra req j ∙ lookup-tools_extra req j)

lookup-own_extra :
    (req : ChatRequest) (k : Text)
    → lookup k (own_extra req) ≡ (
        if text_eq (bytes "stream_options") k
        then stream_options_row req.stream_options
        else lookup k (effort_extra req))
unfolding own_extra text_eq
lookup-own_extra req k =
    let j = bytes "stream_options" in
    lookup-put_stream_options k req.stream_options (effort_extra req)
      (lookup-effort_extra req j ∙ lookup-choice_extra req j ∙ lookup-tools_extra req j)

-- For every key, the extra body of a decoded chat completion holds exactly: the decoder's own
-- rows for the tools, the tool choice, the reasoning effort and the stream options, each where the
-- request has it; nothing for the other keys that the decoder handles, nor for those that only
-- Anthropic knows; and for any other key the field of the body, unchanged.
pub lookup-extra_body : (req : ChatRequest) (k : Text) → lookup k (extra_body req) ≡ extra_row req k
unfolding extra_body elem
lookup-extra_body req k =
    lookup-copy_fields k held_keys req.extra_fields (own_extra req)
    ∙ ground (
      arith,
      lookup-own_extra req k,
      lookup-effort_extra req k,
      lookup-choice_extra req k,
      lookup-tools_extra req k,
    )
