-- ===== src/Codec/OpenAi/Named.antt =====
-- Tool results get the names of the calls that they answer: pkg/codec/openai.go.
use ultiproxy.Base.{
  ◌≡◌, refl, ap, ◌∙◌, sym, ℕ, not, ◌&&◌, Option, none, some, List, [], ◌∷◌, ◌++◌, Text, bytes,
  is_empty, text_eq, if◌then◌else◌, or_else, lookup, insert, lookup-insert, arith,
}
use ultiproxy.Base.Json.{Json}
use ultiproxy.Ir.{tool_result_block, Message}
use ultiproxy.Codec.OpenAi.{ToolCall}
use ultiproxy.Codec.OpenAi.Request.{
  ChatMessage, Names, note_calls, result_content, result_blocks, reasoning_blocks, call_blocks,
  decode_role, decode_message, decode_messages,
}

-- The name of the last call with an id, `none` if no call with a name has it.
abbrev later : Option Text → Option Text → Option Text
later none o = o
later (some t) o = some t

abbrev named_call : Text → ToolCall → Option Text
named_call id c =
    if text_eq c.call_id id && (not (is_empty c.call_id) && not (is_empty c.name))
    then some c.name
    else none

abbrev last_call : Text → List ToolCall → Option Text
last_call id [] = none
last_call id (c ∷ cs) = later (last_call id cs) (named_call id c)

abbrev pub last_called : Text → List ChatMessage → Option Text
last_called id [] = none
last_called id (m ∷ ms) = later (last_called id ms) (last_call id m.tool_calls)

later_assoc : (a b c : Option Text) → later (later a b) c ≡ later a (later b c)
later_assoc none b c = refl
later_assoc (some t) b c = refl

note_one :
    (id : Text) (c : ToolCall) (names : Names)
    → lookup id (
        if not (is_empty c.call_id) && not (is_empty c.name)
        then insert c.call_id c.name names
        else names)
      ≡ later (named_call id c) (lookup id names)
note_one id c names = ground (arith, lookup-insert c.call_id id c.name names)

lookup-note_calls :
    (id : Text) (cs : List ToolCall) (names : Names)
    → lookup id (note_calls cs names) ≡ later (last_call id cs) (lookup id names)
unfolding note_calls
lookup-note_calls id [] names = refl
lookup-note_calls id (c ∷ cs) names =
    lookup-note_calls id cs _
    ∙ ap (later (last_call id cs)) (note_one id c names)
    ∙ sym (later_assoc (last_call id cs) (named_call id c) (lookup id names))

later-none : (o : Option Text) → later o none ≡ o
later-none none = refl
later-none (some t) = refl

module _ (marshal : Json → Text) where
  -- The names after a list of messages.
  abbrev pub names_after : List ChatMessage → Names → Names
  names_after [] names = names
  names_after (m ∷ ms) names = names_after ms (decode_message marshal m names).1

  lookup-names_after :
      (id : Text) (ms : List ChatMessage) (names : Names)
      → lookup id (names_after ms names) ≡ later (last_called id ms) (lookup id names)
  unfolding decode_message
  lookup-names_after id [] names = refl
  lookup-names_after id (m ∷ ms) names =
      lookup-names_after id ms _
      ∙ ap (later (last_called id ms)) (lookup-note_calls id m.tool_calls names)
      ∙ sym (later_assoc (last_called id ms) (last_call id m.tool_calls) (lookup id names))

  decode_messages-append :
      (ms : List ChatMessage) (m : ChatMessage) (names : Names)
      → decode_messages marshal (ms ++ (m ∷ [])) names
        ≡ decode_messages marshal ms names
          ++ ((decode_message marshal m (names_after ms names)).0 ∷ [])
  unfolding decode_messages
  decode_messages-append [] m names = refl
  decode_messages-append (n ∷ ms) m names =
      ap (λ l. (decode_message marshal n names).0 ∷ l)
        (decode_messages-append ms m (decode_message marshal n names).1)

  -- A tool message that carries no name itself, at the end of a conversation.
  abbrev pub tool_message : Text → Json → ChatMessage
  tool_message id content = record {
    role = bytes "tool";
    content = content;
    reasoning_content = [];
    tool_calls = [];
    tool_call_id = id;
    name = [];
  }

  -- The decoded result of the tool call id, under a name.
  abbrev pub decoded_result : Text → Text → Json → Message
  decoded_result id name content = record {
    role = bytes "tool";
    blocks =
        some (
          tool_result_block
            (record { tool_call_id = id; name = name; content = result_content marshal content }))
        ∷ [];
    meta = [];
  }

-- The result of a tool call that a client sends without the tool's name is decoded under the name
-- of the last call with its id in the conversation before it, and under none if there is no such
-- call; the messages before it are decoded as without it.
pub tool_result_named :
    (marshal : Json → Text) (ms : List ChatMessage) (c : ℕ) (id : Text) (content : Json)
    → decode_messages marshal (ms ++ (tool_message marshal (c ∷ id) content ∷ [])) []
      ≡ decode_messages marshal ms []
        ++ (decoded_result marshal (c ∷ id) (or_else (last_called (c ∷ id) ms) []) content ∷ [])
unfolding decode_message decode_role text_eq reasoning_blocks call_blocks note_calls result_blocks
    lookup
tool_result_named marshal ms c id content =
    decode_messages-append marshal ms _ []
    ∙ ap
        (λ o.
          decode_messages marshal ms []
          ++ (decoded_result marshal (c ∷ id) (or_else o []) content ∷ []))
        (lookup-names_after marshal (c ∷ id) ms [] ∙ later-none (last_called (c ∷ id) ms))
