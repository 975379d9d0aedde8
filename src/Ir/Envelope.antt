-- ===== src/Ir/Envelope.antt =====
-- How a message is wrapped for JSON and unwrapped: Message.MarshalJSON and UnmarshalJSON of
-- pkg/ir/types.go, up to encoding/json, which writes and reads the envelopes.
use ultiproxy.Base.{
  Bool, false, Option, none, some, List, [], ◌∷◌, Text, bytes, ℤ, pos, if◌then◌else◌, text_eq,
}
use ultiproxy.Ir.{
  Block, text_block, image_block, tool_call_block, tool_result_block, reasoning_block,
  cache_control, other_block, block_kind, Message,
}

pub record Envelope : Type 0 where
  pub kind : Text
  pub text : Text
  pub url : Text
  pub detail : Text
  pub index : ℤ
  pub call_id : Text
  pub name : Text
  pub arguments : Text
  pub tool_call_id : Text
  pub content : Text
  pub reason_kind : Text
  pub signature : Text
  pub opaque : Text
  pub breakpoint : Bool

-- `rawBlockEnvelope{BlockKind: kind}`: the other fields are zero.
abbrev pub empty_envelope : Text → Envelope
empty_envelope k = record {
  kind = k;
  text = [];
  url = [];
  detail = [];
  index = pos 0;
  call_id = [];
  name = [];
  arguments = [];
  tool_call_id = [];
  content = [];
  reason_kind = [];
  signature = [];
  opaque = [];
  breakpoint = false;
}

-- The struct `aux` of MarshalJSON and `raw` of UnmarshalJSON.
pub record Wire : Type 0 where
  pub role : Text
  pub blocks : List Envelope
  pub meta : List (Text × Text)

-- The body of MarshalJSON's loop; `none` is its error.
unfoldable pub wrap : Block → Option Envelope
unfolding block_kind
wrap (text_block t) = some (record (empty_envelope (block_kind (text_block t))) { text = t })
wrap (image_block b) =
    some (record (empty_envelope (block_kind (image_block b))) { url = b.url; detail = b.detail })
wrap (tool_call_block b) = some (record (empty_envelope (block_kind (tool_call_block b))) {
  index = b.index;
  call_id = b.call_id;
  name = b.name;
  arguments = b.arguments;
})
wrap (tool_result_block b) = some (record (empty_envelope (block_kind (tool_result_block b))) {
  tool_call_id = b.tool_call_id;
  name = b.name;
  content = b.content;
})
wrap (reasoning_block b) = some (record (empty_envelope (block_kind (reasoning_block b))) {
  reason_kind = b.reasoning_kind;
  text = b.text;
  signature = b.signature;
  opaque = b.opaque;
})
wrap (cache_control b) =
    some (record (empty_envelope (block_kind (cache_control b))) { breakpoint = b })
wrap (other_block k) = none

abbrev pub cons_option {ℓ} : {A : Type ℓ} → Option A → Option (List A) → Option (List A)
cons_option none o = none
cons_option (some a) none = none
cons_option (some a) (some l) = some (a ∷ l)

unfoldable pub wrap_all : List (Option Block) → Option (List Envelope)
wrap_all [] = some []
wrap_all (none ∷ bs) = wrap_all bs
wrap_all (some b ∷ bs) = cons_option (wrap b) (wrap_all bs)

abbrev wire_of : Message → Option (List Envelope) → Option Wire
wire_of m none = none
wire_of m (some es) = some (record { role = m.role; blocks = es; meta = m.meta })

unfoldable pub to_wire : Message → Option Wire
to_wire m = wire_of m (wrap_all m.blocks)

unfoldable pub unwrap : Envelope → Option Block
unwrap e =
    if text_eq e.kind (bytes "text")
    then some (text_block e.text)
    else if text_eq e.kind (bytes "image")
    then some (image_block (record { url = e.url; detail = e.detail }))
    else if text_eq e.kind (bytes "tool_call")
    then some (
        tool_call_block
          (record { index = e.index; call_id = e.call_id; name = e.name; arguments = e.arguments }))
    else if text_eq e.kind (bytes "tool_result")
    then some (
        tool_result_block
          (record { tool_call_id = e.tool_call_id; name = e.name; content = e.content }))
    else if text_eq e.kind (bytes "reasoning")
    then some (
        reasoning_block (record {
          reasoning_kind = e.reason_kind;
          text = e.text;
          signature = e.signature;
          opaque = e.opaque;
        }))
    else if text_eq e.kind (bytes "cache_control")
    then some (cache_control e.breakpoint)
    else none

abbrev pub held : Option Block → Option (Option Block)
held none = none
held (some b) = some (some b)

-- The loop of UnmarshalJSON.
unfoldable pub unwrap_all : List Envelope → Option (List (Option Block))
unwrap_all [] = some []
unwrap_all (e ∷ es) = cons_option (held (unwrap e)) (unwrap_all es)

abbrev message_of : Wire → Option (List (Option Block)) → Option Message
message_of w none = none
message_of w (some bs) = some (record { role = w.role; blocks = bs; meta = w.meta })

unfoldable pub of_wire : Wire → Option Message
of_wire w = message_of w (unwrap_all w.blocks)
