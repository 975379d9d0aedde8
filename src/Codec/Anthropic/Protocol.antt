-- ===== src/Codec/Anthropic/Protocol.antt =====
-- The protocol of an Anthropic stream: one message_start, then the blocks one after the other, each
-- opened once and closed, each delta in an open block of its own kind, then one message_delta and
-- one message_stop. What the comments of pkg/codec/anthropic.go call the SSE state machine.
use ultiproxy.Base.{
  ◌≡◌, refl, Bool, true, false, ◌&&◌, ◌||◌, not, Option, none, some, List, [], ◌∷◌, ◌++◌, ℤ, pos,
  negsuc, eq_ℤ, if◌then◌else◌,
}
use ultiproxy.Ir
use ultiproxy.Ir.{Event}
use ultiproxy.Codec.Anthropic as Anthropic
use ultiproxy.Codec.Anthropic.{
  Opening, opens_text, opens_thinking, opens_tool_use, Delta, thinking_delta, signature_delta,
  input_json_delta, Frame, message_start, content_block_start, content_block_delta,
  content_block_stop, message_delta, message_stop, error_frame,
}
use ultiproxy.Codec.Anthropic.Stream.{no_block, is_started, opening_of}

pub data BlockKind : Type 0 where
  text_kind thinking_kind tool_use_kind : BlockKind

abbrev pub opening_kind : Opening → BlockKind
opening_kind opens_text = text_kind
opening_kind opens_thinking = thinking_kind
opening_kind (opens_tool_use id name) = tool_use_kind

abbrev pub same_kind : BlockKind → BlockKind → Bool
same_kind text_kind text_kind = true
same_kind thinking_kind thinking_kind = true
same_kind tool_use_kind tool_use_kind = true
same_kind j k = false

-- The kind of block that a delta belongs to.
abbrev pub delta_kind : Delta → BlockKind
delta_kind (Anthropic.text_delta t) = text_kind
delta_kind (thinking_delta t) = thinking_kind
delta_kind (signature_delta s) = thinking_kind
delta_kind (input_json_delta a) = tool_use_kind

-- Where a stream stands: `current` is the open block, -1 where none is, and `kind` the kind of the
-- block opened last; `used` are the blocks that have been opened.
pub record Phase : Type 0 where
  pub begun : Bool
  pub current : ℤ
  pub kind : BlockKind
  pub used : List ℤ
  pub summed : Bool
  pub ended : Bool

abbrev pub fresh : Phase
fresh = record {
  begun = false;
  current = no_block;
  kind = text_kind;
  used = [];
  summed = false;
  ended = false;
}

abbrev pub when : Bool → Phase → Option Phase
when b p = if b then some p else none

-- The phase after a frame; `none` where the protocol has no such frame.
unfoldable pub advance : Frame → Phase → Option Phase
advance (message_start id m u) p = when (not p.begun) (record p { begun = true })
advance (content_block_start i o) p =
    when (p.begun && not p.summed && eq_ℤ p.current no_block && not (is_started i p.used))
      (record p { current = i; kind = opening_kind o; used = i ∷ p.used })
advance (content_block_delta i d) p =
    when (not p.summed && eq_ℤ p.current i && same_kind (delta_kind d) p.kind) p
advance (content_block_stop i) p =
    when (not (eq_ℤ i no_block) && eq_ℤ p.current i) (record p { current = no_block })
advance (message_delta r n) p =
    when (p.begun && not p.summed && eq_ℤ p.current no_block) (record p { summed = true })
advance message_stop p = when (p.summed && not p.ended) (record p { ended = true })
advance (error_frame k m) p = some p

abbrev pub after {ℓ} : {A : Type ℓ} → Option Phase → (Phase → Option A) → Option A
after none f = none
after (some p) f = f p

unfoldable pub replay : List Frame → Phase → Option Phase
replay [] p = some p
replay (f ∷ fs) p = after (advance f p) (replay fs)

after-some : (o : Option Phase) → after o (replay []) ≡ o
unfolding replay
after-some none = refl
after-some (some p) = refl

after-after :
    (o : Option Phase) (f k : Phase → Option Phase) (g : Phase → Option Phase)
    → ((p : Phase) → f p ≡ after (g p) k)
    → after o f ≡ after (after o g) k
after-after none f k g h = refl
after-after (some p) f k g h = h p

pub replay-append :
    (fs : List Frame) (f : Frame) (p : Phase)
    → replay (fs ++ (f ∷ [])) p ≡ after (replay fs p) (advance f)
unfolding replay
replay-append [] f p = after-some (advance f p)
replay-append (g ∷ fs) f p = after-after (advance g p) _ _ (replay fs) (λ q. replay-append fs f q)

-- The phase that a provider's events are in, by themselves.
abbrev pub block_phase : ℤ → BlockKind → Phase → Phase
block_phase i k p = record p {
  begun = true;
  current = i;
  kind = (if is_started i p.used then p.kind else k);
  used = (if is_started i p.used then p.used else i ∷ p.used);
}

abbrev pub end_phase : Phase → Phase
end_phase p = record p { begun = true; current = no_block; summed = true; ended = true }

unfoldable pub event_phase : Event → Phase → Phase
event_phase (Ir.message_start id) p = record p { begun = true }
event_phase (Ir.block_start i kind) p = block_phase i (opening_kind (opening_of kind)) p
event_phase (Ir.text_delta i t) p = block_phase i text_kind p
event_phase (Ir.reasoning_delta i t) p = block_phase i thinking_kind p
event_phase (Ir.reasoning_signature i s) p = block_phase i thinking_kind p
event_phase (Ir.tool_call_start i id name) p = block_phase i tool_use_kind p
event_phase (Ir.tool_arguments_delta i a) p = block_phase i tool_use_kind p
event_phase (Ir.tool_call_stop i) p =
    if eq_ℤ p.current i then record p { current = no_block } else p
event_phase (Ir.usage_update u) p = p
event_phase (Ir.message_stop r) p = if p.ended then p else end_phase p
event_phase (Ir.upstream_error k m) p = p

abbrev pub is_index : ℤ → Bool
is_index (pos n) = true
is_index (negsuc n) = false

-- A block event that does not come back to a block that another one has followed.
abbrev pub fits_block : ℤ → Phase → Bool
fits_block i p = is_index i && not p.ended && (eq_ℤ p.current i || not (is_started i p.used))

-- Such an event that, if it goes on with a block, is of the block's kind.
abbrev pub fits_delta : ℤ → BlockKind → Phase → Bool
fits_delta i k p = fits_block i p && (not (is_started i p.used) || same_kind k p.kind)

unfoldable pub fits : Event → Phase → Bool
fits (Ir.message_start id) p = true
fits (Ir.block_start i kind) p = fits_block i p
fits (Ir.text_delta i t) p = fits_delta i text_kind p
fits (Ir.reasoning_delta i t) p = fits_delta i thinking_kind p
fits (Ir.reasoning_signature i s) p = fits_delta i thinking_kind p
fits (Ir.tool_call_start i id name) p = is_index i && not p.ended && not (is_started i p.used)
fits (Ir.tool_arguments_delta i a) p = fits_delta i tool_use_kind p
fits (Ir.tool_call_stop i) p = is_index i
fits (Ir.usage_update u) p = true
fits (Ir.message_stop r) p = true
fits (Ir.upstream_error k m) p = true

-- Events that take the blocks one after the other, each of one kind and each tool call its own, and
-- none after the message's stop.
unfoldable pub in_order : List Event → Phase → Bool
in_order [] p = true
in_order (ev ∷ evs) p = fits ev p && in_order evs (event_phase ev p)

unfoldable pub events_phase : List Event → Phase → Phase
events_phase [] p = p
events_phase (ev ∷ evs) p = events_phase evs (event_phase ev p)

-- Close ends what has begun and has not ended.
unfoldable pub close_phase : Phase → Phase
close_phase p =
    if p.ended then p else if p.begun then end_phase p else record p { current = no_block }
