-- ===== src/Codec/Anthropic/Faithful.antt =====
-- The Anthropic frames, each taken alone, say what the events say. A client that follows the protocol
-- is in Agree.
use ultiproxy.Base.{
  ◌≡◌, refl, ap, ◌∙◌, subst, append_nil, Bool, true, List, [], ◌∷◌, ◌++◌, Text, bytes, ℤ, if_both,
  is_empty, text_eq,
}
use ultiproxy.Ir
use ultiproxy.Ir.{Event}
use ultiproxy.Codec.Out.{Accepting, ◌then_do◌}
use ultiproxy.Codec.Said.{
  Saying, text, reasoning, arguments, unless_empty, call_said, event_said, all_said,
}
use ultiproxy.Codec.Says.{Speaker, said, Says, emit-Says, silent, then_do-Says, drop_error}
use ultiproxy.Codec.Anthropic.{
  Opening, opens_text, opens_thinking, opens_tool_use, Delta, text_delta, thinking_delta,
  signature_delta, input_json_delta, Frame, message_start, content_block_start, content_block_delta,
  content_block_stop, message_delta, message_stop, error_frame,
}
use ultiproxy.Codec.Anthropic.Stream.{
  Encoder, emit, ensure_message_start, idle, stop_active_block_if_needed, turn_to, start_block,
  open_block, opening_of, encode_delta, encode_call_stop, stop_open_block, write_message_delta,
  encode_stop, encode_event, close_block, close_message, close, encode_all,
}

abbrev opening_said : ℤ → Opening → List Saying
opening_said i opens_text = []
opening_said i opens_thinking = []
opening_said i (opens_tool_use id name) = call_said i id name

abbrev delta_said : ℤ → Delta → List Saying
delta_said i (text_delta t) = unless_empty t (text t)
delta_said i (thinking_delta t) = unless_empty t (reasoning t)
delta_said i (signature_delta s) = []
delta_said i (input_json_delta a) = unless_empty a (arguments i a)

-- What a frame says where the protocol has it.
unfoldable pub frame_said : Frame → List Saying
frame_said (message_start id m u) = []
frame_said (content_block_start i o) = opening_said i o
frame_said (content_block_delta i d) = delta_said i d
frame_said (content_block_stop i) = []
frame_said (message_delta r n) = []
frame_said message_stop = []
frame_said (error_frame k m) = []

abbrev pub speaker : Speaker
speaker = record {
  Encoder = Encoder;
  Frame = Frame;
  out = λ e. e.out;
  with_out = λ e o. record e { out = o };
  out-with_out = λ e o. refl;
  frame_said = frame_said;
}

abbrev Quiet : Encoder → Encoder × Bool → Type 0
Quiet e r = Says speaker [] (said speaker e) r

-- A frame that says nothing, written from an encoder that differs in its other fields.
emit-Quiet : (f : Frame) (e : Encoder) → Accepting e.out → frame_said f ≡ [] → Quiet e (emit f e)
unfolding emit
emit-Quiet f e a h =
    subst (λ l. Says speaker l (said speaker e) (emit f e)) h (emit-Says speaker f e a)

ensure_message_start-Quiet : (e : Encoder) → Accepting e.out → Quiet e (ensure_message_start e)
unfolding ensure_message_start frame_said
ensure_message_start-Quiet e a =
    if_both (Quiet e) e.started _ _ (silent speaker e a)
      (emit-Quiet _ (record e { started = true }) a refl)

then_idle :
    (i : ℤ) (e : Encoder) → Accepting e.out → Quiet e (emit (content_block_stop i) e then_do idle)
unfolding frame_said
then_idle i e a =
    then_do-Says speaker _ (emit-Quiet (content_block_stop i) e a refl)
      (λ e' a'. silent speaker (record e' { active_block_index = _ }) a')

turn_to-Quiet : (i : ℤ) (e : Encoder) → Accepting e.out → Quiet e (turn_to i e)
unfolding turn_to stop_active_block_if_needed
turn_to-Quiet i e a = then_do-Says speaker _ (ensure_message_start-Quiet e a) (λ e' a'.
    if_both (Quiet e') _ _ _ (then_idle e'.active_block_index e' a') (silent speaker e' a'))

start_block-Says :
    (i : ℤ) (o : Opening) (e : Encoder)
    → Accepting e.out
    → Says speaker (opening_said i o) (said speaker e) (start_block i o e)
unfolding start_block emit frame_said
start_block-Says i o e a =
    emit-Says speaker (content_block_start i o)
      (record e { started_blocks = i ∷ e.started_blocks; active_block_index = i }) a

open_block-Quiet :
    (i : ℤ) (o : Opening) (e : Encoder)
    → Accepting e.out
    → opening_said i o ≡ []
    → Quiet e (open_block i o e)
unfolding open_block
open_block-Quiet i o e a h =
    if_both (Quiet e) _ _ _ (silent speaker e a) (
      subst (λ l. Says speaker l (said speaker e) (start_block i o e)) h (start_block-Says i o e a))

encode_delta-Says :
    (i : ℤ) (o : Opening) (d : Delta) (e : Encoder)
    → Accepting e.out
    → opening_said i o ≡ []
    → Says speaker (delta_said i d) (said speaker e) (encode_delta i o d e)
unfolding encode_delta emit frame_said
encode_delta-Says i o d e a h =
    then_do-Says speaker _
      (then_do-Says speaker _ (turn_to-Quiet i e a) (λ e' a'. open_block-Quiet i o e' a' h))
      (λ e' a'. emit-Says speaker (content_block_delta i d) e' a')

opening_of-quiet : (i : ℤ) (kind : Text) → opening_said i (opening_of kind) ≡ []
opening_of-quiet i kind =
    if_both (λ o. opening_said i o ≡ []) (text_eq kind (bytes "thinking")) opens_thinking _ refl
      (if_both (λ o. opening_said i o ≡ []) (text_eq kind (bytes "tool_use")) (opens_tool_use [] [])
        opens_text refl refl)

encode_stop-Quiet : (reason : Text) (e : Encoder) → Accepting e.out → Quiet e (encode_stop reason e)
unfolding encode_stop stop_open_block frame_said
encode_stop-Quiet reason e a = if_both (Quiet e) e.stopped _ _ (silent speaker e a) (
    then_do-Says speaker _
      (then_do-Says speaker _
        (then_do-Says speaker _ (ensure_message_start-Quiet e a) (λ e' a'.
          if_both (Quiet e') _ _ _ (silent speaker e' a') (then_idle e'.active_block_index e' a')))
        (λ e' a'. emit-Quiet _ e' a' refl))
      (λ e' a'. emit-Quiet message_stop (record e' { stopped = true }) a' refl))

encode_event-Says :
    (ev : Event) (e : Encoder)
    → Accepting e.out
    → Says speaker (event_said ev) (said speaker e) (encode_event ev e)
unfolding encode_event encode_call_stop frame_said
encode_event-Says (Ir.message_start id) e a =
    if_both (λ e'. Quiet e (ensure_message_start e')) (is_empty id) _ _
      (ensure_message_start-Quiet e a) (ensure_message_start-Quiet (record e { message_id = id }) a)
encode_event-Says (Ir.block_start i kind) e a =
    then_do-Says speaker _ (turn_to-Quiet i e a)
      (λ e' a'. open_block-Quiet i (opening_of kind) e' a' (opening_of-quiet i kind))
encode_event-Says (Ir.text_delta i t) e a = encode_delta-Says i _ _ e a refl
encode_event-Says (Ir.reasoning_delta i t) e a = encode_delta-Says i _ _ e a refl
encode_event-Says (Ir.reasoning_signature i s) e a = encode_delta-Says i _ _ e a refl
encode_event-Says (Ir.tool_call_start i id name) e a =
    then_do-Says speaker _ (turn_to-Quiet i e a)
      (λ e' a'. start_block-Says i (opens_tool_use id name) e' a')
encode_event-Says (Ir.tool_arguments_delta i t) e a = encode_delta-Says i _ _ e a refl
encode_event-Says (Ir.tool_call_stop i) e a =
    if_both (Quiet e) _ _ _
      (emit-Quiet (content_block_stop i) (record e { active_block_index = _ }) a refl)
      (silent speaker e a)
encode_event-Says (Ir.usage_update u) e a = silent speaker (record e { usage = _ }) a
encode_event-Says (Ir.message_stop reason) e a = encode_stop-Quiet reason e a
encode_event-Says (Ir.upstream_error kind message) e a =
    emit-Quiet (error_frame kind message) e a refl

encode_all-Says :
    (evs : List Event) (e : Encoder)
    → Accepting e.out
    → Says speaker (all_said event_said evs) (said speaker e) (encode_all evs e)
unfolding encode_all all_said
encode_all-Says [] e a = silent speaker e a
encode_all-Says (ev ∷ evs) e a =
    then_do-Says speaker _ (encode_event-Says ev e a) (λ e' a'. encode_all-Says evs e' a')

-- The steps of Close, whose errors are dropped.
close_block-Quiet : (e : Encoder) → Accepting e.out → Quiet e (close_block e, true)
unfolding frame_said
close_block-Quiet e a =
    let q = emit-Quiet (content_block_stop e.active_block_index) e a refl in
    if_both (λ e'. Quiet e (e', true)) _ _ _ (silent speaker e a)
      (record { accepting = q.accepting; accepted = refl; said_more = q.said_more })

close_message-Quiet : (e : Encoder) → Accepting e.out → Quiet e (close_message e, true)
unfolding frame_said
close_message-Quiet e a =
    let p = emit-Quiet (message_delta (bytes "end_turn") e.usage.output_tokens) e a refl in
    let q =
      then_do-Says speaker _ (drop_error speaker (write_message_delta (bytes "end_turn") e) p)
        (λ e' a'. emit-Quiet message_stop e' a' refl) in
    if_both (λ e'. Quiet e (e', true)) e.started _ _
      (record { accepting = q.accepting; accepted = refl; said_more = q.said_more })
      (silent speaker e a)

close-Quiet : (e : Encoder) → Accepting e.out → Quiet e (close e)
unfolding close
close-Quiet e a = if_both (Quiet e) e.stopped _ _ (silent speaker e a) (
    then_do-Says speaker (close_block e, true) (close_block-Quiet e a)
      (λ e' a'. close_message-Quiet e' a'))

-- The whole stream on a writer that takes every write: the reader is told what the events say.
pub stream-says :
    (evs : List Event) (e : Encoder)
    → Accepting e.out
    → said speaker (encode_all evs e then_do close).0 ≡ said speaker e ++ all_said event_said evs
stream-says evs e a =
    (then_do-Says speaker _ (encode_all-Says evs e a) (λ e' a'. close-Quiet e' a')).said_more
    ∙ ap (λ l. said speaker e ++ l) (append_nil _)
