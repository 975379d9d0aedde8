-- ===== src/Codec/Anthropic/Conforms/Whole.antt =====
-- A whole stream of the Anthropic encoder of pkg/codec/anthropic.go.
use ultiproxy.Base.{◌≡◌, refl, ℕ, Bool, true, some, List, [], ◌∷◌, Text, if_both, is_empty, arith}
use ultiproxy.Ir
use ultiproxy.Ir.{Event}
use ultiproxy.Codec.Out.{◌then_do◌}
use ultiproxy.Codec.Anthropic.{error_frame}
use ultiproxy.Codec.Anthropic.Stream.{Encoder, encode_event, encode_all, close, new_encoder}
use ultiproxy.Codec.Anthropic.Protocol.{
  Phase, fresh, advance, replay, fits, event_phase, in_order, events_phase, close_phase,
}
use ultiproxy.Codec.Anthropic.Conforms.{
  Reaches, emit-Reaches, then_do-Reaches, rewritten, ensure_message_start-Reaches,
}
use ultiproxy.Codec.Anthropic.Conforms.Blocks.{
  open_block-Reaches, encode_delta-Reaches, call_start-Reaches, call_stop-Reaches,
}
use ultiproxy.Codec.Anthropic.Conforms.Stop.{encode_stop-Reaches}
use ultiproxy.Codec.Anthropic.Conforms.Close.{close-Reaches}

pub encode_event-Reaches :
    (ev : Event) (e : Encoder) (p : Phase)
    → Reaches p (e, true)
    → fits ev p ≡ true
    → Reaches (event_phase ev p) (encode_event ev e)
unfolding fits event_phase encode_event advance
encode_event-Reaches (Ir.message_start id) e p r h = ensure_message_start-Reaches _ p (
    if_both (λ e'. Reaches p (e', true)) (is_empty id) e (record e { message_id = id }) r
      (record { run = rewritten e _ p r.run refl; at = r.at }))
encode_event-Reaches (Ir.block_start i kind) e p r h = open_block-Reaches i _ e p r h
encode_event-Reaches (Ir.text_delta i t) e p r h = encode_delta-Reaches i _ _ e p r h refl
encode_event-Reaches (Ir.reasoning_delta i t) e p r h = encode_delta-Reaches i _ _ e p r h refl
encode_event-Reaches (Ir.reasoning_signature i s) e p r h = encode_delta-Reaches i _ _ e p r h refl
encode_event-Reaches (Ir.tool_call_start i id name) e p r h = call_start-Reaches i _ e p r h
encode_event-Reaches (Ir.tool_arguments_delta i a) e p r h = encode_delta-Reaches i _ _ e p r h refl
encode_event-Reaches (Ir.tool_call_stop i) e p r h = call_stop-Reaches i e p r h
encode_event-Reaches (Ir.usage_update u) e p r h = record {
  run = rewritten e _ p r.run refl;
  at = r.at;
}
encode_event-Reaches (Ir.message_stop reason) e p r h = encode_stop-Reaches reason e p r
encode_event-Reaches (Ir.upstream_error kind message) e p r h =
    emit-Reaches (error_frame kind message) e p p r.run refl r.at

pub encode_all-Reaches :
    (evs : List Event) (e : Encoder) (p : Phase)
    → Reaches p (e, true)
    → in_order evs p ≡ true
    → Reaches (events_phase evs p) (encode_all evs e)
unfolding in_order events_phase encode_all
encode_all-Reaches [] e p r h = r
encode_all-Reaches (ev ∷ evs) e p r h =
    then_do-Reaches (encode_event ev e) (encode_event-Reaches ev e p r (ground arith))
      (λ e' r'. encode_all-Reaches evs e' (event_phase ev p) r' (ground arith))

-- On a writer that takes every write, the frames of a stream whose events take the blocks one
-- after the other, each of one kind, Close included, are a run of the Anthropic protocol: each block
-- is opened once, with no other one open, and closed, every delta is in an open block of its kind,
-- and one message_start comes before and one message_delta and one message_stop after. The run ends where the events say.
pub stream_conforms :
    (evs : List Event) (model id : Text) (accepts : ℕ → Bool)
    → ((n : ℕ) → accepts n ≡ true)
    → in_order evs fresh ≡ true
    → replay
        (encode_all evs
            (new_encoder (record { accepts = accepts; attempts = 0; written = [] }) model id)
          then_do close).0.out.written
        fresh
      ≡ some (close_phase (events_phase evs fresh))
unfolding new_encoder replay
stream_conforms evs model id accepts a h =
    let start : Reaches fresh
        (new_encoder (record { accepts = accepts; attempts = 0; written = [] }) model id, true) =
      record {
        run = record { accepting = a; accepted = refl; replayed = refl };
        at = record {
          begun = refl;
          current = refl;
          used = refl;
          ended = refl;
          summed = refl;
          held = refl;
        };
      } in
    (then_do-Reaches _ (encode_all-Reaches evs _ fresh start h)
      (λ e r. close-Reaches e (events_phase evs fresh) r)).run.replayed
