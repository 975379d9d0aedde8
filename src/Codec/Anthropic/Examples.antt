-- ===== src/Codec/Anthropic/Examples.antt =====
-- The theorems on the Anthropic format at concrete inputs, and runs of its encoder.
use ultiproxy.Base.{
  ◌≡◌, refl, true, false, Option, none, some, List, [], ◌∷◌, map, text_eq, Text, bytes, pos,
}
use ultiproxy.Base.Json.{Json, object, no_fields}
use ultiproxy.Ir.{
  Event, message_start, text_delta, reasoning_delta, tool_call_start, tool_arguments_delta,
  tool_call_stop, message_stop,
}
use ultiproxy.Codec.Out.{fprintf, ◌then_do◌}
use ultiproxy.Codec.Agree.{sink}
use ultiproxy.Codec.Anthropic.Stream.{
  new_encoder, encode_all, close, encode_event, encode_delta, emit, turn_to, ensure_message_start,
  stop_active_block_if_needed, open_block, start_block, is_started,
}
use ultiproxy.Codec.Anthropic.Protocol.{
  fresh, advance, replay, in_order, fits, event_phase, events_phase, close_phase,
}
use ultiproxy.Codec.Anthropic.Conforms.Whole.{stream_conforms}
use ultiproxy.Codec.Anthropic.Request.{decode_message}
use ultiproxy.Codec.Anthropic.Response.{encode_blocks}
use ultiproxy.Codec.Anthropic.Echo.{
  Part, says, thinks, redacts, calls, parts_blocks, returned, echo, echoed_answer,
}

-- Thinking, text and a tool call, each in its own block.
abbrev stream : List Event
stream =
    message_start (bytes "m1")
    ∷ reasoning_delta (pos 0) (bytes "hm")
    ∷ text_delta (pos 1) (bytes "ok")
    ∷ tool_call_start (pos 2) (bytes "c1") (bytes "look")
    ∷ tool_arguments_delta (pos 2) (bytes "{}")
    ∷ tool_call_stop (pos 2)
    ∷ message_stop (bytes "tool_calls")
    ∷ []

stream-in_order : in_order stream fresh ≡ true
unfolding in_order fits event_phase is_started
stream-in_order = refl

stream_conforms_example :
    replay
      (encode_all stream (
          new_encoder
            (record { accepts = λ n. true; attempts = 0; written = [] })
            (bytes "m")
            (bytes "id"))
        then_do close).0.out.written
      fresh
    ≡ some (close_phase (events_phase stream fresh))
stream_conforms_example =
    stream_conforms stream (bytes "m") (bytes "id") (λ n. true) (λ n. refl) stream-in_order

-- A text and a tool call that both have the index 0, as an OpenAI-shaped upstream numbers them:
-- the block 0 is opened a second time while it is open.
text_then_call :
    replay
      (encode_all
        (text_delta (pos 0) (bytes "ok") ∷ tool_call_start (pos 0) (bytes "c1") (bytes "look") ∷ [])
        (new_encoder sink (bytes "m") (bytes "id"))).0.out.written
      fresh
    ≡ none
unfolding replay advance encode_all encode_event encode_delta emit turn_to ensure_message_start
    stop_active_block_if_needed open_block start_block is_started new_encoder fprintf
text_then_call = refl

-- A reasoning text and a text that both have the index 0, as a lane without block numbers sends
-- them: the text is written into the thinking block.
reasoning_then_text :
    replay
      (encode_all
        (reasoning_delta (pos 0) (bytes "hm") ∷ text_delta (pos 0) (bytes "ok") ∷ [])
        (new_encoder sink (bytes "m") (bytes "id"))).0.out.written
      fresh
    ≡ none
unfolding replay advance encode_all encode_event encode_delta emit turn_to ensure_message_start
    stop_active_block_if_needed open_block start_block is_started new_encoder fprintf
reasoning_then_text = refl

-- Stand-ins for encoding/json on the one value below.
abbrev marshal : Json → Text
marshal v = bytes "{}"

abbrev unmarshal : Text → Option Json
unmarshal t = some (object no_fields)

abbrev answer : List Part
answer =
    thinks (bytes "summary") (bytes "hm") (bytes "sig") (bytes "blob")
    ∷ redacts (bytes "xyz") [] []
    ∷ says (bytes "ok")
    ∷ calls (pos 0) (bytes "c1") (bytes "look") (object no_fields)
    ∷ calls (pos 1) (bytes "c2") (bytes "look") (object no_fields)
    ∷ []

echoed_answer_example :
    (decode_message marshal
      (echo (encode_blocks unmarshal (parts_blocks marshal answer) ([], false)).0)).blocks
    ≡ parts_blocks marshal (map returned answer)
unfolding text_eq
echoed_answer_example =
    echoed_answer marshal unmarshal answer (refl, (tt, (tt, ((refl, refl), ((refl, refl), tt)))))
