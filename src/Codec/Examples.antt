-- ===== src/Codec/Examples.antt =====
-- The agreement of the stream encoders at a concrete stream.
use ultiproxy.Base.{◌≡◌, refl, true, List, [], ◌∷◌, bytes, pos}
use ultiproxy.Ir.{
  Event, message_start, text_delta, tool_call_start, tool_arguments_delta, tool_call_stop,
  message_stop,
}
use ultiproxy.Codec.Anthropic.Stream.{is_started}
use ultiproxy.Codec.Anthropic.Protocol.{fresh, in_order, fits, event_phase}
use ultiproxy.Codec.Said.{event_said, all_said}
use ultiproxy.Codec.Agree.{openai_told, anthropic_told, clients_told_alike}

abbrev stream : List Event
stream =
    message_start (bytes "m1")
    ∷ text_delta (pos 0) (bytes " hi\n")
    ∷ tool_call_start (pos 1) (bytes "c1") (bytes "look")
    ∷ tool_arguments_delta (pos 1) (bytes "{}")
    ∷ tool_call_stop (pos 1)
    ∷ message_stop (bytes "tool_calls")
    ∷ []

stream-in_order : in_order stream fresh ≡ true
unfolding in_order fits event_phase is_started
stream-in_order = refl

clients_told_alike_example :
    (openai_told (bytes "glm") (bytes "id") (pos 7) true stream
      ≡ anthropic_told (bytes "glm") (bytes "id2") stream)
    × (anthropic_told (bytes "glm") (bytes "id2") stream ≡ all_said event_said stream)
clients_told_alike_example =
    clients_told_alike stream (bytes "glm") (bytes "id") (pos 7) true (bytes "glm") (bytes "id2")
      stream-in_order
