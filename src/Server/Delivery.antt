-- ===== src/Server/Delivery.antt =====
-- The delivery of a stream to the client, in dispatchRequest of pkg/server/handlers.go.
pub mod Complete
use ultiproxy.Base.{
  ℕ, ℤ, Bool, true, false, not, Option, none, some, List, [], ◌∷◌, ◌++◌, ◌&&◌, Text, bytes,
  if◌then◌else◌, is_empty,
}

-- The events of a stream, as far as the dispatcher looks at them.
pub data Event (U : Type 0) : Type 0 where
  usage_update : U → Event U
  message_stop : Text → Event U
  upstream_error : Text → ℤ → Event U
  content : ℕ → Event U

-- An event that arrives, whether the client is found gone then, and whether EncodeEvent succeeds.
pub record Arrival (U : Type 0) : Type 0 where
  pub event : Event U
  pub gone : Bool
  pub encoded : Bool

-- What has been delivered of a stream.
pub record Delivered (U : Type 0) : Type 0 where
  pub delivery_failed : Bool
  pub error_class : Text
  pub finish_reason : Text
  pub last_usage : Option U
  pub frames : List (Event U)

-- The class of a failed delivery never masks an earlier one.
abbrev classify_delivery : Text → Text → Text
classify_delivery class old = if is_empty old then class else old

module _ {U : Type 0} where
  abbrev fail_delivery : Text → Delivered U → Delivered U
  fail_delivery class s = record s {
    delivery_failed = true;
    error_class = classify_delivery class s.error_class;
  }

  -- The usage and the finish reason are taken from an event whether or not it can be delivered.
  abbrev note_event : Event U → Delivered U → Delivered U
  note_event (usage_update u) s = record s { last_usage = some u }
  note_event (message_stop reason) s = record s { finish_reason = reason }
  note_event _ s = s

  unfoldable pub deliver_one : Arrival U → Delivered U → Delivered U
  deliver_one a s =
      let s' = note_event a.event s in
      if s.delivery_failed
      then s'
      else if a.gone
      then fail_delivery (bytes "client_disconnected") s'
      else if a.encoded
      then record s' { frames = s.frames ++ (a.event ∷ []) }
      else fail_delivery (bytes "stream_encode_failed") s'

  -- An upstream error in the middle: its frame is written, and the loop is left.
  unfoldable pub deliver_error : Text → Arrival U → Delivered U → Delivered U
  deliver_error kind a s =
      if a.encoded
      then record s { error_class = kind; frames = s.frames ++ (a.event ∷ []) }
      else record s { error_class = kind; delivery_failed = true }

  unfoldable pub deliver_rest : List (Arrival U) → Delivered U → Delivered U
  deliver_rest [] s = s
  deliver_rest (a ∷ arrivals) s = elim a.event [
    | upstream_error kind retry ↦ deliver_error kind a s
    | usage_update u ↦ deliver_rest arrivals (deliver_one a s)
    | message_stop reason ↦ deliver_rest arrivals (deliver_one a s)
    | content n ↦ deliver_rest arrivals (deliver_one a s)
  ]

  abbrev stop_reason : Event U → Text
  stop_reason (message_stop reason) = reason
  stop_reason _ = []

  -- The first event, which commits the headers; its usage is not looked at.
  unfoldable pub deliver_first : Arrival U → Delivered U
  deliver_first a = record {
    delivery_failed = not a.encoded;
    error_class = if a.encoded then [] else bytes "stream_encode_failed";
    finish_reason = stop_reason a.event;
    last_usage = none;
    frames = if a.encoded then a.event ∷ [] else [];
  }

  unfoldable pub close_encoder : Bool → Delivered U → Delivered U
  close_encoder closed s =
      if closed then s else fail_delivery (bytes "stream_encode_close_failed") s

  -- The stream after its first event, up to the close of the encoder.
  unfoldable pub deliver : Arrival U → List (Arrival U) → Bool → Delivered U
  deliver a arrivals closed = close_encoder closed (deliver_rest arrivals (deliver_first a))

  unfoldable pub stream_complete : Delivered U → Bool
  stream_complete s = is_empty s.error_class && not s.delivery_failed
