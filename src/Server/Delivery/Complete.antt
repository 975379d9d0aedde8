-- ===== src/Server/Delivery/Complete.antt =====
-- When a streamed request counts as complete, and what the client has got then.
use ultiproxy.Base.{
  append_nil, append_assoc, ◌≡◌, sym, Bool, true, false, not, List, [], ◌∷◌, ◌++◌, ◌&&◌, ◌⊎◌,
  is_empty, arith,
}
use ultiproxy.Server.Delivery.{
  Event, upstream_error, Arrival, Delivered, deliver_one, deliver_error, deliver_rest,
  deliver_first, close_encoder, deliver, stream_complete,
}

module _ {U : Type 0} where
  abbrev pub is_error : Event U → Bool
  is_error (upstream_error kind retry) = true
  is_error _ = false

  -- An upstream error has a kind.
  abbrev is_named : Event U → Bool
  is_named (upstream_error kind retry) = not (is_empty kind)
  is_named _ = true

  unfoldable pub all_named : List (Arrival U) → Bool
  all_named [] = true
  all_named (a ∷ arrivals) = is_named a.event && all_named arrivals

  -- No upstream error, a client that is there, and an encoder that works, for each.
  unfoldable pub all_delivered : List (Arrival U) → Bool
  all_delivered [] = true
  all_delivered (a ∷ arrivals) =
      not (is_error a.event) && not a.gone && a.encoded && all_delivered arrivals

  abbrev pub events_of : List (Arrival U) → List (Event U)
  events_of [] = []
  events_of (a ∷ arrivals) = a.event ∷ events_of arrivals

  failed-incomplete :
      (arrivals : List (Arrival U)) (s : Delivered U)
      → s.delivery_failed ≡ true
      → stream_complete (deliver_rest arrivals s) ≡ false
  unfolding deliver_rest deliver_one deliver_error stream_complete
  failed-incomplete [] s h = ground arith
  failed-incomplete (a ∷ arrivals) s h =
      ground (arith, failed-incomplete arrivals (deliver_one a s))

  delivered_complete :
      (arrivals : List (Arrival U)) (s : Delivered U)
      → s.delivery_failed ≡ false
      → s.error_class ≡ []
      → all_named arrivals ≡ true
      → stream_complete (deliver_rest arrivals s) ≡ all_delivered arrivals
  unfolding deliver_rest deliver_one deliver_error stream_complete all_named all_delivered
  delivered_complete [] s h k n = ground arith
  delivered_complete (a ∷ arrivals) s h k n = ground (
    arith,
    failed-incomplete arrivals (deliver_one a s),
    delivered_complete arrivals (deliver_one a s),
  )

  delivered_frames :
      (arrivals : List (Arrival U)) (s : Delivered U)
      → s.delivery_failed ≡ false
      → all_delivered arrivals ≡ true
      → (deliver_rest arrivals s).frames ≡ s.frames ++ events_of arrivals
  unfolding deliver_rest deliver_one deliver_error all_delivered
  delivered_frames [] s h k = sym (append_nil s.frames)
  delivered_frames (a ∷ arrivals) s h k = ground (
    arith,
    delivered_frames arrivals (deliver_one a s),
    append_assoc s.frames (a.event ∷ []) (events_of arrivals),
  )

  -- A stream whose upstream errors all have a kind is recorded as complete exactly if every one of
  -- its events was encoded for a client that was there, none after the first was an upstream
  -- error, and the encoder closed; and then the client has got all its events, in order.
  pub complete_iff_delivered :
      (a : Arrival U) (arrivals : List (Arrival U)) (closed : Bool)
      → all_named arrivals ≡ true
      → (stream_complete (deliver a arrivals closed)
          ≡ (a.encoded && all_delivered arrivals && closed))
        × ((stream_complete (deliver a arrivals closed) ≡ false)
            ⊎ ((deliver a arrivals closed).frames ≡ a.event ∷ events_of arrivals))
  unfolding deliver close_encoder deliver_first stream_complete
  complete_iff_delivered a arrivals closed n = ground (
    arith,
    delivered_complete arrivals (deliver_first a),
    delivered_frames arrivals (deliver_first a),
    failed-incomplete arrivals (deliver_first a),
  )
