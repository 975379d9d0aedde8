-- ===== src/Server/Dispatch/Kept.antt =====
-- What a round of dispatchRequest, pkg/server/handlers.go, leaves of the telemetry rows.
use ultiproxy.Base.{
  ℕ, ◌≡◌, refl, ap, inl, inr, ◌⊎◌, ℤ, pos, Bool, true, false, not, Option, none, some, List, [],
  ◌&&◌, Text, if_both, is_some, arith,
}
use ultiproxy.Provider.Registry.{Provider, Registry}
use ultiproxy.Provider.Registry
use ultiproxy.Server.Upstream.{LaneError, error_class_from_error}
use ultiproxy.Server.Dispatch.{
  Streamed, refused, empty_stream, client_gone, flows, Generated, failed, responds, Upstream,
  Request, attempt_row, Reply, not_found, not_configured, no_tools, Dispatch, Round, goes_on, ends,
  next, track_attempt, record_request, track_usage, fail_provider, stream_attempt, generate_attempt,
  first_event, finish_stream, call_lane, attempt_bundle, attempt_lane,
}
use ultiproxy.Server.Delivery.{Event, upstream_error, usage_update, message_stop, content, Arrival}
use ultiproxy.Server.Dispatch.Once.{give_up}
use ultiproxy.Server.Dispatch.Rows.{
  is_ledger, is_open, IsWaiting, track_attempt-IsOpen, track_usage-IsOpen, record_request-ledger,
  record_waiting-ledger,
}

module _ {U : Type 0} where
  -- The answers that end a dispatch without a terminal row.
  abbrev pub skips : Reply U → Bool
  skips not_found = true
  skips not_configured = true
  skips no_tools = true
  skips reply = false

  -- How a dispatch ends; `opened` tells whether a row was in flight before its last round.
  abbrev pub Left : Bool → Dispatch U → Reply U → Type 0
  Left opened d reply =
      (is_ledger d.rows ≡ true) ⊎ ((opened ≡ true) × (skips reply ≡ true) × (is_open d.rows ≡ true))

  abbrev pub Ends : Dispatch U × Reply U → Type 0
  Ends r = (is_ledger r.0.rows ≡ true) ⊎ ((skips r.1 ≡ true) × (is_open r.0.rows ≡ true))

  -- A round that goes on has not written the terminal row.
  abbrev pub Kept : Bool → Round U → Type 0
  Kept opened (goes_on d) = IsWaiting d
  Kept opened (ends d reply) = Left opened d reply

  -- The end of a dispatch that writes no row.
  pub skipped-Left :
      (d : Dispatch U) (reply : Reply U)
      → IsWaiting d
      → skips reply ≡ true
      → Left d.request_opened d reply
  unfolding is_ledger
  skipped-Left d reply (inl (t, o, r)) h = inl (ap is_ledger r)
  skipped-Left d reply (inr (inl (t, o, w, r))) h = inr (o, h, r)
  skipped-Left d reply (inr (inr (w, o, r))) h = inl (ap is_ledger r)

  failed-Kept :
      (lane : Text) (n : ℕ) (class : Text) (retry : ℤ) (d : Dispatch U)
      → IsWaiting d
      → Kept d.request_opened
          (goes_on (fail_provider lane (track_attempt (attempt_row n lane 502 class retry) d)))
  failed-Kept lane n class retry d h = inr (track_attempt-IsOpen n lane 502 class retry d h)

  done-ledger :
      (n : ℕ) (lane : Text) (usage : Option U) (reason class : Text) (complete : Bool)
      (d : Dispatch U)
      → IsWaiting d
      → is_ledger
          (record_request reason class complete
            (track_usage usage (track_attempt (attempt_row n lane 200 [] (pos 0)) d))).rows
        ≡ true
  done-ledger n lane usage reason class complete d h =
      let d' = track_attempt (attempt_row n lane 200 [] (pos 0)) d in
      record_request-ledger reason class complete (track_usage usage d')
        (track_usage-IsOpen usage d' (track_attempt-IsOpen n lane 200 [] (pos 0) d h))

  first_event-Kept :
      (n : ℕ) (lane : Text) (a : Arrival U) (arrivals : List (Arrival U)) (closed : Bool)
      (e : Event U) (d : Dispatch U)
      → IsWaiting d
      → Kept d.request_opened (first_event n lane a arrivals closed e d)
  unfolding first_event finish_stream
  first_event-Kept n lane a arrivals closed (upstream_error kind retry) d h =
      failed-Kept lane n kind retry _ h
  first_event-Kept n lane a arrivals closed (usage_update u) d h =
      inl (done-ledger n lane _ _ _ _ d h)
  first_event-Kept n lane a arrivals closed (message_stop r) d h =
      inl (done-ledger n lane _ _ _ _ d h)
  first_event-Kept n lane a arrivals closed (content m) d h = inl (done-ledger n lane _ _ _ _ d h)

  stream_attempt-Kept :
      (n : ℕ) (lane : Text) (s : Streamed U) (d : Dispatch U)
      → IsWaiting d
      → Kept d.request_opened (stream_attempt n lane s d)
  unfolding stream_attempt
  stream_attempt-Kept n lane (refused e) d h = failed-Kept lane n _ _ _ h
  stream_attempt-Kept n lane empty_stream d h = failed-Kept lane n _ _ d h
  stream_attempt-Kept n lane client_gone d h = inl (record_waiting-ledger [] _ false d h)
  stream_attempt-Kept n lane (flows a arrivals closed) d h =
      first_event-Kept n lane a arrivals closed a.event d h

  generate_attempt-Kept :
      (n : ℕ) (lane : Text) (g : Generated U) (d : Dispatch U)
      → IsWaiting d
      → Kept d.request_opened (generate_attempt n lane g d)
  unfolding generate_attempt
  generate_attempt-Kept n lane (failed e) d h = failed-Kept lane n _ _ _ h
  generate_attempt-Kept n lane (responds reason usage encoded written) d h =
      if_both (Kept d.request_opened) (not encoded) _ _
        (inl (done-ledger n lane usage [] _ false d h))
        (if_both (Kept d.request_opened) written _ _
          (inl (done-ledger n lane usage reason [] true d h))
          (inl (done-ledger n lane usage reason _ false d h)))

  call_lane-Kept :
      (req : Request) (up : Text → ℕ → Upstream U) (n : ℕ) (lane : Text) (p : Provider)
      (d : Dispatch U)
      → IsWaiting d
      → Kept d.request_opened (call_lane req up n lane p d)
  unfolding call_lane is_ledger
  call_lane-Kept req up n lane p d h =
      if_both (Kept d.request_opened) (req.tools_requested && not p.tools) _ _
        (skipped-Left d no_tools h refl)
        (if_both (Kept d.request_opened) req.stream _ _
          (stream_attempt-Kept n lane (up lane n).stream d h)
          (generate_attempt-Kept n lane (up lane n).generate d h))

  attempt_bundle-Kept :
      (req : Request) (up : Text → ℕ → Upstream U) (n : ℕ) (lane : Text) (p : Option Provider)
      (d : Dispatch U)
      → IsWaiting d
      → Kept d.request_opened (attempt_bundle req up n lane p d)
  unfolding attempt_bundle
  attempt_bundle-Kept req up n lane none d h = h
  attempt_bundle-Kept req up n lane (some p) d h =
      if_both (Kept d.request_opened) (is_some p.inference) _ _
        (call_lane-Kept req up n lane p (record d { last_provider = lane }) h) h

  pub attempt_lane-Kept :
      (req : Request) (up : Text → ℕ → Upstream U) (n : ℕ) (lane : Text) (r : Option Registry)
      (d : Dispatch U)
      → IsWaiting d
      → Kept d.request_opened (attempt_lane req up n lane r d)
  unfolding attempt_lane is_ledger
  attempt_lane-Kept req up n lane none d h = skipped-Left d not_configured h refl
  attempt_lane-Kept req up n lane (some r) d h =
      attempt_bundle-Kept req up n lane (Registry.get lane r) d h

  pub give_up-ledger :
      (e : LaneError) (d : Dispatch U) → IsWaiting d → is_ledger (give_up e d).0.rows ≡ true
  unfolding is_ledger
  give_up-ledger e d (inl (t, o, r)) = ground arith
  give_up-ledger e d (inr (inl (t, o, w, r))) =
      let k =
        record_request-ledger [] (error_class_from_error (some e)) false d (inl (t, o, w, r)) in
      ground (arith, k)
  give_up-ledger e d (inr (inr (w, o, r))) = ground arith

  pub next-ledger :
      (e : LaneError) (round : Round U)
      → Kept false round
      → is_ledger (next (give_up e) round).0.rows ≡ true
  unfolding next
  next-ledger e (goes_on d) h = give_up-ledger e d h
  next-ledger e (ends d reply) (inl h) = h
  next-ledger e (ends d reply) (inr (o, h, r)) = cc

  -- Some rounds, each of which keeps what there is.
  pub next-Left :
      (opened : Bool) (loop : Dispatch U → Dispatch U × Reply U) (round : Round U)
      → Kept opened round
      → ((d : Dispatch U) → IsWaiting d → Ends (loop d))
      → Ends (next loop round)
  unfolding next
  next-Left opened loop (goes_on d) h k = k d h
  next-Left opened loop (ends d reply) (inl h) k = inl h
  next-Left opened loop (ends d reply) (inr (o, h, r)) k = inr (h, r)
