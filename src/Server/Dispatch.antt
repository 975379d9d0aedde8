-- ===== src/Server/Dispatch.antt =====
-- dispatchRequest of pkg/server/handlers.go: the attempts, the telemetry rows and the answer. What
-- the lanes answer and how the delivery to the client goes are parameters, and so is the type of
-- a usage. The registry, the catalog and the switches may change between two attempts: the router of
-- an attempt is what its Route reads, and the server's registry is the router's. Message bodies, options and clocks are left out.
pub mod Rows
pub mod Kept
pub mod Ledger
pub mod Refusal
pub mod Once
mod Examples
use ultiproxy.Base.{
  ℕ, suc, zero, ◌+◌, ℤ, pos, Bool, true, false, not, Option, none, some, List, [], ◌∷◌, ◌++◌, ◌&&◌,
  ◌||◌, Text, bytes, leb, ltb, if◌then◌else◌, is_empty, is_some, insert,
}
use ultiproxy.Provider.Registry.{Provider, Registry, len}
use ultiproxy.Provider.Registry
use ultiproxy.Server.Router.{
  RouteError, disabled_model, unknown_model, no_providers, unavailable, ok, err, Routed,
  RegistryRouter, Excluded, route,
}
use ultiproxy.Server.Delivery.{
  Event, usage_update, message_stop, upstream_error, content, Arrival, Delivered, deliver,
  stream_complete,
}
use ultiproxy.Server.Upstream.{LaneError, error_class_from_error}

-- What comes of a call of Stream.
pub data Streamed (U : Type 0) : Type 0 where
  refused : LaneError → Streamed U
  empty_stream client_gone : Streamed U
  flows : Arrival U → List (Arrival U) → Bool → Streamed U

-- What comes of a call of Generate: at the end, whether encodeResponse and Write succeed.
pub data Generated (U : Type 0) : Type 0 where
  failed : LaneError → Generated U
  responds : Text → Option U → Bool → Bool → Generated U

pub record Upstream (U : Type 0) : Type 0 where
  pub stream : Streamed U
  pub generate : Generated U

pub record Request : Type 0 where
  pub model : Text
  pub stream : Bool
  pub tools_requested : Bool

-- The telemetry rows of one dispatch, all with its id.
pub data Row (U : Type 0) : Type 0 where
  in_flight : Text → Row U
  attempt_row : ℕ → Text → ℕ → Text → ℤ → Row U
  usage_row : U → Row U
  request_row : Text → Text → Text → Bool → Row U

pub data Reply (U : Type 0) : Type 0 where
  not_found not_configured no_tools abandoned encode_failed answered : Reply U
  before_commit : Option LaneError → Reply U
  event_stream : List (Event U) → Reply U

-- The variables of dispatchRequest; `has_writer` is whether the server has a telemetry writer.
pub record Dispatch (U : Type 0) : Type 0 where
  pub has_writer : Bool
  pub request_opened : Bool
  pub request_tracked : Bool
  pub last_provider : Text
  pub failed_providers : Excluded
  pub last_err : Option LaneError
  pub rows : List (Row U)

-- What a round of the loop comes to.
pub data Round (U : Type 0) : Type 0 where
  goes_on : Dispatch U → Round U
  ends : Dispatch U → Reply U → Round U

module _ {U : Type 0} where
  abbrev pub start : Bool → Dispatch U
  start has_writer = record {
    has_writer = has_writer;
    request_opened = false;
    request_tracked = false;
    last_provider = [];
    failed_providers = [];
    last_err = none;
    rows = [];
  }

  abbrev pub add_row : Row U → Dispatch U → Dispatch U
  add_row r d = record d { rows = d.rows ++ (r ∷ []) }

  unfoldable pub open_request_row : Dispatch U → Dispatch U
  open_request_row d =
      if not d.has_writer || d.request_opened
      then d
      else record d { request_opened = true; rows = d.rows ++ (in_flight d.last_provider ∷ []) }

  unfoldable pub track_attempt : Row U → Dispatch U → Dispatch U
  track_attempt r d = if d.has_writer then add_row r (open_request_row d) else d

  unfoldable pub record_request : Text → Text → Bool → Dispatch U → Dispatch U
  record_request finish_reason error_class complete d =
      if not d.has_writer || d.request_tracked
      then d
      else add_row (request_row d.last_provider finish_reason error_class complete)
          (open_request_row (record d { request_tracked = true }))

  unfoldable pub track_usage : Option U → Dispatch U → Dispatch U
  track_usage none d = d
  track_usage (some u) d = if d.has_writer then add_row (usage_row u) d else d

  abbrev pub fail_provider : Text → Dispatch U → Dispatch U
  fail_provider lane d = record d { failed_providers = insert lane true d.failed_providers }

  unfoldable pub finish_stream : ℕ → Text → Delivered U → Dispatch U → Round U
  finish_stream n lane s d =
      ends
        (record_request s.finish_reason s.error_class (stream_complete s)
          (track_usage s.last_usage (track_attempt (attempt_row n lane 200 [] (pos 0)) d)))
        (event_stream s.frames)

  abbrev failed_attempt : ℕ → Text → Text → ℤ → Dispatch U → Round U
  failed_attempt n lane class retry d =
      goes_on (fail_provider lane (track_attempt (attempt_row n lane 502 class retry) d))

  -- The first event, if it is no upstream error, commits the headers.
  unfoldable pub first_event :
      ℕ → Text → Arrival U → List (Arrival U) → Bool → Event U → Dispatch U → Round U
  first_event n lane a arrivals closed (upstream_error kind retry) d =
      failed_attempt n lane kind retry (record d {
        last_err = some (record { message = bytes "upstream error: " ++ kind; http_status = none });
      })
  first_event n lane a arrivals closed _ d = finish_stream n lane (deliver a arrivals closed) d

  unfoldable pub stream_attempt : ℕ → Text → Streamed U → Dispatch U → Round U
  stream_attempt n lane (refused e) d =
      failed_attempt n lane (bytes "stream_sync_error") (pos 0) (record d { last_err = some e })
  stream_attempt n lane empty_stream d = failed_attempt n lane (bytes "stream_empty") (pos 0) d
  stream_attempt n lane client_gone d =
      ends (record_request [] (bytes "client_disconnected") false d) abandoned
  stream_attempt n lane (flows a arrivals closed) d = first_event n lane a arrivals closed a.event d

  unfoldable pub generate_attempt : ℕ → Text → Generated U → Dispatch U → Round U
  generate_attempt n lane (failed e) d =
      failed_attempt n lane (bytes "generate_error") (pos 0) (record d { last_err = some e })
  generate_attempt n lane (responds reason usage encoded written) d =
      let d' = track_usage usage (track_attempt (attempt_row n lane 200 [] (pos 0)) d) in
      if not encoded
      then ends (record_request [] (bytes "response_encode_failed") false d') encode_failed
      else if written
      then ends (record_request reason [] true d') answered
      else ends (record_request reason (bytes "client_write_failed") false d') abandoned

  -- The attempt on a registered bundle with an Inference.
  unfoldable pub call_lane :
      Request → (Text → ℕ → Upstream U) → ℕ → Text → Provider → Dispatch U → Round U
  call_lane req upstreams n lane prov d =
      if req.tools_requested && not prov.tools
      then ends d no_tools
      else if req.stream
      then stream_attempt n lane (upstreams lane n).stream d
      else generate_attempt n lane (upstreams lane n).generate d

  -- `prov, ok := s.registry.Get(provName)`.
  unfoldable pub attempt_bundle :
      Request → (Text → ℕ → Upstream U) → ℕ → Text → Option Provider → Dispatch U → Round U
  attempt_bundle req upstreams n lane none d = goes_on (fail_provider lane d)
  attempt_bundle req upstreams n lane (some prov) d =
      if is_some prov.inference
      then call_lane req upstreams n lane prov (record d { last_provider = lane })
      else goes_on (fail_provider lane d)

  -- The attempt on the lane that the router has chosen.
  unfoldable pub attempt_lane :
      Request → (Text → ℕ → Upstream U) → ℕ → Text → Option Registry → Dispatch U → Round U
  attempt_lane req upstreams n lane none d = ends d not_configured
  attempt_lane req upstreams n lane (some r) d =
      attempt_bundle req upstreams n lane (Registry.get lane r) d

  -- A round that goes on is followed by the rest of the loop.
  unfoldable pub next : (Dispatch U → Dispatch U × Reply U) → Round U → Dispatch U × Reply U
  next loop (goes_on d) = loop d
  next loop (ends d reply) = (d, reply)

  -- Route answered with an error that is no UnknownModelError; its text is a parameter.
  unfoldable pub no_lane : LaneError → Dispatch U → Round U
  no_lane e d =
      ends
        (if d.request_opened
          then record_request [] (error_class_from_error (some e)) false d
          else d)
        (before_commit d.last_err)

module _ {F : Type 0} where
  unfoldable pub max_attempts : RegistryRouter F → ℕ
  max_attempts router = elim router.registry [
    | none ↦ 3
    | some r ↦ if ltb 3 (len r) then len r else 3
  ]

module _ {U F : Type 0} where
  unfoldable pub after_route :
      (RouteError → LaneError)
      → Request
      → (Text → ℕ → Upstream U)
      → ℕ
      → RegistryRouter F
      → Routed
      → Dispatch U
      → Round U
  after_route text req upstreams n router (err (unknown_model m)) d = ends d not_found
  after_route text req upstreams n router (err (disabled_model m)) d = ends d not_found
  after_route text req upstreams n router (err e) d = no_lane (text e) d
  after_route text req upstreams n router (ok lane) d =
      attempt_lane req upstreams n lane router.registry d

  unfoldable pub attempt :
      (RouteError → LaneError)
      → Request
      → (Text → ℕ → Upstream U)
      → ℕ
      → RegistryRouter F
      → Dispatch U
      → Round U
  attempt text req upstreams n router d =
      after_route text req upstreams n router (route d.failed_providers req.model router) d

  -- The loop, with the number of attempts that are left; `router n` is the router at the attempt n,
  -- and at the start for n = 0.
  unfoldable pub attempts :
      (RouteError → LaneError)
      → Request
      → (Text → ℕ → Upstream U)
      → (ℕ → RegistryRouter F)
      → ℕ
      → ℕ
      → Dispatch U
      → Dispatch U × Reply U
  attempts text req upstreams router zero n d =
      (record_request [] (error_class_from_error d.last_err) false d, before_commit d.last_err)
  attempts text req upstreams router (suc left) n d =
      next (attempts text req upstreams router left (suc n))
        (attempt text req upstreams n (router n) d)

  unfoldable pub dispatch_request :
      (RouteError → LaneError)
      → Request
      → (Text → ℕ → Upstream U)
      → (ℕ → RegistryRouter F)
      → Bool
      → Dispatch U × Reply U
  dispatch_request text req upstreams router has_writer =
      attempts text req upstreams router (max_attempts (router 0)) 1 (start has_writer)
