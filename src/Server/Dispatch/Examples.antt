-- ===== src/Server/Dispatch/Examples.antt =====
-- Dispatches at concrete inputs.
use ultiproxy.Base.{
  ℕ, ◌≡◌, refl, ◌⊎◌, true, false, none, some, [], ◌∷◌, ◌++◌, ◌&&◌, Text, bytes, if◌then◌else◌, ltb,
  pos, starts_with, to_lower, lookup, insert, text_eq,
}
use ultiproxy.Provider.Registry.{Registry, len}
use ultiproxy.Provider.Registry
use ultiproxy.Server.Models.{slash}
use ultiproxy.Server.Router.{
  RouteError, RegistryRouter, route, route_enabled, route_alias, route_prefix, is_excluded,
  switched_off, ok,
}
use ultiproxy.Server.Upstream.{LaneError}
use ultiproxy.Server.Dispatch.{
  refused, flows, failed, responds, Upstream, Request, in_flight, attempt_row, not_found,
  dispatch_request, max_attempts, attempts, attempt, after_route, attempt_lane, attempt_bundle,
  call_lane, stream_attempt, track_attempt, open_request_row, next,
}
use ultiproxy.Server.Delivery.{message_stop, content, Arrival, deliver, stream_complete}
use ultiproxy.Server.Dispatch.Once.{one_lane_only}
use ultiproxy.Server.Dispatch.Rows.{is_ledger, is_open}
use ultiproxy.Server.Dispatch.Ledger.{dispatch-ledger}
use ultiproxy.Server.Dispatch.Kept.{skips}
use ultiproxy.Server.Delivery.Complete.{complete_iff_delivered, all_delivered, all_named, events_of}

abbrev lane_named : Text → Registry.Call
lane_named name = Registry.registers (record {
  inference = some (record { name = name; object = 1 });
  quota = none;
  auth = none;
  tools = true;
})

abbrev zai : Text
zai = bytes "zai"

abbrev codex : Text
codex = bytes "codex"

abbrev lanes : Registry
lanes = Registry.run Registry.new_registry (lane_named zai ∷ lane_named codex ∷ [])

abbrev router : RegistryRouter ℕ
router = record { registry = some lanes; sm = none; catalog = none }

abbrev model : Text
model = zai ++ slash ++ bytes "glm-6"

abbrev request : Request
request = record { model = model; stream = true; tools_requested = false }

abbrev error_text : RouteError → LaneError
error_text e = record { message = bytes "no lane"; http_status = none }

abbrev good : Arrival ℕ
good = record { event = content 1; gone = false; encoded = true }

abbrev last : Arrival ℕ
last = record { event = message_stop (bytes "stop"); gone = false; encoded = true }

abbrev fine : Upstream ℕ
fine = record {
  stream = flows good (last ∷ []) true;
  generate = responds (bytes "stop") (some 7) true true;
}

abbrev broken : Upstream ℕ
broken = record {
  stream = refused (record { message = bytes "status 429"; http_status = some 429 });
  generate = failed (record { message = bytes "status 429"; http_status = some 429 });
}

-- The lane zai is broken; codex works, or not.
abbrev codex_fine : Text → ℕ → Upstream ℕ
codex_fine lane n = if text_eq lane zai then broken else fine

abbrev all_broken : Text → ℕ → Upstream ℕ
all_broken lane n = broken

zai_routes : route [] model router ≡ ok zai
unfolding route switched_off route_enabled Registry.run Registry.step Registry.new_registry lookup
    insert text_eq starts_with to_lower
zai_routes = refl

one_lane_only_example :
    dispatch_request error_text request codex_fine (λ n. router) true
    ≡ dispatch_request error_text request all_broken (λ n. router) true
unfolding text_eq
one_lane_only_example =
    one_lane_only error_text request codex_fine all_broken router true zai zai_routes refl

-- After the first attempt the lane zai is deregistered.
abbrev codex_only : RegistryRouter ℕ
codex_only = record {
  registry = some (Registry.run Registry.new_registry (lane_named codex ∷ []));
  sm = none;
  catalog = none;
}

abbrev routers : ℕ → RegistryRouter ℕ
routers n = if ltb n 2 then router else codex_only

dispatch-ledger_example :
    (is_ledger (dispatch_request error_text request codex_fine (λ n. router) true).0.rows ≡ true)
    × (let changing = dispatch_request error_text request codex_fine routers true in
        (is_ledger changing.0.rows ≡ true)
        ⊎ ((skips changing.1 ≡ true) × (is_open changing.0.rows ≡ true)))
dispatch-ledger_example = dispatch-ledger error_text request codex_fine router routers true

-- The second attempt finds the model unknown, and the request row stays in flight.
left_in_flight : dispatch_request error_text request codex_fine routers true ≡ (
  record {
    has_writer = true;
    request_opened = true;
    request_tracked = false;
    last_provider = zai;
    failed_providers = (zai, true) ∷ [];
    last_err = some (record { message = bytes "status 429"; http_status = some 429 });
    rows = in_flight zai ∷ attempt_row 1 zai 502 (bytes "stream_sync_error") (pos 0) ∷ [];
  },
  not_found,
)
unfolding dispatch_request max_attempts attempts attempt after_route attempt_lane attempt_bundle
    call_lane stream_attempt track_attempt open_request_row next len text_eq route switched_off
    route_enabled route_alias route_prefix is_excluded Registry.run Registry.step
    Registry.new_registry lookup insert starts_with to_lower Registry.get Registry.names
left_in_flight = refl

complete_iff_delivered_example :
    (stream_complete (deliver good (last ∷ []) true) ≡ (true && all_delivered (last ∷ []) && true))
    × ((stream_complete (deliver good (last ∷ []) true) ≡ false)
        ⊎ ((deliver good (last ∷ []) true).frames ≡ content 1 ∷ events_of (last ∷ [])))
unfolding all_named
complete_iff_delivered_example = complete_iff_delivered good (last ∷ []) true refl
