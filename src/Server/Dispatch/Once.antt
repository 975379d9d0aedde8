-- ===== src/Server/Dispatch/Once.antt =====
-- How many lanes a dispatch tries.
use ultiproxy.Base.{
  ℕ, suc, ◌-◌, ◌≤◌, ◌≡◌, refl, sym, ◌∙◌, ap, Bool, true, false, not, Option, none, some, List, [],
  ◌&&◌, Text, if◌then◌else◌, is_some, if_both, insert, arith,
}
use ultiproxy.Provider.Registry.{Provider, Registry, len}
use ultiproxy.Provider.Registry
use ultiproxy.Server.Router.{RouteError, unavailable, ok, err, RegistryRouter, Excluded, route}
use ultiproxy.Server.Upstream.{LaneError, error_class_from_error}
use ultiproxy.Server.Dispatch.{
  refused, empty_stream, client_gone, flows, failed, responds, Streamed, Generated, Upstream,
  Request, Row, Reply, Dispatch, Round, goes_on, ends, next, record_request, fail_provider,
  track_attempt, open_request_row, stream_attempt, generate_attempt, first_event, finish_stream,
  before_commit, start, attempts, attempt, after_route, attempt_lane, attempt_bundle, call_lane,
  no_lane, dispatch_request, max_attempts,
}
use ultiproxy.Server.Delivery.{Event, upstream_error, usage_update, message_stop, content, Arrival}
use ultiproxy.Server.Dispatch.Refusal.{route-again}

at_least_two : (n : ℕ) → 2 ≤ n → (k : ℕ) × (n ≡ suc (suc k))
at_least_two n h = (n - 2, omega arith)

module _ {U : Type 0} where
  -- What is left to do once the only lane of a model has failed.
  abbrev pub give_up : LaneError → Dispatch U → Dispatch U × Reply U
  give_up e d = (
    if d.request_opened then record_request [] (error_class_from_error (some e)) false d else d,
    before_commit d.last_err,
  )

  -- A round that goes on has excluded the lane.
  abbrev Excludes : Text → Excluded → Round U → Type 0
  Excludes lane x (goes_on d) = d.failed_providers ≡ insert lane true x
  Excludes lane x (ends d reply) = Unit

  track_attempt_failed :
      (r : Row U) (d : Dispatch U) → (track_attempt r d).failed_providers ≡ d.failed_providers
  unfolding track_attempt open_request_row
  track_attempt_failed r d = ground arith

  failed-Excludes :
      (lane : Text) (r : Row U) (d : Dispatch U)
      → Excludes lane d.failed_providers (goes_on (fail_provider lane (track_attempt r d)))
  failed-Excludes lane r d = ap (λ x. insert lane true x) (track_attempt_failed r d)

  first_event-Excludes :
      (n : ℕ) (lane : Text) (a : Arrival U) (arrivals : List (Arrival U)) (closed : Bool)
      (e : Event U) (d : Dispatch U)
      → Excludes lane d.failed_providers (first_event n lane a arrivals closed e d)
  unfolding first_event finish_stream
  first_event-Excludes n lane a arrivals closed (upstream_error kind retry) d =
      ap (λ x. insert lane true x) (track_attempt_failed _ _)
  first_event-Excludes n lane a arrivals closed (usage_update u) d = tt
  first_event-Excludes n lane a arrivals closed (message_stop r) d = tt
  first_event-Excludes n lane a arrivals closed (content m) d = tt

  stream_attempt-Excludes :
      (n : ℕ) (lane : Text) (s : Streamed U) (d : Dispatch U)
      → Excludes lane d.failed_providers (stream_attempt n lane s d)
  unfolding stream_attempt
  stream_attempt-Excludes n lane (refused e) d =
      ap (λ x. insert lane true x) (track_attempt_failed _ _)
  stream_attempt-Excludes n lane empty_stream d =
      ap (λ x. insert lane true x) (track_attempt_failed _ _)
  stream_attempt-Excludes n lane client_gone d = tt
  stream_attempt-Excludes n lane (flows a arrivals closed) d =
      first_event-Excludes n lane a arrivals closed a.event d

  generate_attempt-Excludes :
      (n : ℕ) (lane : Text) (g : Generated U) (d : Dispatch U)
      → Excludes lane d.failed_providers (generate_attempt n lane g d)
  unfolding generate_attempt
  generate_attempt-Excludes n lane (failed e) d =
      ap (λ x. insert lane true x) (track_attempt_failed _ _)
  generate_attempt-Excludes n lane (responds reason usage encoded written) d =
      if_both (Excludes lane d.failed_providers) (not encoded) _ _ tt
        (if_both (Excludes lane d.failed_providers) written _ _ tt tt)

  call_lane-Excludes :
      (req : Request) (up : Text → ℕ → Upstream U) (n : ℕ) (lane : Text) (p : Provider)
      (d : Dispatch U)
      → Excludes lane d.failed_providers (call_lane req up n lane p d)
  unfolding call_lane
  call_lane-Excludes req up n lane p d =
      if_both (Excludes lane d.failed_providers) (req.tools_requested && not p.tools) _ _ tt (
        if_both (Excludes lane d.failed_providers) req.stream _ _
          (stream_attempt-Excludes n lane (up lane n).stream d)
          (generate_attempt-Excludes n lane (up lane n).generate d))

  attempt_bundle-Excludes :
      (req : Request) (up : Text → ℕ → Upstream U) (n : ℕ) (lane : Text) (p : Option Provider)
      (d : Dispatch U)
      → Excludes lane d.failed_providers (attempt_bundle req up n lane p d)
  unfolding attempt_bundle
  attempt_bundle-Excludes req up n lane none d = refl
  attempt_bundle-Excludes req up n lane (some p) d =
      if_both (Excludes lane d.failed_providers) (is_some p.inference) _ _
        (call_lane-Excludes req up n lane p (record d { last_provider = lane })) refl

  attempt_lane-Excludes :
      (req : Request) (up : Text → ℕ → Upstream U) (n : ℕ) (lane : Text) (r : Option Registry)
      (d : Dispatch U)
      → Excludes lane d.failed_providers (attempt_lane req up n lane r d)
  unfolding attempt_lane
  attempt_lane-Excludes req up n lane none d = tt
  attempt_lane-Excludes req up n lane (some r) d =
      attempt_bundle-Excludes req up n lane (Registry.get lane r) d

  next-give_up :
      (lane : Text) (e : LaneError) (x : Excluded) (loop : Dispatch U → Dispatch U × Reply U)
      (round : Round U)
      → Excludes lane x round
      → ((d : Dispatch U) → d.failed_providers ≡ insert lane true x → loop d ≡ give_up e d)
      → next loop round ≡ next (give_up e) round
  unfolding next
  next-give_up lane e x loop (goes_on d) h k = k d h
  next-give_up lane e x loop (ends d reply) h k = refl

max_attempts-bound : {F : Type 0} (router : RegistryRouter F) → 2 ≤ max_attempts router
unfolding max_attempts
max_attempts-bound router = ground arith

pub max_attempts_two :
    {F : Type 0} (router : RegistryRouter F) → (k : ℕ) × (max_attempts router ≡ suc (suc k))
max_attempts_two router = at_least_two (max_attempts router) (max_attempts-bound router)

module _ {U : Type 0} where
  attempt_bundle-same :
      (req : Request) (up up' : Text → ℕ → Upstream U) (lane : Text) (p : Option Provider)
      (d : Dispatch U)
      → up lane 1 ≡ up' lane 1
      → attempt_bundle req up 1 lane p d ≡ attempt_bundle req up' 1 lane p d
  unfolding attempt_bundle call_lane
  attempt_bundle-same req up up' lane none d h = refl
  attempt_bundle-same req up up' lane (some p) d h = rw h

  attempt_lane-same :
      (req : Request) (up up' : Text → ℕ → Upstream U) (lane : Text) (r : Option Registry)
      (d : Dispatch U)
      → up lane 1 ≡ up' lane 1
      → attempt_lane req up 1 lane r d ≡ attempt_lane req up' 1 lane r d
  unfolding attempt_lane
  attempt_lane-same req up up' lane none d h = refl
  attempt_lane-same req up up' lane (some r) d h =
      attempt_bundle-same req up up' lane (Registry.get lane r) d h

module _ {U F : Type 0} where
  refused_round :
      (text : RouteError → LaneError) (req : Request) (up : Text → ℕ → Upstream U)
      (router : RegistryRouter F) (n : ℕ) (lane : Text) (loop : Dispatch U → Dispatch U × Reply U)
      (d : Dispatch U)
      → next loop (after_route text req up n router (err (unavailable lane req.model)) d)
        ≡ give_up (text (unavailable lane req.model)) d
  unfolding next after_route no_lane
  refused_round text req up router n lane loop d = refl

  -- Once the lane of the model is excluded, the loop gives up.
  attempts-give_up :
      (text : RouteError → LaneError) (req : Request) (up : Text → ℕ → Upstream U)
      (router : RegistryRouter F) (left n : ℕ) (lane : Text) (x : Excluded) (d : Dispatch U)
      → route x req.model router ≡ ok lane
      → d.failed_providers ≡ insert lane true x
      → attempts text req up (λ i. router) (suc left) n d
        ≡ give_up (text (unavailable lane req.model)) d
  unfolding attempts attempt
  attempts-give_up text req up router left n lane x d h e =
      let again : route d.failed_providers req.model router ≡ err (unavailable lane req.model) =
        ap (λ y. route y req.model router) e ∙ route-again x req.model router lane h in
      let loop = attempts text req up (λ i. router) left (suc n) in
      ap (λ routed. next loop (after_route text req up n router routed d)) again
      ∙ refused_round text req up router n lane loop d

  attempts_once :
      (text : RouteError → LaneError) (req : Request) (up : Text → ℕ → Upstream U)
      (router : RegistryRouter F) (k : ℕ) (lane : Text) (d : Dispatch U)
      → route d.failed_providers req.model router ≡ ok lane
      → attempts text req up (λ i. router) (suc (suc k)) 1 d
        ≡ next
            (give_up (text (unavailable lane req.model)))
            (attempt_lane req up 1 lane router.registry d)
  unfolding attempts attempt after_route
  attempts_once text req up router k lane d h =
      let e = text (unavailable lane req.model) in
      let loop = attempts text req up (λ i. router) (suc k) 2 in
      let round = attempt_lane req up 1 lane router.registry d in
      ap (λ routed. next loop (after_route text req up 1 router routed d)) h
      ∙ next-give_up lane e d.failed_providers loop round
          (attempt_lane-Excludes req up 1 lane router.registry d)
          (λ d' k'. attempts-give_up text req up router k 2 lane d.failed_providers d' h k')

  -- A dispatch is one round, on the lane that Route finds at first; if that fails it gives up.
  pub dispatch_once :
      (text : RouteError → LaneError) (req : Request) (up : Text → ℕ → Upstream U)
      (router : RegistryRouter F) (has_writer : Bool) (lane : Text)
      → route [] req.model router ≡ ok lane
      → dispatch_request text req up (λ i. router) has_writer
        ≡ next
            (give_up (text (unavailable lane req.model)))
            (attempt_lane req up 1 lane router.registry (start has_writer))
  unfolding dispatch_request
  dispatch_once text req up router w lane h =
      let (k, e) = max_attempts_two router in
      ap (λ n. attempts text req up (λ i. router) n 1 (start w)) e
      ∙ attempts_once text req up router k lane (start w) h

  -- While the registry, the catalog and the switches stay as they are, no dispatch falls over to a
  -- second lane: if the lane that Route finds at first gives the same answer on its first call, the
  -- answer to the client and the telemetry rows are the same, whatever any other lane, or a later
  -- call of that lane, would answer.
  pub one_lane_only :
      (text : RouteError → LaneError) (req : Request) (up up' : Text → ℕ → Upstream U)
      (router : RegistryRouter F) (has_writer : Bool) (lane : Text)
      → route [] req.model router ≡ ok lane
      → up lane 1 ≡ up' lane 1
      → dispatch_request text req up (λ i. router) has_writer
        ≡ dispatch_request text req up' (λ i. router) has_writer
  one_lane_only text req up up' router w lane h k =
      dispatch_once text req up router w lane h
      ∙ ap (next (give_up (text (unavailable lane req.model))))
          (attempt_lane-same req up up' lane router.registry (start w) k)
      ∙ sym (dispatch_once text req up' router w lane h)
