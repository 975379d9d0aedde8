-- ===== src/Server/Dispatch/Ledger.antt =====
-- The telemetry rows of a dispatch: no attempt or usage without its request row, and no request
-- row left open.
use ultiproxy.Base.{
  ℕ, zero, suc, ◌≡◌, refl, sym, ◌∙◌, ap, subst, inl, ◌⊎◌, Bool, true, false, [], Text,
}
use ultiproxy.Server.Router.{
  RouteError, disabled_model, unknown_model, no_providers, unavailable, ok, err, Routed,
  RegistryRouter, route,
}
use ultiproxy.Server.Upstream.{LaneError, error_class_from_error}
use ultiproxy.Server.Dispatch.{
  Upstream, Request, Reply, not_found, Dispatch, next, start, attempt_lane, after_route, no_lane,
  attempt, attempts, dispatch_request, max_attempts,
}
use ultiproxy.Server.Dispatch.Once.{dispatch_once, max_attempts_two}
use ultiproxy.Server.Dispatch.Rows.{is_ledger, is_open, IsWaiting, record_waiting-ledger}
use ultiproxy.Server.Dispatch.Kept.{
  skips, Ends, Kept, skipped-Left, attempt_lane-Kept, give_up-ledger, next-ledger, next-Left,
}

module _ {U F : Type 0} where
  refused-ledger :
      (text : RouteError → LaneError) (req : Request) (up : Text → ℕ → Upstream U)
      (router : RegistryRouter F) (w : Bool) (e : RouteError)
      (loop : Dispatch U → Dispatch U × Reply U)
      → is_ledger (next loop (after_route text req up 1 router (err e) (start w))).0.rows ≡ true
  unfolding next after_route no_lane is_ledger
  refused-ledger text req up router w (unknown_model m) loop = refl
  refused-ledger text req up router w (disabled_model m) loop = refl
  refused-ledger text req up router w no_providers loop = refl
  refused-ledger text req up router w (unavailable lane m) loop = refl

  attempts-refused :
      (text : RouteError → LaneError) (req : Request) (up : Text → ℕ → Upstream U)
      (router : RegistryRouter F) (w : Bool) (e : RouteError) (left : ℕ)
      → route [] req.model router ≡ err e
      → is_ledger (attempts text req up (λ i. router) (suc left) 1 (start w)).0.rows ≡ true
  unfolding attempts attempt
  attempts-refused text req up router w e left h =
      let loop = attempts text req up (λ i. router) left 2 in
      subst
        (λ routed.
          is_ledger (next loop (after_route text req up 1 router routed (start w))).0.rows ≡ true)
        (sym h) (refused-ledger text req up router w e loop)

  by_route :
      (text : RouteError → LaneError) (req : Request) (up : Text → ℕ → Upstream U)
      (router : RegistryRouter F) (w : Bool) (routed : Routed)
      → route [] req.model router ≡ routed
      → is_ledger (dispatch_request text req up (λ i. router) w).0.rows ≡ true
  unfolding dispatch_request
  by_route text req up router w (ok lane) h =
      let round = attempt_lane req up 1 lane router.registry (start w) in
      let kept =
        attempt_lane-Kept req up 1 lane router.registry (start w) (inl (refl, refl, refl)) in
      ap (λ r. is_ledger r.0.rows) (dispatch_once text req up router w lane h)
      ∙ next-ledger (text (unavailable lane req.model)) round kept
  by_route text req up router w (err e) h =
      let (k, two) = max_attempts_two router in
      ap (λ n. is_ledger (attempts text req up (λ i. router) n 1 (start w)).0.rows) two
      ∙ attempts-refused text req up router w e (suc k) h

  after_route-Kept :
      (text : RouteError → LaneError) (req : Request) (up : Text → ℕ → Upstream U) (n : ℕ)
      (router : RegistryRouter F) (routed : Routed) (d : Dispatch U)
      → IsWaiting d
      → Kept d.request_opened (after_route text req up n router routed d)
  unfolding after_route no_lane
  after_route-Kept text req up n router (err (unknown_model m)) d h =
      skipped-Left d not_found h refl
  after_route-Kept text req up n router (err (disabled_model m)) d h =
      skipped-Left d not_found h refl
  after_route-Kept text req up n router (err no_providers) d h =
      inl (give_up-ledger (text no_providers) d h)
  after_route-Kept text req up n router (err (unavailable lane m)) d h =
      inl (give_up-ledger (text (unavailable lane m)) d h)
  after_route-Kept text req up n router (ok lane) d h =
      attempt_lane-Kept req up n lane router.registry d h

  attempts-Ends :
      (text : RouteError → LaneError) (req : Request) (up : Text → ℕ → Upstream U)
      (routers : ℕ → RegistryRouter F) (left n : ℕ) (d : Dispatch U)
      → IsWaiting d
      → Ends (attempts text req up routers left n d)
  unfolding attempts attempt
  attempts-Ends text req up routers zero n d h =
      inl (record_waiting-ledger [] (error_class_from_error d.last_err) false d h)
  attempts-Ends text req up routers (suc left) n d h =
      next-Left d.request_opened (attempts text req up routers left (suc n)) _
        (after_route-Kept text req up n (routers n) _ d h)
        (λ d' h'. attempts-Ends text req up routers left (suc n) d' h')

  -- Whatever a dispatch runs into, its telemetry rows are none at all, or the request row in
  -- flight, then attempts and usages, then one terminal request row: no attempt or usage comes
  -- before its request row, and no request row is left open. This holds while the registry, the
  -- catalog and the switches stay as they are. If they change between the attempts, it holds too,
  -- unless the dispatch answers that the model is unknown or switched off, that the lane has no
  -- tools or that there is no registry, with the row in flight and its attempts and no terminal row.
  pub dispatch-ledger :
      (text : RouteError → LaneError) (req : Request) (up : Text → ℕ → Upstream U)
      (router : RegistryRouter F) (routers : ℕ → RegistryRouter F) (has_writer : Bool)
      → (is_ledger (dispatch_request text req up (λ i. router) has_writer).0.rows ≡ true)
        × (let changing = dispatch_request text req up routers has_writer in
            (is_ledger changing.0.rows ≡ true)
            ⊎ ((skips changing.1 ≡ true) × (is_open changing.0.rows ≡ true)))
  unfolding dispatch_request
  dispatch-ledger text req up router routers w = (
    by_route text req up router w (route [] req.model router) refl,
    attempts-Ends text req up routers (max_attempts (routers 0)) 1 (start w)
        (inl (refl, refl, refl)),
  )
