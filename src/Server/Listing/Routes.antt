-- ===== src/Server/Listing/Routes.antt =====
-- The listed ids of the lanes (pkg/server/handlers.go) and what Route makes of them.
use mathlib.Core.List.{map-append}
use ultiproxy.Base.{
  not, ◌&&◌, ◌≡◌, ap, ◌∙◌, sym, subst, true, false, ◌⊎◌, inl, inr, Option, none, some, List, [],
  ◌∷◌, ◌++◌, map, Text, is_empty, is_some, lookup, elem, text_eq, text_eq_iff, arith, Bool-cases,
  Option-cases,
}
use ultiproxy.Provider.Registry as Registry
use ultiproxy.Provider.Registry.{Registry}
use ultiproxy.Provider.Registry.Laws.{IsOrdered}
use ultiproxy.Server.Router.{RegistryRouter, ok, is_excluded, switched_off, route}
use ultiproxy.Server.Router.Safety.{alias_lane}
use ultiproxy.Server.Router.Lanes.{has_slash, AllApart, canonical_id_routes}
use ultiproxy.Server.Metadata.{ModelInfo, Discovery}
use ultiproxy.Server.Listing.{
  Listing, ids_of, lane_id, visible, catalog_candidates, models_candidates, registry_candidates,
  all_candidates, handle_models,
}
use ultiproxy.Server.Listing.Collect.{lane_ids, lanes_ids, visible_ids, cache_ids, default_ids}
use ultiproxy.Server.Listing.Once.{elem-append, elem-add_ids, ids_of-add_all}
use ultiproxy.Server.Listing.Agree.{id_of, elem-lanes}

-- An id of a lane is its name, a slash and a model.
abbrev IsOf : Text → Text → Type 0
IsOf lane x = (m : Text) × (x ≡ lane_id lane m)

mapped-IsOf :
    {A : Type 0} (f : A → Text) (lane x : Text) (items : List A)
    → elem x (map (λ a. lane_id lane (f a)) items) ≡ true
    → IsOf lane x
unfolding elem
mapped-IsOf f lane x [] h = cc
mapped-IsOf f lane x (a ∷ items) h = elim (Bool-cases (text_eq (lane_id lane (f a)) x)) [
  | inl e ↦ (f a, sym ((text_eq_iff (lane_id lane (f a)) x).0 e))
  | inr e ↦ mapped-IsOf f lane x items (ground (arith, e))
]

cache-IsOf :
    (lane x : Text) (d : Discovery) (models : Option (List Text)) (infos : Option (List ModelInfo))
    → elem x (cache_ids lane (record d { cached_model_info = infos }) models) ≡ true
    → IsOf lane x
unfolding elem
cache-IsOf lane x d none infos h = cc
cache-IsOf lane x d (some models) none h = mapped-IsOf (λ m. m) lane x models h
cache-IsOf lane x d (some models) (some infos) h = mapped-IsOf (λ m. m.info_id) lane x infos h

default-IsOf : (lane x : Text) (m : Option Text) → elem x (default_ids lane m) ≡ true → IsOf lane x
unfolding elem
default-IsOf lane x none h = cc
default-IsOf lane x (some []) h = cc
default-IsOf lane x (some (c ∷ m)) h =
    (c ∷ m, sym ((text_eq_iff (lane_id lane (c ∷ m)) x).0 (ground arith)))

lane-IsOf : (lane x : Text) (d : Discovery) → elem x (lane_ids lane d) ≡ true → IsOf lane x
unfolding lane_ids
lane-IsOf lane x d h = elim (Bool-cases (elem x (cache_ids lane d d.cached_models))) [
  | inl e ↦ cache-IsOf lane x d d.cached_models d.cached_model_info e
  | inr e ↦ default-IsOf lane x d.default_model (
      ground (
        arith,
        e,
        elem-append x (cache_ids lane d d.cached_models) (default_ids lane d.default_model),
      ))
]

-- What becomes of a request for an id: it is switched off, or an alias, or goes to the lane.
abbrev pub Reaches : {F : Type 0} → RegistryRouter F → Text → Text → Type 0
Reaches router lane x =
    (switched_off x router ≡ true)
    ⊎ ((is_some (alias_lane x router.catalog) ≡ true) ⊎ (route [] x router ≡ ok lane))

lane_id-Reaches :
    {F : Type 0} (router : RegistryRouter F) (r : Registry) (lane m : Text)
    → router.registry ≡ some r
    → IsOrdered r
    → is_some (Registry.get lane r) ≡ true
    → has_slash lane ≡ false
    → AllApart lane r.order
    → Reaches router lane (lane_id lane m)
unfolding is_excluded lookup
lane_id-Reaches router r lane m known ordered found no_slash apart =
    elim (Bool-cases (switched_off (lane_id lane m) router)) [
      | inl off ↦ inl off
      | inr on ↦ elim (Option-cases (alias_lane (lane_id lane m) router.catalog)) [
        | inl e ↦
            inr
              (inr (canonical_id_routes [] lane m router r known ordered found no_slash apart on e))
        | inr (a, e) ↦ inr (inl (ap is_some e))
      ]
    ]

listed_id-Reaches :
    {F : Type 0} (router : RegistryRouter F) (r : Registry) (lane x : Text) (d : Discovery)
    → router.registry ≡ some r
    → IsOrdered r
    → is_some (Registry.get lane r) ≡ true
    → has_slash lane ≡ false
    → AllApart lane r.order
    → elem x (lane_ids lane d) ≡ true
    → Reaches router lane x
listed_id-Reaches router r lane x d known ordered found no_slash apart listed =
    let (m, e) = lane-IsOf lane x d listed in
    subst (Reaches router lane) (sym e)
      (lane_id-Reaches router r lane m known ordered found no_slash apart)

elem-lanes_ids :
    {F : Type 0} (l : Listing F) (r : Registry) (lane x : Text) (d : Discovery) (lanes : List Text)
    → visible l r lane ≡ some d
    → elem x (lane_ids lane d) ≡ true
    → elem lane lanes ≡ true
    → elem x (lanes_ids l r lanes) ≡ true
unfolding lanes_ids elem
elem-lanes_ids l r lane x d [] v h k = cc
elem-lanes_ids l r lane x d (n ∷ lanes) v h k = elim (Bool-cases (text_eq n lane)) [
  | inl e ↦
      let same : elem x (visible_ids n (visible l r n)) ≡ elem x (lane_ids lane d) =
        ap (λ m. elem x (visible_ids m (visible l r m))) ((text_eq_iff n lane).0 e)
        ∙ ap (λ o. elem x (visible_ids lane o)) v in
      ground (arith, same, h, elem-append x (visible_ids n (visible l r n)) (lanes_ids l r lanes))
  | inr e ↦ ground (
    arith,
    e,
    h,
    elem-lanes_ids l r lane x d lanes v h,
    elem-append x (visible_ids n (visible l r n)) (lanes_ids l r lanes),
  )
]

lane_models-listed :
    {F : Type 0} (l : Listing F) (r : Registry) (lane x : Text) (d : Discovery)
    → l.router.registry ≡ some r
    → visible l r lane ≡ some d
    → elem lane (Registry.names r) ≡ true
    → is_empty x ≡ false
    → elem x (lane_ids lane d) ≡ true
    → elem x (ids_of (handle_models l)) ≡ true
unfolding handle_models all_candidates elem
lane_models-listed l r lane x d known v named full h =
    let aliases = catalog_candidates l l.router.catalog in
    let rows = models_candidates l l.router.sm in
    let lanes = registry_candidates l l.router.registry in
    let from_lanes : elem x (map id_of lanes) ≡ true =
      ap (λ o. elem x (map id_of (registry_candidates l o))) known
      ∙ elem-lanes x l r (Registry.names r)
      ∙ elem-lanes_ids l r lane x d (Registry.names r) v h named in
    ap (elem x) (ids_of-add_all (all_candidates l) [])
    ∙ elem-add_ids x (map id_of (all_candidates l)) []
    ∙ ap (λ ids. not (is_empty x) && elem x ids)
        (map-append id_of aliases (rows ++ lanes)
          ∙ ap (λ ids. map id_of aliases ++ ids) (map-append id_of rows lanes))
    ∙ ground (
      arith,
      full,
      from_lanes,
      elem-append x (map id_of aliases) (map id_of rows ++ map id_of lanes),
      elem-append x (map id_of rows) (map id_of lanes),
    )

-- Every model that a lane has discovered, and its default model, is listed under the lane's prefix
-- if the lane is registered and not hidden, switched off or not; and Route sends the listed id to
-- that lane, unless it has been switched off or is an alias. The lane names have no slash, and no
-- other one is the same up to case.
pub lane_models_reach :
    {F : Type 0} (l : Listing F) (r : Registry) (lane x : Text) (d : Discovery)
    → l.router.registry ≡ some r
    → IsOrdered r
    → is_some (Registry.get lane r) ≡ true
    → elem lane (Registry.names r) ≡ true
    → has_slash lane ≡ false
    → AllApart lane r.order
    → visible l r lane ≡ some d
    → is_empty x ≡ false
    → elem x (lane_ids lane d) ≡ true
    → (elem x (ids_of (handle_models l)) ≡ true) × Reaches l.router lane x
lane_models_reach l r lane x d known ordered found named no_slash apart v full listed = (
  lane_models-listed l r lane x d known v named full listed,
  listed_id-Reaches l.router r lane x d known ordered found no_slash apart listed,
)
