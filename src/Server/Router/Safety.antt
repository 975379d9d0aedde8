-- ===== src/Server/Router/Safety.antt =====
-- What the router may answer.
use mathlib.Core.Option
use ultiproxy.Base.{
  ◌≡◌, inl, inr, ◌⊎◌, true, false, Option, none, some, List, [], ◌∷◌, Text, is_some, ◌≤◌,
  text_eq_iff, arith, Bool-cases,
}
use ultiproxy.Provider.Registry.{Registry}
use ultiproxy.Provider.Registry
use ultiproxy.Provider.Registry.Laws.{IsOrdered, count}
use ultiproxy.Server.Catalog.{ModelCatalog, get}
use ultiproxy.Server.Router.{
  ok, RegistryRouter, Excluded, is_excluded, has_lane, route_prefix, route_alias, switched_off,
  route_enabled, route,
}

-- The lane that the prefix match picks stands in the order, is not excluded, and is a prefix.
route_prefix-ok :
    (x : Excluded) (model : Text) (names : List Text) {lane : Text}
    → route_prefix x model names ≡ ok lane
    → (1 ≤ count lane names) × (is_excluded x lane ≡ false) × (has_lane model lane ≡ true)
unfolding route_prefix
route_prefix-ok x model [] h = cc
route_prefix-ok x model (n ∷ ns) {lane} h =
    ground (arith, text_eq_iff n lane, route_prefix-ok x model ns {lane = lane})

registered-of-count :
    (r : Registry) (lane : Text)
    → IsOrdered r
    → 1 ≤ count lane r.order
    → is_some (Registry.get lane r) ≡ true
unfolding Registry.get
registered-of-count r lane h k = ground (arith, h.listed lane)

module _ {F : Type 0} where
  -- The lane that the catalog has the model for, if it is an alias.
  abbrev pub alias_lane : Text → Option (ModelCatalog F) → Option Text
  alias_lane model none = none
  alias_lane model (some c) = Option.map (λ e. e.provider) (get model c)

  route_alias-ok :
      (x : Excluded) (model : Text) (r : Registry) (catalog : Option (ModelCatalog F)) (lane : Text)
      → route_alias x model r catalog ≡ some (ok lane)
      → (is_some (Registry.get lane r) ≡ true)
        × (is_excluded x lane ≡ false)
        × (alias_lane model catalog ≡ some lane)
  unfolding route_alias
  route_alias-ok x model r none lane h = cc
  route_alias-ok x model r (some c) lane h = ground arith

  -- The lane is registered and not excluded, and the model is its alias or has its prefix.
  abbrev pub Sound : Excluded → Text → Registry → Option (ModelCatalog F) → Text → Type 0
  Sound x model r catalog lane =
      (is_some (Registry.get lane r) ≡ true)
      × (is_excluded x lane ≡ false)
      × ((alias_lane model catalog ≡ some lane) ⊎ (has_lane model lane ≡ true))

  route_enabled-Sound :
      (x : Excluded) (model : Text) (r : Registry) (catalog : Option (ModelCatalog F)) (lane : Text)
      → IsOrdered r
      → route_enabled x model (some r) catalog ≡ ok lane
      → Sound x model r catalog lane
  unfolding route_enabled
  route_enabled-Sound x model r catalog lane h k = ground (
    arith,
    route_alias-ok x model r catalog lane,
    route_prefix-ok x model r.order {lane = lane},
    registered-of-count r lane h,
  )

  -- The lane that Route answers with is registered and has not failed this request; the model is
  -- not switched off, and it is an alias for that lane or begins with that lane's prefix.
  pub route-Sound :
      (x : Excluded) (model : Text) (router : RegistryRouter F) (r : Registry) {lane : Text}
      → router.registry ≡ some r
      → IsOrdered r
      → route x model router ≡ ok lane
      → (switched_off model router ≡ false) × Sound x model r router.catalog lane
  unfolding route
  route-Sound x model router r {lane} e h k = elim (Bool-cases (switched_off model router)) [
    | inl o ↦ absurd (ground arith)
    | inr o ↦
        let enabled : route_enabled x model (some r) router.catalog ≡ ok lane = ground arith in
        (o, route_enabled-Sound x model r router.catalog lane h enabled)
  ]
