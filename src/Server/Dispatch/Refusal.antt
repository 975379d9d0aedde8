-- ===== src/Server/Dispatch/Refusal.antt =====
-- Route, once the lane that it chose is excluded.
use ultiproxy.Base.{
  ◌≡◌, refl, true, Option, none, some, List, [], ◌∷◌, Text, if◌then◌else◌, insert, lookup-insert,
  text_eq, text_eq_refl, arith,
}
use ultiproxy.Provider.Registry.{Provider, Registry, len}
use ultiproxy.Provider.Registry
use ultiproxy.Server.Catalog.{ModelCatalog}
use ultiproxy.Server.Router.{
  unavailable, ok, err, RegistryRouter, Excluded, route, route_enabled, route_alias, route_prefix,
  is_excluded,
}

is_excluded-insert :
    (x : Excluded) (lane n : Text)
    → is_excluded (insert lane true x) n ≡ (if text_eq lane n then true else is_excluded x n)
unfolding is_excluded
is_excluded-insert x lane n = ground (arith, lookup-insert lane n true x)

route_prefix-again :
    (x : Excluded) (model : Text) (names : List Text) (lane : Text)
    → route_prefix x model names ≡ ok lane
    → route_prefix (insert lane true x) model names ≡ err (unavailable lane model)
unfolding route_prefix
route_prefix-again x model [] lane h = cc
route_prefix-again x model (n ∷ ns) lane h =
    ground
      (arith, is_excluded-insert x lane n, text_eq_refl lane, route_prefix-again x model ns lane)

module _ {F : Type 0} where
  route_alias-again :
      (x : Excluded) (model : Text) (r : Registry) (c : Option (ModelCatalog F)) (lane : Text)
      → route_alias x model r c ≡ some (ok lane)
      → route_alias (insert lane true x) model r c ≡ some (err (unavailable lane model))
  unfolding route_alias
  route_alias-again x model r none lane h = cc
  route_alias-again x model r (some c) lane h =
      ground (arith, is_excluded-insert x lane lane, text_eq_refl lane)

  route_alias-none :
      (x y : Excluded) (model : Text) (r : Registry) (c : Option (ModelCatalog F))
      → route_alias x model r c ≡ none
      → route_alias y model r c ≡ none
  unfolding route_alias
  route_alias-none x y model r none h = refl
  route_alias-none x y model r (some c) h = ground arith

  route_enabled-again :
      (x : Excluded) (model : Text) (r : Option Registry) (c : Option (ModelCatalog F))
      (lane : Text)
      → route_enabled x model r c ≡ ok lane
      → route_enabled (insert lane true x) model r c ≡ err (unavailable lane model)
  unfolding route_enabled
  route_enabled-again x model none c lane h = cc
  route_enabled-again x model (some r) c lane h = ground (
    arith,
    route_alias-again x model r c lane,
    route_alias-none x (insert lane true x) model r c,
    route_prefix-again x model (Registry.names r) lane,
  )

  -- A lane that fails has no successor: with it excluded, Route refuses the model.
  pub route-again :
      (x : Excluded) (model : Text) (router : RegistryRouter F) (lane : Text)
      → route x model router ≡ ok lane
      → route (insert lane true x) model router ≡ err (unavailable lane model)
  unfolding route
  route-again x model router lane h =
      ground (arith, route_enabled-again x model router.registry router.catalog lane)
