-- ===== src/Server/Router.antt =====
-- The router of pkg/server/router.go.
pub mod Safety
pub mod Lanes
pub mod Switch
use ultiproxy.Base.{
  ℕ, Bool, true, false, not, Option, none, some, List, [], ◌∷◌, ◌++◌, ◌||◌, ◌&&◌, Text,
  if◌then◌else◌, is_empty, is_some, lookup, starts_with, to_lower,
}
use ultiproxy.State.Manager.{StateManager}
use ultiproxy.Provider.Registry.{Registry}
use ultiproxy.Provider.Registry
use ultiproxy.Server.Catalog.{ModelAlias, ModelCatalog, get}
use ultiproxy.Server.Models.{slash, model_is_disabled}

-- The errors of Route. `unavailable` names the provider; `disabled` unwraps to `unknown_model`.
pub data RouteError : Type 0 where
  disabled_model unknown_model : Text → RouteError
  no_providers : RouteError
  unavailable : Text → Text → RouteError

pub data Routed : Type 0 where
  ok : Text → Routed
  err : RouteError → Routed

pub record RegistryRouter (F : Type 0) : Type 0 where
  pub registry : Option Registry
  pub sm : Option StateManager
  pub catalog : Option (ModelCatalog F)

-- ExcludedProvidersFromContext: the providers that have failed this request.
abbrev pub Excluded : Type 0
Excluded = List (Text × Bool)

-- `excluded[name]`.
unfoldable pub is_excluded : Excluded → Text → Bool
is_excluded excluded name = elim (lookup name excluded) [ none ↦ false | some b ↦ b ]

-- `strings.HasPrefix(lowerModel, strings.ToLower(name)+"/")`.
unfoldable pub has_lane : Text → Text → Bool
has_lane model name = starts_with (to_lower model) (to_lower name ++ slash)

-- Step 4: the first lane, in registration order, whose prefix the model has.
unfoldable pub route_prefix : Excluded → Text → List Text → Routed
unfolding has_lane is_excluded
route_prefix excluded model [] = err (unknown_model model)
route_prefix excluded model (name ∷ names) =
    let rest = route_prefix excluded model names in
    if has_lane model name
    then (if is_excluded excluded name then err (unavailable name model) else ok name)
    else rest

module _ {F : Type 0} where
  -- Step 3: an alias of the catalog; `none` if the model is no alias or its entry has no provider.
  unfoldable pub route_alias : Excluded → Text → Registry → Option (ModelCatalog F) → Option Routed
  unfolding is_excluded get Registry.get
  route_alias excluded model r none = none
  route_alias excluded model r (some c) = elim (get model c) [
    | none ↦ none
    | some entry ↦
        if is_empty entry.provider
        then none
        else some (
            if not (is_excluded excluded entry.provider) && is_some (Registry.get entry.provider r)
            then ok entry.provider
            else err (unavailable entry.provider model))
  ]

  -- Step 1.
  unfoldable pub switched_off : Text → RegistryRouter F → Bool
  switched_off model router = elim router.sm [
    | none ↦ false
    | some sm ↦ model_is_disabled sm.snapshot.models model router.catalog
  ]

  -- Steps 2 to 5.
  unfoldable pub route_enabled :
      Excluded → Text → Option Registry → Option (ModelCatalog F) → Routed
  unfolding route_alias route_prefix Registry.names
  route_enabled excluded model none catalog = err no_providers
  route_enabled excluded model (some r) catalog =
      if is_empty r.providers
      then err no_providers
      else elim (route_alias excluded model r catalog) [
        | some routed ↦ routed
        | none ↦ route_prefix excluded model (Registry.names r)
      ]

  unfoldable pub route : Excluded → Text → RegistryRouter F → Routed
  route excluded model router =
      if switched_off model router
      then err (disabled_model model)
      else route_enabled excluded model router.registry router.catalog
