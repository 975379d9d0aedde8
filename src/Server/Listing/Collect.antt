-- ===== src/Server/Listing/Collect.antt =====
-- collectListedIDs of pkg/server/handlers.go: the listed ids without their metadata. The order in
-- which the range visits the rows of the state is that of the map here; the caller, the catalog's
-- bridge, has a catalog.
use ultiproxy.Base.{
  not, ◌&&◌, ◌||◌, Option, none, some, List, [], ◌∷◌, ◌++◌, map, Text, is_empty, is_some,
  if◌then◌else◌, elem, keys,
}
use ultiproxy.State.Manager.{StateManager}
use ultiproxy.Provider.Registry as Registry
use ultiproxy.Provider.Registry.{Registry}
use ultiproxy.Server.Catalog.{ModelAlias, ModelCatalog, get}
use ultiproxy.Server.Models.{canonical_alias_id}
use ultiproxy.Server.Metadata.{ModelInfo, Discovery}
use ultiproxy.Server.Listing.{Listing, lane_id, is_off, alias_listed, sorted, visible}

unfoldable pub add_id : Text → List Text → List Text
add_id id out = if is_empty id || elem id out then out else out ++ (id ∷ [])

unfoldable pub add_ids : List Text → List Text → List Text
add_ids [] out = out
add_ids (id ∷ ids) out = add_ids ids (add_id id out)

abbrev info_ids : Text → Option (List ModelInfo) → List Text → List Text
info_ids lane none models = map (lane_id lane) models
info_ids lane (some infos) models = map (λ m. lane_id lane m.info_id) infos

abbrev pub cache_ids : Text → Discovery → Option (List Text) → List Text
cache_ids lane d none = []
cache_ids lane d (some models) = info_ids lane d.cached_model_info models

abbrev pub default_ids : Text → Option Text → List Text
default_ids lane none = []
default_ids lane (some m) = if is_empty m then [] else lane_id lane m ∷ []

unfoldable pub lane_ids : Text → Discovery → List Text
lane_ids lane d = cache_ids lane d d.cached_models ++ default_ids lane d.default_model

abbrev pub visible_ids : Text → Option Discovery → List Text
visible_ids lane none = []
visible_ids lane (some d) = lane_ids lane d

module _ {F : Type 0} where
  abbrev entry_ids : Listing F → Text → Option (ModelAlias F) → List Text
  entry_ids l alias none = []
  entry_ids l alias (some e) = if alias_listed l alias e then canonical_alias_id e ∷ [] else []

  unfoldable pub alias_ids : Listing F → ModelCatalog F → List Text → List Text
  alias_ids l c [] = []
  alias_ids l c (alias ∷ aliases) = entry_ids l alias (get alias c) ++ alias_ids l c aliases

  unfoldable pub row_ids : Listing F → ModelCatalog F → List Text → List Text
  row_ids l c [] = []
  row_ids l c (k ∷ ks) =
      (if not (is_some (get k c)) && not (is_off l k) then k ∷ [] else []) ++ row_ids l c ks

  unfoldable pub lanes_ids : Listing F → Registry → List Text → List Text
  lanes_ids l r [] = []
  lanes_ids l r (lane ∷ lanes) = visible_ids lane (visible l r lane) ++ lanes_ids l r lanes

  abbrev pub models_ids : Listing F → ModelCatalog F → Option StateManager → List Text
  models_ids l c none = []
  models_ids l c (some sm) = row_ids l c (keys sm.snapshot.models)

  abbrev pub registry_ids : Listing F → Option Registry → List Text
  registry_ids l none = []
  registry_ids l (some r) = lanes_ids l r (Registry.names r)

  unfoldable pub collected : Listing F → ModelCatalog F → List Text
  collected l c =
      alias_ids l c (sorted c) ++ (models_ids l c l.router.sm ++ registry_ids l l.router.registry)

  unfoldable pub collect_listed_ids : Listing F → ModelCatalog F → List Text
  collect_listed_ids l c = add_ids (collected l c) []
