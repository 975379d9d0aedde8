-- ===== src/Server/Listing.antt =====
-- The list of models of pkg/server/handlers.go: handleModels and collectListedIDs. What a lane's
-- Inference implements for them is a parameter, and so is the environment. The server's registry,
-- state and catalog are the router's.
pub mod Collect
pub mod Once
pub mod Agree
pub mod Routes
mod Examples
use ultiproxy.Base.{
  Bool, true, false, not, ◌&&◌, ◌||◌, Option, none, some, List, [], ◌∷◌, ◌++◌, map, Text, bytes, ℤ,
  pos, ltb_ℤ, is_empty, is_some, if◌then◌else◌, lookup, elem, keys, text_eq, starts_with, sort_by,
}
use ultiproxy.State.Types.{ModelRuntime}
use ultiproxy.State.Manager.{StateManager}
use ultiproxy.Provider.Registry as Registry
use ultiproxy.Provider.Registry.{Capability, Provider, Registry}
use ultiproxy.Server.Catalog.{ModelAlias, ModelCatalog, get}
use ultiproxy.Server.Models.{slash, canonical_alias_id, model_is_disabled}
use ultiproxy.Server.Router.{RegistryRouter}
use ultiproxy.ModelMeta.Modalities.{has_image}
use ultiproxy.ModelMeta.Catalog.{Entries}
use ultiproxy.ModelMeta.Info.{InfoOverlay}
use ultiproxy.Server.Metadata.{
  Meta, ModelInfo, no_meta, alias_meta, Discovery, Sources, resolve_model_meta,
}

-- Whether a lane is left out: hideTestLanes, and isTestLane.
abbrev test_words : List Text
test_words = bytes "probe" ∷ bytes "fake" ∷ bytes "mock" ∷ bytes "test" ∷ []

abbrev test_prefixes : List Text
test_prefixes = bytes "probe-" ∷ bytes "fake-" ∷ bytes "mock-" ∷ bytes "test-" ∷ []

abbrev starts_with_one : Text → List Text → Bool
starts_with_one name [] = false
starts_with_one name (p ∷ ps) = starts_with name p || starts_with_one name ps

unfoldable pub is_test_lane : Text → Bool
is_test_lane name = elem name test_words || starts_with_one name test_prefixes

-- What the handlers read; `hides_tests` is hideTestLanes().
pub record Listing (F : Type 0) : Type 0 where
  pub router : RegistryRouter F
  pub discovery : Capability → Discovery
  pub meta : Option Entries
  pub info : Option InfoOverlay
  pub hides_tests : Bool

-- A call of `add`: the id, its owner and its metadata.
pub record Candidate : Type 0 where
  pub id : Text
  pub owned_by : Text
  pub meta : Meta

-- ModelEntry; the object and the creation time are constants.
pub record ModelEntry : Type 0 where
  pub entry_id : Text
  pub owned_by : Text
  pub context_length : ℤ
  pub max_model_len : ℤ
  pub max_output : ℤ
  pub architecture : Option (List Text × List Text)
  pub supports_vision : Bool

-- listedModelMeta.architecture.
unfoldable pub architecture : Meta → Option (List Text × List Text)
architecture m =
    if is_empty m.input_modalities && is_empty m.output_modalities
    then none
    else some (m.input_modalities, m.output_modalities)

unfoldable pub model_entry : Candidate → ModelEntry
model_entry c =
    let window = if ltb_ℤ (pos 0) c.meta.context_length then c.meta.context_length else pos 0 in
    let arch = architecture c.meta in
    record {
      entry_id = c.id;
      owned_by = c.owned_by;
      context_length = window;
      max_model_len = window;
      max_output = c.meta.max_output;
      architecture = arch;
      supports_vision = is_some arch && has_image c.meta.input_modalities;
    }

abbrev pub ids_of : List ModelEntry → List Text
ids_of es = map (λ e. e.entry_id) es

-- `add`; `seen` holds the ids of the data.
unfoldable pub add : Candidate → List ModelEntry → List ModelEntry
add c found =
    if is_empty c.id || elem c.id (ids_of found) then found else found ++ (model_entry c ∷ [])

unfoldable pub add_all : List Candidate → List ModelEntry → List ModelEntry
add_all [] found = found
add_all (c ∷ cs) found = add_all cs (add c found)

abbrev pub lane_id : Text → Text → Text
lane_id lane model = lane ++ slash ++ model

module _ {F : Type 0} where
  abbrev pub sources : Listing F → Sources
  sources l = record {
    registry = l.router.registry;
    discovery = l.discovery;
    meta = l.meta;
    info = l.info;
  }

  abbrev pub candidate : Listing F → Text → Text → Text → Meta → Candidate
  candidate l id lane upstream own = record {
    id = id;
    owned_by = lane;
    meta = resolve_model_meta (sources l) id lane upstream own;
  }

  -- `snap != nil && modelIsDisabled(snap.Models, id, s.catalog)`.
  unfoldable pub is_off : Listing F → Text → Bool
  is_off l id = elim l.router.sm [
    | none ↦ false
    | some sm ↦ model_is_disabled sm.snapshot.models id l.router.catalog
  ]

  -- Step 1: the aliases, under their canonical ids.
  abbrev pub alias_listed : Listing F → Text → ModelAlias F → Bool
  alias_listed l alias e = not (is_empty (canonical_alias_id e)) && not (is_off l alias)

  abbrev entry_candidates : Listing F → Text → Option (ModelAlias F) → List Candidate
  entry_candidates l alias none = []
  entry_candidates l alias (some e) =
      if alias_listed l alias e
      then candidate l (canonical_alias_id e) e.provider e.upstream (alias_meta e) ∷ []
      else []

  unfoldable pub alias_candidates : Listing F → ModelCatalog F → List Text → List Candidate
  alias_candidates l c [] = []
  alias_candidates l c (alias ∷ aliases) =
      entry_candidates l alias (get alias c) ++ alias_candidates l c aliases

  -- Catalog.Sorted.
  unfoldable pub sorted : ModelCatalog F → List Text
  sorted c = sort_by (λ a. a) (keys c.aliases)

  abbrev pub catalog_candidates : Listing F → Option (ModelCatalog F) → List Candidate
  catalog_candidates l none = []
  catalog_candidates l (some c) = alias_candidates l c (sorted c)

  -- Step 2: the state's rows that are no aliases. aliasEntry and aliasUpstream.
  abbrev pub alias_entry : Text → Option (ModelCatalog F) → Option (ModelAlias F)
  alias_entry id none = none
  alias_entry id (some c) = get id c

  abbrev alias_upstream : Option (ModelAlias F) → Text
  alias_upstream none = []
  alias_upstream (some e) = e.upstream

  abbrev pub row_listed : Listing F → Text → Bool
  row_listed l k = not (is_some (alias_entry k l.router.catalog)) && not (is_off l k)

  abbrev row_candidates : Listing F → Text → Option ModelRuntime → List Candidate
  row_candidates l k none = []
  row_candidates l k (some m) =
      if row_listed l k
      then candidate l m.id m.provider (alias_upstream (alias_entry m.id l.router.catalog))
          (record no_meta { context_length = m.context_limit; max_output = m.max_output })
        ∷ []
      else []

  unfoldable pub state_candidates :
      Listing F → List (Text × ModelRuntime) → List Text → List Candidate
  state_candidates l models [] = []
  state_candidates l models (k ∷ ks) =
      row_candidates l k (lookup k models) ++ state_candidates l models ks

  -- Step 3: what a lane has discovered, and its default model.
  abbrev info_candidates : Listing F → Text → Option (List ModelInfo) → List Text → List Candidate
  info_candidates l lane none models =
      map (λ m. candidate l (lane_id lane m) lane m no_meta) (sort_by (λ m. m) models)
  info_candidates l lane (some infos) models =
      map (λ m. candidate l (lane_id lane m.info_id) lane m.info_id m.info_meta)
        (sort_by (λ m. m.info_id) infos)

  abbrev pub cache_candidates : Listing F → Text → Discovery → Option (List Text) → List Candidate
  cache_candidates l lane d none = []
  cache_candidates l lane d (some models) = info_candidates l lane d.cached_model_info models

  abbrev pub default_candidates : Listing F → Text → Option Text → List Candidate
  default_candidates l lane none = []
  default_candidates l lane (some m) =
      if is_empty m then [] else candidate l (lane_id lane m) lane m no_meta ∷ []

  unfoldable pub lane_candidates : Listing F → Text → Discovery → List Candidate
  lane_candidates l lane d =
      cache_candidates l lane d d.cached_models ++ default_candidates l lane d.default_model

  -- The discovery of a lane that is listed at all.
  abbrev inference_of : Listing F → Option Provider → Option Discovery
  inference_of l none = none
  inference_of l (some p) = elim p.inference [ none ↦ none | some i ↦ some (l.discovery i) ]

  unfoldable pub visible : Listing F → Registry → Text → Option Discovery
  visible l r lane =
      if l.hides_tests && is_test_lane lane then none else inference_of l (Registry.get lane r)

  abbrev pub visible_candidates : Listing F → Text → Option Discovery → List Candidate
  visible_candidates l lane none = []
  visible_candidates l lane (some d) = lane_candidates l lane d

  unfoldable pub lanes_candidates : Listing F → Registry → List Text → List Candidate
  lanes_candidates l r [] = []
  lanes_candidates l r (lane ∷ lanes) =
      visible_candidates l lane (visible l r lane) ++ lanes_candidates l r lanes

  abbrev pub models_candidates : Listing F → Option StateManager → List Candidate
  models_candidates l none = []
  models_candidates l (some sm) =
      state_candidates l sm.snapshot.models (sort_by (λ k. k) (keys sm.snapshot.models))

  abbrev pub registry_candidates : Listing F → Option Registry → List Candidate
  registry_candidates l none = []
  registry_candidates l (some r) = lanes_candidates l r (Registry.names r)

  -- The calls of `add`, in their order.
  unfoldable pub all_candidates : Listing F → List Candidate
  all_candidates l =
      catalog_candidates l l.router.catalog
      ++ (models_candidates l l.router.sm ++ registry_candidates l l.router.registry)

  unfoldable pub handle_models : Listing F → List ModelEntry
  handle_models l = add_all (all_candidates l) []
