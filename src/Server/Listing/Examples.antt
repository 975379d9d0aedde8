-- ===== src/Server/Listing/Examples.antt =====
-- The list of models at a concrete server.
use ultiproxy.Base.{
  ◌≡◌, refl, ◌≤◌, inl, true, false, none, some, List, [], ◌∷◌, Text, bytes, ℕ, pos, elem, text_eq,
  lookup, insert, starts_with,
}
use ultiproxy.State.Manager.{StateManager, new_state_manager, update, update_snapshot}
use ultiproxy.State.Types.{clone}
use ultiproxy.Provider.Registry as Registry
use ultiproxy.Provider.Registry.{Registry, Capability, Provider}
use ultiproxy.Provider.Registry.Laws.{count, run-IsOrdered}
use ultiproxy.Server.Catalog.{ModelAlias, ModelCatalog}
use ultiproxy.Server.Models.{toggle_model, model_is_disabled, disabled_state_row}
use ultiproxy.Server.Models.Keyed.{Change, toggles}
use ultiproxy.Server.Router.{RegistryRouter, err, disabled_model, switched_off, route}
use ultiproxy.Server.Router.Lanes.{has_slash}
use ultiproxy.Server.Metadata.{Meta, Discovery, no_meta, resolve_model_meta}
use ultiproxy.Server.Metadata.Precedence.{
  first_positive, first_given, field_of, resolve_model_meta-first,
}
use ultiproxy.Server.Listing.{
  Listing, ids_of, all_candidates, handle_models, sources, visible, is_test_lane,
}
use ultiproxy.Server.Listing.Collect.{collect_listed_ids, lane_ids}
use ultiproxy.Server.Listing.Once.{first_entry, first_candidate, listed_once}
use ultiproxy.Server.Listing.Agree.{listings_agree}
use ultiproxy.Server.Listing.Routes.{Reaches, lane_models_reach}

abbrev zai : Text
zai = bytes "zai"

abbrev glm : Text
glm = bytes "zai/glm"

abbrev fast : ModelAlias ℕ
fast = record {
  provider = zai;
  upstream = bytes "glm";
  context_limit = pos 0;
  max_output = pos 500;
  pricing_tag = [];
  input_cost = 0;
  output_cost = 0;
  input_modalities = [];
  output_modalities = [];
}

abbrev catalog : ModelCatalog ℕ
catalog = record { aliases = (bytes "fast", fast) ∷ []; has_path = false; file = none }

abbrev calls : List Registry.Call
calls =
    Registry.registers (record {
      inference = some (record { name = zai; object = 1 });
      quota = none;
      auth = none;
      tools = true;
    })
    ∷ []

abbrev lanes : Registry
lanes = Registry.run Registry.new_registry calls

-- The operator has switched the canonical id off.
abbrev changes : List (Change ℕ)
changes = toggles glm false ∷ []

abbrev sm : StateManager
sm = toggle_model glm false (new_state_manager none none)

abbrev router : RegistryRouter ℕ
router = record { registry = some lanes; sm = some sm; catalog = some catalog }

abbrev window : Meta
window = record no_meta { context_length = pos 8000; max_output = pos 900 }

abbrev discovered : Discovery
discovered = record {
  cached_models = some (bytes "glm" ∷ []);
  cached_model_info = some ((record { info_id = bytes "glm"; info_meta = window }) ∷ []);
  default_model = some (bytes "air");
}

abbrev server : Listing ℕ
server = record {
  router = router;
  discovery = λ c. discovered;
  meta = none;
  info = none;
  hides_tests = true;
}

listings_agree_example :
    elem glm (ids_of (handle_models server)) ≡ elem glm (collect_listed_ids server catalog)
unfolding insert toggle_model new_state_manager
listings_agree_example = listings_agree server catalog changes glm refl refl

listed_once_example :
    (count glm (ids_of (handle_models server)) ≤ 1)
    × (first_entry glm (handle_models server) ≡ first_candidate glm (all_candidates server))
listed_once_example = listed_once server glm refl

resolve_model_meta-first_example :
    let m = resolve_model_meta (sources server) glm zai (bytes "glm") no_meta in
    ((m.context_length
        ≡ first_positive
            (field_of (λ x. x.context_length) (sources server) glm zai (bytes "glm") no_meta))
      × (m.max_output
          ≡ first_positive
              (field_of (λ x. x.max_output) (sources server) glm zai (bytes "glm") no_meta)))
    × ((m.input_modalities
          ≡ first_given
              (field_of (λ x. x.input_modalities) (sources server) glm zai (bytes "glm") no_meta))
        × (m.output_modalities
            ≡ first_given (
                field_of
                  (λ x. x.output_modalities)
                  (sources server)
                  glm
                  zai
                  (bytes "glm")
                  no_meta)))
resolve_model_meta-first_example =
    resolve_model_meta-first (sources server) glm zai (bytes "glm") no_meta

-- The switched-off model is listed all the same, since its lane has discovered it.
lane_models_reach_example :
    (elem glm (ids_of (handle_models server)) ≡ true) × Reaches router zai glm
unfolding Registry.get Registry.names lookup Registry.run Registry.step insert Registry.new_registry
    text_eq has_slash elem lane_ids visible is_test_lane starts_with
lane_models_reach_example =
    lane_models_reach server lanes zai glm discovered refl (run-IsOrdered calls) refl refl refl
      (inl refl, refl, tt) refl refl refl

glm_refused : route [] glm router ≡ err (disabled_model glm)
unfolding route switched_off model_is_disabled disabled_state_row lookup toggle_model insert
    new_state_manager text_eq update update_snapshot clone
glm_refused = refl
