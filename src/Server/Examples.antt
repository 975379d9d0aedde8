-- ===== src/Server/Examples.antt =====
-- The theorems on the catalog, the model rows and the router at concrete inputs.
use ultiproxy.Base.{
  ◌≡◌, refl, inl, ◌⊎◌, Bool, true, false, ◌||◌, ℕ, pos, none, some, List, [], ◌∷◌, Text, bytes,
  if◌then◌else◌, is_empty, is_some, text_eq, lookup, insert,
}
use ultiproxy.State.Types.{ModelRuntime}
use ultiproxy.State.Manager.{new_state_manager}
use ultiproxy.Provider.Registry.{Provider, Registry}
use ultiproxy.Provider.Registry
use ultiproxy.Provider.Registry.Laws.{run-IsOrdered}
use ultiproxy.Server.Catalog.{
  ModelAlias, Aliases, ModelCatalog, removes, new_model_catalog, missing, get, set, run,
}
use ultiproxy.Server.Catalog.Durable.{first_of_both, restarted, restart_restores, get-set}
use ultiproxy.Server.Models.{canonical_alias_id, sync_models, toggle_model}
use ultiproxy.Server.Models.Laws.{synced, lookup-sync_models}
use ultiproxy.Server.Router.{
  RegistryRouter, route, route_enabled, ok, err, disabled_model, switched_off,
}
use ultiproxy.Server.Router.Safety.{Sound, route-Sound}
use ultiproxy.Server.Router.Switch.{toggle_refuses}

-- The costs do not matter here.
abbrev glm : ModelAlias ℕ
glm = record {
  provider = bytes "zai";
  upstream = bytes "glm-5";
  context_limit = pos 0;
  max_output = pos 0;
  pricing_tag = [];
  input_cost = 0;
  output_cost = 0;
  input_modalities = [];
  output_modalities = [];
}

abbrev fast : Text
fast = bytes "fast"

abbrev config : Aliases ℕ
config = (fast, glm) ∷ []

abbrev catalog : ModelCatalog ℕ
catalog = record { aliases = config; has_path = true; file = none }

loaded : new_model_catalog config true missing ≡ inl catalog
unfolding new_model_catalog insert
loaded = refl

restart_restores_example :
    lookup fast (restarted config (run catalog (removes fast false ∷ [])))
    ≡ first_of_both (get fast (run catalog (removes fast false ∷ []))) (lookup fast config)
restart_restores_example =
    restart_restores config none catalog (removes fast false ∷ []) fast loaded

get-set_example :
    let (d, e) = set fast glm false catalog in
    ((e ≡ none) × (get fast d ≡ (if text_eq fast fast then some glm else get fast catalog)))
    ⊎ (is_some e ≡ true)
      × (d ≡ catalog)
      × ((is_empty fast || is_empty glm.provider || is_empty glm.upstream ≡ true)
          ⊎ (catalog.has_path ≡ true) × ◌≡◌ {A = Bool} false false)
get-set_example = get-set fast fast glm false catalog

abbrev off_row : ModelRuntime
off_row = record {
  id = fast;
  provider = bytes "zai";
  is_enabled = false;
  context_limit = pos 0;
  max_output = pos 0;
  pricing_tag = [];
}

abbrev models : List (Text × ModelRuntime)
models = (fast, off_row) ∷ []

lookup-sync_models_example :
    lookup fast (sync_models [] config models)
    ≡ synced fast [] (lookup fast config) (lookup fast models)
lookup-sync_models_example = lookup-sync_models fast [] config models

abbrev calls : List Registry.Call
calls =
    Registry.registers (record {
      inference = some (record { name = bytes "zai"; object = 1 });
      quota = none;
      auth = none;
      tools = true;
    })
    ∷ []

abbrev lanes : Registry
lanes = Registry.run Registry.new_registry calls

abbrev router : RegistryRouter ℕ
router = record { registry = some lanes; sm = none; catalog = some catalog }

fast_routes : route [] fast router ≡ ok (bytes "zai")
unfolding route switched_off route_enabled Registry.run Registry.step Registry.new_registry lookup
    insert text_eq
fast_routes = refl

route-Sound_example :
    (switched_off fast router ≡ false) × Sound [] fast lanes (some catalog) (bytes "zai")
route-Sound_example = route-Sound [] fast router lanes refl (run-IsOrdered calls) fast_routes

toggle_refuses_example :
    let r : RegistryRouter ℕ = record {
      registry = some lanes;
      sm = some (toggle_model fast false (new_state_manager none none));
      catalog = some catalog;
    } in
    (route [] fast r ≡ err (disabled_model fast))
    × (route [] (canonical_alias_id glm) r ≡ err (disabled_model (canonical_alias_id glm)))
unfolding get lookup text_eq canonical_alias_id
toggle_refuses_example =
    toggle_refuses [] (some lanes) (new_state_manager none none) catalog fast fast glm refl refl
      refl (inl refl)
