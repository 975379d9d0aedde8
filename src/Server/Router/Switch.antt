-- ===== src/Server/Router/Switch.antt =====
-- The kill switch: a model that is switched off by any of its names is routed by none.
use ultiproxy.Base.{
  ◌≡◌, refl, ◌⊎◌, true, false, Option, none, some, List, Text, is_empty, arith, lookup,
  lookup-insert_self, ap, ◌∙◌,
}
use ultiproxy.State.Types.{ModelRuntime}
use ultiproxy.State.Manager.{StateManager}
use ultiproxy.Provider.Registry.{Registry}
use ultiproxy.Server.Catalog.{ModelAlias, ModelCatalog, get}
use ultiproxy.Server.Models.{canonical_alias_id, disabled_state_row, row_off, toggled, toggle_model}
use ultiproxy.Server.Models.Laws.{alias_kill_switch, canonical_kill_switch}
use ultiproxy.Server.Router.{disabled_model, err, RegistryRouter, Excluded, switched_off, route}

toggled_row :
    (id : Text) (prev : Option ModelRuntime) → row_off (some (toggled id false prev)) ≡ true
toggled_row id none = refl
toggled_row id (some m) = refl

toggled_off :
    (id : Text) (sm : StateManager)
    → disabled_state_row (toggle_model id false sm).snapshot.models id ≡ true
unfolding disabled_state_row toggle_model
toggled_off id sm =
    ap row_off
      (lookup-insert_self id (toggled id false (lookup id sm.snapshot.models)) sm.snapshot.models)
    ∙ toggled_row id (lookup id sm.snapshot.models)

module _ {F : Type 0} where
  -- After toggle_model(id, false), where id is an alias or the canonical id that it stands for, Route
  -- refuses both names with the disabled error, whatever lanes there are. The canonical id is not
  -- empty and not itself an alias.
  pub toggle_refuses :
      (x : Excluded) (registry : Option Registry) (sm : StateManager) (c : ModelCatalog F)
      (id alias : Text) (entry : ModelAlias F)
      → get alias c ≡ some entry
      → is_empty (canonical_alias_id entry) ≡ false
      → get (canonical_alias_id entry) c ≡ none
      → (id ≡ alias) ⊎ (id ≡ canonical_alias_id entry)
      → let router : RegistryRouter F = record {
        registry = registry;
        sm = some (toggle_model id false sm);
        catalog = some c;
      } in
        (route x alias router ≡ err (disabled_model alias))
        × (route x (canonical_alias_id entry) router
            ≡ err (disabled_model (canonical_alias_id entry)))
  unfolding route switched_off
  toggle_refuses x registry sm c id alias entry g k n h = (
    ground (arith, toggled_off id sm, alias_kill_switch models c alias entry g k),
    ground (arith, toggled_off id sm, canonical_kill_switch models c alias entry g n),
  )
    where
      models : List (Text × ModelRuntime)
      models = (toggle_model id false sm).snapshot.models
