-- ===== src/Server/Models/Laws.antt =====
-- Synchronising the catalog, and switching a model off.
use ultiproxy.Base.{
  ◌≡◌, refl, true, false, not, Option, none, some, List, [], ◌∷◌, ◌||◌, ◌&&◌, Text, if◌then◌else◌,
  is_empty, is_some, lookup, erase_all, elem, keys, text_eq_iff, text_eq_refl, lookup-insert,
  lookup-erase_all, elem-keys, arith,
}
use ultiproxy.State.Types.{ModelRuntime}
use ultiproxy.Server.Catalog.{ModelAlias, Aliases, ModelCatalog, get}
use ultiproxy.Server.Models.{
  disabled_state_row, canonical_alias_id, alias_off, target_off, model_is_disabled, synced_row,
  install_all, gone, sync_models,
}

module _ {F : Type 0} where
  elem-gone :
      (j : Text) (owned : List Text) (aliases : Aliases F)
      → elem j (gone owned aliases) ≡ (elem j owned && not (is_some (lookup j aliases)))
  unfolding gone elem
  elem-gone j [] aliases = refl
  elem-gone j (a ∷ owned) aliases = ground (arith, elem-gone j owned aliases, text_eq_iff a j)

  lookup-install_all :
      (j : Text) (aliases : Aliases F) (models : List (Text × ModelRuntime))
      → lookup j (install_all aliases models) ≡ elim (lookup j aliases) [
        | none ↦ lookup j models
        | some e ↦ some (synced_row j e (lookup j models))
      ]
  unfolding install_all synced_row lookup
  lookup-install_all j [] models = refl
  lookup-install_all j ((a, e) ∷ rest) models = ground (
    arith,
    text_eq_iff a j,
    lookup-insert a j (synced_row a e (lookup a (install_all rest models)))
        (install_all rest models),
    lookup-install_all j rest models,
    lookup-install_all a rest models,
  )

  abbrev pub synced :
      Text → List Text → Option (ModelAlias F) → Option ModelRuntime → Option ModelRuntime
  synced j owned (some e) prev = some (record {
    id = j;
    provider = e.provider;
    is_enabled = elim prev [ none ↦ true | some p ↦ p.is_enabled ];
    context_limit = e.context_limit;
    max_output = e.max_output;
    pricing_tag = e.pricing_tag;
  })
  synced j owned none prev = if elem j owned then none else prev

  -- After syncCatalogToState every alias of the catalog has the catalog's row with the switch that
  -- its row had, on if it had none; an alias that an earlier sync installed and the catalog no
  -- longer has is gone; every other row is as it was.
  pub lookup-sync_models :
      (j : Text) (owned : List Text) (aliases : Aliases F) (models : List (Text × ModelRuntime))
      → lookup j (sync_models owned aliases models)
        ≡ synced j owned (lookup j aliases) (lookup j models)
  unfolding sync_models synced_row
  lookup-sync_models j owned aliases models = ground (
    arith,
    lookup-install_all j aliases (erase_all (gone owned aliases) models),
    lookup-erase_all j (gone owned aliases) models,
    elem-gone j owned aliases,
  )

  -- Synchronising again changes no row.
  pub sync_models_twice :
      (j : Text) (owned : List Text) (aliases : Aliases F) (models : List (Text × ModelRuntime))
      → lookup j (sync_models (keys aliases) aliases (sync_models owned aliases models))
        ≡ lookup j (sync_models owned aliases models)
  sync_models_twice j owned aliases models = ground (
    arith,
    lookup-sync_models j owned aliases models,
    lookup-sync_models j (keys aliases) aliases (sync_models owned aliases models),
    elem-keys j aliases,
  )

  -- An alias is off if its own row is off or the row of the id that it stands for is.
  pub alias_kill_switch :
      (models : List (Text × ModelRuntime)) (c : ModelCatalog F) (alias : Text)
      (entry : ModelAlias F)
      → get alias c ≡ some entry
      → is_empty (canonical_alias_id entry) ≡ false
      → model_is_disabled models alias (some c)
        ≡ (disabled_state_row models alias || disabled_state_row models (canonical_alias_id entry))
  unfolding model_is_disabled get target_off disabled_state_row
  alias_kill_switch models c alias entry h k = ground arith

  alias_off_lem :
      (models : List (Text × ModelRuntime)) (aliases : Aliases F) (alias : Text)
      (entry : ModelAlias F)
      → lookup alias aliases ≡ some entry
      → disabled_state_row models alias ≡ true
      → alias_off models (canonical_alias_id entry) aliases ≡ true
  unfolding alias_off lookup disabled_state_row
  alias_off_lem models [] alias entry h k = cc
  alias_off_lem models ((a, e) ∷ rest) alias entry h k = ground (
    arith,
    text_eq_iff a alias,
    text_eq_refl (canonical_alias_id entry),
    alias_off_lem models rest alias entry,
  )

  -- A canonical id that is no alias itself is off if its own row is off, or the row of any alias
  -- that stands for it.
  pub canonical_kill_switch :
      (models : List (Text × ModelRuntime)) (c : ModelCatalog F) (alias : Text)
      (entry : ModelAlias F)
      → get alias c ≡ some entry
      → get (canonical_alias_id entry) c ≡ none
      → (disabled_state_row models alias || disabled_state_row models (canonical_alias_id entry))
        ≡ true
      → model_is_disabled models (canonical_alias_id entry) (some c) ≡ true
  unfolding model_is_disabled get disabled_state_row
  canonical_kill_switch models c alias entry h k d =
      ground (arith, alias_off_lem models c.aliases alias entry h)
