-- ===== src/Server/Models.antt =====
-- The model rows of the runtime snapshot: canonicalAliasID, modelIsDisabled, syncCatalogToState and
-- ToggleModel of pkg/server/server.go.
pub mod Laws
pub mod Keyed
use mathlib.Core.Option
use ultiproxy.Base.{
  ℕ, Bool, true, false, not, Option, none, some, List, [], ◌∷◌, ◌++◌, ◌||◌, ◌&&◌, Text, ℤ, pos,
  if◌then◌else◌, is_empty, is_some, lookup, insert, erase, erase_all, elem, keys, text_eq, bytes,
}
use ultiproxy.State.Types.{ModelRuntime, RuntimeSnapshot}
use ultiproxy.State.Manager.{StateManager, update}
use ultiproxy.Server.Catalog.{ModelAlias, Aliases, ModelCatalog, get}

abbrev pub slash : Text
slash = b'/' ∷ []

-- A row that says that its model is switched off.
abbrev pub row_off : Option ModelRuntime → Bool
row_off none = false
row_off (some mr) = not mr.is_enabled

-- disabledStateRow, and `mr, ok := models[id]; ok && !mr.Enabled`.
unfoldable pub disabled_state_row : List (Text × ModelRuntime) → Text → Bool
disabled_state_row models id = row_off (lookup id models)

module _ {F : Type 0} where
  -- canonicalAliasID; the empty text if the alias has no target.
  unfoldable pub canonical_alias_id : ModelAlias F → Text
  canonical_alias_id entry =
      if is_empty entry.provider || is_empty entry.upstream
      then []
      else entry.provider ++ slash ++ entry.upstream

  -- The loop of modelIsDisabled over catalog.List().
  unfoldable pub alias_off : List (Text × ModelRuntime) → Text → Aliases F → Bool
  unfolding canonical_alias_id disabled_state_row
  alias_off models model [] = false
  alias_off models model ((name, e) ∷ rest) =
      text_eq (canonical_alias_id e) model && disabled_state_row models name
      || alias_off models model rest

  -- `c := canonicalAliasID(entry); c != "" && ...`.
  unfoldable pub target_off : List (Text × ModelRuntime) → ModelAlias F → Bool
  unfolding canonical_alias_id disabled_state_row
  target_off models entry =
      not (is_empty (canonical_alias_id entry))
      && disabled_state_row models (canonical_alias_id entry)

  abbrev catalog_off : List (Text × ModelRuntime) → Text → Option (ModelCatalog F) → Bool
  catalog_off models model none = false
  catalog_off models model (some c) = elim (get model c) [
    | some entry ↦ target_off models entry
    | none ↦ alias_off models model c.aliases
  ]

  unfoldable pub model_is_disabled :
      List (Text × ModelRuntime) → Text → Option (ModelCatalog F) → Bool
  unfolding disabled_state_row alias_off target_off get
  model_is_disabled models model catalog =
      disabled_state_row models model || catalog_off models model catalog

  -- The row that syncCatalogToState installs for an alias, given the row that was there.
  unfoldable pub synced_row : Text → ModelAlias F → Option ModelRuntime → ModelRuntime
  synced_row alias entry prev = record {
    id = alias;
    provider = entry.provider;
    is_enabled = elim prev [ none ↦ true | some p ↦ p.is_enabled ];
    context_limit = entry.context_limit;
    max_output = entry.max_output;
    pricing_tag = entry.pricing_tag;
  }

  unfoldable pub install_all : Aliases F → List (Text × ModelRuntime) → List (Text × ModelRuntime)
  unfolding synced_row
  install_all [] models = models
  install_all ((alias, entry) ∷ rest) models =
      let installed = install_all rest models in
      insert alias (synced_row alias entry (lookup alias installed)) installed

  -- The aliases that an earlier sync installed and the catalog no longer has.
  unfoldable pub gone : List Text → Aliases F → List Text
  gone [] aliases = []
  gone (a ∷ owned) aliases =
      let rest = gone owned aliases in if is_some (lookup a aliases) then rest else a ∷ rest

  -- The snapshot's models after the Update of syncCatalogToState.
  unfoldable pub sync_models :
      List Text → Aliases F → List (Text × ModelRuntime) → List (Text × ModelRuntime)
  unfolding install_all gone
  sync_models owned aliases models = install_all aliases (erase_all (gone owned aliases) models)

-- What syncCatalogToState works on: the catalog, the state manager, and `catalogOwned`.
pub record Server (F : Type 0) : Type 0 where
  pub catalog : ModelCatalog F
  pub sm : Option StateManager
  pub catalog_owned : List Text

module _ {F : Type 0} where
  unfoldable pub sync_catalog_to_state : Server F → Server F
  unfolding sync_models update
  sync_catalog_to_state s = elim s.sm [
    | none ↦ s
    | some sm ↦ record s {
      sm = some (
          update
            (λ snap. record snap {
              models = sync_models s.catalog_owned s.catalog.aliases snap.models;
            })
            sm);
      catalog_owned = keys s.catalog.aliases;
    }
  ]

-- ToggleModel; a missing row is made with the id alone.
abbrev pub toggled : Text → Bool → Option ModelRuntime → ModelRuntime
toggled id on none = record {
  id = id;
  provider = [];
  is_enabled = on;
  context_limit = pos 0;
  max_output = pos 0;
  pricing_tag = [];
}
toggled id on (some m) = record m { is_enabled = on }

unfoldable pub toggle_model : Text → Bool → StateManager → StateManager
unfolding update
toggle_model id on sm =
    update
      (λ snap. record snap {
        models = insert id (toggled id on (lookup id snap.models)) snap.models;
      })
      sm
