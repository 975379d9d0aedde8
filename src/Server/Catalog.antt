-- ===== src/Server/Catalog.antt =====
-- The alias catalog of pkg/server/catalog.go with its persistence file. The cited static catalog
-- and the info overlay that it also holds are in ModelMeta.
pub mod Durable
use mathlib.Core.Option
use ultiproxy.Base.{
  inl, inr, ◌⊎◌, ℕ, Bool, true, false, Option, none, some, List, [], ◌∷◌, ◌++◌, ◌||◌, Text, ℤ,
  if◌then◌else◌, is_empty, is_some, lookup, insert, erase, map,
}

-- An alias; `F` is float64. The benchmark scores are left out: nothing here reads them.
pub record ModelAlias (F : Type 0) : Type 0 where
  pub provider : Text
  pub upstream : Text
  pub context_limit : ℤ
  pub max_output : ℤ
  pub pricing_tag : Text
  pub input_cost : F
  pub output_cost : F
  pub input_modalities : List Text
  pub output_modalities : List Text

abbrev pub Aliases : Type 0 → Type 0
Aliases F = List (Text × ModelAlias F)

-- The catalog. `has_path` says that `persistPath` is not empty, and `file` is what the file there
-- holds, decoded: `none` if there is no file.
pub record ModelCatalog (F : Type 0) : Type 0 where
  pub aliases : Aliases F
  pub has_path : Bool
  pub file : Option (Aliases F)

-- What os.ReadFile and json.Unmarshal make of the persistence file.
pub data FileRead (F : Type 0) : Type 0 where
  missing : FileRead F
  holds : Aliases F → FileRead F
  corrupt unreadable : FileRead F

pub data CatalogError : Type 0 where
  corrupt_file unreadable_file alias_required persist_failed : CatalogError

module _ {F : Type 0} where
  -- `for alias, entry := range extra { aliases[alias] = entry }`.
  unfoldable pub overlay : Aliases F → Aliases F → Aliases F
  overlay [] base = base
  overlay ((alias, entry) ∷ extra) base = insert alias entry (overlay extra base)

  -- NewModelCatalog.
  abbrev pub load : Aliases F → FileRead F → ModelCatalog F ⊎ CatalogError
  load config missing = inl (record { aliases = config; has_path = true; file = none })
  load config (holds extra) =
      inl (record { aliases = overlay extra config; has_path = true; file = some extra })
  load config corrupt = inr corrupt_file
  load config unreadable = inr unreadable_file

  unfoldable pub new_model_catalog : Aliases F → Bool → FileRead F → ModelCatalog F ⊎ CatalogError
  unfolding overlay
  new_model_catalog config false read =
      inl (record { aliases = overlay config []; has_path = false; file = none })
  new_model_catalog config true read = load (overlay config []) read

  unfoldable pub get : Text → ModelCatalog F → Option (ModelAlias F)
  get alias c = lookup alias c.aliases

  unfoldable pub upstream_name : Text → ModelCatalog F → Option Text
  upstream_name alias c = Option.map (λ e. e.upstream) (lookup alias c.aliases)

  -- persistAliases, then publication. `written` says whether marshalling and writeFileAtomic
  -- succeed; a failed write leaves the old file, since the new one is renamed into place.
  unfoldable pub publish : Aliases F → Bool → ModelCatalog F → ModelCatalog F × Option CatalogError
  publish next written c =
      if c.has_path
      then (if written
          then (record c { aliases = next; file = some next }, none)
          else (c, some persist_failed))
      else (record c { aliases = next }, none)

  unfoldable pub set :
      Text → ModelAlias F → Bool → ModelCatalog F → ModelCatalog F × Option CatalogError
  unfolding publish
  set alias entry written c =
      if is_empty alias || is_empty entry.provider || is_empty entry.upstream
      then (c, some alias_required)
      else publish (insert alias entry c.aliases) written c

  unfoldable pub remove : Text → Bool → ModelCatalog F → ModelCatalog F × Option CatalogError
  unfolding publish
  remove alias written c = publish (erase alias c.aliases) written c

-- The mutations, each with the outcome of its write.
pub data Call (F : Type 0) : Type 0 where
  sets : Text → ModelAlias F → Bool → Call F
  removes : Text → Bool → Call F

module _ {F : Type 0} where
  unfoldable pub step : ModelCatalog F → Call F → ModelCatalog F
  unfolding set remove
  step c (sets alias entry written) = (set alias entry written c).0
  step c (removes alias written) = (remove alias written c).0

  unfoldable pub run : ModelCatalog F → List (Call F) → ModelCatalog F
  run c [] = c
  run c (m ∷ ms) = run (step c m) ms
