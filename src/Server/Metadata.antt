-- ===== src/Server/Metadata.antt =====
-- resolveModelMeta of pkg/server/handlers.go: the metadata of a listed id, field by field.
pub mod Precedence
use ultiproxy.Base.{
  Bool, true, false, ◌&&◌, ◌||◌, Option, none, some, List, [], ◌∷◌, ◌++◌, Text, ℤ, pos, ltb_ℤ,
  is_nonpos, is_empty, if◌then◌else◌, text_eq,
}
use ultiproxy.Provider.Registry as Registry
use ultiproxy.Provider.Registry.{Capability, Provider, Registry}
use ultiproxy.Server.Catalog.{ModelAlias}
use ultiproxy.Server.Models.{slash}
use ultiproxy.ModelMeta.{Entry}
use ultiproxy.ModelMeta.Catalog.{Entries, lookup_first}
use ultiproxy.ModelMeta.Info as Info
use ultiproxy.ModelMeta.Info.{InfoOverlay, if_positive, if_given}

-- listedModelMeta: 0 and [] are unknown.
pub record Meta : Type 0 where
  pub context_length : ℤ
  pub max_output : ℤ
  pub input_modalities : List Text
  pub output_modalities : List Text

-- A model that a lane has discovered: pkg/provider/provider.go.
pub record ModelInfo : Type 0 where
  pub info_id : Text
  pub info_meta : Meta

abbrev pub no_meta : Meta
no_meta = record {
  context_length = pos 0;
  max_output = pos 0;
  input_modalities = [];
  output_modalities = [];
}

abbrev pub entry_meta : Entry → Meta
entry_meta e = record {
  context_length = e.context_length;
  max_output = e.max_output;
  input_modalities = e.input_modalities;
  output_modalities = e.output_modalities;
}

abbrev pub alias_meta : {F : Type 0} → ModelAlias F → Meta
alias_meta e = record {
  context_length = e.context_limit;
  max_output = e.max_output;
  input_modalities = e.input_modalities;
  output_modalities = e.output_modalities;
}

-- What a lane's Inference implements: CachedModels, CachedModelInfo and DefaultModel; `none` where
-- it has no such method.
pub record Discovery : Type 0 where
  pub cached_models : Option (List Text)
  pub cached_model_info : Option (List ModelInfo)
  pub default_model : Option Text

-- What resolveModelMeta reads: the lanes, the cited catalog and the overlay, if there are any.
pub record Sources : Type 0 where
  pub registry : Option Registry
  pub discovery : Capability → Discovery
  pub meta : Option Entries
  pub info : Option InfoOverlay

-- The alias' own metadata, and what is only filled in where it is unknown.
unfoldable pub asserted : Meta → Meta
asserted m = record m {
  context_length = if_positive m.context_length (pos 0);
  max_output = if_positive m.max_output (pos 0);
}

abbrev pub if_unknown : ℤ → ℤ → ℤ
if_unknown n x = if is_nonpos n && ltb_ℤ (pos 0) x then x else n

unfoldable pub fill_in : Option Meta → Meta → Meta
fill_in none m = m
fill_in (some d) m = record {
  context_length = if_unknown m.context_length d.context_length;
  max_output = if_unknown m.max_output d.max_output;
  input_modalities = if is_empty m.input_modalities then d.input_modalities else m.input_modalities;
  output_modalities =
      if is_empty m.output_modalities then d.output_modalities else m.output_modalities;
}

-- The overlay's fields replace the others.
unfoldable pub lay_over : Option Meta → Meta → Meta
lay_over none m = m
lay_over (some o) m = record {
  context_length = if_positive o.context_length m.context_length;
  max_output = if_positive o.max_output m.max_output;
  input_modalities = if_given o.input_modalities m.input_modalities;
  output_modalities = if_given o.output_modalities m.output_modalities;
}

abbrev pub meta_of : Option Entry → Option Meta
meta_of none = none
meta_of (some e) = some (entry_meta e)

unfoldable pub find_info : Text → List ModelInfo → Option Meta
find_info upstream [] = none
find_info upstream (m ∷ ms) =
    let rest = find_info upstream ms in
    if text_eq m.info_id upstream then some m.info_meta else rest

abbrev pub cached_info : Text → Option (List ModelInfo) → Option Meta
cached_info upstream none = none
cached_info upstream (some ms) = find_info upstream ms

abbrev pub inference_info : (Capability → Discovery) → Text → Option Capability → Option Meta
inference_info discovery upstream none = none
inference_info discovery upstream (some i) = cached_info upstream (discovery i).cached_model_info

abbrev pub bundle_info : (Capability → Discovery) → Text → Option Provider → Option Meta
bundle_info discovery upstream none = none
bundle_info discovery upstream (some p) = inference_info discovery upstream p.inference

abbrev pub registry_info : (Capability → Discovery) → Text → Text → Option Registry → Option Meta
registry_info discovery lane upstream none = none
registry_info discovery lane upstream (some r) =
    bundle_info discovery upstream (Registry.get lane r)

unfoldable pub discovered_model_info : Sources → Text → Text → Option Meta
discovered_model_info s lane upstream =
    if is_empty lane || is_empty upstream
    then none
    else registry_info s.discovery lane upstream s.registry

abbrev pub looked_up : List Text → Option Entries → Option Entry
looked_up ids none = none
looked_up ids (some entries) = lookup_first ids entries

-- MetaEntry and InfoEntry of the alias catalog.
unfoldable pub static_model_entry : Sources → Text → Text → Text → Option Meta
static_model_entry s listed_id lane upstream =
    meta_of (looked_up (listed_id ∷ (lane ++ slash ++ upstream) ∷ upstream ∷ []) s.meta)

abbrev pub overlay_row : Text → Option InfoOverlay → Option Entry
overlay_row id none = none
overlay_row id (some o) = Info.get id o

unfoldable pub overlay_model_entry : Sources → Text → Option Meta
overlay_model_entry s listed_id = meta_of (overlay_row listed_id s.info)

unfoldable pub resolve_model_meta : Sources → Text → Text → Text → Meta → Meta
resolve_model_meta s listed_id lane upstream alias = lay_over (overlay_model_entry s listed_id) (
    fill_in (static_model_entry s listed_id lane upstream)
      (fill_in (discovered_model_info s lane upstream) (asserted alias)))
