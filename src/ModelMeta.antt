-- ===== src/ModelMeta.antt =====
-- The metadata of models: pkg/modelmeta. A nil and an empty slice are the same here.
pub mod Modalities
pub mod Catalog
pub mod Info
mod Examples
use ultiproxy.Base.{Bool, ◌&&◌, List, [], Text, ℤ, is_nonpos, is_empty}

-- Entry: 0 is an unknown limit.
pub record Entry : Type 0 where
  pub entry_id : Text
  pub context_length : ℤ
  pub max_output : ℤ
  pub input_modalities : List Text
  pub output_modalities : List Text
  pub source : Text

-- Whether the entry has no metadata.
unfoldable pub is_bare : Entry → Bool
is_bare e =
    is_nonpos e.context_length
    && is_nonpos e.max_output
    && is_empty e.input_modalities
    && is_empty e.output_modalities
