-- ===== src/ModelMeta/Info.antt =====
-- The overlay of listed ids: pkg/modelmeta/info.go. `writes` is whether a write of the file
-- succeeds; a failed one leaves the old file, since the new one is renamed into place.
pub mod Durable
use ultiproxy.Base.{
  ◌≡◌, Bool, true, false, not, ◌&&◌, Option, none, some, List, [], ◌∷◌, Text, bytes, ℤ, pos, ltb_ℤ,
  ◌||◌, is_empty, text_eq, if◌then◌else◌, or_else, elem, lookup, insert, erase,
}
use ultiproxy.ModelMeta.{Entry, is_bare}
use ultiproxy.ModelMeta.Catalog.{Entries}

-- InfoOverlay and its file. `has_path` is that the path is not empty.
pub record InfoOverlay : Type 0 where
  pub has_path : Bool
  pub entries : Entries
  pub file : Entries

pub data InfoError : Type 0 where
  id_required bare_patch write_failed : InfoError

abbrev pub no_entry : Entry
no_entry = record {
  entry_id = [];
  context_length = pos 0;
  max_output = pos 0;
  input_modalities = [];
  output_modalities = [];
  source = [];
}

-- The loop of NewInfoOverlay over the rows of the file.
unfoldable pub load_rows : Entries → Entries
load_rows [] = []
load_rows ((id, e) ∷ rows) = insert id (record e { entry_id = id }) (load_rows rows)

-- NewInfoOverlay, where the file is readable or missing.
unfoldable pub new_overlay : Bool → Entries → InfoOverlay
new_overlay has_path file = record {
  has_path = has_path;
  entries = if has_path then load_rows file else [];
  file = file;
}

unfoldable pub get : Text → InfoOverlay → Option Entry
get id o = lookup id o.entries

abbrev pub if_positive : ℤ → ℤ → ℤ
if_positive patch n = if ltb_ℤ (pos 0) patch then patch else n

abbrev pub if_given : {A : Type 0} → List A → List A → List A
if_given patch l = if is_empty patch then l else patch

-- The row of a patch over the one before.
unfoldable pub patched : Text → Entry → Entry → Entry
patched id patch cur =
    let source = if_given patch.source cur.source in
    record {
      entry_id = id;
      context_length = if_positive patch.context_length cur.context_length;
      max_output = if_positive patch.max_output cur.max_output;
      input_modalities = if_given patch.input_modalities cur.input_modalities;
      output_modalities = if_given patch.output_modalities cur.output_modalities;
      source = if is_empty source then bytes "mcp:set_model_info" else source;
    }

-- persist, and the publication of the rows after it.
unfoldable pub commit : Bool → Entries → InfoOverlay → InfoOverlay × Option InfoError
commit writes next o =
    if not o.has_path
    then (record o { entries = next }, none)
    else if writes
    then (record o { entries = next; file = next }, none)
    else (o, some write_failed)

unfoldable pub merge : Text → Entry → Bool → InfoOverlay → InfoOverlay × Option InfoError
merge id patch writes o =
    let cur = patched id patch (or_else (lookup id o.entries) no_entry) in
    if is_empty id
    then (o, some id_required)
    else if is_bare cur
    then (o, some bare_patch)
    else commit writes (insert id cur o.entries) o

abbrev is_one_of : Text → List Text → Bool
is_one_of f names = elem f names

unfoldable pub clear_field : Text → Entry → Entry
clear_field f e =
    if is_one_of f (bytes "context_length" ∷ bytes "context_limit" ∷ bytes "max_model_len" ∷ [])
    then record e { context_length = pos 0 }
    else if is_one_of f (bytes "max_output" ∷ bytes "max_output_tokens" ∷ [])
    then record e { max_output = pos 0 }
    else if text_eq f (bytes "input_modalities")
    then record e { input_modalities = [] }
    else if text_eq f (bytes "output_modalities")
    then record e { output_modalities = [] }
    else e

unfoldable pub clear_fields : List Text → Entry → Entry
clear_fields [] e = e
clear_fields (f ∷ fs) e = clear_fields fs (clear_field f e)

-- The rows without the cleared fields, or without the row.
unfoldable pub cleared : Text → List Text → Entry → Entries → Entries
cleared id fields cur rows =
    let left = clear_fields fields cur in
    if is_empty fields || is_bare left then erase id rows else insert id left rows

abbrev pub clear_row :
    Text → List Text → Bool → InfoOverlay → Option Entry → InfoOverlay × Option InfoError
clear_row id fields writes o none = (o, none)
clear_row id fields writes o (some cur) = commit writes (cleared id fields cur o.entries) o

unfoldable pub clear : Text → List Text → Bool → InfoOverlay → InfoOverlay × Option InfoError
clear id fields writes o = clear_row id fields writes o (lookup id o.entries)

pub data Call : Type 0 where
  merges : (id : Text) (patch : Entry) (writes : Bool) → Call
  clears : (id : Text) (fields : List Text) (writes : Bool) → Call

unfoldable pub step : Call → InfoOverlay → InfoOverlay
step (merges id patch writes) o = (merge id patch writes o).0
step (clears id fields writes) o = (clear id fields writes o).0

unfoldable pub run : List Call → InfoOverlay → InfoOverlay
run [] o = o
run (c ∷ cs) o = run cs (step c o)
