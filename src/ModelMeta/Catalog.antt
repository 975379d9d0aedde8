-- ===== src/ModelMeta/Catalog.antt =====
-- The cited catalog: pkg/modelmeta/modelmeta.go and its seed, catalog.go.
pub mod Seed
pub mod Laws
use ultiproxy.Base.{
  ◌≡◌, Bool, true, false, not, ◌&&◌, ◌||◌, Option, none, some, List, [], ◌∷◌, ◌++◌, Text, bytes, ℤ,
  pos, ltb_ℤ, is_empty, if◌then◌else◌, lookup, insert,
}
use ultiproxy.Provider.Sse.{trim_space}
use ultiproxy.ModelMeta.{Entry, is_bare}
use ultiproxy.ModelMeta.Modalities.{normalize_modalities, validate_modalities}

pub data CatalogError : Type 0 where
  no_id : CatalogError
  no_source no_metadata negative_limit normalized_away : Text → CatalogError
  bad_input bad_output : (id modality : Text) → CatalogError
  unreadable malformed : CatalogError

pub data Result (A : Type 0) : Type 0 where
  ok : A → Result A
  err : CatalogError → Result A

infixl 5 ◌>>=◌
abbrev pub ◌>>=◌ : {A B : Type 0} → Result A → (A → Result B) → Result B
ok a >>= f = f a
err e >>= f = err e

abbrev pub Entries : Type 0
Entries = List (Text × Entry)

-- The first unknown token of a modality array is an error.
abbrev pub check : (Text → CatalogError) → Option Text → Entry → Result Entry
check bad none e = ok e
check bad (some m) e = err (bad m)

unfoldable pub normalized : Entry → Entry
normalized e = record e {
  input_modalities = normalize_modalities e.input_modalities;
  output_modalities = normalize_modalities e.output_modalities;
}

abbrev pub is_negative : ℤ → Bool
is_negative n = ltb_ℤ n (pos 0)

-- The body of New's loop.
unfoldable pub check_entry : Entry → Result Entry
check_entry raw =
    let e = record raw { entry_id = trim_space raw.entry_id } in
    let id = e.entry_id in
    if is_empty id
    then err no_id
    else if is_empty (trim_space e.source)
    then err (no_source id)
    else if is_bare e
    then err (no_metadata id)
    else if is_negative e.context_length || is_negative e.max_output
    then err (negative_limit id)
    else check (bad_input id) (validate_modalities e.input_modalities) e
      >>= check (bad_output id) (validate_modalities e.output_modalities)
      >>= λ e'. let n = normalized e' in if is_bare n then err (normalized_away id) else ok n

-- New, from the entries before.
unfoldable pub new_from : List Entry → Entries → Result Entries
new_from [] out = ok out
new_from (raw ∷ raws) out = check_entry raw >>= λ e. new_from raws (insert e.entry_id e out)

unfoldable pub new_catalog : List Entry → Result Entries
new_catalog raws = new_from raws []

-- Lookup: the first of the ids that has a row; empty ids are skipped.
abbrev pub found_or : Option Entry → Option Entry → Option Entry
found_or none o = o
found_or (some e) o = some e

unfoldable pub lookup_first : List Text → Entries → Option Entry
lookup_first [] m = none
lookup_first (id ∷ ids) m =
    let rest = lookup_first ids m in if is_empty id then rest else found_or (lookup id m) rest

-- What the overlay's path gives: no path or no file, an error, or the rows of the file.
pub data OverlayFile : Type 0 where
  absent_file broken_file not_entries : OverlayFile
  rows : List Entry → OverlayFile

-- The rows of one map over those of another, in any order of the first one's keys.
unfoldable pub insert_all : Entries → Entries → Entries
insert_all [] m = m
insert_all ((k, e) ∷ over) m = insert k e (insert_all over m)

unfoldable pub load_overlay : Entries → OverlayFile → Result Entries
load_overlay compiled absent_file = ok compiled
load_overlay compiled broken_file = err unreadable
load_overlay compiled not_entries = err malformed
load_overlay compiled (rows raws) = new_catalog raws >>= λ extra. ok (insert_all extra compiled)
