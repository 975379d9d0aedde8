-- ===== src/ModelMeta/Examples.antt =====
-- The theorems on model metadata at concrete inputs, and the check of the seed.
use ultiproxy.Base.{
  ◌≡◌, refl, Bool, true, false, List, [], ◌∷◌, Text, bytes, ℤ, pos, text_eq, lookup, insert, elem,
  to_lower, lower_byte,
}
use ultiproxy.Provider.Sse.{trim_space, trim_right, trim_left}
use ultiproxy.ModelMeta.{Entry, is_bare}
use ultiproxy.ModelMeta.Modalities.{
  normalize_modalities, validate_modalities, normalize_token, token_of, normalize_from,
}
use ultiproxy.ModelMeta.Catalog.{
  new_catalog, new_from, check_entry, normalized, Result, ok, err, load_overlay, rows, insert_all,
  found_or, Entries,
}
use ultiproxy.ModelMeta.Catalog.Seed.{compiled}
use ultiproxy.ModelMeta.Catalog.Laws.{AllCited, load_overlay-AllCited}
use ultiproxy.ModelMeta.Info.{new_overlay, run, get, Call, merges, clears}
use ultiproxy.ModelMeta.Info.Durable.{overlay_survives}

abbrev spellings : List Text
spellings = bytes " PDF" ∷ bytes "img" ∷ bytes "files" ∷ bytes "smell" ∷ []

abbrev entry : ℤ → Entry
entry n = record {
  entry_id = bytes "glm-5.3";
  context_length = n;
  max_output = pos 0;
  input_modalities = bytes "text" ∷ [];
  output_modalities = [];
  source = bytes "https://docs.z.ai";
}

abbrev one : ℤ → Entries
one n = (bytes "glm-5.3", entry n) ∷ []

nine_built : new_catalog (entry (pos 9) ∷ []) ≡ ok (one (pos 9))
unfolding new_catalog new_from check_entry trim_space trim_right trim_left is_bare
    validate_modalities normalize_token token_of text_eq to_lower lower_byte normalized
    normalize_modalities normalize_from elem insert
nine_built = refl

five_built : new_catalog (entry (pos 5) ∷ []) ≡ ok (one (pos 5))
unfolding new_catalog new_from check_entry trim_space trim_right trim_left is_bare
    validate_modalities normalize_token token_of text_eq to_lower lower_byte normalized
    normalize_modalities normalize_from elem insert
five_built = refl

load_overlay-AllCited_example :
    AllCited (one (pos 9))
    × ((load_overlay (one (pos 9)) (rows (entry (pos 5) ∷ []))
          ≡ ok (insert_all (one (pos 5)) (one (pos 9))))
        × (AllCited (insert_all (one (pos 5)) (one (pos 9)))
            × (lookup (bytes "glm-5.3") (insert_all (one (pos 5)) (one (pos 9)))
                ≡ found_or
                    (lookup (bytes "glm-5.3") (one (pos 5)))
                    (lookup (bytes "glm-5.3") (one (pos 9))))))
load_overlay-AllCited_example =
    load_overlay-AllCited (entry (pos 9) ∷ []) (entry (pos 5) ∷ []) (one (pos 9)) (one (pos 5))
      (bytes "glm-5.3") nine_built five_built

abbrev calls : List Call
calls =
    merges (bytes "zai/glm-5.3") (entry (pos 128000)) true
    ∷ clears (bytes "zai/glm-5.3") (bytes "input_modalities" ∷ []) false
    ∷ []

overlay_survives_example :
    get (bytes "zai/glm-5.3") (new_overlay true (run calls (new_overlay true (one (pos 9)))).file)
    ≡ get (bytes "zai/glm-5.3") (run calls (new_overlay true (one (pos 9))))
overlay_survives_example = overlay_survives (one (pos 9)) calls (bytes "zai/glm-5.3")

abbrev is_ok : Result Entries → Bool
is_ok (ok m) = true
is_ok (err e) = false

-- Default does not panic.
default_ok : is_ok (new_catalog compiled) ≡ true
unfolding new_catalog new_from check_entry trim_space trim_right trim_left is_bare
    validate_modalities normalize_token token_of text_eq to_lower lower_byte normalized
    normalize_modalities normalize_from elem insert
default_ok = refl
