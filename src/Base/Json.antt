-- ===== src/Base/Json.antt =====
-- What encoding/json decodes into an `any`. A number is its text.
use mathlib.Core.Bool.{Bool, true, false}
use mathlib.Core.List.{[]}
use ultiproxy.Base.Tests.{if◌then◌else◌}
use ultiproxy.Base.Bytes.{Text, text_eq}

mutual
  pub data Json : Type 0 where
    null : Json
    boolean : Bool → Json
    number : Text → Json
    string : Text → Json
    array : Items → Json
    object : Fields → Json

  pub data Items : Type 0 where
    no_items : Items
    item : Json → Items → Items

  pub data Fields : Type 0 where
    no_fields : Fields
    field : Text → Json → Fields → Fields

-- m[k] of a map[string]any; a missing key has nil.
unfoldable pub get_field : Text → Fields → Json
get_field k no_fields = null
get_field k (field j v m) = if text_eq j k then v else get_field k m

-- `s, _ := v.(string)`.
abbrev pub as_string : Json → Text
as_string (string s) = s
as_string null = []
as_string (boolean b) = []
as_string (number n) = []
as_string (array a) = []
as_string (object m) = []

abbrev pub string_field : Text → Fields → Text
string_field k m = as_string (get_field k m)

-- `v == nil`.
abbrev pub is_null : Json → Bool
is_null null = true
is_null (boolean b) = false
is_null (number n) = false
is_null (string s) = false
is_null (array a) = false
is_null (object m) = false
