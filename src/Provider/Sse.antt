-- ===== src/Provider/Sse.antt =====
-- The scanner of pkg/provider/internal/sse/sse.go, over the lines that bufio.Scanner reads. `fails`
-- is whether the reader ends with an error.
pub mod RoundTrip
mod Examples
use ultiproxy.Base.{
  ℕ, Bool, true, false, not, Option, none, some, List, [], ◌∷◌, ◌++◌, ◌||◌, ◌&&◌, Text, bytes, ◌==◌,
  leb, if◌then◌else◌, is_empty, text_eq,
}

pub record Event : Type 0 where
  pub event_type : Text
  pub event_data : Text
  pub event_id : Text

-- What Scan has collected of an event.
pub record Collected : Type 0 where
  pub current_type : Text
  pub current_id : Text
  pub data_lines : List Text
  pub has_data : Bool

abbrev pub nothing : Collected
nothing = record { current_type = []; current_id = []; data_lines = []; has_data = false }

pub data Scanned : Type 0 where
  event : Event → List Text → Scanned
  finished failed : Scanned

-- strings.TrimSpace, on ASCII.
abbrev is_space : ℕ → Bool
is_space c = c == 32 || leb 9 c && leb c 13

unfoldable pub trim_left : Text → Text
trim_left [] = []
trim_left (c ∷ s) = let rest = trim_left s in if is_space c then rest else c ∷ s

unfoldable pub trim_right : Text → Text
trim_right [] = []
trim_right (c ∷ s) = let rest = trim_right s in if is_empty rest && is_space c then [] else c ∷ rest

unfoldable pub trim_space : Text → Text
trim_space s = trim_right (trim_left s)

-- bytes.Join(dataLines, "\n").
unfoldable pub join_lines : List Text → Text
join_lines [] = []
join_lines (l ∷ []) = l
join_lines (l ∷ m ∷ ls) = l ++ (10 ∷ join_lines (m ∷ ls))

-- The field and the value of a line, at its first colon, with one space after it dropped.
abbrev after_colon : Text → Text
after_colon [] = []
after_colon (c ∷ s) = if c == 32 then s else c ∷ s

unfoldable pub split_field : Text → Text × Text
split_field [] = ([], [])
split_field (c ∷ s) =
    let (field, value) = split_field s in
    if c == b':' then ([], after_colon s) else (c ∷ field, value)

unfoldable pub apply_field : Text → Text → Collected → Collected
apply_field field value acc =
    if text_eq field (bytes "event")
    then record acc { current_type = trim_space value }
    else if text_eq field (bytes "id")
    then record acc { current_id = trim_space value }
    else if text_eq field (bytes "data")
    then record acc { has_data = true; data_lines = acc.data_lines ++ (value ∷ []) }
    else acc

abbrev is_comment : Text → Bool
is_comment [] = false
is_comment (c ∷ s) = c == b':'

unfoldable pub collect : Text → Collected → Collected
collect line acc =
    if is_comment line
    then acc
    else let (field, value) = split_field line in apply_field field value acc

-- `hasData || currentType != "" || currentID != ""`.
abbrev pub has_any : Collected → Bool
has_any acc = acc.has_data || not (is_empty acc.current_type) || not (is_empty acc.current_id)

unfoldable pub to_event : Collected → Event
to_event acc = record {
  event_type = acc.current_type;
  event_data = join_lines acc.data_lines;
  event_id = acc.current_id;
}

unfoldable pub scan_from : Bool → Collected → List Text → Scanned
scan_from fails acc [] =
    if fails then failed else if has_any acc then event (to_event acc) [] else finished
scan_from fails acc (line ∷ lines) =
    let blank = scan_from fails acc lines in
    let more = scan_from fails (collect line acc) lines in
    if is_empty line then (if has_any acc then event (to_event acc) lines else blank) else more

unfoldable pub scan : Bool → List Text → Scanned
scan fails lines = scan_from fails nothing lines
