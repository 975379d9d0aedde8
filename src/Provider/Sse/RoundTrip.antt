-- ===== src/Provider/Sse/RoundTrip.antt =====
-- What is written as server-sent events is read back.
use ultiproxy.Base.{
  ◌≡◌, refl, ◌∙◌, ap, append_nil, append_assoc, Bool, true, false, not, List, [], ◌∷◌, ◌++◌, ◌||◌,
  ◌&&◌, Text, bytes, is_empty, text_eq, arith,
}
use ultiproxy.Provider.Sse.{
  Collected, nothing, event, trim_space, join_lines, split_field, apply_field, is_comment, collect,
  to_event, scan_from, scan,
}

-- An event as a server writes it: its type and id where it has them, its data line by line.
pub record Message : Type 0 where
  pub event_type : Text
  pub event_id : Text
  pub lines : List Text

abbrev field_line : Text → Text → List Text
field_line name [] = []
field_line name (c ∷ s) = (name ++ bytes ": " ++ c ∷ s) ∷ []

abbrev data_lines : List Text → List Text
data_lines [] = []
data_lines (l ∷ ls) = (bytes "data: " ++ l) ∷ data_lines ls

-- A message as lines, with the blank line that ends it, and the lines after it.
abbrev pub written : Message → List Text → List Text
written m rest =
    field_line (bytes "event") m.event_type
    ++ (field_line (bytes "id") m.event_id ++ (data_lines m.lines ++ ([] ∷ rest)))

-- Blank lines and comments, such as keep-alives.
unfoldable pub all_noise : List Text → Bool
all_noise [] = true
all_noise (l ∷ ls) = (is_empty l || is_comment l) && all_noise ls

collect-data :
    (l : Text) (acc : Collected)
    → collect (bytes "data: " ++ l) acc
      ≡ record acc { has_data = true; data_lines = acc.data_lines ++ (l ∷ []) }
unfolding collect split_field apply_field text_eq
collect-data l acc = refl

collect-type :
    (t : Text) (acc : Collected)
    → trim_space t ≡ t
    → collect (bytes "event: " ++ t) acc ≡ record acc { current_type = t }
unfolding collect split_field apply_field text_eq
collect-type t acc h = ap (λ x. record acc { current_type = x }) h

collect-id :
    (t : Text) (acc : Collected)
    → trim_space t ≡ t
    → collect (bytes "id: " ++ t) acc ≡ record acc { current_id = t }
unfolding collect split_field apply_field text_eq
collect-id t acc h = ap (λ x. record acc { current_id = x }) h

scan_data :
    (fails : Bool) (ls : List Text) (acc : Collected) (rest : List Text)
    → (acc.has_data || not (is_empty ls)) ≡ true
    → scan_from fails acc (data_lines ls ++ ([] ∷ rest))
      ≡ event (to_event (record acc { data_lines = acc.data_lines ++ ls })) rest
unfolding scan_from to_event
scan_data fails [] acc rest h = ground (arith, append_nil acc.data_lines)
scan_data fails (l ∷ ls) acc rest h =
    let acc' : Collected = record acc {
      has_data = true;
      data_lines = acc.data_lines ++ (l ∷ []);
    } in
    ap (λ c. scan_from fails c (data_lines ls ++ ([] ∷ rest))) (collect-data l acc)
    ∙ scan_data fails ls acc' rest refl
    ∙ ap (λ x. event (to_event (record acc { data_lines = x })) rest)
        (append_assoc acc.data_lines (l ∷ []) ls)

scan_type :
    (fails : Bool) (t : Text) (xs : List Text)
    → trim_space t ≡ t
    → scan_from fails nothing (field_line (bytes "event") t ++ xs)
      ≡ scan_from fails (record nothing { current_type = t }) xs
unfolding scan_from
scan_type fails [] xs h = refl
scan_type fails (c ∷ t) xs h = ap (λ acc. scan_from fails acc xs) (collect-type (c ∷ t) nothing h)

scan_id :
    (fails : Bool) (t i : Text) (xs : List Text)
    → trim_space i ≡ i
    → scan_from fails (record nothing { current_type = t }) (field_line (bytes "id") i ++ xs)
      ≡ scan_from fails (record nothing { current_type = t; current_id = i }) xs
unfolding scan_from
scan_id fails t [] xs h = refl
scan_id fails t (c ∷ i) xs h =
    ap (λ acc. scan_from fails acc xs) (collect-id (c ∷ i) (record nothing { current_type = t }) h)

scan_noise :
    (fails : Bool) (noise xs : List Text)
    → all_noise noise ≡ true
    → scan_from fails nothing (noise ++ xs) ≡ scan_from fails nothing xs
unfolding scan_from all_noise collect
scan_noise fails [] xs h = refl
scan_noise fails (l ∷ noise) xs h = ground (arith, scan_noise fails noise xs)

-- After any blank lines and comments, Scan reads a message that has data back as it was written:
-- its type and its id, if they have no space around them, and its data lines joined; and it leaves
-- the lines after the message for the next Scan.
pub scan-written :
    (fails : Bool) (noise : List Text) (m : Message) (rest : List Text)
    → all_noise noise ≡ true
    → is_empty m.lines ≡ false
    → trim_space m.event_type ≡ m.event_type
    → trim_space m.event_id ≡ m.event_id
    → scan fails (noise ++ written m rest)
      ≡ event
          (record {
            event_type = m.event_type;
            event_data = join_lines m.lines;
            event_id = m.event_id;
          })
          rest
unfolding scan to_event
scan-written fails noise m rest n d t i =
    let ty = m.event_type in
    let body = data_lines m.lines ++ ([] ∷ rest) in
    let acc : Collected = record nothing { current_type = ty; current_id = m.event_id } in
    scan_noise fails noise (written m rest) n
    ∙ scan_type fails ty (field_line (bytes "id") m.event_id ++ body) t
    ∙ scan_id fails ty m.event_id body i
    ∙ scan_data fails m.lines acc rest (ap not d)
