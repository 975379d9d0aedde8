-- ===== src/Server/Listing/Once.antt =====
-- `add` of handleModels and of collectListedIDs (pkg/server/handlers.go): what is listed, and how
-- often.
use mathlib.Core.List.{map-append}
use ultiproxy.Base.{
  ◌≡◌, refl, ◌∙◌, ap, ◌≤◌, false, not, ◌&&◌, ◌||◌, Option, none, some, is_some, List, [], ◌∷◌, ◌++◌,
  map, Text, Bool-cases, inl, inr, is_empty, if◌then◌else◌, elem, text_eq, text_eq_iff, arith,
}
use ultiproxy.Provider.Registry.Laws.{count, count-append, once_if}
use ultiproxy.Server.Listing.{
  Candidate, ModelEntry, ids_of, model_entry, add, add_all, Listing, all_candidates, handle_models,
}
use ultiproxy.Server.Listing.Collect.{add_id, add_ids}

pub elem-append : (x : Text) (xs ys : List Text) → elem x (xs ++ ys) ≡ (elem x xs || elem x ys)
unfolding elem
elem-append x [] ys = refl
elem-append x (y ∷ xs) ys = ground (arith, elem-append x xs ys)

elem-add_id :
    (x id : Text) (out : List Text)
    → elem x (add_id id out) ≡ (elem x out || (not (is_empty id) && text_eq id x))
unfolding add_id elem
elem-add_id x [] out = ground arith
elem-add_id x (c ∷ id) out =
    ground (arith, text_eq_iff (c ∷ id) x, elem-append x out ((c ∷ id) ∷ []))

pub elem-add_ids :
    (x : Text) (ids out : List Text)
    → elem x (add_ids ids out) ≡ (elem x out || (not (is_empty x) && elem x ids))
unfolding add_ids elem
elem-add_ids x [] out = ground arith
elem-add_ids x (id ∷ ids) out =
    ground (arith, text_eq_iff id x, elem-add_ids x ids (add_id id out), elem-add_id x id out)

count-add_id :
    (x id : Text) (out : List Text)
    → count x out ≡ once_if (elem x out)
    → count x (add_id id out) ≡ once_if (elem x (add_id id out))
unfolding add_id elem
count-add_id x id out h = elim (Bool-cases (is_empty id || elem id out)) [
  | inl e ↦ rw e h
  | inr e ↦ rw e (
      ground
        (arith, h, e, text_eq_iff id x, count-append x out (id ∷ []), elem-append x out (id ∷ [])))
]

count-add_ids :
    (x : Text) (ids out : List Text)
    → count x out ≡ once_if (elem x out)
    → count x (add_ids ids out) ≡ once_if (elem x (add_ids ids out))
unfolding add_ids
count-add_ids x [] out h = h
count-add_ids x (id ∷ ids) out h = count-add_ids x ids (add_id id out) (count-add_id x id out h)

ids_of-append : (es fs : List ModelEntry) → ids_of (es ++ fs) ≡ ids_of es ++ ids_of fs
ids_of-append es fs = map-append (λ e. e.entry_id) es fs

ids_of-add :
    (c : Candidate) (found : List ModelEntry) → ids_of (add c found) ≡ add_id c.id (ids_of found)
unfolding add add_id model_entry
ids_of-add c found = elim (Bool-cases (is_empty c.id || elem c.id (ids_of found))) [
  | inl e ↦ rw e refl
  | inr e ↦ rw e (ids_of-append found (model_entry c ∷ []))
]

pub ids_of-add_all :
    (cs : List Candidate) (found : List ModelEntry)
    → ids_of (add_all cs found) ≡ add_ids (map (λ c. c.id) cs) (ids_of found)
unfolding add_all add_ids
ids_of-add_all [] found = refl
ids_of-add_all (c ∷ cs) found =
    ids_of-add_all cs (add c found) ∙ ap (add_ids (map (λ c. c.id) cs)) (ids_of-add c found)

-- The first candidate and the first entry of an id.
abbrev pub first_entry : Text → List ModelEntry → Option ModelEntry
first_entry x [] = none
first_entry x (e ∷ es) = if text_eq e.entry_id x then some e else first_entry x es

abbrev pub first_candidate : Text → List Candidate → Option ModelEntry
first_candidate x [] = none
first_candidate x (c ∷ cs) = if text_eq c.id x then some (model_entry c) else first_candidate x cs

abbrev pub or_later : Option ModelEntry → Option ModelEntry → Option ModelEntry
or_later none o = o
or_later (some e) o = some e

first_entry-append :
    (x : Text) (es : List ModelEntry) (e : ModelEntry)
    → first_entry x (es ++ (e ∷ []))
      ≡ or_later (first_entry x es) (if text_eq e.entry_id x then some e else none)
first_entry-append x [] e = refl
first_entry-append x (d ∷ es) e = ground (arith, first_entry-append x es e)

elem-first_entry :
    (x : Text) (es : List ModelEntry) → elem x (ids_of es) ≡ is_some (first_entry x es)
unfolding elem
elem-first_entry x [] = refl
elem-first_entry x (e ∷ es) = ground (arith, elem-first_entry x es)

model_entry-id : (c : Candidate) → (model_entry c).entry_id ≡ c.id
unfolding model_entry
model_entry-id c = refl

first_entry-add :
    (x : Text) (c : Candidate) (found : List ModelEntry)
    → is_empty x ≡ false
    → first_entry x (add c found)
      ≡ or_later (first_entry x found) (if text_eq c.id x then some (model_entry c) else none)
unfolding add
first_entry-add x c found h = elim (Bool-cases (is_empty c.id || elem c.id (ids_of found))) [
  | inl e ↦ rw e (ground (arith, e, h, text_eq_iff c.id x, elem-first_entry x found))
  | inr e ↦ rw (e, first_entry-append x found (model_entry c), model_entry-id c) refl
]

first_entry-add_all :
    (x : Text) (cs : List Candidate) (found : List ModelEntry)
    → is_empty x ≡ false
    → first_entry x (add_all cs found) ≡ or_later (first_entry x found) (first_candidate x cs)
unfolding add_all
first_entry-add_all x [] found h = ground arith
first_entry-add_all x (c ∷ cs) found h =
    ground (arith, first_entry-add_all x cs (add c found) h, first_entry-add x c found h)

-- The list of models has no id twice, and an id that is not empty has the entry of the first
-- source that names it, or none if no source does; the sources are the aliases, then the rows of
-- the state, then the lanes.
pub listed_once :
    {F : Type 0} (l : Listing F) (x : Text)
    → is_empty x ≡ false
    → (count x (ids_of (handle_models l)) ≤ 1)
      × (first_entry x (handle_models l) ≡ first_candidate x (all_candidates l))
unfolding handle_models elem
listed_once l x h =
    let ids = map (λ c. c.id) (all_candidates l) in
    let once : count x (add_ids ids []) ≡ once_if (elem x (add_ids ids [])) =
      count-add_ids x ids [] refl in
    (
      rw (ids_of-add_all (all_candidates l) []) (ground (arith, once)),
      first_entry-add_all x (all_candidates l) [] h,
    )
