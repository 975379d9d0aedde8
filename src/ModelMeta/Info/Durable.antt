-- ===== src/ModelMeta/Info/Durable.antt =====
-- The overlay of pkg/modelmeta/info.go over restarts.
use ultiproxy.Base.{
  ◌≡◌, refl, ap, ◌∙◌, sym, subst, Bool, true, false, not, ◌||◌, Option, some, List, [], ◌∷◌, Text,
  is_empty, text_eq, text_eq_iff, if_both, if_cases, Bool-cases, Option-cases, inl, inr, or_else,
  lookup, insert, erase, lookup-insert, arith,
}
use ultiproxy.ModelMeta.{Entry, is_bare}
use ultiproxy.ModelMeta.Catalog.{Entries}
use ultiproxy.ModelMeta.Info.{
  InfoOverlay, InfoError, load_rows, new_overlay, get, patched, commit, merge, clear_field,
  clear_fields, cleared, clear_row, clear, Call, no_entry, merges, clears, step, run,
}

-- Each row has the id that it stands under.
abbrev pub AllNamed : Entries → Type 0
AllNamed [] = Unit
AllNamed ((k, e) ∷ m) = (e.entry_id ≡ k) × AllNamed m

insert-AllNamed :
    (k : Text) (e : Entry) (m : Entries) → e.entry_id ≡ k → AllNamed m → AllNamed (insert k e m)
unfolding insert
insert-AllNamed k e [] h n = (h, tt)
insert-AllNamed k e ((j, e') ∷ m) h (h', n) =
    if_both AllNamed (text_eq j k) _ _ (h, n) (h', insert-AllNamed k e m h n)

erase-AllNamed : (k : Text) (m : Entries) → AllNamed m → AllNamed (erase k m)
unfolding erase
erase-AllNamed k [] n = tt
erase-AllNamed k ((j, e) ∷ m) (h, n) =
    if_both AllNamed (text_eq j k) _ _ (erase-AllNamed k m n) (h, erase-AllNamed k m n)

load_rows-AllNamed : (m : Entries) → AllNamed (load_rows m)
unfolding load_rows
load_rows-AllNamed [] = tt
load_rows-AllNamed ((k, e) ∷ m) = insert-AllNamed k _ (load_rows m) refl (load_rows-AllNamed m)

-- A row that is found has the id it is found under.
found-named :
    (k : Text) (m : Entries) (e : Entry) → AllNamed m → lookup k m ≡ some e → e.entry_id ≡ k
unfolding lookup
found-named k [] e n h = cc
found-named k ((j, e') ∷ m) e (h', n) h = elim (Bool-cases (text_eq j k)) [
  | inl same ↦
      (let found : some e' ≡ some e = ground (arith, same) in
        let is : e' ≡ e = cc in subst (λ x. x.entry_id ≡ k) is (h' ∙ (text_eq_iff j k).0 same))
  | inr other ↦ found-named k m e n (ground (arith, other))
]

-- Rows that have their ids are loaded as they are.
lookup-load_rows : (k : Text) (m : Entries) → AllNamed m → lookup k (load_rows m) ≡ lookup k m
unfolding load_rows lookup
lookup-load_rows k [] n = refl
lookup-load_rows k ((j, e) ∷ m) (h, n) =
    let same : lookup k (insert j (record e { entry_id = j }) (load_rows m))
        ≡ lookup k (insert j e (load_rows m)) =
      ap (λ i. lookup k (insert j (record e { entry_id = i }) (load_rows m))) (sym h) in
    same ∙ ground (arith, lookup-insert j k e (load_rows m), lookup-load_rows k m n)

clear_field-id : (f : Text) (e : Entry) → (clear_field f e).entry_id ≡ e.entry_id
unfolding clear_field
clear_field-id f e = ground arith

clear_fields-id : (fs : List Text) (e : Entry) → (clear_fields fs e).entry_id ≡ e.entry_id
unfolding clear_fields
clear_fields-id [] e = refl
clear_fields-id (f ∷ fs) e = clear_fields-id fs (clear_field f e) ∙ clear_field-id f e

-- The live rows are those that the file gives back.
pub record IsKept (o : InfoOverlay) : Type 0 where
  pub filed : o.has_path ≡ true
  pub named : AllNamed o.entries
  pub loaded : (k : Text) → lookup k (load_rows o.file) ≡ lookup k o.entries

abbrev After : InfoOverlay × Option InfoError → Type 0
After r = IsKept r.0

commit-IsKept :
    (writes : Bool) (next : Entries) (o : InfoOverlay)
    → IsKept o
    → AllNamed next
    → IsKept (commit writes next o).0
unfolding commit
commit-IsKept writes next o p n =
    if_cases After (not o.has_path) _ _
      (λ h. let absurd : false ≡ true = ground (arith, p.filed) in cc)
      (λ h.
        if_both After writes _ _
          (record { filed = p.filed; named = n; loaded = λ k. lookup-load_rows k next n }) p)

patched-id : (id : Text) (patch cur : Entry) → (patched id patch cur).entry_id ≡ id
unfolding patched
patched-id id patch cur = refl

merge-IsKept :
    (id : Text) (patch : Entry) (writes : Bool) (o : InfoOverlay)
    → IsKept o
    → IsKept (merge id patch writes o).0
unfolding merge
merge-IsKept id patch writes o p =
    let cur = patched id patch (or_else (lookup id o.entries) no_entry) in
    if_both After (is_empty id) _ _ p (
      if_both After (is_bare cur) _ _ p (
        commit-IsKept writes _ o p
          (insert-AllNamed id cur o.entries (patched-id id patch _) p.named)))

clear-IsKept :
    (id : Text) (fields : List Text) (writes : Bool) (o : InfoOverlay)
    → IsKept o
    → IsKept (clear id fields writes o).0
unfolding clear cleared
clear-IsKept id fields writes o p = elim (Option-cases (lookup id o.entries)) [
  | inl h ↦ subst (λ r. IsKept (clear_row id fields writes o r).0) (sym h) p
  | inr (cur, h) ↦
      subst (λ r. IsKept (clear_row id fields writes o r).0) (sym h)
        (commit-IsKept writes (cleared id fields cur o.entries) o p (
          if_both AllNamed (is_empty fields || is_bare (clear_fields fields cur)) _ _
            (erase-AllNamed id o.entries p.named)
            (insert-AllNamed id (clear_fields fields cur) o.entries
              (clear_fields-id fields cur ∙ found-named id o.entries cur p.named h) p.named)))
]

run-IsKept : (cs : List Call) (o : InfoOverlay) → IsKept o → IsKept (run cs o)
unfolding run step
run-IsKept [] o p = p
run-IsKept (merges id patch writes ∷ cs) o p = run-IsKept cs _ (merge-IsKept id patch writes o p)
run-IsKept (clears id fields writes ∷ cs) o p = run-IsKept cs _ (clear-IsKept id fields writes o p)

-- After any merges and clears, with any writes of the file failing, a restart finds under every
-- listed id the row that was live before it.
pub overlay_survives :
    (file : Entries) (cs : List Call) (id : Text)
    → get id (new_overlay true (run cs (new_overlay true file)).file)
      ≡ get id (run cs (new_overlay true file))
unfolding new_overlay get
overlay_survives file cs id =
    (run-IsKept cs (new_overlay true file)
        (record { filed = refl; named = load_rows-AllNamed file; loaded = λ k. refl })).loaded
      id
