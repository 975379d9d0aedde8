-- ===== src/ModelMeta/Catalog/Laws.antt =====
-- What a catalog of pkg/modelmeta/modelmeta.go holds.
use ultiproxy.Base.{
  ◌≡◌, refl, ap, sym, subst, false, ◌||◌, Option, none, some, List, [], ◌∷◌, Text, is_empty,
  text_eq, if◌then◌else◌, if_cases, if_both, lookup, insert, lookup-insert, arith,
}
use ultiproxy.Provider.Sse.{trim_space}
use ultiproxy.ModelMeta.{Entry, is_bare}
use ultiproxy.ModelMeta.Modalities.{validate_modalities, IsNormal, normalize_modalities_exact}
use ultiproxy.ModelMeta.Catalog.{
  CatalogError, normalized_away, bad_input, bad_output, Result, ok, err, ◌>>=◌, Entries, check,
  normalized, is_negative, check_entry, new_from, new_catalog, insert_all, found_or, load_overlay,
  rows,
}

-- A row that may be advertised: cited, with some metadata, no negative limit, and canonical
-- modalities.
pub record IsCited (e : Entry) : Type 0 where
  pub identified : is_empty e.entry_id ≡ false
  pub cited : is_empty (trim_space e.source) ≡ false
  pub full : is_bare e ≡ false
  pub context_limit : is_negative e.context_length ≡ false
  pub output_limit : is_negative e.max_output ≡ false
  pub inputs : IsNormal [] e.input_modalities
  pub outputs : IsNormal [] e.output_modalities

-- What a result holds, if it holds anything.
abbrev Holds : {A : Type 0} → (A → Type 0) → Result A → Type 0
Holds P (ok a) = P a
Holds P (err e) = Unit

bind-Holds :
    {A B : Type 0} (P : A → Type 0) (Q : B → Type 0) (r : Result A) (f : A → Result B)
    → Holds P r
    → ((a : A) → P a → Holds Q (f a))
    → Holds Q (r >>= f)
bind-Holds P Q (ok a) f p h = h a p
bind-Holds P Q (err e) f p h = tt

-- Each row is cited and stands under its id.
abbrev pub AllCited : Entries → Type 0
AllCited [] = Unit
AllCited ((k, e) ∷ m) = (IsCited e × (e.entry_id ≡ k)) × AllCited m

check-same :
    (bad : Text → CatalogError) (o : Option Text) (e : Entry) → Holds (λ a. a ≡ e) (check bad o e)
check-same bad none e = refl
check-same bad (some m) e = tt

-- The last step of a check: the normalized entry, unless nothing is left of it.
abbrev finish : Entry → Result Entry
finish e = let n = normalized e in if is_bare n then err (normalized_away e.entry_id) else ok n

finish-IsCited :
    (e : Entry)
    → is_empty e.entry_id ≡ false
    → is_empty (trim_space e.source) ≡ false
    → (is_negative e.context_length || is_negative e.max_output) ≡ false
    → Holds IsCited (finish e)
unfolding normalized
finish-IsCited e h k l =
    if_cases (Holds IsCited) (is_bare (normalized e)) _ _ (λ b. tt)
      (λ b. record {
        identified = h;
        cited = k;
        full = b;
        context_limit = ground (arith, l);
        output_limit = ground (arith, l);
        inputs = (normalize_modalities_exact e.input_modalities []).0;
        outputs = (normalize_modalities_exact e.output_modalities []).0;
      })

check_entry-IsCited : (raw : Entry) → Holds IsCited (check_entry raw)
unfolding check_entry
check_entry-IsCited raw =
    let e : Entry = record raw { entry_id = trim_space raw.entry_id } in
    if_cases (Holds IsCited) (is_empty e.entry_id) _ _ (λ h. tt)
      (λ h.
        if_cases (Holds IsCited) (is_empty (trim_space e.source)) _ _ (λ k. tt)
          (λ k.
            if_cases (Holds IsCited) (is_bare e) _ _ (λ b. tt)
              (λ b.
                if_cases (Holds IsCited) (is_negative e.context_length || is_negative e.max_output)
                  _ _ (λ l. tt)
                  (λ l.
                    bind-Holds (λ a. a ≡ e) IsCited _ _
                      (bind-Holds (λ a. a ≡ e) (λ a. a ≡ e)
                        (check (bad_input e.entry_id) (validate_modalities e.input_modalities) e) _
                        (check-same (bad_input e.entry_id) (validate_modalities e.input_modalities)
                          e)
                        (λ a same.
                          subst
                            (λ x.
                              Holds (λ y. y ≡ e)
                                (check (bad_output e.entry_id)
                                  (validate_modalities e.output_modalities) x))
                            (sym same) (check-same _ _ e)))
                      (λ a same.
                        subst
                          (λ x. Holds IsCited (
                            if is_bare (normalized x)
                            then err (normalized_away e.entry_id)
                            else ok (normalized x)))
                          (sym same) (finish-IsCited e h k l))))))

insert-AllCited :
    (k : Text) (e : Entry) (m : Entries)
    → IsCited e × (e.entry_id ≡ k)
    → AllCited m
    → AllCited (insert k e m)
unfolding insert
insert-AllCited k e [] c a = (c, tt)
insert-AllCited k e ((j, e') ∷ m) c (c', a) =
    if_both AllCited (text_eq j k) _ _ (c, a) (c', insert-AllCited k e m c a)

new_from-AllCited :
    (raws : List Entry) (out : Entries) → AllCited out → Holds AllCited (new_from raws out)
unfolding new_from
new_from-AllCited [] out a = a
new_from-AllCited (raw ∷ raws) out a =
    bind-Holds IsCited AllCited (check_entry raw) _ (check_entry-IsCited raw) (λ e c.
      new_from-AllCited raws (insert e.entry_id e out)
        (insert-AllCited e.entry_id e out (c, refl) a))

-- Laying one map over another.
lookup-insert_all :
    (k : Text) (over m : Entries)
    → lookup k (insert_all over m) ≡ found_or (lookup k over) (lookup k m)
unfolding insert_all lookup
lookup-insert_all k [] m = refl
lookup-insert_all k ((j, e) ∷ over) m =
    ground (arith, lookup-insert j k e (insert_all over m), lookup-insert_all k over m)

insert_all-AllCited : (over m : Entries) → AllCited over → AllCited m → AllCited (insert_all over m)
unfolding insert_all
insert_all-AllCited [] m o a = a
insert_all-AllCited ((k, e) ∷ over) m (c, o) a =
    insert-AllCited k e (insert_all over m) c (insert_all-AllCited over m o a)

-- A catalog that New has built, and the compiled one with an overlay file laid over it, hold only
-- cited rows: under its id each has a source, some metadata, no negative limit and canonical
-- modalities. Under every id the overlay's whole row counts, and the compiled one if it has none.
pub load_overlay-AllCited :
    (seed raws : List Entry) (base over : Entries) (k : Text)
    → new_catalog seed ≡ ok base
    → new_catalog raws ≡ ok over
    → AllCited base
      × ((load_overlay base (rows raws) ≡ ok (insert_all over base))
          × (AllCited (insert_all over base)
              × (lookup k (insert_all over base) ≡ found_or (lookup k over) (lookup k base))))
unfolding new_catalog load_overlay
load_overlay-AllCited seed raws base over k h l =
    let a : AllCited base = subst (Holds AllCited) h (new_from-AllCited seed [] tt) in
    let b : AllCited over = subst (Holds AllCited) l (new_from-AllCited raws [] tt) in
    (
      a,
      (
        ap (λ r. r >>= λ extra. ok (insert_all extra base)) l,
        (insert_all-AllCited over base b a, lookup-insert_all k over base),
      ),
    )
