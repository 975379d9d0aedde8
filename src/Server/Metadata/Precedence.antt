-- ===== src/Server/Metadata/Precedence.antt =====
-- Which source the metadata of a listed id (resolveModelMeta of pkg/server/handlers.go) comes from.
use ultiproxy.Base.{
  ◌≡◌, refl, Option, none, some, List, [], ◌∷◌, Text, ℤ, pos, ltb_ℤ, is_empty, if◌then◌else◌, arith,
}
use ultiproxy.ModelMeta.Info.{if_positive, if_given}
use ultiproxy.Server.Metadata.{
  Meta, no_meta, Sources, if_unknown, asserted, fill_in, lay_over, discovered_model_info,
  static_model_entry, overlay_model_entry, resolve_model_meta,
}

-- The first positive number, 0 if there is none, and the first list that is not empty.
abbrev pub first_positive : List ℤ → ℤ
first_positive [] = pos 0
first_positive (n ∷ ns) = if ltb_ℤ (pos 0) n then n else first_positive ns

abbrev pub first_given : List (List Text) → List Text
first_given [] = []
first_given (l ∷ ls) = if is_empty l then first_given ls else l

abbrev pub or_unknown : Option Meta → Meta
or_unknown none = no_meta
or_unknown (some m) = m

-- The sources of a field, from the first to the last that counts.
abbrev pub field_of : {A : Type 0} → (Meta → A) → Sources → Text → Text → Text → Meta → List A
field_of f s id lane upstream alias =
    f (or_unknown (overlay_model_entry s id))
    ∷ f alias
    ∷ f (or_unknown (discovered_model_info s lane upstream))
    ∷ f (or_unknown (static_model_entry s id lane upstream))
    ∷ []

unknown_number : (n : ℤ) → if_unknown n (pos 0) ≡ n
unknown_number n = ground arith

unknown_list : (l : List Text) → (if is_empty l then [] else l) ≡ l
unknown_list [] = refl
unknown_list (x ∷ l) = refl

-- A source that is not there is one that knows nothing.
fill_in-or_unknown : (d : Option Meta) (m : Meta) → fill_in d m ≡ fill_in (some (or_unknown d)) m
unfolding fill_in
fill_in-or_unknown none m =
    rw
      (
        unknown_number m.context_length,
        unknown_number m.max_output,
        unknown_list m.input_modalities,
        unknown_list m.output_modalities,
      )
      refl
fill_in-or_unknown (some d) m = refl

lay_over-or_unknown : (o : Option Meta) (m : Meta) → lay_over o m ≡ lay_over (some (or_unknown o)) m
unfolding lay_over
lay_over-or_unknown none m = refl
lay_over-or_unknown (some o) m = refl

first_number :
    (o a d t : ℤ)
    → if_positive o (if_unknown (if_unknown (if_positive a (pos 0)) d) t)
      ≡ first_positive (o ∷ a ∷ d ∷ t ∷ [])
first_number o a d t = ground arith

first_list :
    (o a d t : List Text)
    → if_given o (let l = if is_empty a then d else a in if is_empty l then t else l)
      ≡ first_given (o ∷ a ∷ d ∷ t ∷ [])
first_list (x ∷ o) a d t = refl
first_list [] (x ∷ a) d t = refl
first_list [] [] (x ∷ d) t = refl
first_list [] [] [] [] = refl
first_list [] [] [] (x ∷ t) = refl

-- Each field of a listed id's metadata comes from the first source that knows it: the overlay, the
-- alias, the lane's discovery, the cited catalog; where none knows it, it is unknown.
pub resolve_model_meta-first :
    (s : Sources) (id lane upstream : Text) (alias : Meta)
    → let m = resolve_model_meta s id lane upstream alias in
      ((m.context_length
          ≡ first_positive (field_of (λ x. x.context_length) s id lane upstream alias))
        × (m.max_output ≡ first_positive (field_of (λ x. x.max_output) s id lane upstream alias)))
      × ((m.input_modalities
            ≡ first_given (field_of (λ x. x.input_modalities) s id lane upstream alias))
          × (m.output_modalities
              ≡ first_given (field_of (λ x. x.output_modalities) s id lane upstream alias)))
unfolding resolve_model_meta lay_over fill_in asserted
resolve_model_meta-first s id lane upstream alias =
    let o = or_unknown (overlay_model_entry s id) in
    let d = or_unknown (discovered_model_info s lane upstream) in
    let t = or_unknown (static_model_entry s id lane upstream) in
    rw
      (
        lay_over-or_unknown (overlay_model_entry s id),
        fill_in-or_unknown (static_model_entry s id lane upstream),
        fill_in-or_unknown (discovered_model_info s lane upstream),
      )
      (
        (
          first_number o.context_length alias.context_length d.context_length t.context_length,
          first_number o.max_output alias.max_output d.max_output t.max_output,
        ),
        (
          first_list o.input_modalities alias.input_modalities d.input_modalities
              t.input_modalities,
          first_list o.output_modalities alias.output_modalities d.output_modalities
              t.output_modalities,
        ),
      )
