-- ===== src/Codec/Options.antt =====
-- The options that a decoded request (pkg/codec) passes to a lane, and the fields of its body that
-- go along as extras.
use ultiproxy.Base.{
  ◌≡◌, ℤ, pos, ltb_ℤ, Bool, true, false, Option, none, some, List, [], ◌∷◌, Text, is_empty, text_eq,
  text_eq_iff, if◌then◌else◌, lookup, insert, lookup-insert, elem, arith, ap, Bool-cases, inl, inr,
}
use ultiproxy.Base.Json.{Json}

-- What the extra body holds under a key: a value of the body, the stream_options or the thinking
-- struct, the typed tools, or a number.
pub data Extra : Type 0 where
  value : Json → Extra
  stream_options : (include_usage : Bool) → Extra
  thinking : (kind : Text) (budget_tokens : ℤ) → Extra
  budget : ℤ → Extra
  typed_tools : List (Text × Text × Json) → Extra

abbrev pub ExtraBody : Type 0
ExtraBody = List (Text × Extra)

pub data ProviderOption : Type 0 where
  with_model : Text → ProviderOption
  with_max_tokens : ℤ → ProviderOption
  with_temperature : Text → ProviderOption
  with_reasoning_effort : Text → ProviderOption
  with_extra_body : ExtraBody → ProviderOption

abbrev pub positive : Option ℤ → Option ℤ
positive none = none
positive (some n) = if ltb_ℤ (pos 0) n then some n else none

abbrev pub first_of : Option ℤ → Option ℤ → Option ℤ
first_of none o = o
first_of (some n) o = some n

abbrev pub option_if {ℓ} : {A : Type ℓ} → Option A → (A → ProviderOption) → List ProviderOption
option_if none f = []
option_if (some a) f = f a ∷ []

abbrev pub text_option : Text → (Text → ProviderOption) → List ProviderOption
text_option t f = if is_empty t then [] else f t ∷ []

abbrev pub put_if : Bool → Text → Extra → ExtraBody → ExtraBody
put_if true k v extra = insert k v extra
put_if false k v extra = extra

abbrev pub extra_option : ExtraBody → List ProviderOption
extra_option extra = if is_empty extra then [] else with_extra_body extra ∷ []

-- The loop that copies the body's fields, except those that the decoder handles or drops. The
-- body's rows may come in any order; its first row of a key counts.
unfoldable pub copy_fields : List Text → List (Text × Json) → ExtraBody → ExtraBody
copy_fields held [] extra = extra
copy_fields held ((k, v) ∷ body) extra =
    let rest = copy_fields held body extra in if elem k held then rest else insert k (value v) rest

-- What a client's field becomes.
abbrev pub copied : Option Json → Option Extra → Option Extra
copied none o = o
copied (some v) o = some (value v)

pub lookup-copy_fields :
    (k : Text) (held : List Text) (body : List (Text × Json)) (extra : ExtraBody)
    → lookup k (copy_fields held body extra)
      ≡ (if elem k held then lookup k extra else copied (lookup k body) (lookup k extra))
unfolding copy_fields lookup
lookup-copy_fields k held [] extra = ground arith
lookup-copy_fields k held ((j, v) ∷ body) extra = elim (Bool-cases (text_eq j k)) [
  | inl h ↦
      (let same : elem j held ≡ elem k held = ap (λ x. elem x held) ((text_eq_iff j k).0 h) in
        ground (
          arith,
          h,
          same,
          lookup-copy_fields k held body extra,
          lookup-insert j k (value v) (copy_fields held body extra),
        ))
  | inr h ↦ ground (
    arith,
    h,
    lookup-copy_fields k held body extra,
    lookup-insert j k (value v) (copy_fields held body extra),
  )
]

abbrev pub row_if : Bool → Extra → Option Extra
row_if true v = some v
row_if false v = none

abbrev pub forwarded : Option Json → Option Extra
forwarded none = none
forwarded (some v) = some (value v)

pub lookup-put_if :
    (k j : Text) (b : Bool) (v : Extra) (extra : ExtraBody)
    → lookup j extra ≡ none
    → lookup k (put_if b j v extra) ≡ (if text_eq j k then row_if b v else lookup k extra)
lookup-put_if k j true v extra h = lookup-insert j k v extra
lookup-put_if k j false v extra h = elim (Bool-cases (text_eq j k)) [
  | inl e ↦
      (let same : lookup j extra ≡ lookup k extra =
          ap (λ x. lookup x extra) ((text_eq_iff j k).0 e) in
        ground (arith, e, same))
  | inr e ↦ ground (arith, e)
]
