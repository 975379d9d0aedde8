-- ===== src/ModelMeta/Modalities.antt =====
-- pkg/modelmeta/modalities.go: the canonical modality tokens.
use ultiproxy.Base.{
  ◌≡◌, refl, ap, ◌∙◌, sym, Bool, true, false, not, ◌&&◌, ◌||◌, Option, none, some, List, [], ◌∷◌,
  Text, bytes, text_eq, text_eq_iff, to_lower, lower_byte, subst, if_both, if_cases, if◌then◌else◌,
  elem, is_some, Option-cases, inl, inr, arith,
}
use ultiproxy.Provider.Sse.{trim_space, trim_left, trim_right}

-- The switch of normalizeToken.
unfoldable pub token_of : Text → Option Text
token_of t =
    if text_eq t (bytes "text") || text_eq t (bytes "txt")
    then some (bytes "text")
    else if text_eq t (bytes "image") || text_eq t (bytes "img") || text_eq t (bytes "images")
    then some (bytes "image")
    else if text_eq t (bytes "pdf")
    then some (bytes "file")
    else if text_eq t (bytes "file") || text_eq t (bytes "files")
    then some (bytes "file")
    else if text_eq t (bytes "audio")
    then some (bytes "audio")
    else if text_eq t (bytes "video")
    then some (bytes "video")
    else none

unfoldable pub normalize_token : Text → Option Text
normalize_token raw = token_of (to_lower (trim_space raw))

-- The loop of NormalizeModalities; `seen` are the tokens that are out already.
abbrev pub keep_token : Option Text → List Text → (List Text → List Text) → List Text
keep_token none seen rest = rest seen
keep_token (some t) seen rest = if elem t seen then rest seen else t ∷ rest (t ∷ seen)

unfoldable pub normalize_from : List Text → List Text → List Text
normalize_from [] seen = []
normalize_from (raw ∷ raws) seen = keep_token (normalize_token raw) seen (normalize_from raws)

unfoldable pub normalize_modalities : List Text → List Text
normalize_modalities raws = normalize_from raws []

-- ValidateModalities: the first token that does not normalize.
unfoldable pub validate_modalities : List Text → Option Text
validate_modalities [] = none
validate_modalities (raw ∷ raws) =
    let rest = validate_modalities raws in if is_some (normalize_token raw) then rest else some raw

-- strings.EqualFold on ASCII.
abbrev is_image : Text → Bool
is_image m = text_eq (to_lower (trim_space m)) (bytes "image")

unfoldable pub has_image : List Text → Bool
has_image [] = false
has_image (m ∷ ms) = is_image m || has_image ms

-- A token that normalizes to itself.
abbrev pub Canonical : Text → Type 0
Canonical t = normalize_token t ≡ some t

-- What a token that is normalized is.
abbrev Settled : Option Text → Type 0
Settled o = (t : Text) → o ≡ some t → Canonical t

some-Settled : (a : Text) → Canonical a → Settled (some a)
some-Settled a h t e = let same : a ≡ t = cc in subst Canonical same h

none-Settled : Settled none
none-Settled t e = cc

token_of-Settled : (t : Text) → Settled (token_of t)
unfolding normalize_token token_of to_lower trim_space trim_left trim_right text_eq lower_byte
token_of-Settled t = if_both Settled _ _ _ (some-Settled (bytes "text") refl) (
    if_both Settled _ _ _ (some-Settled (bytes "image") refl) (
      if_both Settled (text_eq t (bytes "pdf")) _ _ (some-Settled (bytes "file") refl) (
        if_both Settled (text_eq t (bytes "file") || text_eq t (bytes "files")) _ _
          (some-Settled (bytes "file") refl)
          (if_both Settled (text_eq t (bytes "audio")) _ _ (some-Settled (bytes "audio") refl) (
            if_both Settled (text_eq t (bytes "video")) _ _ (some-Settled (bytes "video") refl)
              none-Settled)))))

pub normalize_token-Canonical : (raw t : Text) → normalize_token raw ≡ some t → Canonical t
unfolding normalize_token
normalize_token-Canonical raw t h = token_of-Settled (to_lower (trim_space raw)) t h

-- Canonical tokens, none of them twice or in `seen`.
abbrev pub IsNormal : List Text → List Text → Type 0
IsNormal seen [] = Unit
IsNormal seen (t ∷ ts) = Canonical t × ((elem t seen ≡ false) × IsNormal (t ∷ seen) ts)

normalize_from-IsNormal : (raws seen : List Text) → IsNormal seen (normalize_from raws seen)
unfolding normalize_from
normalize_from-IsNormal [] seen = tt
normalize_from-IsNormal (raw ∷ raws) seen = elim (Option-cases (normalize_token raw)) [
  | inl h ↦
      subst (λ o. IsNormal seen (keep_token o seen (normalize_from raws))) (sym h)
        (normalize_from-IsNormal raws seen)
  | inr (t, h) ↦
      subst (λ o. IsNormal seen (keep_token o seen (normalize_from raws))) (sym h)
        (if_cases (IsNormal seen) (elem t seen) _ _ (λ k. normalize_from-IsNormal raws seen)
          (λ k. (normalize_token-Canonical raw t h, (k, normalize_from-IsNormal raws (t ∷ seen)))))
]

normalize_from-normal : (ts seen : List Text) → IsNormal seen ts → normalize_from ts seen ≡ ts
unfolding normalize_from
normalize_from-normal [] seen n = refl
normalize_from-normal (t ∷ ts) seen (c, (k, n)) =
    let settled : keep_token (normalize_token t) seen (normalize_from ts)
        ≡ (if elem t seen then normalize_from ts seen else t ∷ normalize_from ts (t ∷ seen)) =
      ap (λ o. keep_token o seen (normalize_from ts)) c in
    settled ∙ rw k (ap (λ l. t ∷ l) (normalize_from-normal ts (t ∷ seen) n))

-- Whether one of the spellings means the token.
abbrev pub means : Text → Option Text → Bool
means t none = false
means t (some u) = text_eq u t

abbrev pub spells : Text → List Text → Bool
spells t [] = false
spells t (raw ∷ raws) = means t (normalize_token raw) || spells t raws

elem-same : (t u : Text) (seen : List Text) → text_eq t u ≡ true → elem t seen ≡ elem u seen
elem-same t u seen h = ap (λ x. elem x seen) ((text_eq_iff t u).0 h)

elem-normalize_from :
    (u : Text) (raws seen : List Text)
    → elem u (normalize_from raws seen) ≡ (not (elem u seen) && spells u raws)
unfolding normalize_from elem
elem-normalize_from u [] seen = ground arith
elem-normalize_from u (raw ∷ raws) seen = elim (Option-cases (normalize_token raw)) [
  | inl h ↦
      subst
        (λ o.
          elem u (keep_token o seen (normalize_from raws))
          ≡ (not (elem u seen) && (means u o || spells u raws)))
        (sym h) (elem-normalize_from u raws seen)
  | inr (t, h) ↦
      subst
        (λ o.
          elem u (keep_token o seen (normalize_from raws))
          ≡ (not (elem u seen) && (means u o || spells u raws)))
        (sym h)
        (ground (
          arith,
          elem-same t u seen,
          elem-normalize_from u raws seen,
          elem-normalize_from u raws (t ∷ seen),
        ))
]

-- Normalized modalities are the tokens that the given spellings mean, each once and spelled as it
-- normalizes to, so that normalizing again changes nothing.
pub normalize_modalities_exact :
    (raws : List Text) (t : Text)
    → IsNormal [] (normalize_modalities raws)
      × ((elem t (normalize_modalities raws) ≡ spells t raws)
          × (normalize_modalities (normalize_modalities raws) ≡ normalize_modalities raws))
unfolding normalize_modalities elem
normalize_modalities_exact raws t =
    let normal = normalize_from-IsNormal raws [] in
    (
      normal,
      (elem-normalize_from t raws [], normalize_from-normal (normalize_from raws []) [] normal),
    )
