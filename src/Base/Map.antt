-- ===== src/Base/Map.antt =====
-- Go's maps with text keys, as association lists; a key's first row counts.
use mathlib.Core.Path.{◌≡◌, refl}
use mathlib.Core.Option.{Option, none, some}
use mathlib.Core.List.{List, [], ◌∷◌}
use native.Mathlib.Omega.{arith}
use mathlib.Core.Bool.{Bool, false, ◌||◌}
use ultiproxy.Base.Tests.{if◌then◌else◌, is_some}
use ultiproxy.Base.Bytes.{Text, text_eq, text_eq_iff, text_eq_refl}

module _ {ℓ} {V : Type ℓ} where
  unfoldable pub lookup : Text → List (Text × V) → Option V
  lookup k [] = none
  lookup k ((j, v) ∷ m) = if text_eq j k then some v else lookup k m

  -- m[k] = v
  unfoldable pub insert : Text → V → List (Text × V) → List (Text × V)
  insert k v [] = (k, v) ∷ []
  insert k v ((j, w) ∷ m) = if text_eq j k then (k, v) ∷ m else (j, w) ∷ insert k v m

  -- delete(m, k)
  unfoldable pub erase : Text → List (Text × V) → List (Text × V)
  erase k [] = []
  erase k ((j, w) ∷ m) = let rest = erase k m in if text_eq j k then rest else (j, w) ∷ rest

  pub lookup-insert :
      (k j : Text) (v : V) (m : List (Text × V))
      → lookup j (insert k v m) ≡ (if text_eq k j then some v else lookup j m)
  unfolding lookup insert
  lookup-insert k j v [] = refl
  lookup-insert k j v ((i, w) ∷ m) =
      ground (arith, text_eq_iff k j, text_eq_iff i k, text_eq_iff i j, lookup-insert k j v m)

  pub lookup-insert_self :
      (k : Text) (v : V) (m : List (Text × V)) → lookup k (insert k v m) ≡ some v
  lookup-insert_self k v m = rw (lookup-insert, text_eq_refl)

  pub lookup-erase :
      (k j : Text) (m : List (Text × V))
      → lookup j (erase k m) ≡ (if text_eq k j then none else lookup j m)
  unfolding lookup erase
  lookup-erase k j [] = ground arith
  lookup-erase k j ((i, w) ∷ m) =
      ground (arith, text_eq_iff k j, text_eq_iff i k, text_eq_iff i j, lookup-erase k j m)

unfoldable pub elem : Text → List Text → Bool
elem k [] = false
elem k (x ∷ xs) = text_eq x k || elem k xs

module _ {ℓ} {V : Type ℓ} where
  abbrev pub keys : List (Text × V) → List Text
  keys [] = []
  keys ((k, v) ∷ m) = k ∷ keys m

  pub elem-keys : (k : Text) (m : List (Text × V)) → elem k (keys m) ≡ is_some (lookup k m)
  unfolding elem lookup
  elem-keys k [] = refl
  elem-keys k ((j, v) ∷ m) = ground (arith, elem-keys k m)

  -- delete(m, k) for each k of a list.
  unfoldable pub erase_all : List Text → List (Text × V) → List (Text × V)
  erase_all [] m = m
  erase_all (k ∷ ks) m = erase k (erase_all ks m)

  pub lookup-erase_all :
      (j : Text) (ks : List Text) (m : List (Text × V))
      → lookup j (erase_all ks m) ≡ (if elem j ks then none else lookup j m)
  unfolding erase_all elem
  lookup-erase_all j [] m = refl
  lookup-erase_all j (k ∷ ks) m =
      ground (arith, lookup-erase k j (erase_all ks m), lookup-erase_all j ks m)
