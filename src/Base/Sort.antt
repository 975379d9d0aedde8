-- ===== src/Base/Sort.antt =====
-- sort.Strings and sort.Slice by a text, as an insertion sort. sort.Slice is not stable: of items
-- with one key it may put any first.
use mathlib.Core.Path.{◌≡◌, refl}
use mathlib.Core.Bool.{Bool, true, false, ◌||◌}
use mathlib.Core.List.{List, [], ◌∷◌, map}
use native.Mathlib.Omega.{arith}
use ultiproxy.Base.Tests.{ltb, ◌==◌, if◌then◌else◌}
use ultiproxy.Base.Bytes.{Text, text_eq}
use ultiproxy.Base.Map.{elem}

-- The order of Go's strings, byte by byte.
unfoldable pub text_leb : Text → Text → Bool
text_leb [] t = true
text_leb (c ∷ s) [] = false
text_leb (c ∷ s) (d ∷ t) =
    let rest = text_leb s t in if ltb c d then true else if c == d then rest else false

module _ {ℓ} {A : Type ℓ} where
  unfoldable pub insert_by : (A → Text) → A → List A → List A
  insert_by key a [] = a ∷ []
  insert_by key a (b ∷ l) =
      let rest = insert_by key a l in if text_leb (key a) (key b) then a ∷ b ∷ l else b ∷ rest

  unfoldable pub sort_by : (A → Text) → List A → List A
  sort_by key [] = []
  sort_by key (a ∷ l) = insert_by key a (sort_by key l)

  elem-insert_by :
      (key f : A → Text) (x : Text) (a : A) (l : List A)
      → elem x (map f (insert_by key a l)) ≡ (text_eq (f a) x || elem x (map f l))
  unfolding insert_by elem
  elem-insert_by key f x a [] = refl
  elem-insert_by key f x a (b ∷ l) = ground (arith, elem-insert_by key f x a l)

  -- Sorting keeps what is there.
  pub elem-sort_by :
      (key f : A → Text) (x : Text) (l : List A) → elem x (map f (sort_by key l)) ≡ elem x (map f l)
  unfolding sort_by elem
  elem-sort_by key f x [] = refl
  elem-sort_by key f x (a ∷ l) =
      ground (arith, elem-insert_by key f x a (sort_by key l), elem-sort_by key f x l)
