-- ===== src/Server/Router/Lanes.antt =====
-- The prefix match: which ids reach a lane, and which none.
use mathlib.Core.List.{map-append}
use ultiproxy.Base.{
  ◌≡◌, ◌≢◌, refl, ◌∙◌, ap, sym, inl, inr, ◌⊎◌, Bool, true, false, Option, none, some, List, [], ◌∷◌,
  ◌++◌, ◌||◌, Text, if◌then◌else◌, is_empty, is_some, ◌≤◌, ◌==◌, lookup, text_eq_iff, starts_with,
  to_lower, lower_byte, starts_with-append, arith, map,
}
use ultiproxy.Provider.Registry.{Registry}
use ultiproxy.Provider.Registry
use ultiproxy.Provider.Registry.Laws.{IsOrdered, count}
use ultiproxy.Server.Catalog.{ModelCatalog}
use ultiproxy.Server.Models.{slash}
use ultiproxy.Server.Router.Safety.{alias_lane}
use ultiproxy.Server.Router.{
  unknown_model, unavailable, ok, err, RegistryRouter, Excluded, is_excluded, has_lane,
  route_prefix, route_alias, switched_off, route_enabled, route,
}

unfoldable pub has_slash : Text → Bool
has_slash [] = false
has_slash (c ∷ s) = c == b'/' || has_slash s

has_slash-to_lower : (s : Text) → has_slash (to_lower s) ≡ has_slash s
unfolding has_slash to_lower
has_slash-to_lower [] = refl
has_slash-to_lower (c ∷ s) = ground (arith, has_slash-to_lower s)

starts_with-slash : (s p : Text) → has_slash s ≡ false → starts_with s (p ++ slash) ≡ false
unfolding starts_with has_slash
starts_with-slash [] [] h = refl
starts_with-slash [] (c ∷ p) h = refl
starts_with-slash (d ∷ s) [] h = ground arith
starts_with-slash (d ∷ s) (c ∷ p) h = ground (arith, starts_with-slash s p)

-- What stands before the first slash of a text is one thing.
prefix_unique :
    (a b r : Text)
    → has_slash a ≡ false
    → has_slash b ≡ false
    → starts_with (a ++ slash ++ r) (b ++ slash) ≡ true
    → a ≡ b
unfolding starts_with has_slash
prefix_unique [] [] r h k e = refl
prefix_unique [] (c ∷ b) r h k e = ground arith
prefix_unique (c ∷ a) [] r h k e = ground arith
prefix_unique (c ∷ a) (d ∷ b) r h k e = ground (arith, prefix_unique a b r)

to_lower-append : (a b : Text) → to_lower (a ++ b) ≡ to_lower a ++ to_lower b
unfolding to_lower
to_lower-append a b = map-append lower_byte a b

folded :
    (lane rest : Text) → to_lower (lane ++ slash ++ rest) ≡ to_lower lane ++ slash ++ to_lower rest
unfolding to_lower
folded lane rest =
    map-append lower_byte (lane ++ slash) rest
    ∙ ap (λ x. x ++ map lower_byte rest) (map-append lower_byte lane slash)

has_lane_self : (lane rest : Text) → has_lane (lane ++ slash ++ rest) lane ≡ true
unfolding has_lane
has_lane_self lane rest =
    rw (folded lane rest) (starts_with-append (to_lower lane ++ slash) (to_lower rest))

has_lane_unique :
    (lane n rest : Text)
    → has_slash lane ≡ false
    → has_slash n ≡ false
    → has_lane (lane ++ slash ++ rest) n ≡ true
    → to_lower n ≡ to_lower lane
unfolding has_lane
has_lane_unique lane n rest h k e = sym (
    prefix_unique (to_lower lane) (to_lower n) (to_lower rest) (has_slash-to_lower lane ∙ h)
      (has_slash-to_lower n ∙ k)
      (ap (λ x. starts_with x (to_lower n ++ slash)) (sym (folded lane rest)) ∙ e))

-- Among the names none has a slash, and none but `lane` folds to the same text as it.
abbrev pub AllApart : Text → List Text → Type 0
AllApart lane [] = Unit {0}
AllApart lane (n ∷ ns) =
    ((n ≡ lane) ⊎ (to_lower n ≢ to_lower lane)) × (has_slash n ≡ false) × AllApart lane ns

route_prefix-lane :
    (x : Excluded) (lane rest : Text) (names : List Text)
    → has_slash lane ≡ false
    → AllApart lane names
    → 1 ≤ count lane names
    → route_prefix x (lane ++ slash ++ rest) names
      ≡ (if is_excluded x lane then err (unavailable lane (lane ++ slash ++ rest)) else ok lane)
unfolding route_prefix
route_prefix-lane x lane rest [] h a c = absurd (omega arith)
route_prefix-lane x lane rest (n ∷ ns) h (inl e, k, a) c = rw e (rw (has_lane_self lane rest))
route_prefix-lane x lane rest (n ∷ ns) h (inr e, k, a) c = ground (
  arith,
  text_eq_iff n lane,
  has_lane_unique lane n rest h k,
  route_prefix-lane x lane rest ns h a,
)

route_prefix-bare :
    (x : Excluded) (model : Text) (names : List Text)
    → has_slash model ≡ false
    → route_prefix x model names ≡ err (unknown_model model)
unfolding route_prefix has_lane
route_prefix-bare x model [] h = refl
route_prefix-bare x model (n ∷ ns) h =
    rw (starts_with-slash (to_lower model) (to_lower n) (has_slash-to_lower model ∙ h))
      (route_prefix-bare x model ns h)

some_listed :
    (lane : Text) (r : Registry)
    → IsOrdered r
    → is_some (Registry.get lane r) ≡ true
    → (is_empty r.providers ≡ false) × (1 ≤ count lane r.order)
unfolding Registry.get lookup
some_listed lane r o g = (nonempty r.providers g, ground (arith, o.listed lane))
  where
    nonempty :
        (m : List (Text × Registry.Provider)) → is_some (lookup lane m) ≡ true → is_empty m ≡ false
    nonempty [] e = cc
    nonempty (kv ∷ m) e = refl

module _ {F : Type 0} where
  route_alias-none :
      (x : Excluded) (model : Text) (r : Registry) (catalog : Option (ModelCatalog F))
      → alias_lane model catalog ≡ none
      → route_alias x model r catalog ≡ none
  unfolding route_alias
  route_alias-none x model r none h = refl
  route_alias-none x model r (some c) h = ground arith

  -- A canonical id `<lane>/<model>` that is no alias and is not switched off reaches its lane, if
  -- the lane is registered and has not failed this request; if it has, no other lane is tried. The
  -- lane names have no slash, and no other one is the same up to case.
  pub canonical_id_routes :
      (x : Excluded) (lane rest : Text) (router : RegistryRouter F) (r : Registry)
      → router.registry ≡ some r
      → IsOrdered r
      → is_some (Registry.get lane r) ≡ true
      → has_slash lane ≡ false
      → AllApart lane r.order
      → switched_off (lane ++ slash ++ rest) router ≡ false
      → alias_lane (lane ++ slash ++ rest) router.catalog ≡ none
      → route x (lane ++ slash ++ rest) router
        ≡ (if is_excluded x lane then err (unavailable lane (lane ++ slash ++ rest)) else ok lane)
  unfolding route route_enabled
  canonical_id_routes x lane rest router r e o g h a s n = ground (
    arith,
    route_alias-none x (lane ++ slash ++ rest) r router.catalog n,
    route_prefix-lane x lane rest r.order h a,
    some_listed lane r o g,
  )

  -- A bare id, one with no slash, that is no alias and is not switched off is unknown, whatever
  -- lanes are registered.
  pub bare_id_unknown :
      (x : Excluded) (model : Text) (router : RegistryRouter F) (r : Registry)
      → router.registry ≡ some r
      → is_empty r.providers ≡ false
      → has_slash model ≡ false
      → switched_off model router ≡ false
      → alias_lane model router.catalog ≡ none
      → route x model router ≡ err (unknown_model model)
  unfolding route route_enabled
  bare_id_unknown x model router r e p h s n =
      ground
        (arith, route_alias-none x model r router.catalog n, route_prefix-bare x model r.order h)
