-- ===== src/Provider/Registry/Laws.antt =====
-- The registration order names each registered bundle once, and a replacement keeps its place.
use ultiproxy.Base.{
  ℕ, ◌+◌, ◌-◌, ◌≡◌, refl, inl, inr, Bool, false, none, some, List, [], ◌∷◌, ◌++◌, Text,
  if◌then◌else◌, is_empty, is_some, lookup, lookup-insert, lookup-erase, text_eq, text_eq_iff,
  arith, Bool-cases,
}
use ultiproxy.Provider.Registry.{
  Provider, Registry, new_registry, bundle_name, register, register_as, unregister, names, get,
  drop_first, Call, registers, unregisters, step, run,
}

-- How often a name stands in the order.
abbrev pub count : Text → List Text → ℕ
count name [] = 0
count name (n ∷ ns) = (if text_eq n name then 1 else 0) + count name ns

abbrev pub once_if : Bool → ℕ
once_if b = if b then 1 else 0

-- Each name stands in the order once if it is registered, and not at all if it is not.
pub record IsOrdered (r : Registry) : Type 0 where
  pub listed : (name : Text) → count name r.order ≡ once_if (is_some (lookup name r.providers))
  pub unnamed : lookup [] r.providers ≡ none

pub count-append :
    (name : Text) (ns ms : List Text) → count name (ns ++ ms) ≡ count name ns + count name ms
count-append name [] ms = omega arith
count-append name (n ∷ ns) ms = omega (arith, count-append name ns ms)

count-drop_first :
    (k name : Text) (ns : List Text)
    → count k (drop_first name ns) ≡ (if text_eq name k then count k ns - 1 else count k ns)
unfolding drop_first
count-drop_first k name [] = ground arith
count-drop_first k name (n ∷ ns) =
    ground
      (arith, count-drop_first k name ns, text_eq_iff n name, text_eq_iff n k, text_eq_iff name k)

register_as-IsOrdered :
    (name : Text) (p : Provider) (r : Registry) → IsOrdered r → IsOrdered (register_as name p r)
unfolding register_as
register_as-IsOrdered [] p r h = h
register_as-IsOrdered (c ∷ s) p r h = record {
  listed = λ k. ground (
    arith,
    h.listed k,
    h.listed (c ∷ s),
    count-append k r.order ((c ∷ s) ∷ []),
    lookup-insert (c ∷ s) k p r.providers,
    text_eq_iff (c ∷ s) k,
  );
  unnamed =
      ground (arith, h.unnamed, text_eq_iff (c ∷ s) [], lookup-insert (c ∷ s) [] p r.providers);
}

unregister-IsOrdered : (name : Text) (r : Registry) → IsOrdered r → IsOrdered (unregister name r).0
unfolding unregister
unregister-IsOrdered [] r h = h
unregister-IsOrdered (c ∷ s) r h = elim (Bool-cases (is_some (lookup (c ∷ s) r.providers))) [
  | inl e ↦
      rw (e, unregister)
        (record {
          listed = λ k. ground (
            arith,
            h.listed k,
            h.listed (c ∷ s),
            count-drop_first k (c ∷ s) r.order,
            lookup-erase (c ∷ s) k r.providers,
            text_eq_iff (c ∷ s) k,
          );
          unnamed = ground (arith, h.unnamed, lookup-erase (c ∷ s) [] r.providers);
        })
  | inr e ↦ rw (e, unregister) h
]

new_registry-IsOrdered : IsOrdered new_registry
unfolding new_registry lookup
new_registry-IsOrdered = record { listed = λ name. refl; unnamed = refl }

step-IsOrdered : (r : Registry) (c : Call) → IsOrdered r → IsOrdered (step r c)
unfolding step
step-IsOrdered r (registers p) h = register_as-IsOrdered (bundle_name p) p r h
step-IsOrdered r (unregisters name) h = unregister-IsOrdered name r h

run-IsOrdered_from : (r : Registry) (cs : List Call) → IsOrdered r → IsOrdered (run r cs)
unfolding run
run-IsOrdered_from r [] h = h
run-IsOrdered_from r (c ∷ cs) h = run-IsOrdered_from (step r c) cs (step-IsOrdered r c h)

-- After any registrations and removals the order names every registered bundle exactly once, no
-- other name, and never the empty name.
pub run-IsOrdered : (cs : List Call) → IsOrdered (run new_registry cs)
run-IsOrdered cs = run-IsOrdered_from new_registry cs new_registry-IsOrdered

-- A registered bundle is found under its name and the other bundles stay. It
-- keeps the place in the order that a bundle of that name had, and goes last if there was none.
pub get-register :
    (p : Provider) (r : Registry) (name : Text)
    → is_empty (bundle_name p) ≡ false
    → (get name (register p r) ≡ (if text_eq (bundle_name p) name then some p else get name r))
      × (names (register p r)
          ≡ (if is_some (get (bundle_name p) r) then names r else names r ++ bundle_name p ∷ []))
unfolding get register names
get-register p r name h =
    (rw (h, register) (lookup-insert (bundle_name p) name p r.providers), rw (h, register))

-- After Unregister its name is not found, the others are as before, and it says whether the name
-- was registered.
pub get-unregister :
    (r : Registry) (gone name : Text)
    → IsOrdered r
    → (get name (unregister gone r).0 ≡ (if text_eq gone name then none else get name r))
      × ((unregister gone r).1 ≡ is_some (get gone r))
unfolding get unregister
get-unregister r [] name h = ground (arith, h.unnamed, text_eq_iff [] name)
get-unregister r (c ∷ s) name h =
    ground (arith, lookup-erase (c ∷ s) name r.providers, text_eq_iff (c ∷ s) name)
