-- ===== src/Provider/Examples.antt =====
-- The theorems on the registry at concrete inputs.
use ultiproxy.Base.{
  true, ◌≡◌, refl, none, some, List, [], ◌∷◌, Text, bytes, text_eq, lookup, insert,
}
use ultiproxy.Provider.Registry.{Provider, Call, registers, new_registry, names, run, step}

abbrev bundle : Text → Provider
bundle name = record {
  inference = some (record { name = name; object = 1 });
  quota = none;
  auth = none;
  tools = true;
}

abbrev zai : Text
zai = bytes "zai"

abbrev xai : Text
xai = bytes "xai"

abbrev calls : List Call
calls = registers (bundle zai) ∷ registers (bundle xai) ∷ registers (bundle zai) ∷ []

-- A second registration keeps the place in the order.
calls_order : names (run new_registry calls) ≡ zai ∷ xai ∷ []
unfolding names run step new_registry lookup insert text_eq
calls_order = refl
