-- ===== src/Provider/Registry.antt =====
-- The registry of pkg/provider/provider.go: a map of bundles and the order of registration.
pub mod Laws
use ultiproxy.Base.{
  ℕ, Bool, true, false, Option, none, some, List, [], ◌∷◌, ◌++◌, Text, if◌then◌else◌, is_empty,
  is_some, lookup, insert, erase, text_eq, length,
}

-- One capability of an adapter: its Name(), and which object implements it.
pub record Capability : Type 0 where
  pub name : Text
  pub object : ℕ

-- A bundle; `none` is a nil interface. Of the declared capabilities only Tools is read here.
pub record Provider : Type 0 where
  pub inference : Option Capability
  pub quota : Option Capability
  pub auth : Option Capability
  pub tools : Bool

pub record Registry : Type 0 where
  pub providers : List (Text × Provider)
  pub order : List Text

unfoldable pub new_registry : Registry
new_registry = record { providers = []; order = [] }

-- The name under which RegisterWithSource files a bundle.
abbrev pub name_of : Option Capability → Option Capability → Option Capability → Text
name_of (some i) q a = i.name
name_of none (some q) a = q.name
name_of none none (some a) = a.name
name_of none none none = []

abbrev pub bundle_name : Provider → Text
bundle_name p = name_of p.inference p.quota p.auth

-- RegisterWithSource; the source is only logged.
unfoldable pub register_as : Text → Provider → Registry → Registry
register_as name p r = if is_empty name then r else record r {
  order = if is_some (lookup name r.providers) then r.order else r.order ++ name ∷ [];
  providers = insert name p r.providers;
}

unfoldable pub register : Provider → Registry → Registry
unfolding register_as
register p r = register_as (bundle_name p) p r

unfoldable pub get : Text → Registry → Option Provider
get name r = lookup name r.providers

unfoldable pub names : Registry → List Text
names r = r.order

unfoldable pub len : Registry → ℕ
len r = length r.providers

-- The loop of Unregister over the order: it drops the first entry and breaks.
unfoldable pub drop_first : Text → List Text → List Text
drop_first name [] = []
drop_first name (n ∷ ns) = if text_eq n name then ns else n ∷ drop_first name ns

unfoldable pub unregister : Text → Registry → Registry × Bool
unfolding drop_first
unregister name r =
    if is_empty name
    then (r, false)
    else if is_some (lookup name r.providers)
    then (record r { providers = erase name r.providers; order = drop_first name r.order }, true)
    else (r, false)

pub data Call : Type 0 where
  registers : Provider → Call
  unregisters : Text → Call

unfoldable pub step : Registry → Call → Registry
unfolding register unregister
step r (registers p) = register p r
step r (unregisters name) = (unregister name r).0

unfoldable pub run : Registry → List Call → Registry
run r [] = r
run r (c ∷ cs) = run (step r c) cs
