-- ===== src/Server/Refresh/Examples.antt =====
-- A credential that is refreshed in time, at a concrete registry.
use ultiproxy.Base.{
  ◌≡◌, refl, ◌*◌, true, none, some, [], ◌∷◌, Text, bytes, arith, text_eq, lookup, elem,
}
use ultiproxy.Provider.Registry as Registry
use ultiproxy.Provider.Registry.{Capability, Provider, Registry}
use ultiproxy.Server.Refresh.{Lanes, minute}
use ultiproxy.Server.Refresh.InTime.{asked_before, refreshed_in_time}

abbrev xai : Text
xai = bytes "xai"

abbrev capability : Capability
capability = record { name = xai; object = 1 }

abbrev lane : Provider
lane = record { inference = some capability; quota = none; auth = some capability; tools = true }

abbrev registry : Registry
registry = record { providers = (xai, lane) ∷ []; order = xai ∷ [] }

-- Its token expires an hour after the zero time.
abbrev lanes : Lanes
lanes = record {
  token_expires_at = λ c. some (some (60 * minute));
  is_refresher = λ c. true;
  refresh = λ c t. none;
}

-- The loop starts at the 45th minute and ticks every five minutes.
refreshed_in_time_example :
    asked_before lanes registry xai (60 * minute) (50 * minute ∷ 55 * minute ∷ 60 * minute ∷ [])
    ≡ true
unfolding elem text_eq lookup Registry.names Registry.get
refreshed_in_time_example =
    refreshed_in_time lanes registry xai lane capability capability (60 * minute) (5 * minute)
      (45 * minute) (50 * minute ∷ 55 * minute ∷ 60 * minute ∷ []) refl refl refl refl refl refl
      (omega arith) refl (omega arith) (omega arith)
