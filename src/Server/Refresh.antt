-- ===== src/Server/Refresh.antt =====
-- The proactive refresh of credentials: pkg/server/credential_refresh.go. The ticker, the lanes'
-- expiries and their Refresh are parameters; a round is its calls of Refresh with what came of each.
-- A round reads the clock once, at its start; how long it takes shows in when the next one comes.
pub mod InTime
mod Examples
use ultiproxy.Base.{
  ℕ, ◌*◌, Bool, true, false, ◌&&◌, Option, none, some, List, [], ◌∷◌, ◌++◌, Text, Time, Duration,
  pos, second, zero_time, time_sub, ltb_ℤ, is_nonpos, if◌then◌else◌, ◌==◌,
}
use ultiproxy.Provider.Registry as Registry
use ultiproxy.Provider.Registry.{Capability, Provider, Registry}

abbrev pub minute : ℕ
minute = 60 * second

-- DefaultCredentialRefreshInterval and CredentialRefreshLead.
abbrev pub default_refresh_interval : Duration
default_refresh_interval = pos (5 * minute)

abbrev pub refresh_lead : Duration
refresh_lead = pos (10 * minute)

-- startCredentialRefresh: how often the loop ticks, or `none` if it does not start. A server
-- without a registry has no loop either.
unfoldable pub refresh_interval : Duration → Option Duration
refresh_interval d =
    let interval = if ltb_ℤ d (pos 0) then default_refresh_interval else d in
    if is_nonpos interval then none else some interval

-- What the capabilities answer: TokenExpiresAt, `none` where the capability has no such method and
-- `some none` where it answers false; whether an auth capability has a Refresh, and the error that it
-- answers within the fifteen seconds of its budget, the end of the budget included.
pub record Lanes : Type 0 where
  pub token_expires_at : Capability → Option (Option Time)
  pub is_refresher : Capability → Bool
  pub refresh : Capability → Time → Option Text

abbrev pub is_expiring : Time → Duration → Option (Option Time) → Bool
is_expiring now lead none = false
is_expiring now lead (some none) = false
is_expiring now lead (some (some t)) = if t == zero_time then false else ltb_ℤ (time_sub t now) lead

abbrev needs_by : Lanes → Time → Duration → Option Capability → Option Capability → Bool
needs_by lanes now lead none auth = false
needs_by lanes now lead (some i) none = false
needs_by lanes now lead (some i) (some a) = is_expiring now lead (lanes.token_expires_at i)

unfoldable pub credential_needs_refresh : Lanes → Provider → Time → Duration → Bool
credential_needs_refresh lanes p now lead = needs_by lanes now lead p.inference p.auth

-- The call of Refresh: its lane, and its error, which is logged.
abbrev pub Refreshed : Type 0
Refreshed = Text × Option Text

-- refreshLaneCredential: the call, if the capability has a Refresh.
unfoldable pub refresh_lane_credential : Lanes → Time → Text → Option Capability → List Refreshed
refresh_lane_credential lanes now name none = []
refresh_lane_credential lanes now name (some a) =
    if lanes.is_refresher a then (name, lanes.refresh a now) ∷ [] else []

-- The body of the loop.
unfoldable pub refresh_bundle : Lanes → Time → Text → Option Provider → List Refreshed
refresh_bundle lanes now name none = []
refresh_bundle lanes now name (some p) =
    if credential_needs_refresh lanes p now refresh_lead
    then refresh_lane_credential lanes now name p.auth
    else []

unfoldable pub refresh_names : Lanes → Registry → Time → List Text → List Refreshed
refresh_names lanes r now [] = []
refresh_names lanes r now (name ∷ names) =
    refresh_bundle lanes now name (Registry.get name r) ++ refresh_names lanes r now names

-- refreshExpiringCredentials.
unfoldable pub refresh_expiring_credentials : Lanes → Registry → Time → List Refreshed
refresh_expiring_credentials lanes r now = refresh_names lanes r now (Registry.names r)
