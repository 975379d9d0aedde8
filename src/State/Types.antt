-- ===== src/State/Types.antt =====
-- pkg/state/types.go. The constructor `unset` is Go's zero value of the string types, which a
-- row has in the dimensions that nothing has set.
use ultiproxy.Base.{
  ℕ, Bool, true, false, not, ◌&&◌, Option, none, some, List, [], Text, Time, ℤ, zero_time, pos,
}

pub data AdminState : Type 0 where
  enabled disabled unset : AdminState

pub data HealthState : Type 0 where
  healthy degraded unavailable unset : HealthState

pub data QuotaState : Type 0 where
  healthy low exhausted unknown unset : QuotaState

pub data CircuitState : Type 0 where
  closed opened half_open unset : CircuitState

pub data CredentialState : Type 0 where
  valid refreshing expired revoked unset : CredentialState

pub record ProviderRuntime : Type 0 where
  pub admin : AdminState
  pub health : HealthState
  pub quota : QuotaState
  pub circuit : CircuitState
  pub credential : CredentialState
  pub last_attempt : Time
  pub last_success : Time
  pub observed_at : Time
  pub valid_until : Time
  pub source : Text
  pub error : Text
  pub circuit_opened_at : Time
  pub probe_in_flight : Bool
  pub consecutive_success : ℤ
  pub consecutive_failure : ℤ

-- `ProviderRuntime{}`.
abbrev pub zero_runtime : ProviderRuntime
zero_runtime = record {
  admin = AdminState.unset;
  health = HealthState.unset;
  quota = QuotaState.unset;
  circuit = CircuitState.unset;
  credential = CredentialState.unset;
  last_attempt = zero_time;
  last_success = zero_time;
  observed_at = zero_time;
  valid_until = zero_time;
  source = [];
  error = [];
  circuit_opened_at = zero_time;
  probe_in_flight = false;
  consecutive_success = pos 0;
  consecutive_failure = pos 0;
}

abbrev pub is_enabled : AdminState → Bool
is_enabled AdminState.enabled = true
is_enabled _ = false

abbrev pub is_disabled : AdminState → Bool
is_disabled AdminState.disabled = true
is_disabled _ = false

abbrev pub is_opened : CircuitState → Bool
is_opened CircuitState.opened = true
is_opened _ = false

abbrev pub is_valid : CredentialState → Bool
is_valid CredentialState.valid = true
is_valid _ = false

abbrev pub is_exhausted : QuotaState → Bool
is_exhausted QuotaState.exhausted = true
is_exhausted _ = false

abbrev pub is_unavailable : HealthState → Bool
is_unavailable HealthState.unavailable = true
is_unavailable _ = false

-- ProviderRuntime.IsAvailable.
unfoldable pub is_available : ProviderRuntime → Bool
is_available p =
    is_enabled p.admin
    && not (is_opened p.circuit)
    && is_valid p.credential
    && not (is_exhausted p.quota)
    && not (is_unavailable p.health)

-- A model's row. The benchmark scores are left out: nothing that is modelled reads them.
pub record ModelRuntime : Type 0 where
  pub id : Text
  pub provider : Text
  pub is_enabled : Bool
  pub context_limit : ℤ
  pub max_output : ℤ
  pub pricing_tag : Text

-- The maps are values, so a snapshot is immutable and needs no deep copy.
pub record RuntimeSnapshot : Type 0 where
  pub version : ℕ
  pub providers : List (Text × ProviderRuntime)
  pub models : List (Text × ModelRuntime)

-- RuntimeSnapshot.Clone; `none` is the nil pointer.
unfoldable pub clone : Option RuntimeSnapshot → RuntimeSnapshot
clone none = record { version = 0; providers = []; models = [] }
clone (some s) = s
