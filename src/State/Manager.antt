-- ===== src/State/Manager.antt =====
-- pkg/state/state.go. A method takes the reading of the clock and returns the new manager.
-- The snapshot pointer is never nil after NewStateManager. The jitter of AllowProbe is left out:
-- the source computes it and compares the unjittered duration.
use ultiproxy.Base.{
  ℕ, ◌+◌, ◌^◌, ◌%◌, ◌*◌, Bool, true, false, Option, none, some, List, [], ◌∷◌, Text, Time, Duration,
  ℤ, pos, second, if◌then◌else◌, lookup, insert, leb_ℤ, time_sub, int_incr,
}
use ultiproxy.State.Types.{
  AdminState, HealthState, QuotaState, CircuitState, ProviderRuntime, RuntimeSnapshot, clone,
  is_disabled, is_unavailable,
}

pub record StateManager : Type 0 where
  pub snapshot : RuntimeSnapshot
  pub open_duration : Duration
  pub failure_threshold : ℤ

-- NewStateManager, its options given as the values that they set.
unfoldable pub new_state_manager : Option Duration → Option ℤ → StateManager
new_state_manager d t = record {
  snapshot = record { version = 1; providers = []; models = [] };
  open_duration = elim d [ none ↦ pos (30 * second) | some x ↦ x ];
  failure_threshold = elim t [ none ↦ pos 5 | some x ↦ x ];
}

-- `cloned.Version = current.Version + 1`, on a uint64.
abbrev pub next_version : ℕ → ℕ
next_version v = (v + 1) % 2 ^ 64

-- One round of Update whose CompareAndSwap succeeds.
unfoldable pub update_snapshot :
    (RuntimeSnapshot → RuntimeSnapshot) → RuntimeSnapshot → RuntimeSnapshot
unfolding clone
update_snapshot fn current =
    let cloned = fn (clone (some current)) in
    record cloned { version = next_version current.version }

unfoldable pub update : (RuntimeSnapshot → RuntimeSnapshot) → StateManager → StateManager
unfolding update_snapshot
update fn sm = record sm { snapshot = update_snapshot fn sm.snapshot }

-- `p, ok := snap.Providers[id]; if !ok { return }; ...; snap.Providers[id] = p`.
unfoldable pub amend :
    Text → (ProviderRuntime → ProviderRuntime) → RuntimeSnapshot → RuntimeSnapshot
amend id change snap = elim (lookup id snap.providers) [
  | none ↦ snap
  | some p ↦ record snap { providers = insert id (change p) snap.providers }
]

unfoldable pub set_provider : Text → ProviderRuntime → StateManager → StateManager
unfolding update
set_provider id p sm = update (λ snap. record snap { providers = insert id p snap.providers }) sm

unfoldable pub set_admin_state : Text → AdminState → StateManager → StateManager
unfolding update amend
set_admin_state id admin sm = update (amend id (λ p. record p { admin = admin })) sm

-- The switch of AllowProbe over the circuit: the row to store, and `allowed`.
unfoldable pub probe_circuit :
    Duration → Time → CircuitState → ProviderRuntime → ProviderRuntime × Bool
probe_circuit d now CircuitState.closed p = (p, true)
probe_circuit d now CircuitState.opened p =
    if leb_ℤ d (time_sub now p.circuit_opened_at)
    then (
      record p {
        circuit = CircuitState.half_open;
        probe_in_flight = true;
        consecutive_success = pos 0;
        observed_at = now;
      },
      true,
    )
    else (p, false)
probe_circuit d now CircuitState.half_open p =
    if p.probe_in_flight then (p, false) else (record p { probe_in_flight = true }, true)
probe_circuit d now CircuitState.unset p = (p, false)

unfoldable pub probe_row : Duration → Time → ProviderRuntime → ProviderRuntime × Bool
unfolding probe_circuit
probe_row d now p = if is_disabled p.admin then (p, false) else probe_circuit d now p.circuit p

unfoldable pub allow_probe : Text → Time → StateManager → StateManager × Bool
unfolding update amend probe_row
allow_probe id now sm = (
  update (amend id (λ p. (probe_row sm.open_duration now p).0)) sm,
  elim (lookup id sm.snapshot.providers) [
    | none ↦ false
    | some p ↦ (probe_row sm.open_duration now p).1
  ],
)

abbrev success_circuit : CircuitState → ProviderRuntime → ProviderRuntime
success_circuit CircuitState.half_open p = record p {
  circuit = CircuitState.closed;
  probe_in_flight = false;
}
success_circuit CircuitState.closed p = record p { probe_in_flight = false }
success_circuit _ p = p

-- `HealthUnavailable || HealthDegraded` becomes healthy.
abbrev recovered_health : HealthState → HealthState
recovered_health HealthState.unavailable = HealthState.healthy
recovered_health HealthState.degraded = HealthState.healthy
recovered_health h = h

unfoldable pub success_row : Time → ProviderRuntime → ProviderRuntime
success_row now p =
    let q = record p {
      last_success = now;
      last_attempt = now;
      observed_at = now;
      error = [];
      consecutive_failure = pos 0;
      consecutive_success = int_incr p.consecutive_success;
      health = recovered_health p.health;
    } in
    success_circuit q.circuit q

unfoldable pub record_success : Text → Time → StateManager → StateManager
unfolding update amend success_row
record_success id now sm = update (amend id (success_row now)) sm

abbrev failure_circuit : ℤ → Time → CircuitState → ProviderRuntime → ProviderRuntime
failure_circuit threshold now CircuitState.half_open p = record p {
  circuit = CircuitState.opened;
  circuit_opened_at = now;
  probe_in_flight = false;
  health = HealthState.unavailable;
}
failure_circuit threshold now CircuitState.closed p =
    if leb_ℤ threshold p.consecutive_failure
    then record p {
      circuit = CircuitState.opened;
      circuit_opened_at = now;
      health = HealthState.degraded;
    }
    else p
failure_circuit threshold now _ p = p

-- `err` is `err.Error()`, or `none` for a nil error.
unfoldable pub failure_row : ℤ → Time → Option Text → ProviderRuntime → ProviderRuntime
failure_row threshold now err p =
    let q = record p {
      last_attempt = now;
      observed_at = now;
      consecutive_success = pos 0;
      consecutive_failure = int_incr p.consecutive_failure;
      error = elim err [ none ↦ p.error | some e ↦ e ];
    } in
    failure_circuit threshold now q.circuit q

unfoldable pub record_failure : Text → Time → Option Text → StateManager → StateManager
unfolding update amend failure_row
record_failure id now err sm = update (amend id (failure_row sm.failure_threshold now err)) sm

unfoldable pub reset_quota : Text → Time → StateManager → StateManager
unfolding update amend
reset_quota id now sm =
    update (amend id (λ p. record p { quota = QuotaState.healthy; observed_at = now })) sm

unfoldable pub recover_row : Time → ProviderRuntime → ProviderRuntime
recover_row now p = record p {
  circuit = CircuitState.closed;
  probe_in_flight = false;
  consecutive_failure = pos 0;
  observed_at = now;
  health = if is_unavailable p.health then HealthState.healthy else p.health;
}

unfoldable pub recover_circuit : Text → Time → StateManager → StateManager
unfolding update amend recover_row
recover_circuit id now sm = update (amend id (recover_row now)) sm

-- The calls by which the program moves the state on its own account.
pub data Call : Type 0 where
  probes succeeds : Text → Time → Call
  fails : Text → Time → Option Text → Call
  resets recovers : Text → Time → Call

unfoldable pub step : StateManager → Call → StateManager
unfolding allow_probe record_success record_failure reset_quota recover_circuit
step sm (probes id now) = (allow_probe id now sm).0
step sm (succeeds id now) = record_success id now sm
step sm (fails id now err) = record_failure id now err sm
step sm (resets id now) = reset_quota id now sm
step sm (recovers id now) = recover_circuit id now sm

unfoldable pub run : StateManager → List Call → StateManager
run sm [] = sm
run sm (c ∷ cs) = run (step sm c) cs

-- The row of a provider.
abbrev pub row : Text → StateManager → Option ProviderRuntime
row id sm = lookup id sm.snapshot.providers
