-- ===== src/Quota/Breaker.antt =====
-- The circuit breaker of pkg/quota/breaker.go. A method takes the readings of the clocks and returns
-- the new breaker; the mutex makes each call one step. `sm` is the state manager, `none` for nil.
pub mod Rows
pub mod Admin
pub mod Probe
pub mod Agree
use mathlib.Core.Option
use ultiproxy.Base.{
  ℕ, Bool, true, false, Option, none, some, List, [], ◌∷◌, Text, Time, Duration, ℤ, pos, second,
  Float, if◌then◌else◌, or_else, ◌*◌, is_empty, is_nonpos, lookup, insert,
}
use ultiproxy.State.Types.{
  HealthState, QuotaState, CircuitState, ProviderRuntime, RuntimeSnapshot, zero_runtime,
  is_disabled, is_opened,
}
use ultiproxy.State.Manager.{StateManager, update, amend}
use ultiproxy.State.Manager
use ultiproxy.Quota.LimitError.{
  LimitErrorKind, LimitError, burst_rate, token_rate, quota_window, spend_limit, account_limit,
  capacity, session_conflict, waiting_room, abuse_guard,
}
use Rows.{
  BreakerRow, new_row, allow_row, success_row, failure_row, limit_row, trip_row, jittered,
  or_default,
}

pub record Config (F : Type 0) : Type 0 where
  pub default_open_duration : Duration
  pub failure_threshold : ℤ
  pub jitter_ratio : F

pub record Breaker (F : Type 0) : Type 0 where
  pub cfg : Config F
  pub sm : Option StateManager
  pub states : List (Text × BreakerRow)

-- The clock of the breaker, read at the start of a call and again by `syncToStateManager`, and the
-- clock of the state manager.
pub record Clock : Type 0 where
  pub now : Time
  pub sync_now : Time
  pub sm_now : Time

-- NewCircuitBreaker's defaults.
unfoldable pub new_breaker :
    {F : Type 0} → (F → Bool) → F → Config F → Option StateManager → Breaker F
new_breaker is_negative zero cfg sm = record {
  cfg = record {
    default_open_duration =
        if is_nonpos cfg.default_open_duration
        then pos (30 * second)
        else cfg.default_open_duration;
    failure_threshold = if is_nonpos cfg.failure_threshold then pos 5 else cfg.failure_threshold;
    jitter_ratio = if is_negative cfg.jitter_ratio then zero else cfg.jitter_ratio;
  };
  sm = sm;
  states = [];
}

-- Whether the state manager has the provider as disabled by the administrator.
unfoldable pub admin_disabled : Text → Option StateManager → Bool
admin_disabled id none = false
admin_disabled id (some sm) = elim (lookup id sm.snapshot.providers) [
  | none ↦ false
  | some p ↦ is_disabled p.admin
]

unfoldable pub sync_row : CircuitState → Bool → Time → ProviderRuntime → ProviderRuntime
sync_row circ probe now p =
    let q = record p { circuit = circ; probe_in_flight = probe; observed_at = now } in
    if is_opened circ then record q { circuit_opened_at = now } else q

unfoldable pub sync_to_state_manager :
    Text → CircuitState → Bool → Time → Option StateManager → Option StateManager
unfolding update amend sync_row
sync_to_state_manager id circ probe now none = none
sync_to_state_manager id circ probe now (some sm) =
    some (update (amend id (sync_row circ probe now)) sm)

abbrev pub sync_if :
    Bool → Text → CircuitState → Bool → Time → Option StateManager → Option StateManager
sync_if true id circ probe now sm = sync_to_state_manager id circ probe now sm
sync_if false id circ probe now sm = sm

-- `p := snap.Providers[id]; ...; snap.Providers[id] = p`: a missing row is made from the zero value.
unfoldable pub upsert :
    Text → (ProviderRuntime → ProviderRuntime) → RuntimeSnapshot → RuntimeSnapshot
upsert id change snap = elim (lookup id snap.providers) [
  | none ↦ record snap { providers = insert id (change zero_runtime) snap.providers }
  | some p ↦ record snap { providers = insert id (change p) snap.providers }
]

abbrev exhausted_runtime : Time → Text → ProviderRuntime → ProviderRuntime
exhausted_runtime now msg p = record p {
  quota = QuotaState.exhausted;
  circuit = CircuitState.opened;
  circuit_opened_at = now;
  health = HealthState.unavailable;
  observed_at = now;
  error = msg;
}

-- What RecordLimitError itself writes into the provider's runtime row; `msg` is `limitErr.Error()`.
unfoldable pub limit_runtime :
    LimitErrorKind → Option Time → Time → Text → ProviderRuntime → ProviderRuntime
limit_runtime spend_limit retry_at now msg p = exhausted_runtime now msg p
limit_runtime abuse_guard retry_at now msg p = exhausted_runtime now msg p
limit_runtime quota_window retry_at now msg p = record p {
  quota = QuotaState.exhausted;
  valid_until = elim retry_at [ none ↦ p.valid_until | some t ↦ t ];
  observed_at = now;
  error = msg;
}
limit_runtime _ retry_at now msg p = record p {
  circuit = CircuitState.opened;
  circuit_opened_at = now;
  health = HealthState.degraded;
  observed_at = now;
  error = msg;
}

-- The kinds whose case writes a runtime row.
abbrev pub writes_runtime : LimitErrorKind → Bool
writes_runtime account_limit = false
writes_runtime session_conflict = false
writes_runtime waiting_room = false
writes_runtime _ = true

abbrev pub write_limit :
    LimitErrorKind → Text → Option Time → Time → Text → Option StateManager → Option StateManager
write_limit kind id retry_at now msg none = none
write_limit kind id retry_at now msg (some sm) =
    if writes_runtime kind
    then some (update (upsert id (limit_runtime kind retry_at now msg)) sm)
    else some sm

-- getOrCreateState: the row of a provider, a closed one if it has none.
abbrev pub row_or_new : Text → List (Text × BreakerRow) → BreakerRow
row_or_new id states = or_else (lookup id states) new_row

module _ {F : Type 0} where
  abbrev pub breaker_row : Text → Breaker F → BreakerRow
  breaker_row id b = row_or_new id b.states

  abbrev pub put_row : Text → BreakerRow → Breaker F → Breaker F
  put_row id st b = record b { states = insert id st b.states }

  unfoldable pub record_success : Text → Clock → Breaker F → Breaker F
  unfolding success_row
  record_success id clock b = record (put_row id (success_row (breaker_row id b)) b) {
    sm = Option.map (Manager.record_success id clock.sm_now) b.sm;
  }

  unfoldable pub record_failure : Text → Clock → Option Text → Breaker F → Breaker F
  unfolding failure_row
  record_failure id clock err b =
      let (st, tripped) =
        failure_row b.cfg.default_open_duration b.cfg.failure_threshold clock.now
          (breaker_row id b) in
      record (put_row id st b) {
        sm =
            Option.map (Manager.record_failure id clock.sm_now err)
              (sync_if tripped id CircuitState.opened false clock.sync_now b.sm);
      }

  unfoldable pub record_limit_error : LimitError → Text → Clock → Breaker F → Breaker F
  unfolding limit_row
  record_limit_error e msg clock b =
      let (st, synced) =
        limit_row b.cfg.default_open_duration b.cfg.failure_threshold clock.now e.kind e.retry_after
          (breaker_row e.provider b) in
      if is_empty e.provider then b else record (put_row e.provider st b) {
        sm =
            write_limit e.kind e.provider e.retry_at clock.now msg
              (sync_if synced e.provider CircuitState.opened false clock.sync_now b.sm);
      }

  unfoldable pub trip_circuit : Text → Duration → Clock → Breaker F → Breaker F
  unfolding trip_row
  trip_circuit id cooldown clock b =
      record (put_row id
        (trip_row b.cfg.default_open_duration cooldown clock.now (breaker_row id b)) b) {
          sm = sync_to_state_manager id CircuitState.opened false clock.sync_now b.sm;
        }

module _ (fl : Float) where
  open fl use {F}

  -- The cooldown that AllowProbe compares with, its jitter included; `draw` is `randFn()`.
  unfoldable pub effective_cooldown : F → Config F → BreakerRow → Duration
  unfolding jittered
  effective_cooldown draw cfg st =
      jittered fl cfg.jitter_ratio draw (or_default cfg.default_open_duration st.cooldown)

  unfoldable pub allow_probe : Text → Clock → F → Breaker F → Breaker F × Bool
  unfolding allow_row admin_disabled
  allow_probe id clock draw b =
      if admin_disabled id b.sm
      then (b, false)
      else let st = breaker_row id b in
        let v = allow_row (effective_cooldown draw b.cfg st) clock.now st in
        (
          record (put_row id v.row b) {
            sm = sync_if v.synced id CircuitState.half_open true clock.sync_now b.sm;
          },
          v.allowed,
        )

-- The breaker's calls.
pub data Call (F : Type 0) : Type 0 where
  allows : Text → Clock → F → Call F
  succeeds : Text → Clock → Call F
  fails : Text → Clock → Option Text → Call F
  limits : LimitError → Text → Clock → Call F
  trips : Text → Duration → Clock → Call F

module _ (fl : Float) where
  open fl use {F}

  unfoldable pub step : Breaker F → Call F → Breaker F
  unfolding allow_probe record_success record_failure record_limit_error trip_circuit
  step b (allows id clock draw) = (allow_probe fl id clock draw b).0
  step b (succeeds id clock) = record_success id clock b
  step b (fails id clock err) = record_failure id clock err b
  step b (limits e msg clock) = record_limit_error e msg clock b
  step b (trips id cooldown clock) = trip_circuit id cooldown clock b

  unfoldable pub run : Breaker F → List (Call F) → Breaker F
  run b [] = b
  run b (c ∷ cs) = run (step b c) cs
