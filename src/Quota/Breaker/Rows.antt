-- ===== src/Quota/Breaker/Rows.antt =====
-- One provider's row of the breaker, and what each method does to it.
use ultiproxy.Base.{
  Bool, true, false, Time, Duration, ℤ, pos, zero_time, Float, if◌then◌else◌, is_nonpos, leb_ℤ,
  time_sub, int_incr,
}
use ultiproxy.State.Types.{CircuitState}
use ultiproxy.Quota.LimitError.{
  LimitErrorKind, burst_rate, token_rate, quota_window, spend_limit, account_limit, capacity,
  session_conflict, waiting_room, abuse_guard,
}

pub record BreakerRow : Type 0 where
  pub circuit : CircuitState
  pub opened_at : Time
  pub cooldown : Duration
  pub probe_in_flight : Bool
  pub consecutive_success : ℤ
  pub consecutive_failure : ℤ

-- `&providerBreakerState{circuit: state.CircuitClosed}`.
abbrev pub new_row : BreakerRow
new_row = record {
  circuit = CircuitState.closed;
  opened_at = zero_time;
  cooldown = pos 0;
  probe_in_flight = false;
  consecutive_success = pos 0;
  consecutive_failure = pos 0;
}

-- `d`, or the default where it is not positive.
abbrev pub or_default : Duration → Duration → Duration
or_default default d = if is_nonpos d then default else d

-- The jitter of AllowProbe; `draw` is `randFn()`.
module _ (fl : Float) where
  open fl use {F, of_int, to_int, add, sub, mul, lt}

  unfoldable pub jittered : F → F → Duration → Duration
  jittered ratio draw cooldown =
      if lt (of_int (pos 0)) ratio
      then to_int (
          mul (of_int cooldown)
            (add (of_int (pos 1)) (mul (sub (mul draw (of_int (pos 2))) (of_int (pos 1))) ratio)))
      else cooldown

-- What a granted or refused probe leaves: the row, the answer, and whether the state manager is
-- told of a half-open circuit with a probe out.
pub record Verdict : Type 0 where
  pub row : BreakerRow
  pub allowed : Bool
  pub synced : Bool

abbrev grant : BreakerRow → Verdict
grant st = record { row = st; allowed = true; synced = true }

abbrev answer : Bool → BreakerRow → Verdict
answer b st = record { row = st; allowed = b; synced = false }

-- The switch of AllowProbe; `cooldown` has the jitter in it.
unfoldable pub allow_circuit : Duration → Time → CircuitState → BreakerRow → Verdict
allow_circuit cooldown now CircuitState.closed st = answer true st
allow_circuit cooldown now CircuitState.opened st =
    if leb_ℤ cooldown (time_sub now st.opened_at)
    then grant (record st {
      circuit = CircuitState.half_open;
      probe_in_flight = true;
      consecutive_success = pos 0;
    })
    else answer false st
allow_circuit cooldown now CircuitState.half_open st =
    if st.probe_in_flight then answer false st else grant (record st { probe_in_flight = true })
allow_circuit cooldown now CircuitState.unset st = answer true st

unfoldable pub allow_row : Duration → Time → BreakerRow → Verdict
unfolding allow_circuit
allow_row cooldown now st = allow_circuit cooldown now st.circuit st

abbrev close_half_open : CircuitState → CircuitState
close_half_open CircuitState.half_open = CircuitState.closed
close_half_open c = c

unfoldable pub success_row : BreakerRow → BreakerRow
success_row st = record st {
  consecutive_success = int_incr st.consecutive_success;
  consecutive_failure = pos 0;
  probe_in_flight = false;
  circuit = close_half_open st.circuit;
}

-- The row after a failure, and whether the state manager is told of an open circuit.
abbrev failure_circuit : Duration → ℤ → Time → CircuitState → BreakerRow → BreakerRow × Bool
failure_circuit default threshold now CircuitState.half_open st = (
  record st {
    circuit = CircuitState.opened;
    opened_at = now;
    probe_in_flight = false;
    cooldown = or_default default st.cooldown;
  },
  true,
)
failure_circuit default threshold now CircuitState.closed st =
    if leb_ℤ threshold st.consecutive_failure
    then (record st { circuit = CircuitState.opened; opened_at = now; cooldown = default }, true)
    else (st, false)
failure_circuit default threshold now _ st = (st, false)

unfoldable pub failure_row : Duration → ℤ → Time → BreakerRow → BreakerRow × Bool
failure_row default threshold now st =
    let st' = record st {
      consecutive_failure = int_incr st.consecutive_failure;
      consecutive_success = pos 0;
    } in
    failure_circuit default threshold now st'.circuit st'

-- The first lines of RecordLimitError and TripCircuit.
unfoldable pub reset_row : Duration → Duration → Time → BreakerRow → BreakerRow
reset_row default d now st = record st {
  cooldown = or_default default d;
  opened_at = now;
  probe_in_flight = false;
}

-- The `default` case of RecordLimitError.
unfoldable pub count_row : ℤ → BreakerRow → BreakerRow × Bool
count_row threshold st =
    let st' = record st { consecutive_failure = int_incr st.consecutive_failure } in
    if leb_ℤ threshold st'.consecutive_failure
    then (record st' { circuit = CircuitState.opened }, true)
    else (st', false)

-- RecordLimitError on the row: the new row, and whether `syncToStateManager` is called.
abbrev limit_circuit : ℤ → LimitErrorKind → BreakerRow → BreakerRow × Bool
limit_circuit threshold spend_limit st = (record st { circuit = CircuitState.opened }, false)
limit_circuit threshold abuse_guard st = (record st { circuit = CircuitState.opened }, false)
limit_circuit threshold quota_window st = (st, false)
limit_circuit threshold burst_rate st = (record st { circuit = CircuitState.opened }, true)
limit_circuit threshold capacity st = (record st { circuit = CircuitState.opened }, true)
limit_circuit threshold token_rate st = (record st { circuit = CircuitState.opened }, true)
limit_circuit threshold LimitErrorKind.unknown st =
    (record st { circuit = CircuitState.opened }, true)
limit_circuit threshold account_limit st = count_row threshold st
limit_circuit threshold session_conflict st = count_row threshold st
limit_circuit threshold waiting_room st = count_row threshold st

unfoldable pub limit_row :
    Duration → ℤ → Time → LimitErrorKind → Duration → BreakerRow → BreakerRow × Bool
unfolding reset_row count_row
limit_row default threshold now kind retry_after st =
    limit_circuit threshold kind (reset_row default retry_after now st)

unfoldable pub trip_row : Duration → Duration → Time → BreakerRow → BreakerRow
unfolding reset_row
trip_row default d now st = record (reset_row default d now st) { circuit = CircuitState.opened }
