-- ===== src/Quota/Breaker/Agree/Rows.antt =====
-- One provider's breaker row and runtime row, side by side through each call.
use ultiproxy.Base.{
  ℕ, suc, ◌≤◌, ◌<◌, ◌≡◌, ◌≢◌, Bool, true, false, Option, Text, Time, Duration, ℤ, max_int, pos_part,
  neg_part, if◌then◌else◌, arith, int_incr,
}
use ultiproxy.State.Types.{CircuitState, ProviderRuntime}
use ultiproxy.State.Manager.{StateManager, update, row}
use ultiproxy.State.Manager
use ultiproxy.Quota.LimitError.{LimitErrorKind}
use ultiproxy.Quota.Breaker.Rows.{
  BreakerRow, allow_row, success_row, failure_row, limit_row, trip_row,
}
use ultiproxy.Quota.Breaker.{sync_row, writes_runtime, limit_runtime}

-- The circuits are the same and known, and the manager has counted no more failures in a row than
-- the breaker, which has counted at most n.
pub record Agree (n : ℕ) (st : BreakerRow) (p : ProviderRuntime) : Type 0 where
  pub same : st.circuit ≡ p.circuit
  pub known : p.circuit ≢ CircuitState.unset
  pub counted : pos_part p.consecutive_failure ≤ pos_part st.consecutive_failure
  pub bounded : pos_part st.consecutive_failure ≤ n
  pub natural : (neg_part p.consecutive_failure ≡ 0) × (neg_part st.consecutive_failure ≡ 0)

abbrev pub sync_row_if : Bool → CircuitState → Bool → Time → ProviderRuntime → ProviderRuntime
sync_row_if true circ probe now p = sync_row circ probe now p
sync_row_if false circ probe now p = p

abbrev pub write_row :
    LimitErrorKind → Option Time → Time → Text → ProviderRuntime → ProviderRuntime
write_row kind retry_at now msg p =
    if writes_runtime kind then limit_runtime kind retry_at now msg p else p

module _ (n : ℕ) (m : n < max_int) (st : BreakerRow) (p : ProviderRuntime) (a : Agree n st p) where
  pub Agree-allow :
      (d : Duration) (now sync_now : Time)
      → let v = allow_row d now st in
        Agree (suc n) v.row (sync_row_if v.synced CircuitState.half_open true sync_now p)
  unfolding allow_row sync_row
  Agree-allow d now sync_now = ground arith

  pub Agree-success : (now : Time) → Agree (suc n) (success_row st) (Manager.success_row now p)
  unfolding success_row Manager.success_row
  Agree-success now = ground arith

  pub Agree-failure :
      (d : Duration) (t : ℤ) (now sync_now sm_now : Time) (err : Option Text)
      → let (st', tripped) = failure_row d t now st in
        Agree (suc n) st' (
          Manager.failure_row t sm_now err
            (sync_row_if tripped CircuitState.opened false sync_now p))
  unfolding failure_row Manager.failure_row sync_row int_incr
  Agree-failure d t now sync_now sm_now err = ground arith

  pub Agree-limit :
      (d : Duration) (t : ℤ) (now sync_now : Time) (kind : LimitErrorKind) (after : Duration)
      (retry_at : Option Time) (msg : Text)
      → let (st', synced) = limit_row d t now kind after st in
        Agree (suc n) st' (
          write_row kind retry_at now msg (sync_row_if synced CircuitState.opened false sync_now p))
  unfolding limit_row limit_runtime sync_row int_incr
  Agree-limit d t now sync_now kind after retry_at msg = ground arith

  pub Agree-trip :
      (d after : Duration) (now sync_now : Time)
      → Agree (suc n) (trip_row d after now st) (sync_row CircuitState.opened false sync_now p)
  unfolding trip_row sync_row
  Agree-trip d after now sync_now = ground arith
