-- ===== src/Quota/Breaker/Admin.antt =====
-- The breaker and the administrator's switch.
use mathlib.Core.Option
use ultiproxy.Base.{
  ◌≡◌, refl, ◌∙◌, inl, inr, ◌&&◌, Bool, true, false, Option, none, some, List, [], ◌∷◌, Text, Time,
  Float, if◌then◌else◌, arith, lookup, lookup-insert, text_eq, text_eq_iff, Option-cases,
  Bool-cases, or_else, is_empty,
}
use ultiproxy.State.Types.{AdminState, ProviderRuntime, RuntimeSnapshot, CircuitState, zero_runtime}
use ultiproxy.State.Manager.{StateManager, update, amend, row}
use ultiproxy.State.Manager
use ultiproxy.State.Admin.{lookup-amend, row-step}
use ultiproxy.Quota.LimitError.{LimitErrorKind}
use ultiproxy.Quota.Breaker.{
  Breaker, Clock, sync_row, sync_to_state_manager, sync_if, upsert, limit_runtime, write_limit,
  writes_runtime, Call, allows, succeeds, fails, limits, trips, step, run, allow_probe,
  admin_disabled,
}

-- A provider's runtime row, if there are a state manager and a row.
abbrev pub runtime_row : Text → Option StateManager → Option ProviderRuntime
runtime_row id none = none
runtime_row id (some sm) = row id sm

pub lookup-upsert :
    (id j : Text) (change : ProviderRuntime → ProviderRuntime) (snap : RuntimeSnapshot)
    → lookup j (upsert id change snap).providers ≡ (
        if text_eq id j
        then some (change (or_else (lookup j snap.providers) zero_runtime))
        else lookup j snap.providers)
unfolding upsert
lookup-upsert id j change snap = elim (Option-cases (lookup id snap.providers)) [
  | inl e ↦
      ground (arith, e, text_eq_iff id j, lookup-insert id j (change zero_runtime) snap.providers)
  | inr (p, e) ↦ ground (arith, e, text_eq_iff id j, lookup-insert id j (change p) snap.providers)
]

-- The runtime row after `syncToStateManager`.
pub runtime_row-sync :
    (id j : Text) (circ : CircuitState) (probe : Bool) (now : Time) (sm : Option StateManager)
    → runtime_row j (sync_to_state_manager id circ probe now sm) ≡ (
        if text_eq id j
        then Option.map (sync_row circ probe now) (runtime_row j sm)
        else runtime_row j sm)
unfolding sync_to_state_manager
runtime_row-sync id j circ probe now none = ground arith
runtime_row-sync id j circ probe now (some sm) =
    lookup-amend id j (sync_row circ probe now) sm.snapshot

pub runtime_row-write :
    (kind : LimitErrorKind) (id j : Text) (retry_at : Option Time) (now : Time) (msg : Text)
    (sm : StateManager)
    → runtime_row j (write_limit kind id retry_at now msg (some sm)) ≡ (
        if writes_runtime kind && text_eq id j
        then some (limit_runtime kind retry_at now msg (or_else (row j sm) zero_runtime))
        else row j sm)
unfolding update
runtime_row-write kind id j retry_at now msg sm = elim (Bool-cases (writes_runtime kind)) [
  | inl e ↦ rw e (lookup-upsert id j (limit_runtime kind retry_at now msg) sm.snapshot)
  | inr e ↦ rw e
]

-- The runtime row after the state manager's own RecordSuccess and RecordFailure.
pub runtime_row-success :
    (id j : Text) (now : Time) (sm : Option StateManager)
    → runtime_row j (Option.map (Manager.record_success id now) sm) ≡ (
        if text_eq id j
        then Option.map (Manager.success_row now) (runtime_row j sm)
        else runtime_row j sm)
unfolding Manager.step
runtime_row-success id j now none = ground arith
runtime_row-success id j now (some sm) = row-step sm (Manager.succeeds id now) j

pub runtime_row-failure :
    (id j : Text) (now : Time) (err : Option Text) (sm : StateManager)
    → row j (Manager.record_failure id now err sm) ≡ (
        if text_eq id j
        then Option.map (Manager.failure_row sm.failure_threshold now err) (row j sm)
        else row j sm)
unfolding Manager.step
runtime_row-failure id j now err sm = row-step sm (Manager.fails id now err) j

abbrev pub admin_at : Text → Option StateManager → Option AdminState
admin_at j sm = Option.map (λ p. p.admin) (runtime_row j sm)

admin-sync :
    (id j : Text) (circ : CircuitState) (probe : Bool) (now : Time) (sm : Option StateManager)
    → admin_at j (sync_to_state_manager id circ probe now sm) ≡ admin_at j sm
unfolding sync_row
admin-sync id j circ probe now sm = ground (arith, runtime_row-sync id j circ probe now sm)

admin-success :
    (id j : Text) (now : Time) (sm : Option StateManager)
    → admin_at j (Option.map (Manager.record_success id now) sm) ≡ admin_at j sm
unfolding Manager.success_row
admin-success id j now sm = ground (arith, runtime_row-success id j now sm)

admin-failure :
    (id j : Text) (now : Time) (err : Option Text) (sm : Option StateManager)
    → admin_at j (Option.map (Manager.record_failure id now err) sm) ≡ admin_at j sm
unfolding Manager.failure_row
admin-failure id j now err none = refl
admin-failure id j now err (some sm) = ground (arith, runtime_row-failure id j now err sm)

admin-write :
    (kind : LimitErrorKind) (id j : Text) (retry_at : Option Time) (now : Time) (msg : Text)
    (sm : Option StateManager) {a : AdminState}
    → admin_at j sm ≡ some a
    → admin_at j (write_limit kind id retry_at now msg sm) ≡ some a
unfolding limit_runtime
admin-write kind id j retry_at now msg none h = cc
admin-write kind id j retry_at now msg (some sm) h =
    ground (arith, runtime_row-write kind id j retry_at now msg sm)

admin-sync_if :
    (b : Bool) (id j : Text) (circ : CircuitState) (probe : Bool) (now : Time)
    (sm : Option StateManager)
    → admin_at j (sync_if b id circ probe now sm) ≡ admin_at j sm
admin-sync_if true id j circ probe now sm = admin-sync id j circ probe now sm
admin-sync_if false id j circ probe now sm = refl

disabled-admin_at :
    (id : Text) (sm : Option StateManager)
    → admin_at id sm ≡ some AdminState.disabled
    → admin_disabled id sm ≡ true
unfolding admin_disabled
disabled-admin_at id none h = cc
disabled-admin_at id (some sm) h = ground arith

module _ (fl : Float) where
  open fl use {F}

  step-admin :
      (b : Breaker F) (c : Call F) (j : Text) {a : AdminState}
      → admin_at j b.sm ≡ some a
      → admin_at j (step fl b c).sm ≡ some a
  unfolding step
  step-admin b (allows id clock draw) j h = elim (Bool-cases (admin_disabled id b.sm)) [
    | inl e ↦ rw (e, step) h
    | inr e ↦ rw (e, step) (admin-sync_if _ id j _ true clock.sync_now b.sm ∙ h)
  ]
  step-admin b (succeeds id clock) j h = admin-success id j clock.sm_now b.sm ∙ h
  step-admin b (fails id clock err) j h =
      admin-failure id j clock.sm_now err _
      ∙ (admin-sync_if _ id j CircuitState.opened false clock.sync_now b.sm ∙ h)
  step-admin b (limits e msg clock) j h = elim (Bool-cases (is_empty e.provider)) [
    | inl k ↦ rw (k, step) h
    | inr k ↦
        rw (k, step)
          (admin-write e.kind e.provider j e.retry_at clock.now msg _
            (admin-sync_if _ e.provider j CircuitState.opened false clock.sync_now b.sm ∙ h))
  ]
  step-admin b (trips id cooldown clock) j h =
      admin-sync id j CircuitState.opened false clock.sync_now b.sm ∙ h

  -- No history of probes, successes, failures, limit errors and trips changes the administrative
  -- state of a provider that has a runtime row, or drops its row.
  pub run-admin_at :
      (b : Breaker F) (cs : List (Call F)) (j : Text) {a : AdminState}
      → admin_at j b.sm ≡ some a
      → admin_at j (run fl b cs).sm ≡ some a
  unfolding run
  run-admin_at b [] j h = h
  run-admin_at b (c ∷ cs) j h = run-admin_at (step fl b c) cs j (step-admin b c j h)

  -- The breaker refuses a provider that the administrator has disabled, after any history that
  -- began with it disabled, and that refusal changes nothing.
  pub disabled_refused :
      (b : Breaker F) (cs : List (Call F)) (id : Text) (clock : Clock) (draw : F)
      → admin_at id b.sm ≡ some AdminState.disabled
      → allow_probe fl id clock draw (run fl b cs) ≡ (run fl b cs, false)
  unfolding allow_probe
  disabled_refused b cs id clock draw h =
      ground (arith, disabled-admin_at id (run fl b cs).sm (run-admin_at b cs id h))
