-- ===== src/Quota/Breaker/Agree/Manager.antt =====
-- A provider's runtime row and the failure threshold after each call into the state manager.
use mathlib.Core.Option
use ultiproxy.Base.{
  ◌≡◌, refl, ◌∙◌, inl, inr, Bool, true, false, Option, none, some, Text, Time, ℤ, arith, text_eq,
  text_eq_iff, Bool-cases,
}
use ultiproxy.State.Types.{CircuitState, ProviderRuntime}
use ultiproxy.State.Manager.{StateManager, update, row}
use ultiproxy.State.Manager
use ultiproxy.Quota.LimitError.{LimitErrorKind}
use ultiproxy.Quota.Breaker.Admin.{
  runtime_row, runtime_row-sync, runtime_row-write, runtime_row-success, runtime_row-failure,
}
use ultiproxy.Quota.Breaker.Agree.Rows.{sync_row_if, write_row}
use ultiproxy.Quota.Breaker.{sync_if, sync_to_state_manager, write_limit, writes_runtime}

abbrev pub threshold_of : Option StateManager → Option ℤ
threshold_of sm = Option.map (λ s. s.failure_threshold) sm

pub threshold-sync_if :
    (b : Bool) (id : Text) (circ : CircuitState) (probe : Bool) (now : Time)
    (sm : Option StateManager)
    → threshold_of (sync_if b id circ probe now sm) ≡ threshold_of sm
unfolding sync_to_state_manager
threshold-sync_if false id circ probe now sm = refl
threshold-sync_if true id circ probe now none = refl
threshold-sync_if true id circ probe now (some sm) = refl

pub threshold-write :
    (kind : LimitErrorKind) (id : Text) (retry_at : Option Time) (now : Time) (msg : Text)
    (sm : Option StateManager)
    → threshold_of (write_limit kind id retry_at now msg sm) ≡ threshold_of sm
unfolding update
threshold-write kind id retry_at now msg none = refl
threshold-write kind id retry_at now msg (some sm) = ground arith

pub threshold-success :
    (id : Text) (now : Time) (sm : Option StateManager)
    → threshold_of (Option.map (Manager.record_success id now) sm) ≡ threshold_of sm
unfolding Manager.record_success
threshold-success id now none = refl
threshold-success id now (some sm) = refl

pub threshold-failure :
    (id : Text) (now : Time) (err : Option Text) (sm : Option StateManager)
    → threshold_of (Option.map (Manager.record_failure id now err) sm) ≡ threshold_of sm
unfolding Manager.record_failure
threshold-failure id now err none = refl
threshold-failure id now err (some sm) = refl

pub row-success :
    (j : Text) (now : Time) (sm : Option StateManager) {p : ProviderRuntime}
    → runtime_row j sm ≡ some p
    → runtime_row j (Option.map (Manager.record_success j now) sm)
      ≡ some (Manager.success_row now p)
row-success j now sm h = ground (arith, text_eq_iff j j, runtime_row-success j j now sm)

pub row-failure :
    (j : Text) (now : Time) (err : Option Text) (sm : Option StateManager) (t : ℤ)
    {p : ProviderRuntime}
    → threshold_of sm ≡ some t
    → runtime_row j sm ≡ some p
    → runtime_row j (Option.map (Manager.record_failure j now err) sm)
      ≡ some (Manager.failure_row t now err p)
row-failure j now err none t k h = cc
row-failure j now err (some sm) t k h =
    ground (arith, text_eq_iff j j, runtime_row-failure j j now err sm)

pub row-success-ne :
    (id j : Text) (now : Time) (sm : Option StateManager)
    → text_eq id j ≡ false
    → runtime_row j (Option.map (Manager.record_success id now) sm) ≡ runtime_row j sm
row-success-ne id j now sm h = runtime_row-success id j now sm ∙ rw h

pub row-failure-ne :
    (id j : Text) (now : Time) (err : Option Text) (sm : Option StateManager)
    → text_eq id j ≡ false
    → runtime_row j (Option.map (Manager.record_failure id now err) sm) ≡ runtime_row j sm
row-failure-ne id j now err none h = refl
row-failure-ne id j now err (some sm) h = runtime_row-failure id j now err sm ∙ rw h

pub row-sync_if :
    (b : Bool) (j : Text) (circ : CircuitState) (probe : Bool) (now : Time)
    (sm : Option StateManager) {p : ProviderRuntime}
    → runtime_row j sm ≡ some p
    → runtime_row j (sync_if b j circ probe now sm) ≡ some (sync_row_if b circ probe now p)
row-sync_if true j circ probe now sm h =
    ground (arith, text_eq_iff j j, runtime_row-sync j j circ probe now sm)
row-sync_if false j circ probe now sm h = h

pub row-write :
    (kind : LimitErrorKind) (j : Text) (retry_at : Option Time) (now : Time) (msg : Text)
    (sm : Option StateManager) {p : ProviderRuntime}
    → runtime_row j sm ≡ some p
    → runtime_row j (write_limit kind j retry_at now msg sm)
      ≡ some (write_row kind retry_at now msg p)
row-write kind j retry_at now msg none h = cc
row-write kind j retry_at now msg (some sm) h = elim (Bool-cases (writes_runtime kind)) [
  | inl e ↦ ground (arith, text_eq_iff j j, runtime_row-write kind j j retry_at now msg sm)
  | inr e ↦ rw e h
]

-- The other providers' runtime rows.
pub row-sync_if-ne :
    (b : Bool) (id j : Text) (circ : CircuitState) (probe : Bool) (now : Time)
    (sm : Option StateManager)
    → text_eq id j ≡ false
    → runtime_row j (sync_if b id circ probe now sm) ≡ runtime_row j sm
row-sync_if-ne true id j circ probe now sm h = runtime_row-sync id j circ probe now sm ∙ rw h
row-sync_if-ne false id j circ probe now sm h = refl

pub row-write-ne :
    (kind : LimitErrorKind) (id j : Text) (retry_at : Option Time) (now : Time) (msg : Text)
    (sm : Option StateManager)
    → text_eq id j ≡ false
    → runtime_row j (write_limit kind id retry_at now msg sm) ≡ runtime_row j sm
row-write-ne kind id j retry_at now msg none h = refl
row-write-ne kind id j retry_at now msg (some sm) h =
    ground (arith, runtime_row-write kind id j retry_at now msg sm)
