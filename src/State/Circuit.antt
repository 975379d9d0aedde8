-- ===== src/State/Circuit.antt =====
-- The circuit of one provider's row in the state manager: its invariant, its single probe, its
-- threshold and its recovery.
use ultiproxy.Base.{
  ℕ, suc, ◌+◌, ◌≤◌, ◌<◌, ◌≡◌, ◌≢◌, refl, sym, ◌∙◌, ◌⊎◌, inl, inr, true, false, Option, some, List,
  [], ◌∷◌, length, Text, Time, Duration, ℤ, pos, max_int, if◌then◌else◌, arith, subst, text_eq,
  Option-cases, Bool-cases, int_incr-pos, time_sub-reached, time_sub-early,
}
use ultiproxy.State.Types.{
  AdminState, HealthState, QuotaState, CircuitState, CredentialState, ProviderRuntime, is_available,
}
use ultiproxy.State.Manager.{
  StateManager, Call, probes, succeeds, fails, resets, recovers, probe_row, success_row,
  failure_row, recover_row, step, run, row,
}
use ultiproxy.State.Admin.{call_row, row-step, target}

-- A probe is out only while the circuit is half-open, and never are both streaks running.
pub record IsSettled (p : ProviderRuntime) : Type 0 where
  pub probe_half_open : (p.probe_in_flight ≡ false) ⊎ (p.circuit ≡ CircuitState.half_open)
  pub one_streak : (p.consecutive_success ≡ pos 0) ⊎ (p.consecutive_failure ≡ pos 0)

-- Every call keeps the invariant.
pub call_row-IsSettled :
    (d : Duration) (t : ℤ) (c : Call) (p : ProviderRuntime)
    → IsSettled p
    → IsSettled (call_row d t c p)
unfolding probe_row success_row failure_row recover_row
call_row-IsSettled d t (probes id now) p h = ground arith
call_row-IsSettled d t (succeeds id now) p h = ground arith
call_row-IsSettled d t (fails id now err) p h = ground arith
call_row-IsSettled d t (resets id now) p h = ground arith
call_row-IsSettled d t (recovers id now) p h = ground arith

-- The answers to a series of probes of one row, at the given times, and the row after them.
pub probe_all : Duration → List Time → ProviderRuntime → ProviderRuntime × ℕ
probe_all d [] p = (p, 0)
probe_all d (now ∷ ts) p =
    let (q, ok) = probe_row d now p in let (r, n) = probe_all d ts q in (r, if ok then n + 1 else n)

probe_all_busy :
    (d : Duration) (ts : List Time) (p : ProviderRuntime)
    → p.circuit ≡ CircuitState.half_open
    → p.probe_in_flight ≡ true
    → (probe_all d ts p).1 ≡ 0
unfolding probe_all probe_row
probe_all_busy d [] p h k = refl
probe_all_busy d (now ∷ ts) p h k = ground (arith, probe_all_busy d ts p h k)

probe_row_cases :
    (d : Duration) (now : Time) (p : ProviderRuntime)
    → p.circuit ≢ CircuitState.closed
    → let (q, ok) = probe_row d now p in
      ((ok ≡ false) × (q ≡ p))
      ⊎ ((ok ≡ true) × (q.circuit ≡ CircuitState.half_open) × (q.probe_in_flight ≡ true))
unfolding probe_row
probe_row_cases d now p h = ground arith

-- While no outcome is recorded, at most one probe is granted on a circuit that is not closed.
pub single_probe :
    (d : Duration) (ts : List Time) (p : ProviderRuntime)
    → p.circuit ≢ CircuitState.closed
    → (probe_all d ts p).1 ≤ 1
unfolding probe_all
single_probe d [] p h = omega arith
single_probe d (now ∷ ts) p h = elim (probe_row_cases d now p h) [
  | inl (e, k) ↦ rw (e, k) (single_probe d ts p h)
  | inr (e, c, k) ↦ rw e (omega (arith, probe_all_busy d ts (probe_row d now p).0 c k))
]

-- The row after a run of failures.
pub fail_all : ℤ → List (Time × Option Text) → ProviderRuntime → ProviderRuntime
fail_all t [] p = p
fail_all t ((now, err) ∷ fs) p = fail_all t fs (failure_row t now err p)

failure_counts :
    (n : ℕ) (now : Time) (err : Option Text) (p : ProviderRuntime) (c : ℕ)
    → p.circuit ≡ CircuitState.closed
    → p.consecutive_failure ≡ pos c
    → n ≤ max_int
    → c + 1 < n
    → let q = failure_row (pos n) now err p in
      (q.circuit ≡ CircuitState.closed) × (q.consecutive_failure ≡ pos (c + 1))
unfolding failure_row
failure_counts n now err p c h k m l = ground (arith, int_incr-pos c)

failures_below :
    (n : ℕ) (fs : List (Time × Option Text)) (p : ProviderRuntime) (c : ℕ)
    → p.circuit ≡ CircuitState.closed
    → p.consecutive_failure ≡ pos c
    → n ≤ max_int
    → c + length fs < n
    → ((fail_all (pos n) fs p).circuit ≡ CircuitState.closed)
      × ((fail_all (pos n) fs p).consecutive_failure ≡ pos (c + length fs))
unfolding fail_all
failures_below n [] p c h k m l = ground arith
failures_below n ((now, err) ∷ fs) p c h k m l =
    let (h', k') = failure_counts n now err p c h k m (omega arith) in
    let e : c + 1 + length fs ≡ c + suc (length fs) = omega arith in
    rw (← e) (failures_below n fs (failure_row (pos n) now err p) (c + 1) h' k' m (omega arith))

failure_trips :
    (n : ℕ) (now : Time) (err : Option Text) (p : ProviderRuntime) (c : ℕ)
    → p.circuit ≡ CircuitState.closed
    → p.consecutive_failure ≡ pos c
    → n ≤ max_int
    → c + 1 ≡ n
    → let q = failure_row (pos n) now err p in
      (q.circuit ≡ CircuitState.opened)
      × (q.circuit_opened_at ≡ now)
      × (q.health ≡ HealthState.degraded)
unfolding failure_row
failure_trips n now err p c h k m l = ground (arith, int_incr-pos c)

-- A closed circuit with c failures in a row, and a threshold n that an int holds: it is closed
-- still after fs more failures with c + |fs| + 1 = n, and the next failure opens it, at the time of
-- that failure, and degrades the provider's health.
pub threshold_exact :
    (n : ℕ) (fs : List (Time × Option Text)) (now : Time) (err : Option Text) (p : ProviderRuntime)
    (c : ℕ)
    → p.circuit ≡ CircuitState.closed
    → p.consecutive_failure ≡ pos c
    → n ≤ max_int
    → c + length fs + 1 ≡ n
    → let before = fail_all (pos n) fs p in
      let after = failure_row (pos n) now err before in
      (before.circuit ≡ CircuitState.closed)
      × (after.circuit ≡ CircuitState.opened)
      × (after.circuit_opened_at ≡ now)
      × (after.health ≡ HealthState.degraded)
threshold_exact n fs now err p c h k m l =
    let (h', k') = failures_below n fs p c h k m (omega arith) in
    let (a, b, d) = failure_trips n now err (fail_all (pos n) fs p) (c + length fs) h' k' m l in
    (h', a, b, d)

-- An open circuit refuses every probe before its open duration has passed, and keeps its row.
pub probe_waits :
    (d : ℕ) (now : Time) (p : ProviderRuntime)
    → p.circuit ≡ CircuitState.opened
    → d ≤ max_int
    → now < p.circuit_opened_at + d
    → probe_row (pos d) now p ≡ (p, false)
unfolding probe_row
probe_waits d now p h m l = ground (arith, time_sub-early now p.circuit_opened_at d m l)

probe_grants :
    (d : ℕ) (now : Time) (p : ProviderRuntime)
    → p.circuit ≡ CircuitState.opened
    → p.admin ≡ AdminState.enabled
    → d ≤ max_int
    → p.circuit_opened_at + d ≤ now
    → let (q, ok) = probe_row (pos d) now p in
      (ok ≡ true)
      × (q.circuit ≡ CircuitState.half_open)
      × (q.admin ≡ p.admin)
      × (q.credential ≡ p.credential)
      × (q.quota ≡ p.quota)
unfolding probe_row
probe_grants d now p h e m l = ground (arith, time_sub-reached now p.circuit_opened_at d m l)

success_closes :
    (t : Time) (q : ProviderRuntime)
    → q.circuit ≡ CircuitState.half_open
    → q.admin ≡ AdminState.enabled
    → q.credential ≡ CredentialState.valid
    → q.quota ≢ QuotaState.exhausted
    → ((success_row t q).circuit ≡ CircuitState.closed) × (is_available (success_row t q) ≡ true)
unfolding success_row is_available
success_closes t q h a c x = ground arith

-- Once the open duration has passed, an enabled provider with an open circuit is granted a probe,
-- and a success of that probe closes the circuit; the provider then serves again, if its
-- credential is valid and its quota is not exhausted.
pub recovery_cycle :
    (d : ℕ) (now t : Time) (p : ProviderRuntime)
    → p.circuit ≡ CircuitState.opened
    → p.admin ≡ AdminState.enabled
    → p.credential ≡ CredentialState.valid
    → p.quota ≢ QuotaState.exhausted
    → d ≤ max_int
    → p.circuit_opened_at + d ≤ now
    → let (q, ok) = probe_row (pos d) now p in
      (ok ≡ true)
      × ((success_row t q).circuit ≡ CircuitState.closed)
      × (is_available (success_row t q) ≡ true)
recovery_cycle d now t p h a c x m l =
    let (ok, ho, ea, ec, eq) = probe_grants d now p h a m l in
    let (cl, av) =
      success_closes t (probe_row (pos d) now p).0 ho (ea ∙ a) (ec ∙ c) (λ e. x (sym eq ∙ e)) in
    (ok, cl, av)

-- A failed probe sends the circuit back to open, from the time of the failure, and frees the slot.
pub failed_probe_reopens :
    (t : ℤ) (now : Time) (err : Option Text) (p : ProviderRuntime)
    → p.circuit ≡ CircuitState.half_open
    → let q = failure_row t now err p in
      (q.circuit ≡ CircuitState.opened)
      × (q.circuit_opened_at ≡ now)
      × (q.probe_in_flight ≡ false)
      × (is_available q ≡ false)
unfolding failure_row is_available
failed_probe_reopens t now err p h = ground arith

abbrev pub AllSettled : StateManager → Type 0
AllSettled sm = (j : Text) (p : ProviderRuntime) → row j sm ≡ some p → IsSettled p

step-AllSettled : (sm : StateManager) (c : Call) → AllSettled sm → AllSettled (step sm c)
step-AllSettled sm c h j p e = elim (Option-cases (row j sm)) [
  | inl k ↦ ground (arith, row-step sm c j)
  | inr (q, k) ↦ elim (Bool-cases (text_eq (target c) j)) [
    | inl b ↦
        let e' : call_row sm.open_duration sm.failure_threshold c q ≡ p =
          ground (arith, row-step sm c j) in
        subst IsSettled e' (call_row-IsSettled sm.open_duration sm.failure_threshold c q (h j q k))
    | inr b ↦ h j p (ground (arith, row-step sm c j))
  ]
]

run_from-AllSettled : (sm : StateManager) (cs : List Call) → AllSettled sm → AllSettled (run sm cs)
unfolding run
run_from-AllSettled sm [] h = h
run_from-AllSettled sm (c ∷ cs) h = run_from-AllSettled (step sm c) cs (step-AllSettled sm c h)

-- Every sequence of calls keeps the invariant of every row: a probe is out only while the circuit
-- is half-open, and one of the two streaks is zero.
pub run-IsSettled :
    (sm : StateManager) (cs : List Call) (j : Text) (p : ProviderRuntime)
    → AllSettled sm
    → row j (run sm cs) ≡ some p
    → IsSettled p
run-IsSettled sm cs j p h e = run_from-AllSettled sm cs h j p e
