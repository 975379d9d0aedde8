-- ===== src/Quota/Breaker/Agree.antt =====
-- The breaker's own circuit and the one in the state manager's row: they agree.
mod Rows
mod Manager
use mathlib.Core.Option
use native.Mathlib.Nat.{add-zero}
use ultiproxy.Base.{
  ℕ, suc, ◌+◌, ◌≤◌, ◌<◌, ◌≡◌, ◌≢◌, refl, ap, subst, ◌∙◌, sym, inl, inr, ◌&&◌, not, Bool, true,
  false, Option, none, some, List, [], ◌∷◌, Text, Time, Duration, ℤ, pos, max_int, pos_part,
  neg_part, Float, if◌then◌else◌, arith, lookup, insert, lookup-insert, lookup-insert_self, text_eq,
  text_eq_iff, Option-cases, leb_ℤ, int_incr, Bool-cases, or_else, is_empty, length,
}
use ultiproxy.State.Types.{AdminState, CircuitState, ProviderRuntime, is_disabled, zero_runtime}
use ultiproxy.State.Manager.{StateManager, update, row}
use ultiproxy.State.Manager as StateOps
use ultiproxy.Quota.LimitError.{LimitError, LimitErrorKind}
use ultiproxy.Quota.Breaker.Rows.{
  BreakerRow, allow_row, success_row, failure_row, limit_row, trip_row,
}
use ultiproxy.Quota.Breaker.Admin.{
  runtime_row, runtime_row-sync, runtime_row-write, runtime_row-success, runtime_row-failure,
}
use Rows.{
  Agree, sync_row_if, write_row, Agree-allow, Agree-success, Agree-failure, Agree-limit, Agree-trip,
}
use Manager.{
  threshold_of, threshold-sync_if, threshold-write, row-sync_if, row-write, row-sync_if-ne,
  row-write-ne, threshold-success, threshold-failure, row-success, row-failure, row-success-ne,
  row-failure-ne,
}
use ultiproxy.Quota.Breaker.{
  Breaker, Clock, Call, allows, succeeds, fails, limits, trips, step, run, sync_row, sync_if,
  sync_to_state_manager, write_limit, writes_runtime, limit_runtime, record_success, record_failure,
  record_limit_error, trip_circuit, allow_probe, admin_disabled, breaker_row, put_row,
  effective_cooldown,
}

-- The state manager counts to the breaker's threshold, and both hold a circuit for provider `j`,
-- which agree.
abbrev pub Linked : {F : Type 0} → ℕ → Text → Breaker F → Type 0
Linked n j b =
    (threshold_of b.sm ≡ some b.cfg.failure_threshold)
    × (p : ProviderRuntime) × (runtime_row j b.sm ≡ some p)
    × Agree n (breaker_row j b) p

row-put :
    {F : Type 0} (id j : Text) (st : BreakerRow) (b : Breaker F)
    → text_eq id j ≡ false
    → breaker_row j (put_row id st b) ≡ breaker_row j b
row-put id j st b h = rw (lookup-insert id j st b.states) (rw h)

row-put_self :
    {F : Type 0} (id : Text) (st : BreakerRow) (b : Breaker F)
    → breaker_row id (put_row id st b) ≡ st
row-put_self id st b = rw (lookup-insert_self id st b.states)

Agree-suc : (n : ℕ) (st : BreakerRow) (p : ProviderRuntime) → Agree n st p → Agree (suc n) st p
Agree-suc n st p a = ground arith

module _ (fl : Float) where
  open fl use {F}

  threshold-step :
      (b : Breaker F) (c : Call F)
      → (threshold_of (step fl b c).sm ≡ threshold_of b.sm) × ((step fl b c).cfg ≡ b.cfg)
  unfolding step
  threshold-step b (allows id clock draw) = elim (Bool-cases (admin_disabled id b.sm)) [
    | inl e ↦ (rw (e, step), rw (e, step))
    | inr e ↦ (rw (e, step) (threshold-sync_if _ id _ true clock.sync_now b.sm), rw (e, step))
  ]
  threshold-step b (succeeds id clock) = (threshold-success id clock.sm_now b.sm, refl)
  threshold-step b (fails id clock err) = (
    threshold-failure id clock.sm_now err _
        ∙ threshold-sync_if _ id CircuitState.opened false clock.sync_now b.sm,
    refl,
  )
  threshold-step b (limits e msg clock) = elim (Bool-cases (is_empty e.provider)) [
    | inl k ↦ (rw (k, step), rw (k, step))
    | inr k ↦ (
      rw (k, step)
          (threshold-write e.kind e.provider e.retry_at clock.now msg _
            ∙ threshold-sync_if _ e.provider CircuitState.opened false clock.sync_now b.sm),
      rw (k, step),
    )
  ]
  threshold-step b (trips id cooldown clock) =
      (threshold-sync_if true id CircuitState.opened false clock.sync_now b.sm, refl)

  abbrev target : Call F → Text
  target (allows id clock draw) = id
  target (succeeds id clock) = id
  target (fails id clock err) = id
  target (limits e msg clock) = e.provider
  target (trips id cooldown clock) = id

  -- A call leaves the other providers alone, in the breaker and in the state manager.
  step-other :
      (b : Breaker F) (c : Call F) (j : Text)
      → text_eq (target c) j ≡ false
      → (runtime_row j (step fl b c).sm ≡ runtime_row j b.sm)
        × (breaker_row j (step fl b c) ≡ breaker_row j b)
  unfolding step
  step-other b (allows id clock draw) j h = elim (Bool-cases (admin_disabled id b.sm)) [
    | inl e ↦ (rw (e, step), rw (e, step))
    | inr e ↦ (
      rw (e, step) (row-sync_if-ne _ id j _ true clock.sync_now b.sm h),
      rw (e, step) (row-put id j _ b h),
    )
  ]
  step-other b (succeeds id clock) j h =
      (row-success-ne id j clock.sm_now b.sm h, row-put id j _ b h)
  step-other b (fails id clock err) j h = (
    row-failure-ne id j clock.sm_now err _ h
        ∙ row-sync_if-ne _ id j CircuitState.opened false clock.sync_now b.sm h,
    row-put id j _ b h,
  )
  step-other b (limits e msg clock) j h = elim (Bool-cases (is_empty e.provider)) [
    | inl k ↦ (rw (k, step), rw (k, step))
    | inr k ↦ (
      rw (k, step)
          (row-write-ne e.kind e.provider j e.retry_at clock.now msg _ h
            ∙ row-sync_if-ne _ e.provider j CircuitState.opened false clock.sync_now b.sm h),
      rw (k, step) (row-put e.provider j _ b h),
    )
  ]
  step-other b (trips id cooldown clock) j h =
      (row-sync_if-ne true id j CircuitState.opened false clock.sync_now b.sm h, row-put id j _ b h)

  step-own :
      (b : Breaker F) (c : Call F) (n : ℕ) (p : ProviderRuntime)
      → n < max_int
      → threshold_of b.sm ≡ some b.cfg.failure_threshold
      → runtime_row (target c) b.sm ≡ some p
      → Agree n (breaker_row (target c) b) p
      → (q : ProviderRuntime) × (runtime_row (target c) (step fl b c).sm ≡ some q)
        × Agree (suc n) (breaker_row (target c) (step fl b c)) q
  unfolding step
  step-own b (allows id clock draw) n p m t h a =
      let st = breaker_row id b in
      let d = effective_cooldown fl draw b.cfg st in
      let v = allow_row d clock.now st in
      let q = sync_row_if v.synced CircuitState.half_open true clock.sync_now p in
      let sound : Agree (suc n) v.row q = Agree-allow n m st p a d clock.now clock.sync_now in
      elim (Bool-cases (admin_disabled id b.sm)) [
        | inl e ↦ (p, rw (e, step) h, rw (e, step) (Agree-suc n st p a))
        | inr e ↦ (
          q,
          rw (e, step) (row-sync_if v.synced id CircuitState.half_open true clock.sync_now b.sm h),
          rw (e, step, lookup-insert_self) sound,
        )
      ]
  step-own b (succeeds id clock) n p m t h a = (
    StateOps.success_row clock.sm_now p,
    row-success id clock.sm_now b.sm h,
    rw lookup-insert_self (Agree-success n m (breaker_row id b) p a clock.sm_now),
  )
  step-own b (fails id clock err) n p m t h a =
      let d = b.cfg.default_open_duration in
      let k = b.cfg.failure_threshold in
      let st = breaker_row id b in
      let tripped = (failure_row d k clock.now st).1 in
      let p' = sync_row_if tripped CircuitState.opened false clock.sync_now p in
      (
        StateOps.failure_row k clock.sm_now err p',
        row-failure id clock.sm_now err _ k
            (threshold-sync_if tripped id CircuitState.opened false clock.sync_now b.sm ∙ t)
            (row-sync_if tripped id CircuitState.opened false clock.sync_now b.sm h),
        rw lookup-insert_self
            (Agree-failure n m st p a d k clock.now clock.sync_now clock.sm_now err),
      )
  step-own b (limits e msg clock) n p m t h a =
      let d = b.cfg.default_open_duration in
      let k = b.cfg.failure_threshold in
      let st = breaker_row e.provider b in
      let synced = (limit_row d k clock.now e.kind e.retry_after st).1 in
      let p' = sync_row_if synced CircuitState.opened false clock.sync_now p in
      let q = write_row e.kind e.retry_at clock.now msg p' in
      elim (Bool-cases (is_empty e.provider)) [
        | inl z ↦ (p, rw (z, step) h, rw (z, step) (Agree-suc n st p a))
        | inr z ↦ (
          q,
          rw (z, step)
              (row-write e.kind e.provider e.retry_at clock.now msg _
                (row-sync_if synced e.provider CircuitState.opened false clock.sync_now b.sm h)),
          rw (z, step, lookup-insert_self)
              (Agree-limit n m st p a d k clock.now clock.sync_now e.kind e.retry_after e.retry_at
                msg),
        )
      ]
  step-own b (trips id cooldown clock) n p m t h a = (
    sync_row CircuitState.opened false clock.sync_now p,
    row-sync_if true id CircuitState.opened false clock.sync_now b.sm h,
    rw lookup-insert_self (
        Agree-trip n m (breaker_row id b) p a b.cfg.default_open_duration cooldown clock.now
          clock.sync_now),
  )

  threshold-linked :
      (b : Breaker F) (c : Call F)
      → threshold_of b.sm ≡ some b.cfg.failure_threshold
      → threshold_of (step fl b c).sm ≡ some (step fl b c).cfg.failure_threshold
  threshold-linked b c t =
      let (u, g) = threshold-step b c in u ∙ t ∙ ap (λ x. some x.failure_threshold) (sym g)

  step_own-Linked :
      (b : Breaker F) (c : Call F) (n : ℕ)
      → n < max_int
      → Linked n (target c) b
      → Linked (suc n) (target c) (step fl b c)
  step_own-Linked b c n m (t, p, h, a) =
      let (q, k, r) = step-own b c n p m t h a in (threshold-linked b c t, q, k, r)

  step-Linked :
      (b : Breaker F) (c : Call F) (j : Text) (n : ℕ)
      → n < max_int
      → Linked n j b
      → Linked (suc n) j (step fl b c)
  step-Linked b c j n m (t, p, h, a) = elim (Bool-cases (text_eq (target c) j)) [
    | inl e ↦
        subst (λ k. Linked n k b → Linked (suc n) k (step fl b c)) ((text_eq_iff (target c) j).0 e)
          (step_own-Linked b c n m) (t, p, h, a)
    | inr e ↦
        let (r, s) = step-other b c j e in
        (threshold-linked b c t, p, r ∙ h, rw s (Agree-suc n (breaker_row j b) p a))
  ]

  run-Linked :
      (b : Breaker F) (cs : List (Call F)) (j : Text) (n : ℕ)
      → n + length cs ≤ max_int
      → Linked n j b
      → Linked (n + length cs) j (run fl b cs)
  unfolding run
  run-Linked b [] j n m l = rw add-zero l
  run-Linked b (c ∷ cs) j n m l =
      let e : suc n + length cs ≡ n + suc (length cs) = omega arith in
      rw (← e)
        (run-Linked (step fl b c) cs j (suc n) (omega arith) (step-Linked b c j n (omega arith) l))

  -- The breaker and the state manager never disagree on a circuit: where the two use one failure
  -- threshold, and a provider's row and its breaker row start alike with both counts at 0, then
  -- after any history of at most 2^63 - 1 calls the provider's circuit is the same in both.
  pub circuits_agree :
      (b : Breaker F) (cs : List (Call F)) (j : Text)
      → Linked 0 j b
      → length cs ≤ max_int
      → (p : ProviderRuntime) × (runtime_row j (run fl b cs).sm ≡ some p)
        × ((breaker_row j (run fl b cs)).circuit ≡ p.circuit)
  circuits_agree b cs j l m =
      let (t, p, h, a) = run-Linked b cs j 0 (omega arith) l in (p, h, a.same)
