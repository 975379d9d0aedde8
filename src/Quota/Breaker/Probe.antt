-- ===== src/Quota/Breaker/Probe.antt =====
-- Which requests the breaker lets through: one probe at a time, and none before a limit error's
-- time has passed.
use ultiproxy.Base.{
  ℕ, ◌+◌, ◌≤◌, ◌<◌, ◌≡◌, refl, ap, ◌∙◌, ◌⊎◌, inl, inr, ◌&&◌, not, Bool, true, false, List, [], ◌∷◌,
  Text, Time, Duration, ℤ, pos, max_int, Float, if◌then◌else◌, arith, lookup-insert_self, leb,
  time_sub-reached, time_sub-early, Bool-cases, is_empty,
}
use ultiproxy.State.Types.{CircuitState}
use ultiproxy.Quota.LimitError.{
  LimitError, LimitErrorKind, burst_rate, token_rate, spend_limit, capacity, abuse_guard,
}
use ultiproxy.Quota.Breaker.Rows.{BreakerRow, allow_row, limit_row, jittered}
use ultiproxy.Quota.Breaker.{
  Breaker, Clock, record_limit_error, allow_probe, admin_disabled, breaker_row, effective_cooldown,
}

-- The circuit is open or half-open.
abbrev IsTripped : CircuitState → Type 0
IsTripped c = (c ≡ CircuitState.opened) ⊎ (c ≡ CircuitState.half_open)

abbrev IsBusy : BreakerRow → Type 0
IsBusy st = (st.circuit ≡ CircuitState.half_open) × (st.probe_in_flight ≡ true)

allow_row-IsBusy :
    (d : Duration) (now : Time) (st : BreakerRow)
    → IsBusy st
    → ((allow_row d now st).allowed ≡ false) × ((allow_row d now st).row ≡ st)
unfolding allow_row
allow_row-IsBusy d now st h = ground arith

allow_row-IsTripped :
    (d : Duration) (now : Time) (st : BreakerRow)
    → IsTripped st.circuit
    → let v = allow_row d now st in
      ((v.allowed ≡ false) × (v.row ≡ st)) ⊎ ((v.allowed ≡ true) × IsBusy v.row)
unfolding allow_row
allow_row-IsTripped d now st h = ground arith

module _ (fl : Float) where
  open fl use {F}

  -- The answer and the row after AllowProbe.
  pub allow_probe_lem :
      (id : Text) (clock : Clock) (draw : F) (b : Breaker F)
      → let r = allow_probe fl id clock draw b in
        let st = breaker_row id b in
        let v = allow_row (effective_cooldown fl draw b.cfg st) clock.now st in
        (r.1 ≡ not (admin_disabled id b.sm) && v.allowed)
        × (breaker_row id r.0 ≡ (if admin_disabled id b.sm then st else v.row))
  unfolding allow_probe
  allow_probe_lem id clock draw b = elim (Bool-cases (admin_disabled id b.sm)) [
    | inl e ↦ (rw (e, allow_probe), rw (e, allow_probe))
    | inr e ↦ (rw (e, allow_probe), rw (e, allow_probe, lookup-insert_self))
  ]

  allow_probe-IsBusy :
      (id : Text) (clock : Clock) (draw : F) (b : Breaker F)
      → IsBusy (breaker_row id b)
      → let r = allow_probe fl id clock draw b in (r.1 ≡ false) × IsBusy (breaker_row id r.0)
  allow_probe-IsBusy id clock draw b h = ground (
    arith,
    allow_probe_lem id clock draw b,
    allow_row-IsBusy (effective_cooldown fl draw b.cfg (breaker_row id b)) clock.now
        (breaker_row id b) h,
  )

  allow_probe-IsTripped :
      (id : Text) (clock : Clock) (draw : F) (b : Breaker F)
      → IsTripped (breaker_row id b).circuit
      → let r = allow_probe fl id clock draw b in
        ((r.1 ≡ false) × IsTripped (breaker_row id r.0).circuit)
        ⊎ ((r.1 ≡ true) × IsBusy (breaker_row id r.0))
  allow_probe-IsTripped id clock draw b h = ground (
    arith,
    allow_probe_lem id clock draw b,
    allow_row-IsTripped (effective_cooldown fl draw b.cfg (breaker_row id b)) clock.now
        (breaker_row id b) h,
  )

  -- How many of a series of requests the breaker lets through, no outcome being recorded.
  pub grants : Text → List (Clock × F) → Breaker F → ℕ
  grants id [] b = 0
  grants id ((clock, draw) ∷ rs) b =
      let r = allow_probe fl id clock draw b in let n = grants id rs r.0 in if r.1 then n + 1 else n

  grants_busy :
      (id : Text) (rs : List (Clock × F)) (b : Breaker F)
      → IsBusy (breaker_row id b)
      → grants id rs b ≡ 0
  unfolding grants
  grants_busy id [] b h = refl
  grants_busy id ((clock, draw) ∷ rs) b h =
      let (e, k) = allow_probe-IsBusy id clock draw b h in
      rw e (grants_busy id rs (allow_probe fl id clock draw b).0 k)

  -- Of any series of requests for a provider whose circuit is open or half-open, whatever the times
  -- and the jitter, at most one is let through before an outcome is recorded.
  pub grants_at_most_one :
      (id : Text) (rs : List (Clock × F)) (b : Breaker F)
      → IsTripped (breaker_row id b).circuit
      → grants id rs b ≤ 1
  unfolding grants
  grants_at_most_one id [] b h = omega arith
  grants_at_most_one id ((clock, draw) ∷ rs) b h = elim (allow_probe-IsTripped id clock draw b h) [
    | inl (e, k) ↦ rw e (grants_at_most_one id rs (allow_probe fl id clock draw b).0 k)
    | inr (e, k) ↦ rw e (omega (arith, grants_busy id rs (allow_probe fl id clock draw b).0 k))
  ]

-- The kinds of limit error that open the circuit at once.
abbrev pub opens : LimitErrorKind → Bool
opens spend_limit = true
opens abuse_guard = true
opens burst_rate = true
opens capacity = true
opens token_rate = true
opens LimitErrorKind.unknown = true
opens _ = false

limit_row-opens :
    (default : Duration) (t : ℤ) (now : Time) (kind : LimitErrorKind) (d : ℕ) (st : BreakerRow)
    → opens kind ≡ true
    → 0 < d
    → let st' = (limit_row default t now kind (pos d) st).0 in
      (st'.circuit ≡ CircuitState.opened) × (st'.opened_at ≡ now) × (st'.cooldown ≡ pos d)
unfolding limit_row
limit_row-opens default t now kind d st h k = ground arith

allow_row-opened :
    (d : ℕ) (now : Time) (st : BreakerRow)
    → st.circuit ≡ CircuitState.opened
    → d ≤ max_int
    → (allow_row (pos d) now st).allowed ≡ leb (st.opened_at + d) now
unfolding allow_row
allow_row-opened d now st h m =
    ground (arith, time_sub-reached now st.opened_at d m, time_sub-early now st.opened_at d m)

module _ (fl : Float) where
  open fl use {F, of_int, lt}

  row-record_limit_error :
      (e : LimitError) (msg : Text) (clock : Clock) (b : Breaker F)
      → is_empty e.provider ≡ false
      → (breaker_row e.provider (record_limit_error e msg clock b)
          ≡ (limit_row b.cfg.default_open_duration b.cfg.failure_threshold clock.now e.kind
              e.retry_after
              (breaker_row e.provider b)).0)
        × ((record_limit_error e msg clock b).cfg ≡ b.cfg)
  unfolding record_limit_error
  row-record_limit_error e msg clock b h =
      (rw (h, record_limit_error, lookup-insert_self), rw (h, record_limit_error))

  effective_cooldown-plain :
      (draw : F) (b : Breaker F) (st : BreakerRow) (d : ℕ)
      → lt (of_int (pos 0)) b.cfg.jitter_ratio ≡ false
      → st.cooldown ≡ pos d
      → 0 < d
      → effective_cooldown fl draw b.cfg st ≡ pos d
  unfolding effective_cooldown jittered
  effective_cooldown-plain draw b st d j e p = rw j (ground arith)

  allow_probe-opened :
      (id : Text) (clock : Clock) (draw : F) (b : Breaker F) (st : BreakerRow) (d : ℕ)
      → breaker_row id b ≡ st
      → st.circuit ≡ CircuitState.opened
      → st.cooldown ≡ pos d
      → 0 < d
      → d ≤ max_int
      → lt (of_int (pos 0)) b.cfg.jitter_ratio ≡ false
      → (allow_probe fl id clock draw b).1
        ≡ (not (admin_disabled id b.sm) && leb (st.opened_at + d) clock.now)
  allow_probe-opened id clock draw b st d r h c p m j =
      (allow_probe_lem fl id clock draw b).0
      ∙ rw r (
          rw (effective_cooldown-plain draw b st d j c p)
            (ap (λ x. not (admin_disabled id b.sm) && x) (allow_row-opened d clock.now st h m)))

  -- After a limit error of a kind that opens the circuit, with a positive Retry-After and no jitter
  -- configured, the provider's next request is let through exactly when it comes no earlier than
  -- the Retry-After has passed and the administrator has not disabled the provider.
  pub retry_after_honoured :
      (e : LimitError) (msg : Text) (clock later : Clock) (draw : F) (b : Breaker F) (d : ℕ)
      → is_empty e.provider ≡ false
      → opens e.kind ≡ true
      → e.retry_after ≡ pos d
      → 0 < d
      → d ≤ max_int
      → lt (of_int (pos 0)) b.cfg.jitter_ratio ≡ false
      → let b' = record_limit_error e msg clock b in
        (allow_probe fl e.provider later draw b').1
        ≡ (not (admin_disabled e.provider b'.sm) && leb (clock.now + d) later.now)
  retry_after_honoured e msg clock later draw b d h k r p m j =
      let st =
        (limit_row b.cfg.default_open_duration b.cfg.failure_threshold clock.now e.kind (pos d)
          (breaker_row e.provider b)).0 in
      let b' = record_limit_error e msg clock b in
      let (o, t, c) =
        limit_row-opens b.cfg.default_open_duration b.cfg.failure_threshold clock.now e.kind d
          (breaker_row e.provider b) k p in
      let (q, g) = row-record_limit_error e msg clock b h in
      let q' : breaker_row e.provider b' ≡ st =
        q
        ∙ ap
            (λ x.
              (limit_row b.cfg.default_open_duration b.cfg.failure_threshold clock.now e.kind x
                (breaker_row e.provider b)).0)
            r in
      allow_probe-opened e.provider later draw b' st d q' o c p m
        (ap (λ x. lt (of_int (pos 0)) x.jitter_ratio) g ∙ j)
      ∙ ap (λ x. not (admin_disabled e.provider b'.sm) && leb (x + d) later.now) t
