-- ===== src/Quota/Scheduler.antt =====
-- The quota scheduler of pkg/quota/scheduler.go: what a poll makes of its outcome, in the schedule and
-- in the runtime state. math.Pow is a parameter, and so is the jitter's draw. The store of the
-- snapshots, the telemetry and the rounds of polls are in Rounds.
pub mod Worst
pub mod Poll
pub mod Rounds
pub mod Loop
mod Examples
use mathlib.Core.Option
use ultiproxy.Base.{
  ℕ, ◌+◌, ◌-◌, ◌*◌, Bool, true, false, Option, none, some, List, [], ◌∷◌, ◌&&◌, Text, bytes, Time,
  Duration, ℤ, pos, negsuc, second, Float, if◌then◌else◌, is_empty, is_nonpos, leb_ℤ, int_incr,
  lookup, insert, ◌==◌, zero_time,
}
use ultiproxy.State.Types.{
  AdminState, HealthState, QuotaState, ProviderRuntime, RuntimeSnapshot, zero_runtime,
}
use ultiproxy.State.Manager.{StateManager, update}

-- The policy of a provider's polls, whose deadline is left to the lane's call, and where its schedule stands.
pub record PollPolicy (F : Type 0) : Type 0 where
  pub interval : Duration
  pub jitter_ratio : F
  pub initial_backoff : Duration
  pub max_backoff : Duration
  pub backoff_factor : F
  pub stagger_delay : Duration

pub record ProviderSchedule : Type 0 where
  pub failures : ℤ
  pub next_poll_at : Time
  pub last_polled_at : Time

pub record QuotaWindow (F : Type 0) : Type 0 where
  pub used_pct : F
  pub remaining : F
  pub limit : F

pub record QuotaSnapshot (F : Type 0) : Type 0 where
  pub observed_at : Time
  pub windows : List (QuotaWindow F)

-- time.Time.Add.
abbrev pub time_add : Time → Duration → Time
time_add t (pos n) = t + n
time_add t (negsuc n) = t - (n + 1)

-- `failures - 1`, above 0.
abbrev one_less : ℤ → ℤ
one_less (pos n) = pos (n - 1)
one_less (negsuc n) = negsuc (n + 1)

module _ (fl : Float) where
  open fl use {F, of_int, to_int, add, sub, mul, lt, le}

  unfoldable pub compute_backoff : (F → F → F) → PollPolicy F → ℤ → Duration
  compute_backoff pow p failures =
      if is_nonpos failures
      then p.interval
      else let factor =
          if le p.backoff_factor (of_int (pos 1)) then of_int (pos 2) else p.backoff_factor in
        let backoff = mul (of_int p.initial_backoff) (pow factor (of_int (one_less failures))) in
        to_int (if lt (of_int p.max_backoff) backoff then of_int p.max_backoff else backoff)

  unfoldable pub interval_with_jitter : F → PollPolicy F → Duration
  interval_with_jitter draw p =
      if lt (of_int (pos 0)) p.jitter_ratio
      then to_int (
          mul (of_int p.interval) (
            add (of_int (pos 1))
              (mul (sub (mul draw (of_int (pos 2))) (of_int (pos 1))) p.jitter_ratio)))
      else p.interval

  -- The loop of computeQuotaState: the worst share, or none at a window with nothing left.
  unfoldable pub worst_used : F → List (QuotaWindow F) → Option F
  worst_used worst [] = some worst
  worst_used worst (w ∷ ws) =
      let rest = worst_used (if lt worst w.used_pct then w.used_pct else worst) ws in
      if lt (of_int (pos 0)) w.limit && le w.remaining (of_int (pos 0)) then none else rest

  unfoldable pub compute_quota_state : Option (QuotaSnapshot F) → QuotaState
  compute_quota_state none = QuotaState.healthy
  compute_quota_state (some snap) =
      if is_empty snap.windows
      then QuotaState.healthy
      else elim (worst_used (of_int (pos 0)) snap.windows) [
        | none ↦ QuotaState.exhausted
        | some worst ↦
            if le (of_int (pos 100)) worst
            then QuotaState.exhausted
            else if le (of_int (pos 80)) worst
            then QuotaState.low
            else QuotaState.healthy
      ]

-- `pr, ok := rs.Providers[name]; if !ok { pr = ProviderRuntime{Admin: AdminEnabled} }; ...`.
unfoldable pub poll_upsert :
    Text → (ProviderRuntime → ProviderRuntime) → RuntimeSnapshot → RuntimeSnapshot
poll_upsert name change rs = elim (lookup name rs.providers) [
  | none ↦ record rs {
    providers =
        insert name (change (record zero_runtime { admin = AdminState.enabled })) rs.providers;
  }
  | some pr ↦ record rs { providers = insert name (change pr) rs.providers }
]

unfoldable pub failed_poll_row : ℤ → Time → Text → ProviderRuntime → ProviderRuntime
failed_poll_row failures now msg pr = record pr {
  observed_at = now;
  error = msg;
  health =
      if leb_ℤ (pos 5) failures
      then HealthState.unavailable
      else if leb_ℤ (pos 2) failures
      then HealthState.degraded
      else pr.health;
}

unfoldable pub good_poll_row : QuotaState → Time → ProviderRuntime → ProviderRuntime
good_poll_row quota observed pr = record pr {
  observed_at = observed;
  source = bytes "scheduler";
  error = [];
  quota = quota;
  health = HealthState.healthy;
}

-- What a poll is called with and comes to: an error's text, or a snapshot.
pub data Outcome (F : Type 0) : Type 0 where
  poll_failed : Text → Outcome F
  polled : QuotaSnapshot F → F → Outcome F

module _ (fl : Float) where
  open fl use {F}

  -- PollProvider after its call of the lane, at the time `now`.
  unfoldable pub poll_provider :
      (F → F → F)
      → Text
      → Time
      → PollPolicy F
      → Outcome F
      → ProviderSchedule × Option StateManager
      → ProviderSchedule × Option StateManager
  poll_provider pow name now policy (poll_failed msg) (sched, sm) =
      let failures = int_incr sched.failures in
      (
        record {
          failures = failures;
          next_poll_at = time_add now (compute_backoff fl pow policy failures);
          last_polled_at = now;
        },
        Option.map (update (poll_upsert name (failed_poll_row failures now msg))) sm,
      )
  poll_provider pow name now policy (polled snap draw) (sched, sm) =
      let observed = if snap.observed_at == zero_time then now else snap.observed_at in
      (
        record {
          failures = pos 0;
          next_poll_at = time_add now (interval_with_jitter fl draw policy);
          last_polled_at = now;
        },
        Option.map
            (update
              (poll_upsert name (good_poll_row (compute_quota_state fl (some snap)) observed)))
            sm,
      )
