-- ===== src/Quota/Scheduler/Rounds.antt =====
-- The rounds of the scheduler of pkg/quota/scheduler.go: NewScheduler, PollProvider with its store
-- and its telemetry, Tick and PollAll. PollProvider is two critical sections with the lane's call
-- between them. The concurrency budget only delays polls.
pub mod Alone
pub mod Due
use ultiproxy.Base.{
  ℕ, ◌+◌, ◌-◌, ◌*◌, ◌^◌, Bool, true, false, Option, none, some, List, [], ◌∷◌, ◌++◌, Text, Time,
  Duration, pos, negsuc, second, Float, if◌then◌else◌, is_nonpos, is_some, or_else, lookup, insert,
  leb, ◌==◌, zero_time,
}
use ultiproxy.Base.Parse.{wrapped}
use ultiproxy.State.Manager.{StateManager}
use ultiproxy.Provider.Registry as Registry
use ultiproxy.Provider.Registry.{Registry}
use ultiproxy.Quota.Scheduler.{
  PollPolicy, ProviderSchedule, QuotaWindow, QuotaSnapshot, Outcome, poll_failed, polled,
  poll_provider, time_add,
}
use ultiproxy.Quota.Store.{QuotaStore, new_store, set, set_refreshing, set_last_refresh_error}

-- providerSchedule with its policy.
pub record Entry (F : Type 0) : Type 0 where
  pub policy : PollPolicy F
  pub schedule : ProviderSchedule

-- A row for TrackQuotaObservation: the provider, the window and the time of its snapshot.
pub record Observation (F : Type 0) : Type 0 where
  pub provider : Text
  pub window : QuotaWindow F
  pub observed_at : Time

-- `observations` is what the writer has been offered; `none` stands for a nil part.
pub record Scheduler (F : Type 0) : Type 0 where
  pub registry : Option Registry
  pub store : QuotaStore F
  pub sm : Option StateManager
  pub observations : Option (List (Observation F))
  pub default_policy : PollPolicy F
  pub provider_policies : List (Text × PollPolicy F)
  pub schedules : List (Text × Entry F)

pub data PollError : Type 0 where
  no_registry no_quota_provider : PollError
  context_done : PollError
  lane_error : Text → PollError

-- What a poll meets: its context is done before it has a place in the budget, or the lane answers.
pub data Answer (F : Type 0) : Type 0 where
  cancelled : Answer F
  called : Outcome F → Answer F

abbrev pub fresh : ProviderSchedule
fresh = record { failures = pos 0; next_poll_at = zero_time; last_polled_at = zero_time }

-- time.Duration(i) * d.
unfoldable pub stagger : ℕ → Duration → Duration
stagger i (pos n) = wrapped (i * n)
stagger i (negsuc n) = wrapped (i * (2 ^ 64 - (n + 1)))

-- A registered bundle with a quota capability.
unfoldable pub has_quota : Text → Registry → Bool
has_quota name r = elim (Registry.get name r) [ none ↦ false | some p ↦ is_some p.quota ]

module _ (fl : Float) where
  open fl use {F, of_int}

  -- DefaultPollPolicy; the float64 0.1 is an argument.
  unfoldable pub default_poll_policy : F → PollPolicy F
  default_poll_policy tenth = record {
    interval = pos (60 * second);
    jitter_ratio = tenth;
    initial_backoff = pos (2 * second);
    max_backoff = pos (60 * second);
    backoff_factor = of_int (pos 2);
    stagger_delay = pos 500000000;
  }

module _ {F : Type 0} where
  unfoldable pub policy_of : Text → Scheduler F → PollPolicy F
  policy_of name s = or_else (lookup name s.provider_policies) s.default_policy

  -- The loop of initSchedules over the names of the registry, from the i-th on.
  unfoldable pub init_from : Registry → Time → ℕ → List Text → Scheduler F → Scheduler F
  init_from r now i [] s = s
  init_from r now i (name ∷ names) s =
      let policy = policy_of name s in
      let next = time_add now (stagger i policy.stagger_delay) in
      let e : Entry F = record {
        policy = policy;
        schedule = record fresh { next_poll_at = next };
      } in
      init_from r now (i + 1) names
        (if has_quota name r then record s { schedules = insert name e s.schedules } else s)

  abbrev pub init_schedules : Time → Option Registry → Scheduler F → Scheduler F
  init_schedules now none s = s
  init_schedules now (some r) s = init_from r now 0 (Registry.names r) s

  -- The schedule of a provider, or the one that PollProvider makes.
  abbrev pub entry_of : Text → Scheduler F → Entry F
  entry_of name s =
      or_else (lookup name s.schedules) (record { policy = policy_of name s; schedule = fresh })

  -- PollProvider before its call of the lane.
  unfoldable pub begin_poll : Text → Scheduler F → Scheduler F
  begin_poll name s = record s { schedules = insert name (entry_of name s) s.schedules }

  abbrev pub observe_all :
      Text → Time → List (QuotaWindow F) → List (Observation F) → List (Observation F)
  observe_all name at [] rows = rows
  observe_all name at (w ∷ ws) rows =
      observe_all name at ws
        (rows ++ (record { provider = name; window = w; observed_at = at }) ∷ [])

  abbrev pub dated : Time → QuotaSnapshot F → QuotaSnapshot F
  dated now snap = record snap {
    observed_at = (if snap.observed_at == zero_time then now else snap.observed_at);
  }

  -- The store and the telemetry after an outcome; `wall` is the store's own clock.
  unfoldable pub stored : Text → Time → Time → Outcome F → QuotaStore F → QuotaStore F
  stored name now wall (poll_failed msg) st = set_last_refresh_error (some msg) st
  stored name now wall (polled snap draw) st =
      set_last_refresh_error none (set name (some (dated now snap)) wall st)

  unfoldable pub observed :
      Text → Time → Outcome F → Option (List (Observation F)) → Option (List (Observation F))
  observed name now (poll_failed msg) rows = rows
  observed name now (polled snap draw) none = none
  observed name now (polled snap draw) (some rows) =
      some (observe_all name (dated now snap).observed_at snap.windows rows)

module _ (fl : Float) where
  open fl use {F}

  -- NewScheduler; `policy` is that of the configuration.
  unfoldable pub new_scheduler :
      F
      → Option Registry
      → PollPolicy F
      → List (Text × PollPolicy F)
      → Option (QuotaStore F)
      → Option StateManager
      → Option (List (Observation F))
      → Time
      → Scheduler F
  new_scheduler tenth registry policy policies store sm rows now =
      init_schedules now registry (record {
        registry = registry;
        store = or_else store new_store;
        sm = sm;
        observations = rows;
        default_policy = if is_nonpos policy.interval then default_poll_policy fl tenth else policy;
        provider_policies = policies;
        schedules = [];
      })

-- The clocks at the end of a poll, that of the scheduler and that of its store.
pub record Clocks : Type 0 where
  pub now : Time
  pub wall : Time

-- A poll, up to its end.
pub data Step : Type 0 where
  begins finishes : Text → Step

module _ (fl : Float) (pow : fl.F → fl.F → fl.F) where
  open fl use {F}

  -- PollProvider after its call of the lane.
  unfoldable pub finish_poll : Text → Clocks → Outcome F → Scheduler F → Scheduler F
  finish_poll name c o s =
      let e = entry_of name s in
      let after = poll_provider fl pow name c.now e.policy o (e.schedule, s.sm) in
      record s {
        schedules = insert name (record { policy = e.policy; schedule = after.0 }) s.schedules;
        sm = after.1;
        store = stored name c.now c.wall o s.store;
        observations = observed name c.now o s.observations;
      }

  abbrev pub outcome_error : Outcome F → Option PollError
  outcome_error (poll_failed msg) = some (lane_error msg)
  outcome_error (polled snap draw) = none

  abbrev pub poll_called : Text → Clocks → Answer F → Scheduler F → Scheduler F × Option PollError
  poll_called name c cancelled s = (s, some context_done)
  poll_called name c (called o) s = (finish_poll name c o (begin_poll name s), outcome_error o)

  abbrev pub poll_known :
      Text → Clocks → Answer F → Option Registry → Scheduler F → Scheduler F × Option PollError
  poll_known name c a none s = (s, some no_registry)
  poll_known name c a (some r) s =
      if has_quota name r then poll_called name c a s else (s, some no_quota_provider)

  -- PollProvider without another poll within it.
  unfoldable pub poll_named :
      Text → Clocks → Answer F → Scheduler F → Scheduler F × Option PollError
  poll_named name c a s = poll_known name c a s.registry s

  abbrev pub first_error : Option PollError → Option PollError → Option PollError
  first_error none e = e
  first_error (some e) e' = some e

  unfoldable pub poll_each :
      (Text → Clocks) → (Text → Answer F) → List Text → Scheduler F → Scheduler F × Option PollError
  poll_each clock answers [] s = (s, none)
  poll_each clock answers (name ∷ names) s =
      let r = poll_named name (clock name) (answers name) s in
      let rest = poll_each clock answers names r.0 in (rest.0, first_error r.1 rest.1)

  abbrev pub due_entry : Time → Option (Entry F) → Bool
  due_entry now none = false
  due_entry now (some e) = leb e.schedule.next_poll_at now

  unfoldable pub is_due : Time → Scheduler F → Text → Bool
  is_due now s name = due_entry now (lookup name s.schedules)

  unfoldable pub due : Time → Scheduler F → List Text → List Text
  due now s [] = []
  due now s (name ∷ names) =
      let rest = due now s names in if is_due now s name then name ∷ rest else rest

  -- Tick at the time `now`, which is the scheduler's clock from then on; `names` are the keys of
  -- the schedules in the order in which the range visits them.
  unfoldable pub tick :
      Time
      → (Text → Time)
      → (Text → Answer F)
      → List Text
      → Scheduler F
      → Scheduler F × Option PollError
  tick now wall answers names s =
      poll_each (λ n. record { now = now; wall = wall n }) answers (due now s names) s

  unfoldable pub step : (Text → Clocks) → (Text → Outcome F) → Step → Scheduler F → Scheduler F
  step clock outcomes (begins name) s = begin_poll name s
  step clock outcomes (finishes name) s = finish_poll name (clock name) (outcomes name) s

  unfoldable pub run : (Text → Clocks) → (Text → Outcome F) → List Step → Scheduler F → Scheduler F
  run clock outcomes [] s = s
  run clock outcomes (st ∷ sts) s = run clock outcomes sts (step clock outcomes st s)

  abbrev pub poll_round :
      Time → (Text → Clocks) → (Text → Outcome F) → List Step → Scheduler F → Scheduler F
  poll_round start clock outcomes sts s =
      let begun = record s { store = set_refreshing true (some start) s.store } in
      let ended = run clock outcomes sts begun in
      record ended { store = set_refreshing false none ended.store }

  -- PollAll, whose goroutines poll in the order of the steps.
  unfoldable pub poll_all :
      Time → (Text → Clocks) → (Text → Outcome F) → List Step → Scheduler F → Scheduler F
  poll_all start clock outcomes sts s =
      if is_some s.registry then poll_round start clock outcomes sts s else s
