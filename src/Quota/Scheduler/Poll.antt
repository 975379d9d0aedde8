-- ===== src/Quota/Scheduler/Poll.antt =====
-- What polls leave alone.
use mathlib.Core.Option
use ultiproxy.Base.{
  ◌≡◌, refl, Option, none, some, List, [], ◌∷◌, Text, Time, ℤ, Float, lookup, lookup-insert,
  text_eq_iff, arith, Option-cases, inl, inr,
}
use ultiproxy.State.Types.{
  AdminState, QuotaState, ProviderRuntime, RuntimeSnapshot, clone, zero_runtime,
}
use ultiproxy.State.Manager.{StateManager, update, update_snapshot, row}
use ultiproxy.Quota.Scheduler.{
  PollPolicy, ProviderSchedule, Outcome, poll_failed, polled, poll_upsert, failed_poll_row,
  good_poll_row, poll_provider,
}

-- The administrative state of a provider, `none` without a row or a manager.
abbrev pub admin_of : Text → Option StateManager → Option AdminState
admin_of id none = none
admin_of id (some sm) = Option.map (λ p. p.admin) (row id sm)

upsert-admin :
    (name j : Text) (change : ProviderRuntime → ProviderRuntime) (rs : RuntimeSnapshot)
    (a : AdminState)
    → ((p : ProviderRuntime) → (change p).admin ≡ p.admin)
    → Option.map (λ p. p.admin) (lookup j rs.providers) ≡ some a
    → Option.map (λ p. p.admin) (lookup j (poll_upsert name change rs).providers) ≡ some a
unfolding poll_upsert
upsert-admin name j change rs a keep h = elim (Option-cases (lookup name rs.providers)) [
  | inl e ↦ ground (
    arith,
    text_eq_iff name j,
    lookup-insert name j (change (record zero_runtime { admin = AdminState.enabled })) rs.providers,
  )
  | inr (p, e) ↦
      ground (arith, text_eq_iff name j, keep p, lookup-insert name j (change p) rs.providers)
]

update-admin :
    (name j : Text) (change : ProviderRuntime → ProviderRuntime) (sm : Option StateManager)
    (a : AdminState)
    → ((p : ProviderRuntime) → (change p).admin ≡ p.admin)
    → admin_of j sm ≡ some a
    → admin_of j (Option.map (update (poll_upsert name change)) sm) ≡ some a
unfolding update update_snapshot clone
update-admin name j change none a keep h = cc
update-admin name j change (some sm) a keep h = upsert-admin name j change sm.snapshot a keep h

failed_poll_admin :
    (failures : ℤ) (now : Time) (msg : Text) (p : ProviderRuntime)
    → (failed_poll_row failures now msg p).admin ≡ p.admin
unfolding failed_poll_row
failed_poll_admin failures now msg p = refl

good_poll_admin :
    (quota : QuotaState) (now : Time) (p : ProviderRuntime)
    → (good_poll_row quota now p).admin ≡ p.admin
unfolding good_poll_row
good_poll_admin quota now p = refl

-- A poll with its provider, time, policy and outcome.
pub record PollCall (F : Type 0) : Type 0 where
  pub provider : Text
  pub now : Time
  pub policy : PollPolicy F
  pub outcome : Outcome F

module _ (fl : Float) where
  open fl use {F}

  step-admin :
      (pow : F → F → F) (name : Text) (now : Time) (policy : PollPolicy F) (o : Outcome F)
      (sched : ProviderSchedule) (sm : Option StateManager) (j : Text) (a : AdminState)
      → admin_of j sm ≡ some a
      → admin_of j (poll_provider fl pow name now policy o (sched, sm)).1 ≡ some a
  unfolding poll_provider
  step-admin pow name now policy (poll_failed msg) sched sm j a h =
      update-admin name j _ sm a (failed_poll_admin _ now msg) h
  step-admin pow name now policy (polled snap draw) sched sm j a h =
      update-admin name j _ sm a (good_poll_admin _ _) h

  -- The state manager after a series of polls, each with the schedule of its provider.
  pub after_polls :
      (F → F → F) → List (PollCall F × ProviderSchedule) → Option StateManager → Option StateManager
  after_polls pow [] sm = sm
  after_polls pow ((c, sched) ∷ cs) sm =
      after_polls pow cs (poll_provider fl pow c.provider c.now c.policy c.outcome (sched, sm)).1

  -- No series of polls, failed or not, of this provider or of others, changes a provider's
  -- administrative state: what the operator has disabled stays disabled.
  pub polls_keep_admin :
      (pow : F → F → F) (cs : List (PollCall F × ProviderSchedule)) (sm : Option StateManager)
      (j : Text) (a : AdminState)
      → admin_of j sm ≡ some a
      → admin_of j (after_polls pow cs sm) ≡ some a
  unfolding after_polls
  polls_keep_admin pow [] sm j a h = h
  polls_keep_admin pow ((c, sched) ∷ cs) sm j a h =
      polls_keep_admin pow cs
        (poll_provider fl pow c.provider c.now c.policy c.outcome (sched, sm)).1 j a
        (step-admin pow c.provider c.now c.policy c.outcome sched sm j a h)
