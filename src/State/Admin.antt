-- ===== src/State/Admin.antt =====
-- What every call of the state manager leaves alone: the other providers, the models, and the
-- administrator's switch.
use mathlib.Core.Option
use ultiproxy.Base.{
  ◌≡◌, refl, ◌∙◌, inl, inr, false, Option, some, List, [], ◌∷◌, Text, Time, Duration, ℤ,
  if◌then◌else◌, arith, lookup, lookup-insert, text_eq, text_eq_iff, Option-cases,
}
use ultiproxy.State.Types.{AdminState, QuotaState, ProviderRuntime, RuntimeSnapshot}
use ultiproxy.State.Manager.{
  StateManager, Call, probes, succeeds, fails, resets, recovers, next_version, amend, step, run,
  row, allow_probe, probe_row, success_row, failure_row, recover_row,
}

-- The row of any provider after `amend`.
pub lookup-amend :
    (id j : Text) (change : ProviderRuntime → ProviderRuntime) (snap : RuntimeSnapshot)
    → lookup j (amend id change snap).providers ≡ (
        if text_eq id j
        then Option.map change (lookup j snap.providers)
        else lookup j snap.providers)
unfolding amend
lookup-amend id j change snap = elim (Option-cases (lookup id snap.providers)) [
  | inl e ↦ ground (arith, e, text_eq_iff id j)
  | inr (p, e) ↦ ground (arith, e, text_eq_iff id j, lookup-insert id j (change p) snap.providers)
]

abbrev pub target : Call → Text
target (probes id now) = id
target (succeeds id now) = id
target (fails id now err) = id
target (resets id now) = id
target (recovers id now) = id

-- What a call does to its provider's row.
abbrev pub call_row : Duration → ℤ → Call → ProviderRuntime → ProviderRuntime
call_row d t (probes id now) p = (probe_row d now p).0
call_row d t (succeeds id now) p = success_row now p
call_row d t (fails id now err) p = failure_row t now err p
call_row d t (resets id now) p = record p { quota = QuotaState.healthy; observed_at = now }
call_row d t (recovers id now) p = recover_row now p

-- A call changes its provider's row alone.
pub row-step :
    (sm : StateManager) (c : Call) (j : Text)
    → row j (step sm c) ≡ (
        if text_eq (target c) j
        then Option.map (call_row sm.open_duration sm.failure_threshold c) (row j sm)
        else row j sm)
unfolding step
row-step sm (probes id now) j = lookup-amend id j _ sm.snapshot
row-step sm (succeeds id now) j = lookup-amend id j _ sm.snapshot
row-step sm (fails id now err) j = lookup-amend id j _ sm.snapshot
row-step sm (resets id now) j = lookup-amend id j _ sm.snapshot
row-step sm (recovers id now) j = lookup-amend id j _ sm.snapshot

amend-models :
    (id : Text) (change : ProviderRuntime → ProviderRuntime) (snap : RuntimeSnapshot)
    → (amend id change snap).models ≡ snap.models
unfolding amend
amend-models id change snap = ground arith

-- A call keeps the models and the configuration, and takes the next version.
pub step_frame :
    (sm : StateManager) (c : Call)
    → ((step sm c).snapshot.models ≡ sm.snapshot.models)
      × ((step sm c).snapshot.version ≡ next_version sm.snapshot.version)
      × ((step sm c).open_duration ≡ sm.open_duration)
      × ((step sm c).failure_threshold ≡ sm.failure_threshold)
unfolding step
step_frame sm (probes id now) = (amend-models id _ sm.snapshot, refl, refl, refl)
step_frame sm (succeeds id now) = (amend-models id _ sm.snapshot, refl, refl, refl)
step_frame sm (fails id now err) = (amend-models id _ sm.snapshot, refl, refl, refl)
step_frame sm (resets id now) = (amend-models id _ sm.snapshot, refl, refl, refl)
step_frame sm (recovers id now) = (amend-models id _ sm.snapshot, refl, refl, refl)

call_row-admin :
    (d : Duration) (t : ℤ) (c : Call) (p : ProviderRuntime) → (call_row d t c p).admin ≡ p.admin
unfolding probe_row success_row failure_row recover_row
call_row-admin d t (probes id now) p = ground arith
call_row-admin d t (succeeds id now) p = ground arith
call_row-admin d t (fails id now err) p = ground arith
call_row-admin d t (resets id now) p = refl
call_row-admin d t (recovers id now) p = refl

-- The administrator's switch of a provider, if it has a row.
abbrev pub admin_of : Text → StateManager → Option AdminState
admin_of id sm = Option.map (λ p. p.admin) (row id sm)

step-admin : (sm : StateManager) (c : Call) (j : Text) → admin_of j (step sm c) ≡ admin_of j sm
step-admin sm c j = elim (Option-cases (row j sm)) [
  | inl e ↦ ground (arith, row-step sm c j)
  | inr (p, e) ↦
      ground (arith, row-step sm c j, call_row-admin sm.open_duration sm.failure_threshold c p)
]

-- No sequence of probes, successes, failures, quota resets and circuit recoveries adds or drops
-- a provider's row or changes its administrative state.
pub run-admin :
    (sm : StateManager) (cs : List Call) (j : Text) → admin_of j (run sm cs) ≡ admin_of j sm
unfolding run
run-admin sm [] j = refl
run-admin sm (c ∷ cs) j = run-admin (step sm c) cs j ∙ step-admin sm c j

-- The answer and the row after AllowProbe, for a provider that has a row.
pub allow_probe_lem :
    (id : Text) (now : Time) (sm : StateManager) {p : ProviderRuntime}
    → row id sm ≡ some p
    → ((allow_probe id now sm).1 ≡ (probe_row sm.open_duration now p).1)
      × (row id (allow_probe id now sm).0 ≡ some (probe_row sm.open_duration now p).0)
unfolding allow_probe
allow_probe_lem id now sm h = (
  ground arith,
  ground (
    arith,
    text_eq_iff id id,
    lookup-amend id id (λ q. (probe_row sm.open_duration now q).0) sm.snapshot,
  ),
)

-- A disabled provider is never granted a probe, and a probe of it leaves the row as it was.
pub disabled_blocks :
    (id : Text) (now : Time) (sm : StateManager) {p : ProviderRuntime}
    → row id sm ≡ some p
    → p.admin ≡ AdminState.disabled
    → ((allow_probe id now sm).1 ≡ false) × (row id (allow_probe id now sm).0 ≡ some p)
unfolding probe_row
disabled_blocks id now sm h e = ground (arith, allow_probe_lem id now sm h)
