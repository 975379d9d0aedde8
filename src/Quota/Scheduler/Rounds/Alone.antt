-- ===== src/Quota/Scheduler/Rounds/Alone.antt =====
-- The rounds of pkg/quota/scheduler.go, seen by one provider.
use mathlib.Core.Option
use ultiproxy.Base.{
  ℕ, ◌+◌, ◌≡◌, ◌∙◌, refl, ap, sym, subst, Bool, true, false, Option, none, some, List, [], ◌∷◌,
  Text, Time, int_incr, Float, if◌then◌else◌, or_else, lookup, insert, lookup-insert, text_eq,
  text_eq_iff, text_eq_refl, arith, Bool-cases, is_some, inl, inr, Option-cases,
}
use ultiproxy.State.Types.{AdminState, ProviderRuntime, clone, zero_runtime}
use ultiproxy.State.Manager.{StateManager, update, update_snapshot, row}
use ultiproxy.Quota.Store.{QuotaStore, set, set_refreshing, set_last_refresh_error}
use ultiproxy.Quota.Scheduler.{
  PollPolicy, ProviderSchedule, QuotaSnapshot, Outcome, poll_failed, polled, poll_upsert,
  poll_provider, failed_poll_row, good_poll_row, compute_quota_state,
}
use ultiproxy.Quota.Scheduler.Rounds.{
  Entry, Scheduler, Clocks, Step, begins, finishes, called, entry_of, policy_of, begin_poll,
  finish_poll, dated, stored, run, step, poll_round, poll_all, poll_called,
}

-- The row that a poll finds or makes.
abbrev or_enabled : Option ProviderRuntime → ProviderRuntime
or_enabled r = or_else r (record zero_runtime { admin = AdminState.enabled })

upsert-row :
    (name n : Text) (change : ProviderRuntime → ProviderRuntime) (sm : Option StateManager)
    → Option.map (row name) (Option.map (update (poll_upsert n change)) sm) ≡ (
        if text_eq n name
        then Option.map (λ r. some (change (or_enabled r))) (Option.map (row name) sm)
        else Option.map (row name) sm)
unfolding update update_snapshot clone poll_upsert
upsert-row name n change none = ground arith
upsert-row name n change (some sm) = elim (Option-cases (lookup n sm.snapshot.providers)) [
  | inl e ↦ ground (
    arith,
    text_eq_iff n name,
    lookup-insert n name (change (record zero_runtime { admin = AdminState.enabled }))
        sm.snapshot.providers,
  )
  | inr (p, e) ↦
      ground (arith, text_eq_iff n name, lookup-insert n name (change p) sm.snapshot.providers)
]

abbrev triple : {A B C : Type 0} → A → B → C → A × (B × C)
triple a b c = (a, (b, c))

three :
    {A B C : Type 0} {a a' : A} {b b' : B} {c c' : C}
    → a ≡ a'
    → b ≡ b'
    → c ≡ c'
    → triple a b c ≡ triple a' b' c'
three {a' = a'} {b = b} {b' = b'} {c = c} p q r =
    ap (λ x. triple x b c) p ∙ ap (λ y. triple a' y c) q ∙ ap (λ z. triple a' b' z) r

pub then_of : {A : Type 0} (b : Bool) (x y : A) → b ≡ true → (if b then x else y) ≡ x
then_of b x y h = rw h refl

pub else_of : {A : Type 0} (b : Bool) (x y : A) → b ≡ false → (if b then x else y) ≡ y
else_of b x y h = rw h refl

-- What of the scheduler's state is a provider's own: its schedule, its snapshot in the store, and
-- its row of the runtime state, if there is one.
abbrev pub Own : Type 0 → Type 0
Own F = Entry F × (Option (Option (QuotaSnapshot F)) × Option (Option ProviderRuntime))

module _ {F : Type 0} where
  abbrev pub own : Text → Scheduler F → Own F
  own name s = (entry_of name s, (lookup name s.store.snapshots, Option.map (row name) s.sm))

  entry-insert :
      (name n : Text) (e d : Entry F) (m : List (Text × Entry F))
      → or_else (lookup name (insert n e m)) d
        ≡ (if text_eq n name then e else or_else (lookup name m) d)
  entry-insert name n e d m = ground (arith, lookup-insert n name e m)

  same_entry :
      (name n : Text) (s : Scheduler F)
      → (if text_eq n name then entry_of n s else entry_of name s) ≡ entry_of name s
  same_entry name n s = elim (Bool-cases (text_eq n name)) [
    | inl h ↦ let same = (text_eq_iff n name).0 h in rw (h, same) refl
    | inr h ↦ rw h refl
  ]

  pub begin_poll-own : (name n : Text) (s : Scheduler F) → own name (begin_poll n s) ≡ own name s
  unfolding begin_poll policy_of
  begin_poll-own name n s =
      ap (λ e. (e, (lookup name s.store.snapshots, Option.map (row name) s.sm)))
        (entry-insert name n (entry_of n s) _ s.schedules ∙ same_entry name n s)

  -- The snapshot and the row of a provider after an outcome of its own.
  abbrev snapshot_after :
      Time → Outcome F → Option (Option (QuotaSnapshot F)) → Option (Option (QuotaSnapshot F))
  snapshot_after now (poll_failed msg) v = v
  snapshot_after now (polled snap draw) v = some (some (dated now snap))

  stored-snapshots :
      (name n : Text) (now wall : Time) (o : Outcome F) (st : QuotaStore F)
      → lookup name (stored n now wall o st).snapshots ≡ (
          if text_eq n name
          then snapshot_after now o (lookup name st.snapshots)
          else lookup name st.snapshots)
  unfolding stored set set_last_refresh_error
  stored-snapshots name n now wall (poll_failed msg) st = ground arith
  stored-snapshots name n now wall (polled snap draw) st =
      lookup-insert n name (some (dated now snap)) st.snapshots

-- How often a provider's poll finishes.
abbrev pub finished : Text → List Step → ℕ
finished name [] = 0
finished name (begins n ∷ sts) = finished name sts
finished name (finishes n ∷ sts) = (if text_eq n name then 1 else 0) + finished name sts

module _ (fl : Float) (pow : fl.F → fl.F → fl.F) where
  open fl use {F}

  -- The entry and the row after an outcome, by the entry before it.
  abbrev entry_after : Text → Time → Outcome F → Entry F → Entry F
  entry_after name now o e = record {
    policy = e.policy;
    schedule = (poll_provider fl pow name now e.policy o (e.schedule, none)).0;
  }

  abbrev change_after : Time → Outcome F → Entry F → ProviderRuntime → ProviderRuntime
  change_after now (poll_failed msg) e = failed_poll_row (int_incr e.schedule.failures) now msg
  change_after now (polled snap draw) e =
      good_poll_row (compute_quota_state fl (some snap)) (dated now snap).observed_at

  abbrev pub own_after : Text → Clocks → Outcome F → Own F → Own F
  own_after name c o (e, (v, r)) = (
    entry_after name c.now o e,
    (snapshot_after c.now o v, Option.map (λ p. some (change_after c.now o e (or_enabled p))) r),
  )

  polled-schedule :
      (name : Text) (now : Time) (policy : PollPolicy F) (o : Outcome F) (x : ProviderSchedule)
      (sm : Option StateManager)
      → (poll_provider fl pow name now policy o (x, sm)).0
        ≡ (poll_provider fl pow name now policy o (x, none)).0
  unfolding poll_provider
  polled-schedule name now policy (poll_failed msg) x sm = refl
  polled-schedule name now policy (polled snap draw) x sm = refl

  polled-row :
      (name n : Text) (now : Time) (o : Outcome F) (e : Entry F) (sm : Option StateManager)
      → Option.map (row name) (poll_provider fl pow n now e.policy o (e.schedule, sm)).1 ≡ (
          if text_eq n name
          then Option.map
              (λ p. some (change_after now o e (or_enabled p)))
              (Option.map (row name) sm)
          else Option.map (row name) sm)
  unfolding poll_provider
  polled-row name n now (poll_failed msg) e sm = upsert-row name n _ sm
  polled-row name n now (polled snap draw) e sm = upsert-row name n _ sm

  -- A poll that finishes changes what is its provider's own by what was its own before.
  pub finish_poll-own :
      (name : Text) (c : Clocks) (o : Outcome F) (s : Scheduler F)
      → own name (finish_poll fl pow name c o s) ≡ own_after name c o (own name s)
  unfolding finish_poll policy_of
  finish_poll-own name c o s =
      let e = entry_of name s in
      let same = text_eq_refl name in
      three
        (entry-insert name name _ _ s.schedules
          ∙ then_of _ _ _ same
          ∙ ap (λ x. record { policy = e.policy; schedule = x })
              (polled-schedule name c.now e.policy o e.schedule s.sm))
        (stored-snapshots name name c.now c.wall o s.store ∙ then_of _ _ _ same)
        (polled-row name name c.now o e s.sm ∙ then_of _ _ _ same)

  pub finish_poll-other :
      (name n : Text) (c : Clocks) (o : Outcome F) (s : Scheduler F)
      → text_eq n name ≡ false
      → own name (finish_poll fl pow n c o s) ≡ own name s
  unfolding finish_poll policy_of
  finish_poll-other name n c o s h =
      three (entry-insert name n _ _ s.schedules ∙ else_of _ _ _ h)
        (stored-snapshots name n c.now c.wall o s.store ∙ else_of _ _ _ h)
        (polled-row name n c.now o (entry_of n s) s.sm ∙ else_of _ _ _ h)

  run-none :
      (clock : Text → Clocks) (outcomes : Text → Outcome F) (name : Text) (sts : List Step)
      (s : Scheduler F)
      → finished name sts ≡ 0
      → own name (run fl pow clock outcomes sts s) ≡ own name s
  unfolding run step
  run-none clock outcomes name [] s h = refl
  run-none clock outcomes name (begins n ∷ sts) s h =
      run-none clock outcomes name sts (begin_poll n s) h ∙ begin_poll-own name n s
  run-none clock outcomes name (finishes n ∷ sts) s h =
      run-none clock outcomes name sts _ (ground arith)
      ∙ finish_poll-other name n (clock n) (outcomes n) s (ground arith)

  run-once :
      (clock : Text → Clocks) (outcomes : Text → Outcome F) (name : Text) (sts : List Step)
      (s : Scheduler F)
      → finished name sts ≡ 1
      → own name (run fl pow clock outcomes sts s)
        ≡ own_after name (clock name) (outcomes name) (own name s)
  unfolding run step
  run-once clock outcomes name [] s h = ground arith
  run-once clock outcomes name (begins n ∷ sts) s h =
      run-once clock outcomes name sts (begin_poll n s) h
      ∙ ap (own_after name (clock name) (outcomes name)) (begin_poll-own name n s)
  run-once clock outcomes name (finishes n ∷ sts) s h = elim (Bool-cases (text_eq n name)) [
    | inl e ↦
        run-none clock outcomes name sts _ (ground arith)
        ∙ subst
            (λ m.
              own name (finish_poll fl pow m (clock m) (outcomes m) s)
              ≡ own_after name (clock name) (outcomes name) (own name s))
            (sym ((text_eq_iff n name).0 e)) (finish_poll-own name (clock name) (outcomes name) s)
    | inr e ↦
        run-once clock outcomes name sts _ (ground arith)
        ∙ ap (own_after name (clock name) (outcomes name))
            (finish_poll-other name n (clock n) (outcomes n) s e)
  ]

-- In whatever order the polls of PollAll begin and end, if a provider's poll ends once, its
-- schedule, its snapshot in the store and its row of the runtime state are afterwards what the
-- same poll makes of them when it runs alone, if there is a registry.
pub polled_as_alone :
    (fl : Float) (pow : fl.F → fl.F → fl.F) (start : Time) (clock : Text → Clocks)
    (outcomes : Text → Outcome fl.F) (name : Text) (sts : List Step) (s : Scheduler fl.F)
    → is_some s.registry ≡ true
    → finished name sts ≡ 1
    → own name (poll_all fl pow start clock outcomes sts s)
      ≡ own name (poll_called fl pow name (clock name) (called (outcomes name)) s).0
unfolding poll_all set_refreshing policy_of
polled_as_alone fl pow start clock outcomes name sts s known h =
    ap (own name)
      (then_of (is_some s.registry) (poll_round fl pow start clock outcomes sts s) s known)
    ∙ run-once fl pow clock outcomes name sts
        (record s { store = set_refreshing true (some start) s.store }) h
    ∙ sym (
        finish_poll-own fl pow name (clock name) (outcomes name) (begin_poll name s)
        ∙ ap (own_after fl pow name (clock name) (outcomes name)) (begin_poll-own name name s))
