-- ===== src/Quota/Scheduler/Rounds/Due.antt =====
-- Tick of pkg/quota/scheduler.go: what one provider sees of it.
use ultiproxy.Base.{
  ◌≡◌, ◌∙◌, refl, ap, sym, subst, false, Option, none, some, List, [], ◌∷◌, Text, Time, Float,
  if◌then◌else◌, text_eq, text_eq_iff, text_eq_refl, arith, Bool-cases, inl, inr,
}
use ultiproxy.Provider.Registry.{Registry}
use ultiproxy.Provider.Registry.Laws.{count}
use ultiproxy.Quota.Scheduler.Rounds.{
  Scheduler, Clocks, Answer, cancelled, called, has_quota, begin_poll, finish_poll, poll_named,
  poll_called, poll_known, poll_each, is_due, due, tick,
}
use ultiproxy.Quota.Scheduler.Rounds.Alone.{
  then_of, else_of, Own, own, own_after, begin_poll-own, finish_poll-own, finish_poll-other,
}

module _ (fl : Float) (pow : fl.F → fl.F → fl.F) where
  open fl use {F}

  -- A provider's own after a poll of it, by the registry.
  abbrev own_answered : Text → Clocks → Answer F → Own F → Own F
  own_answered name c cancelled v = v
  own_answered name c (called o) v = own_after fl pow name c o v

  abbrev own_polled : Text → Clocks → Answer F → Option Registry → Own F → Own F
  own_polled name c a none v = v
  own_polled name c a (some r) v = if has_quota name r then own_answered name c a v else v

  poll_called-own :
      (name : Text) (c : Clocks) (a : Answer F) (s : Scheduler F)
      → own name (poll_called fl pow name c a s).0 ≡ own_answered name c a (own name s)
  poll_called-own name c cancelled s = refl
  poll_called-own name c (called o) s =
      finish_poll-own fl pow name c o (begin_poll name s)
      ∙ ap (own_after fl pow name c o) (begin_poll-own name name s)

  poll_known-own :
      (name : Text) (c : Clocks) (a : Answer F) (r : Option Registry) (s : Scheduler F)
      → own name (poll_known fl pow name c a r s).0 ≡ own_polled name c a r (own name s)
  poll_known-own name c a none s = refl
  poll_known-own name c a (some r) s = elim (Bool-cases (has_quota name r)) [
    | inl h ↦ rw h (poll_called-own name c a s)
    | inr h ↦ rw h refl
  ]

  poll_named-own :
      (name : Text) (c : Clocks) (a : Answer F) (s : Scheduler F)
      → own name (poll_named fl pow name c a s).0 ≡ own_polled name c a s.registry (own name s)
  unfolding poll_named
  poll_named-own name c a s = poll_known-own name c a s.registry s

  poll_called-other :
      (name n : Text) (c : Clocks) (a : Answer F) (s : Scheduler F)
      → text_eq n name ≡ false
      → own name (poll_called fl pow n c a s).0 ≡ own name s
  poll_called-other name n c cancelled s h = refl
  poll_called-other name n c (called o) s h =
      finish_poll-other fl pow name n c o (begin_poll n s) h ∙ begin_poll-own name n s

  poll_known-other :
      (name n : Text) (c : Clocks) (a : Answer F) (r : Option Registry) (s : Scheduler F)
      → text_eq n name ≡ false
      → own name (poll_known fl pow n c a r s).0 ≡ own name s
  poll_known-other name n c a none s h = refl
  poll_known-other name n c a (some r) s h = elim (Bool-cases (has_quota n r)) [
    | inl e ↦ rw e (poll_called-other name n c a s h)
    | inr e ↦ rw e refl
  ]

  poll_called-registry :
      (n : Text) (c : Clocks) (a : Answer F) (s : Scheduler F)
      → (poll_called fl pow n c a s).0.registry ≡ s.registry
  unfolding finish_poll begin_poll
  poll_called-registry n c cancelled s = refl
  poll_called-registry n c (called o) s = refl

  poll_known-registry :
      (n : Text) (c : Clocks) (a : Answer F) (r : Option Registry) (s : Scheduler F)
      → (poll_known fl pow n c a r s).0.registry ≡ s.registry
  poll_known-registry n c a none s = refl
  poll_known-registry n c a (some r) s = elim (Bool-cases (has_quota n r)) [
    | inl e ↦ rw e (poll_called-registry n c a s)
    | inr e ↦ rw e refl
  ]

  poll_each-none :
      (clock : Text → Clocks) (answers : Text → Answer F) (name : Text) (names : List Text)
      (s : Scheduler F)
      → count name names ≡ 0
      → own name (poll_each fl pow clock answers names s).0 ≡ own name s
  unfolding poll_each poll_named
  poll_each-none clock answers name [] s h = refl
  poll_each-none clock answers name (n ∷ names) s h =
      poll_each-none clock answers name names _ (ground arith)
      ∙ poll_known-other name n (clock n) (answers n) s.registry s (ground arith)

  poll_each-once :
      (clock : Text → Clocks) (answers : Text → Answer F) (name : Text) (names : List Text)
      (s : Scheduler F)
      → count name names ≡ 1
      → own name (poll_each fl pow clock answers names s).0
        ≡ own_polled name (clock name) (answers name) s.registry (own name s)
  unfolding poll_each poll_named
  poll_each-once clock answers name [] s h = ground arith
  poll_each-once clock answers name (n ∷ names) s h = elim (Bool-cases (text_eq n name)) [
    | inl e ↦
        poll_each-none clock answers name names _ (ground arith)
        ∙ subst
            (λ m.
              own name (poll_known fl pow m (clock m) (answers m) s.registry s).0
              ≡ own_polled name (clock name) (answers name) s.registry (own name s))
            (sym ((text_eq_iff n name).0 e))
            (poll_known-own name (clock name) (answers name) s.registry s)
    | inr e ↦
        poll_each-once clock answers name names _ (ground arith)
        ∙ ap
            (λ r.
              own_polled name (clock name) (answers name) r
                (own name (poll_known fl pow n (clock n) (answers n) s.registry s).0))
            (poll_known-registry n (clock n) (answers n) s.registry s)
        ∙ ap (own_polled name (clock name) (answers name) s.registry)
            (poll_known-other name n (clock n) (answers n) s.registry s e)
  ]

  count-due :
      (now : Time) (s : Scheduler F) (name : Text) (names : List Text)
      → count name (due fl pow now s names)
        ≡ (if is_due fl pow now s name then count name names else 0)
  unfolding due
  count-due now s name [] = ground arith
  count-due now s name (n ∷ names) = elim (Bool-cases (text_eq n name)) [
    | inl e ↦
        let same = (text_eq_iff n name).0 e in
        subst
          (λ m.
            count m (due fl pow now s (n ∷ names))
            ≡ (if is_due fl pow now s m then count m (n ∷ names) else 0))
          same (ground (arith, text_eq_refl n, count-due now s n names))
    | inr e ↦ ground (arith, e, count-due now s name names)
  ]

-- If the range of Tick visits a provider once, then after the Tick its schedule, its snapshot and
-- its row of the runtime state are those of its own poll at the time of the Tick if its next poll
-- was due, and as they were if it was not, whatever the other providers answer, and in whatever
-- order they are visited.
pub tick_polls_due :
    (fl : Float) (pow : fl.F → fl.F → fl.F) (now : Time) (wall : Text → Time)
    (answers : Text → Answer fl.F) (name : Text) (names : List Text) (s : Scheduler fl.F)
    → count name names ≡ 1
    → own name (tick fl pow now wall answers names s).0 ≡ (
        if is_due fl pow now s name
        then own name
            (poll_named fl pow name (record { now = now; wall = wall name }) (answers name) s).0
        else own name s)
unfolding tick
tick_polls_due fl pow now wall answers name names s h =
    let clock : Text → Clocks = λ n. record { now = now; wall = wall n } in
    elim (Bool-cases (is_due fl pow now s name)) [
      | inl e ↦
          poll_each-once fl pow clock answers name (due fl pow now s names) s
            (ground (arith, count-due fl pow now s name names))
          ∙ sym (poll_named-own fl pow name (clock name) (answers name) s)
          ∙ sym (then_of _ _ _ e)
      | inr e ↦
          poll_each-none fl pow clock answers name (due fl pow now s names) s
            (ground (arith, count-due fl pow now s name names))
          ∙ sym (else_of _ _ _ e)
    ]
