-- ===== src/Quota/Scheduler/Worst.antt =====
-- What the quota state of a snapshot says, whatever the order of its windows.
use ultiproxy.Base.{
  ◌≡◌, refl, Bool, true, false, none, some, List, [], ◌∷◌, ◌&&◌, ◌||◌, pos, Float, if◌then◌else◌,
  is_empty, arith, Bool-cases, inl, inr,
}
use ultiproxy.State.Types.{QuotaState}
use ultiproxy.Quota.Scheduler.{QuotaWindow, QuotaSnapshot, worst_used, compute_quota_state}

module _ (fl : Float) where
  open fl use {F, of_int, lt, le}

  -- The comparisons of numbers that are no NaN: the larger of two is above a bound exactly if one of
  -- them is, and 0 is below 80 and 100.
  pub record IsOrdered : Type 0 where
    pub up : (c x y : F) → lt x y ≡ true → le c x ≡ true → le c y ≡ true
    pub down : (c x y : F) → lt x y ≡ false → le c y ≡ true → le c x ≡ true
    pub zero_80 : le (of_int (pos 80)) (of_int (pos 0)) ≡ false
    pub zero_100 : le (of_int (pos 100)) (of_int (pos 0)) ≡ false

  -- A window with a limit and nothing left.
  abbrev pub is_drained : QuotaWindow F → Bool
  is_drained w = lt (of_int (pos 0)) w.limit && le w.remaining (of_int (pos 0))

  unfoldable pub any_drained : List (QuotaWindow F) → Bool
  any_drained [] = false
  any_drained (w ∷ ws) = is_drained w || any_drained ws

  unfoldable pub any_used : F → List (QuotaWindow F) → Bool
  any_used c [] = false
  any_used c (w ∷ ws) = le c w.used_pct || any_used c ws

  larger-le : (c x y : F) → IsOrdered → le c (if lt x y then y else x) ≡ (le c x || le c y)
  larger-le c x y h = ground (arith, h.up c x y, h.down c x y)

  worst_used-drained :
      (worst : F) (ws : List (QuotaWindow F))
      → any_drained ws ≡ true
      → worst_used fl worst ws ≡ none
  unfolding worst_used any_drained
  worst_used-drained worst [] h = cc
  worst_used-drained worst (w ∷ ws) h =
      ground (arith, worst_used-drained (if lt worst w.used_pct then w.used_pct else worst) ws)

  worst_used-reaches :
      (c worst : F) (ws : List (QuotaWindow F))
      → IsOrdered
      → any_drained ws ≡ false
      → (x : F) × (worst_used fl worst ws ≡ some x) × (le c x ≡ (le c worst || any_used c ws))
  unfolding worst_used any_drained any_used
  worst_used-reaches c worst [] o h = (worst, refl, ground arith)
  worst_used-reaches c worst (w ∷ ws) o h =
      let next = if lt worst w.used_pct then w.used_pct else worst in
      let ih : any_drained ws ≡ false = ground arith in
      let (x, e, k) = worst_used-reaches c next ws o ih in
      (x, ground arith, ground (arith, larger-le c worst w.used_pct o))

  drained_not_empty : (ws : List (QuotaWindow F)) → any_drained ws ≡ true → is_empty ws ≡ false
  unfolding any_drained
  drained_not_empty [] h = cc
  drained_not_empty (w ∷ ws) h = refl

  empty_not_used : (c : F) (ws : List (QuotaWindow F)) → is_empty ws ≡ true → any_used c ws ≡ false
  unfolding any_used
  empty_not_used c [] h = refl
  empty_not_used c (w ∷ ws) h = cc

  -- A quota is exhausted if some window has a limit and nothing left, or is used to 100 percent; else
  -- it is low if some window is used to 80 percent; else it is healthy. The order of the windows does
  -- not matter, if no number is a NaN.
  pub compute_quota_state_any :
      (snap : QuotaSnapshot F)
      → IsOrdered
      → compute_quota_state fl (some snap) ≡ (
          if any_drained snap.windows || any_used (of_int (pos 100)) snap.windows
          then QuotaState.exhausted
          else if any_used (of_int (pos 80)) snap.windows
          then QuotaState.low
          else QuotaState.healthy)
  unfolding compute_quota_state
  compute_quota_state_any snap o = elim (Bool-cases (any_drained snap.windows)) [
    | inl d ↦ ground (
      arith,
      drained_not_empty snap.windows d,
      worst_used-drained (of_int (pos 0)) snap.windows d,
    )
    | inr d ↦
        let (x, e, k) = worst_used-reaches (of_int (pos 100)) (of_int (pos 0)) snap.windows o d in
        let (y, f, l) = worst_used-reaches (of_int (pos 80)) (of_int (pos 0)) snap.windows o d in
        let same : x ≡ y = cc in
        ground (
          arith,
          e,
          k,
          l,
          same,
          o.zero_80,
          o.zero_100,
          empty_not_used (of_int (pos 80)) snap.windows,
          empty_not_used (of_int (pos 100)) snap.windows,
        )
  ]
