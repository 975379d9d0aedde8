-- ===== src/Quota/Scheduler/Loop/Alone.antt =====
-- The scheduler's loop is alone when no Start comes during a Stop: pkg/quota/scheduler.go.
use ultiproxy.Base.{
  ◌≡◌, refl, sym, subst, ap, ◌∙◌, ◌⊎◌, inl, inr, ℕ, ◌≤◌, Bool, true, false, List, [], ◌∷◌, length,
  is_empty, arith,
}
use ultiproxy.Quota.Scheduler.Loop.{
  Goroutine, selecting, Stopper, waiting, Loops, no_loops, is_closed, begins, selects, told, Event,
  moves, goes_on, step, run,
}
use ultiproxy.Quota.Scheduler.Loop.Phases.{
  is_orderly, Fits, spawned_fits, outside_fits, selecting_fits, Awaits, will_await, awaits, Phase,
  at_rest, up, given_up, ending, ended, state, is_closed_here,
}
use ultiproxy.Quota.Scheduler.Loop.Steps.{run-Inv, no_loops-Inv}

-- The loop and a Stop go on without another tick.
abbrev pub winding_down : List Event
winding_down = moves 0 begins ∷ moves 0 selects ∷ moves 0 told ∷ goes_on 0 ∷ goes_on 0 ∷ []

-- What the invariant says to a caller.
pub record IsAlone (s : Loops) : Type 0 where
  pub no_panic : s.panicked ≡ false
  pub one_loop : length s.goroutines ≤ 1
  pub stopped : (s.running ≡ true) ⊎ ((is_empty s.stoppers ≡ false) ⊎ (s.goroutines ≡ []))
  pub stop_returns : (run winding_down s).stoppers ≡ []

module _ (r : Bool) (c d m : ℕ) (xs : List ℕ) where
  abbrev At : List ℕ → List Goroutine → List Stopper → Loops
  At ys gs ws = state r c d m ys gs ws

  told-open :
      is_closed c xs ≡ false
      → step (moves 0 told) (At xs (selecting d c ∷ []) []) ≡ At xs (selecting d c ∷ []) []
  unfolding step
  told-open b = rw b

  told-closed :
      (w : Stopper)
      → is_closed c xs ≡ true
      → is_closed d xs ≡ false
      → step (moves 0 told) (At xs (selecting d c ∷ []) (w ∷ [])) ≡ At (d ∷ xs) [] (w ∷ [])
  unfolding step
  told-closed w b b' = rw (b, b')

  returns :
      (ys : List ℕ)
      → is_closed d ys ≡ true
      → step (goes_on 0) (At ys [] (waiting d ∷ [])) ≡ At ys [] []
  unfolding step
  returns ys b = rw b

-- The rest of a Stop, on its own.
abbrev going_on : List Event
going_on = goes_on 0 ∷ goes_on 0 ∷ []

module _ (m : ℕ) where
  going_on-returns :
      {c d : ℕ} {w : Stopper} (r : Bool) (ys : List ℕ)
      → Awaits c d w
      → is_closed d ys ≡ true
      → (run going_on (state r c d m ys [] (w ∷ []))).stoppers ≡ []
  unfolding run step
  going_on-returns {c} {d} r ys will_await b = ap (λ s. s.stoppers) (returns r c d m ys ys b)
  going_on-returns {c} {d} r ys awaits b =
      ap (λ s. (step (goes_on 0) s).stoppers) (returns r c d m ys ys b)

  -- A goroutine that is not yet in its select is there after two moves.
  to_select :
      {r : Bool} {c d : ℕ} {xs : List ℕ} {g : Goroutine} {ws : List Stopper}
      → Fits c d g
      → run (moves 0 begins ∷ moves 0 selects ∷ []) (state r c d m xs (g ∷ []) ws)
        ≡ state r c d m xs (selecting d c ∷ []) ws
  unfolding run step
  to_select spawned_fits = refl
  to_select outside_fits = refl
  to_select selecting_fits = refl

  phase-winding_down :
      {r : Bool} {c d : ℕ} {xs : List ℕ} {gs : List Goroutine} {ws : List Stopper}
      → Phase c d r xs gs ws
      → (run winding_down (state r c d m xs gs ws)).stoppers ≡ []
  unfolding run step
  phase-winding_down at_rest = refl
  phase-winding_down (up {xs} f a b b') =
      ap (λ s. (run (moves 0 told ∷ going_on) s).stoppers) (to_select f)
      ∙ ap (λ s. (run going_on s).stoppers) (told-open true _ _ m xs b)
  phase-winding_down (given_up b b') = refl
  phase-winding_down (ending {xs} {w} f w' b b') =
      ap (λ s. (run (moves 0 told ∷ going_on) s).stoppers) (to_select f)
      ∙ ap (λ s. (run going_on s).stoppers) (told-closed false _ _ m xs w b b')
      ∙ going_on-returns false _ w' (is_closed_here _ xs)
  phase-winding_down (ended w b) = going_on-returns false _ w b

phase-IsAlone :
    {r : Bool} {c d : ℕ} {xs : List ℕ} {gs : List Goroutine} {ws : List Stopper}
    → Phase c d r xs gs ws
    → (length gs ≤ 1) × ((r ≡ true) ⊎ ((is_empty ws ≡ false) ⊎ (gs ≡ [])))
phase-IsAlone at_rest = (omega arith, inr (inr refl))
phase-IsAlone (up f a b b') = (omega arith, inl refl)
phase-IsAlone (given_up b b') = (omega arith, inl refl)
phase-IsAlone (ending f w b b') = (omega arith, inr (inl refl))
phase-IsAlone (ended w b) = (omega arith, inr (inr refl))

-- From the scheduler's first state, however Start, Stop, the loop's goroutines, the ticker and the
-- contexts interleave, if no Start comes before the Stops under way have returned: no channel is
-- closed twice; there is at most one goroutine of the loop; when the scheduler does not run and no
-- Stop is under way there is none; and a Stop under way returns once the loop takes its stop case
-- and both go on, without another tick.
pub stop_ends_loop : (es : List Event) → is_orderly es no_loops ≡ true → IsAlone (run es no_loops)
stop_ends_loop es h =
    let v = run-Inv es no_loops no_loops-Inv h in
    let alone = phase-IsAlone v.phase in
    record {
      no_panic = v.calm;
      one_loop = alone.0;
      stopped = alone.1;
      stop_returns =
          subst (λ p. (run winding_down (record (run es no_loops) { panicked = p })).stoppers ≡ [])
            (sym v.calm) (phase-winding_down (run es no_loops).made v.phase);
    }
