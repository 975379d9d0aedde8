-- ===== src/Quota/Scheduler/Loop/Steps.antt =====
-- Each step of the scheduler's loop keeps its phases: pkg/quota/scheduler.go.
use ultiproxy.Base.{
  ◌≡◌, refl, sym, subst, ℕ, zero, suc, ◌+◌, Bool, true, false, List, [], ◌∷◌, if_both, ◌++◌,
  is_empty, arith,
}
use ultiproxy.Quota.Scheduler.Loop.{
  Goroutine, Stopper, reading, Loops, no_loops, is_closed, close_chan, Move, begins, selects, told,
  cancelled, ticked, Event, starts, stops, moves, goes_on, step, run,
}
use ultiproxy.Quota.Scheduler.Loop.Phases.{
  is_orderly, may_come, Fits, spawned_fits, outside_fits, selecting_fits, will_await, awaits, Phase,
  at_rest, up, given_up, ending, ended, Made, Inv, state, close_chan-open, started-Made,
  closed-Made, is_closed_here, is_closed_there, is_closed_more,
}

-- The states after a step, each with what the step has made of the channels.
module _ {c d m : ℕ} {xs : List ℕ} (k : Made c d m xs) where
  kept :
      {r : Bool} {gs : List Goroutine} {ws : List Stopper}
      → Phase c d r xs gs ws
      → Inv (state r c d m xs gs ws)
  kept p = record { made = k; calm = refl; phase = p }

  start-Inv :
      {r : Bool} {gs : List Goroutine} {ws : List Stopper}
      → Phase c d r xs gs ws
      → is_empty ws ≡ true
      → Inv (step starts (state r c d m xs gs ws))
  unfolding step
  start-Inv at_rest e = record {
    made = started-Made m xs k.fresh;
    calm = refl;
    phase =
        up spawned_fits (ground arith) (k.fresh (m + 1) (omega arith))
          (k.fresh (m + 2) (omega arith));
  }
  start-Inv (up f a b b') e = kept (up f a b b')
  start-Inv (given_up b b') e = kept (given_up b b')
  start-Inv (ending f w b b') e = ground arith
  start-Inv (ended w b) e = ground arith

  stop-Inv :
      {r : Bool} {gs : List Goroutine} {ws : List Stopper}
      → Phase c d r xs gs ws
      → Inv (step stops (state r c d m xs gs ws))
  unfolding step
  stop-Inv at_rest = kept at_rest
  stop-Inv (up {g} f a b b') =
      close_chan-open Inv c (state false c d m xs (g ∷ []) (reading ∷ [])) b record {
        made = closed-Made c k.stop_made k;
        calm = refl;
        phase =
            ending f will_await (is_closed_here c xs) (is_closed_there d c xs (ground arith) b');
      }
  stop-Inv (given_up b b') =
      close_chan-open Inv c (state false c d m xs [] (reading ∷ [])) b record {
        made = closed-Made c k.stop_made k;
        calm = refl;
        phase = ended will_await (is_closed_more d c xs b');
      }
  stop-Inv (ending f w b b') = kept (ending f w b b')
  stop-Inv (ended w b) = kept (ended w b)

  -- The loop's end, which close_chan-open doneChan.
  end-Inv :
      {r : Bool} {ws : List Stopper} (gs : List Goroutine)
      → is_closed d xs ≡ false
      → Phase c d r (d ∷ xs) [] ws
      → Inv (record (close_chan d (state r c d m xs gs ws)) { goroutines = [] })
  end-Inv {r} {ws} gs b p =
      close_chan-open (λ s. Inv (record s { goroutines = [] })) d (state r c d m xs gs ws) b
        record { made = closed-Made d k.done_made k; calm = refl; phase = p }

  -- A move of the one goroutine, if its phase is that of any place it may be at, and has an end.
  move-Inv :
      {r : Bool} {ws : List Stopper} {g : Goroutine} (mv : Move)
      → Fits c d g
      → is_closed d xs ≡ false
      → ((h : Goroutine) → Fits c d h → Phase c d r xs (h ∷ []) ws)
      → Phase c d r (d ∷ xs) [] ws
      → Inv (step (moves 0 mv) (state r c d m xs (g ∷ []) ws))
  unfolding step
  move-Inv begins spawned_fits b p q = kept (p _ outside_fits)
  move-Inv begins outside_fits b p q = kept (p _ outside_fits)
  move-Inv begins selecting_fits b p q = kept (p _ selecting_fits)
  move-Inv selects spawned_fits b p q = kept (p _ spawned_fits)
  move-Inv selects outside_fits b p q = kept (p _ selecting_fits)
  move-Inv selects selecting_fits b p q = kept (p _ selecting_fits)
  move-Inv told spawned_fits b p q = kept (p _ spawned_fits)
  move-Inv told outside_fits b p q = kept (p _ outside_fits)
  move-Inv {r} {ws} told selecting_fits b p q =
      if_both (λ (z : Loops × List Goroutine). Inv (record z.0 { goroutines = z.1 ++ [] }))
        (is_closed c xs) _ _ (end-Inv _ b q) (kept (p _ selecting_fits))
  move-Inv cancelled spawned_fits b p q = kept (p _ spawned_fits)
  move-Inv cancelled outside_fits b p q = kept (p _ outside_fits)
  move-Inv cancelled selecting_fits b p q = end-Inv _ b q
  move-Inv ticked spawned_fits b p q = kept (p _ spawned_fits)
  move-Inv ticked outside_fits b p q = kept (p _ outside_fits)
  move-Inv ticked selecting_fits b p q = kept (p _ outside_fits)

  moves-Inv :
      {r : Bool} {gs : List Goroutine} {ws : List Stopper} (i : ℕ) (mv : Move)
      → Phase c d r xs gs ws
      → Inv (step (moves i mv) (state r c d m xs gs ws))
  unfolding step
  moves-Inv i mv at_rest = kept at_rest
  moves-Inv zero mv (up f a b b') =
      move-Inv mv f b' (λ h f'. up f' a b b')
        (given_up (is_closed_there c d xs a b) (is_closed_here d xs))
  moves-Inv (suc i) mv (up f a b b') = kept (up f a b b')
  moves-Inv i mv (given_up b b') = kept (given_up b b')
  moves-Inv zero mv (ending f w b b') =
      move-Inv mv f b' (λ h f'. ending f' w b b') (ended w (is_closed_here d xs))
  moves-Inv (suc i) mv (ending f w b b') = kept (ending f w b b')
  moves-Inv i mv (ended w b) = kept (ended w b)

  goes_on-Inv :
      {r : Bool} {gs : List Goroutine} {ws : List Stopper} (i : ℕ)
      → Phase c d r xs gs ws
      → Inv (step (goes_on i) (state r c d m xs gs ws))
  unfolding step
  goes_on-Inv i at_rest = kept at_rest
  goes_on-Inv i (up f a b b') = kept (up f a b b')
  goes_on-Inv i (given_up b b') = kept (given_up b b')
  goes_on-Inv zero (ending f will_await b b') = kept (ending f awaits b b')
  goes_on-Inv zero (ending f awaits b b') = subst Inv (sym (rw b')) (kept (ending f awaits b b'))
  goes_on-Inv (suc i) (ending f w b b') = kept (ending f w b b')
  goes_on-Inv zero (ended will_await b) = kept (ended awaits b)
  goes_on-Inv zero (ended awaits b) = subst Inv (sym (rw b)) (kept at_rest)
  goes_on-Inv (suc i) (ended w b) = kept (ended w b)

-- What holds of the state without a panic holds of a state that is calm.
calmly :
    (e : Event) (s : Loops)
    → s.panicked ≡ false
    → Inv (step e (record s { panicked = false }))
    → Inv (step e s)
calmly e s q v = subst (λ p. Inv (step e (record s { panicked = p }))) (sym q) v

step-Inv : (e : Event) (s : Loops) → Inv s → may_come e s ≡ true → Inv (step e s)
step-Inv starts s v h = calmly starts s v.calm (start-Inv v.made v.phase h)
step-Inv stops s v h = calmly stops s v.calm (stop-Inv v.made v.phase)
step-Inv (moves i mv) s v h = calmly (moves i mv) s v.calm (moves-Inv v.made i mv v.phase)
step-Inv (goes_on i) s v h = calmly (goes_on i) s v.calm (goes_on-Inv v.made i v.phase)

pub run-Inv : (es : List Event) (s : Loops) → Inv s → is_orderly es s ≡ true → Inv (run es s)
unfolding run is_orderly
run-Inv [] s v h = v
run-Inv (e ∷ es) s v h =
    let ok : (may_come e s ≡ true) × (is_orderly es (step e s) ≡ true) = ground (arith, h) in
    run-Inv es (step e s) (step-Inv e s v ok.0) ok.1

pub no_loops-Inv : Inv no_loops
unfolding is_closed
no_loops-Inv = record {
  made = record { stop_made = omega arith; done_made = omega arith; fresh = λ n h. refl };
  calm = refl;
  phase = at_rest;
}
