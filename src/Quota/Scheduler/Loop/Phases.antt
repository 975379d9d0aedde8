-- ===== src/Quota/Scheduler/Loop/Phases.antt =====
-- The states of the scheduler's loop when no Start comes during a Stop: pkg/quota/scheduler.go.
use ultiproxy.Base.{
  ◌≡◌, sym, subst, ℕ, ◌+◌, ◌≤◌, ◌<◌, Bool, true, false, List, [], ◌∷◌, ◌==◌, ◌&&◌, is_empty, arith,
}
use ultiproxy.Quota.Scheduler.Loop.{
  Goroutine, spawned, outside, selecting, Stopper, reading, waiting, Loops, is_closed, close_chan,
  Event, starts, step,
}

-- No Start comes before the Stops under way have returned.
abbrev pub may_come : Event → Loops → Bool
may_come starts s = is_empty s.stoppers
may_come e s = true

unfoldable pub is_orderly : List Event → Loops → Bool
is_orderly [] s = true
is_orderly (e ∷ es) s = may_come e s && is_orderly es (step e s)

module _ (c d : ℕ) where
  pub data Fits : Goroutine → Type 0 where
    spawned_fits : Fits spawned
    outside_fits : Fits (outside d)
    selecting_fits : Fits (selecting d c)

  pub data Awaits : Stopper → Type 0 where
    will_await : Awaits reading
    awaits : Awaits (waiting d)

  -- The states of the loop, by the flag, the closed channels, the goroutines and the Stops.
  pub data Phase : Bool → List ℕ → List Goroutine → List Stopper → Type 0 where
    at_rest : {xs : List ℕ} → Phase false xs [] []
    up :
        {xs : List ℕ} {g : Goroutine}
        → Fits g
        → (d == c) ≡ false
        → is_closed c xs ≡ false
        → is_closed d xs ≡ false
        → Phase true xs (g ∷ []) []
    given_up : {xs : List ℕ} → is_closed c xs ≡ false → is_closed d xs ≡ true → Phase true xs [] []
    ending :
        {xs : List ℕ} {g : Goroutine} {w : Stopper}
        → Fits g
        → Awaits w
        → is_closed c xs ≡ true
        → is_closed d xs ≡ false
        → Phase false xs (g ∷ []) (w ∷ [])
    ended :
        {xs : List ℕ} {w : Stopper} → Awaits w → is_closed d xs ≡ true → Phase false xs [] (w ∷ [])

-- The channels so far, and that none made later is closed.
pub record Made (c d m : ℕ) (xs : List ℕ) : Type 0 where
  pub stop_made : c ≤ m
  pub done_made : d ≤ m
  pub fresh : (n : ℕ) → m < n → is_closed n xs ≡ false

pub record Inv (s : Loops) : Type 0 where
  pub made : Made s.stop_chan s.done_chan s.made s.closed
  pub calm : s.panicked ≡ false
  pub phase : Phase s.stop_chan s.done_chan s.running s.closed s.goroutines s.stoppers

abbrev pub state : Bool → ℕ → ℕ → ℕ → List ℕ → List Goroutine → List Stopper → Loops
state r c d m xs gs ws = record {
  running = r;
  stop_chan = c;
  done_chan = d;
  made = m;
  closed = xs;
  goroutines = gs;
  stoppers = ws;
  panicked = false;
}

pub is_closed_here : (c : ℕ) (xs : List ℕ) → is_closed c (c ∷ xs) ≡ true
unfolding is_closed
is_closed_here c xs = ground arith

pub is_closed_there :
    (c x : ℕ) (xs : List ℕ)
    → (x == c) ≡ false
    → is_closed c xs ≡ false
    → is_closed c (x ∷ xs) ≡ false
unfolding is_closed
is_closed_there c x xs h k = ground arith

pub is_closed_more : (c x : ℕ) (xs : List ℕ) → is_closed c xs ≡ true → is_closed c (x ∷ xs) ≡ true
unfolding is_closed
is_closed_more c x xs h = ground arith

pub started-Made :
    (m : ℕ) (xs : List ℕ)
    → ((n : ℕ) → m < n → is_closed n xs ≡ false)
    → Made (m + 1) (m + 2) (m + 2) xs
started-Made m xs fr = record {
  stop_made = omega arith;
  done_made = omega arith;
  fresh = λ n h. fr n (omega arith);
}

-- A channel that is closed now, which is one of those made.
pub closed-Made : {c d m : ℕ} {xs : List ℕ} (x : ℕ) → x ≤ m → Made c d m xs → Made c d m (x ∷ xs)
unfolding is_closed
closed-Made x le k = record {
  stop_made = k.stop_made;
  done_made = k.done_made;
  fresh = λ n h. ground (arith, k.fresh n h);
}

-- The close of a channel that is open does not panic.
pub close_chan-open :
    (P : Loops → Type 0) (x : ℕ) (s : Loops)
    → is_closed x s.closed ≡ false
    → P (record s { closed = x ∷ s.closed })
    → P (close_chan x s)
close_chan-open P x s e p = subst P (sym (rw e)) p
