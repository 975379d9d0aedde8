-- ===== src/Quota/Scheduler/Loop.antt =====
-- Start, Stop and the loop of pkg/quota/scheduler.go as one interleaving of critical sections: the
-- channels are numbers, 0 is nil, and a channel is made with the next number. Stop reads the field
-- doneChan after it has given the mutex up, and the loop reads both fields without it. The tick
-- itself is Rounds.tick.
pub mod Phases
pub mod Steps
pub mod Alone
use ultiproxy.Base.{
  ℕ, zero, suc, ◌+◌, Bool, true, false, List, [], ◌∷◌, ◌++◌, ◌==◌, ◌||◌, if◌then◌else◌,
}

-- Where a goroutine of the loop is: not begun yet, at the top of the for or in a tick, or blocked
-- in a select. From its begin on it knows the channel that its deferred close takes, and in a
-- select the one it listens to.
pub data Goroutine : Type 0 where
  spawned : Goroutine
  outside : ℕ → Goroutine
  selecting : ℕ → ℕ → Goroutine

-- A call of Stop after its critical section: before its read of doneChan, or on that channel.
pub data Stopper : Type 0 where
  reading : Stopper
  waiting : ℕ → Stopper

-- `made` counts the channels, and `panicked` tells that a closed one was closed again.
pub record Loops : Type 0 where
  pub running : Bool
  pub stop_chan : ℕ
  pub done_chan : ℕ
  pub made : ℕ
  pub closed : List ℕ
  pub goroutines : List Goroutine
  pub stoppers : List Stopper
  pub panicked : Bool

abbrev pub no_loops : Loops
no_loops = record {
  running = false;
  stop_chan = 0;
  done_chan = 0;
  made = 0;
  closed = [];
  goroutines = [];
  stoppers = [];
  panicked = false;
}

unfoldable pub is_closed : ℕ → List ℕ → Bool
is_closed c [] = false
is_closed c (x ∷ xs) = (x == c) || is_closed c xs

abbrev pub close_chan : ℕ → Loops → Loops
close_chan c s =
    if is_closed c s.closed
    then record s { panicked = true }
    else record s { closed = c ∷ s.closed }

abbrev pub start : Loops → Loops
start s = if s.running then s else record s {
  running = true;
  stop_chan = s.made + 1;
  done_chan = s.made + 2;
  made = s.made + 2;
  goroutines = s.goroutines ++ spawned ∷ [];
}

-- Stop up to the place where it gives the mutex up.
abbrev pub stop : Loops → Loops
stop s =
    if s.running
    then close_chan s.stop_chan
        (record s { running = false; stoppers = s.stoppers ++ reading ∷ [] })
    else s

-- What a goroutine of the loop does next. `told` is the case of stopChan, `cancelled` that of the
-- context, which may be done at any time, `ticked` that of the ticker.
pub data Move : Type 0 where
  begins selects told cancelled ticked : Move

-- The goroutine after a move, or `[]` when its deferred close has run.
abbrev pub move : Move → Goroutine → Loops → Loops × List Goroutine
move begins spawned s = (s, outside s.done_chan ∷ [])
move selects (outside d) s = (s, selecting d s.stop_chan ∷ [])
move told (selecting d c) s =
    if is_closed c s.closed then (close_chan d s, []) else (s, selecting d c ∷ [])
move cancelled (selecting d c) s = (close_chan d s, [])
move ticked (selecting d c) s = (s, outside d ∷ [])
move m g s = (s, g ∷ [])

-- The i-th goroutine moves; those before it are kept as they are.
abbrev pub move_at : List Goroutine → ℕ → Move → List Goroutine → Loops → Loops
move_at before i m [] s = s
move_at before zero m (g ∷ gs) s =
    let r = move m g s in record r.0 { goroutines = before ++ (r.1 ++ gs) }
move_at before (suc i) m (g ∷ gs) s = move_at (before ++ g ∷ []) i m gs s

-- The rest of Stop: the read of doneChan, then the receive, which ends when the channel is closed.
abbrev pub stopper_step : Stopper → Loops → List Stopper
stopper_step reading s = waiting s.done_chan ∷ []
stopper_step (waiting d) s = if is_closed d s.closed then [] else waiting d ∷ []

abbrev pub stopper_at : List Stopper → ℕ → List Stopper → Loops → Loops
stopper_at before i [] s = s
stopper_at before zero (w ∷ ws) s = record s { stoppers = before ++ (stopper_step w s ++ ws) }
stopper_at before (suc i) (w ∷ ws) s = stopper_at (before ++ w ∷ []) i ws s

-- An event that is not possible leaves the state as it is.
pub data Event : Type 0 where
  starts stops : Event
  moves : ℕ → Move → Event
  goes_on : ℕ → Event

unfoldable pub step : Event → Loops → Loops
step starts s = start s
step stops s = stop s
step (moves i m) s = move_at [] i m s.goroutines s
step (goes_on i) s = stopper_at [] i s.stoppers s

unfoldable pub run : List Event → Loops → Loops
run [] s = s
run (e ∷ es) s = run es (step e s)
