-- ===== src/Quota/Scheduler/Examples.antt =====
-- Polls at concrete inputs, with integers for floats.
use ultiproxy.Base.{
  lookup, ◌≡◌, refl, none, some, false, text_eq, true, List, [], ◌∷◌, Text, bytes, ℤ, pos, second,
  ◌*◌, Float, ltb_ℤ, leb_ℤ, if◌then◌else◌, arith,
}
use ultiproxy.State.Types.{AdminState, zero_runtime}
use ultiproxy.State.Manager.{StateManager}
use ultiproxy.Quota.Scheduler.{PollPolicy, QuotaSnapshot, Outcome, poll_failed, polled}
use ultiproxy.Quota.Scheduler.Worst.{IsOrdered}
use ultiproxy.Quota.Scheduler.Rounds.{
  init_from, has_quota, Scheduler, begins, finishes, called, new_scheduler, poll_all, poll_called,
  poll_named, tick, is_due,
}
use ultiproxy.Quota.Scheduler.Rounds.Alone.{own, polled_as_alone}
use ultiproxy.Quota.Scheduler.Rounds.Due.{tick_polls_due}
use ultiproxy.Quota.Scheduler.Loop as Loop
use ultiproxy.Quota.Scheduler.Loop.{
  spawned, outside, selecting, starts, stops, moves, goes_on, begins, selects, told, ticked,
  no_loops,
}
use ultiproxy.Quota.Scheduler.Loop.Phases.{is_orderly}
use ultiproxy.Quota.Scheduler.Loop.Alone.{IsAlone, stop_ends_loop}
use ultiproxy.Provider.Registry as Registry
use ultiproxy.Provider.Registry.{Provider, Registry}

abbrev integers : Float
integers = record {
  F = ℤ;
  of_int = λ n. n;
  to_int = λ n. n;
  add = λ x y. y;
  sub = λ x y. x;
  mul = λ x y. x;
  lt = ltb_ℤ;
  le = leb_ℤ;
}

integers-IsOrdered : IsOrdered integers
integers-IsOrdered = record {
  up = λ c x y h k. ground arith;
  down = λ c x y h k. ground arith;
  zero_80 = refl;
  zero_100 = refl;
}

-- One window used to 85 percent, and one to 20.
abbrev snap : QuotaSnapshot ℤ
snap = record {
  observed_at = 7;
  windows =
      (record { used_pct = pos 85; remaining = pos 15; limit = pos 100 })
      ∷ (record { used_pct = pos 20; remaining = pos 8; limit = pos 10 })
      ∷ [];
}

abbrev policy : PollPolicy ℤ
policy = record {
  interval = pos (60 * second);
  jitter_ratio = pos 0;
  initial_backoff = pos (2 * second);
  max_backoff = pos (60 * second);
  backoff_factor = pos 2;
  stagger_delay = pos 500000000;
}

abbrev zai : Text
zai = bytes "zai"

-- The operator has disabled the lane.
abbrev sm : StateManager
sm = record {
  snapshot = record {
    version = 1;
    providers = (zai, record zero_runtime { admin = AdminState.disabled }) ∷ [];
    models = [];
  };
  open_duration = pos (30 * second);
  failure_threshold = pos 5;
}

abbrev kimi : Text
kimi = bytes "kimi"

abbrev lane : Text → Provider
lane name = record {
  inference = none;
  quota = some (record { name = name; object = 0 });
  auth = none;
  tools = false;
}

abbrev lanes : Registry
lanes = record { providers = (zai, lane zai) ∷ (kimi, lane kimi) ∷ []; order = zai ∷ kimi ∷ [] }

-- Two lanes, scheduled half a second after each other.
abbrev scheduler : Scheduler ℤ
scheduler =
    new_scheduler integers (pos 0) (some lanes) policy [] none (some sm) (some []) (100 * second)

abbrev outcomes : Text → Outcome ℤ
outcomes name = if text_eq name zai then poll_failed (bytes "timeout") else polled snap (pos 0)

-- The second lane answers while the first one's call is under way.
polled_as_alone_example :
    own zai (
      poll_all integers
        (λ x n. x)
        7
        (λ n. record { now = 9; wall = 9 })
        outcomes
        (begins zai ∷ begins kimi ∷ finishes kimi ∷ finishes zai ∷ [])
        scheduler)
    ≡ own zai
        (poll_called integers
          (λ x n. x)
          zai
          (record { now = 9; wall = 9 })
          (called (outcomes zai))
          scheduler).0
unfolding text_eq lookup new_scheduler init_from has_quota Registry.names Registry.get
polled_as_alone_example =
    polled_as_alone integers (λ x n. x) 7 (λ n. record { now = 9; wall = 9 }) outcomes zai
      (begins zai ∷ begins kimi ∷ finishes kimi ∷ finishes zai ∷ []) scheduler refl refl

tick_polls_due_example :
    own zai
      (tick integers
        (λ x n. x)
        (100 * second)
        (λ n. 9)
        (λ n. called (outcomes n))
        (kimi ∷ zai ∷ [])
        scheduler).0
    ≡ (if is_due integers (λ x n. x) (100 * second) scheduler zai
        then own zai
            (poll_named integers
              (λ x n. x)
              zai
              (record { now = 100 * second; wall = 9 })
              (called (outcomes zai))
              scheduler).0
        else own zai scheduler)
unfolding text_eq
tick_polls_due_example =
    tick_polls_due integers (λ x n. x) (100 * second) (λ n. 9) (λ n. called (outcomes n)) zai
      (kimi ∷ zai ∷ []) scheduler refl

-- A loop that ticks once, a Stop during its next select, and a second loop.
abbrev restart : List Loop.Event
restart =
    starts
    ∷ moves 0 begins
    ∷ moves 0 selects
    ∷ moves 0 ticked
    ∷ moves 0 selects
    ∷ stops
    ∷ moves 0 told
    ∷ goes_on 0
    ∷ goes_on 0
    ∷ starts
    ∷ []

stop_ends_loop_example : IsAlone (Loop.run restart no_loops)
unfolding is_orderly Loop.run Loop.step Loop.is_closed
stop_ends_loop_example = stop_ends_loop restart refl

-- A Start during a Stop that waits for a tick: the old loop listens to the new channel and goes on.
two_loops :
    (Loop.run
      (starts
        ∷ moves 0 begins
        ∷ moves 0 selects
        ∷ moves 0 ticked
        ∷ stops
        ∷ goes_on 0
        ∷ starts
        ∷ moves 0 selects
        ∷ [])
      no_loops).goroutines
    ≡ selecting 2 3 ∷ spawned ∷ []
unfolding Loop.run Loop.step Loop.is_closed
two_loops = refl

-- The same before the first loop has begun: both loops close the second doneChan.
closed_twice :
    (Loop.run
      (starts
        ∷ stops
        ∷ starts
        ∷ moves 0 begins
        ∷ moves 1 begins
        ∷ moves 0 selects
        ∷ moves 1 selects
        ∷ stops
        ∷ moves 0 told
        ∷ moves 0 told
        ∷ [])
      no_loops).panicked
    ≡ true
unfolding Loop.run Loop.step Loop.is_closed
closed_twice = refl
