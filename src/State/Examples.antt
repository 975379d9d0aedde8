-- ===== src/State/Examples.antt =====
-- The theorems on the state manager at concrete inputs.
use ultiproxy.Base.{
  ◌≡◌, refl, true, none, some, List, [], ◌∷◌, Text, pos, bytes, arith, lookup, insert, text_eq,
  int_incr, time_sub,
}
use ultiproxy.State.Types.{
  AdminState, HealthState, QuotaState, CircuitState, CredentialState, ProviderRuntime,
  RuntimeSnapshot, zero_runtime,
}
use ultiproxy.State.Manager.{StateManager, Call, probes, fails, step, run, row}
use ultiproxy.State.Circuit.{AllSettled}
use ultiproxy.State.Concurrent.{
  Shared, Moves, IsSound, Mutation, after_load, after_swap, after_retry, no_lost_update, update_all,
  here, quiet, commit, load, swap, retry,
}

abbrev zai : Text
zai = bytes "zai"

abbrev ready : ProviderRuntime
ready = record zero_runtime {
  admin = AdminState.enabled;
  health = HealthState.healthy;
  quota = QuotaState.healthy;
  circuit = CircuitState.closed;
  credential = CredentialState.valid;
}

abbrev stopped : ProviderRuntime
stopped = record ready { admin = AdminState.disabled }

abbrev broken : ProviderRuntime
broken = record ready { circuit = CircuitState.opened; circuit_opened_at = 1000 }

abbrev probing : ProviderRuntime
probing = record broken { circuit = CircuitState.half_open; probe_in_flight = true }

abbrev manager : ProviderRuntime → StateManager
manager p = record {
  snapshot = record { version = 1; providers = (zai, p) ∷ []; models = [] };
  open_duration = pos 30;
  failure_threshold = pos 2;
}

-- Two failures open the circuit of a threshold of 2, and no probe is granted at once.
abbrev history : List Call
history = fails zai 10 none ∷ fails zai 20 none ∷ probes zai 30 ∷ []

history_opens :
    row zai (run (manager ready) history)
    ≡ some (record ready {
      circuit = CircuitState.opened;
      health = HealthState.degraded;
      circuit_opened_at = 20;
      last_attempt = 20;
      observed_at = 20;
      consecutive_failure = pos 2;
    })
unfolding run step lookup insert text_eq int_incr time_sub
history_opens = refl

manager-AllSettled : AllSettled (manager ready)
unfolding lookup
manager-AllSettled j p e = record { probe_half_open = ground arith; one_streak = ground arith }

abbrev empty : RuntimeSnapshot
empty = record { version = 1; providers = []; models = [] }

abbrev start : Shared
start = record { address = 0; current = empty; next_address = 1; loaded = λ t. none }

start-IsSound : IsSound start
start-IsSound = record { fresh = omega arith; known = λ t a old e. cc }

abbrev drop_all : Mutation
drop_all s = record s { providers = [] }

abbrev add_zai : Mutation
add_zai s = record s { providers = (zai, ready) ∷ s.providers }

-- Two goroutines load, the first swaps, the second has to load again.
abbrev both_loaded : Shared
both_loaded = after_load (after_load start 0) 1

abbrev first_swapped : Shared
first_swapped = after_swap both_loaded 0 add_zai empty

abbrev second_loaded : Shared
second_loaded = after_load (after_retry first_swapped 1) 1

abbrev second_swapped : Shared
second_swapped = after_swap second_loaded 1 drop_all first_swapped.current

race : Moves start (add_zai ∷ drop_all ∷ []) second_swapped
race =
    commit drop_all
      (quiet
        (quiet
          (commit add_zai (quiet (quiet here (load 0)) (load 1)) (swap 0 add_zai 0 empty refl refl))
          (retry 1 0 empty refl (omega arith)))
        (load 1))
      (swap 1 drop_all 1 first_swapped.current refl refl)

no_lost_update_example : second_swapped.current ≡ update_all (add_zai ∷ drop_all ∷ []) empty
no_lost_update_example = no_lost_update start-IsSound race
