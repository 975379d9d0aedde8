-- ===== src/Server/Timeouts/Examples.antt =====
-- A timeout that is set, and a restart.
use ultiproxy.Base.{
  ◌*◌, ◌≡◌, refl, true, Option, none, some, List, [], ◌∷◌, Text, bytes, Duration, pos, negsuc,
  second, lookup, insert, text_eq,
}
use ultiproxy.Server.Timeouts.{
  TimeoutManager, holds, new_timeout_manager, load_config, set, persist_timeouts, shown,
}
use ultiproxy.Server.Timeouts.Positive.{all_positive}
use ultiproxy.Server.Timeouts.Restart.{set_survives}

-- A print of durations, for want of Go's.
abbrev show : Duration → Text
show (pos n) = n ∷ []
show (negsuc n) = n ∷ 0 ∷ []

abbrev parse : Text → Option Duration
parse (n ∷ []) = some (pos n)
parse (n ∷ m ∷ []) = some (negsuc n)
parse _ = none

reads_back : (d : Duration) → parse (show d) ≡ some d
reads_back (pos n) = refl
reads_back (negsuc n) = refl

abbrev vllm : Text
vllm = bytes "vllm"

abbrev config : List (Text × Text)
config = (bytes "zai", show (pos (30 * second))) ∷ []

abbrev tm : TimeoutManager
tm = record { timeouts = []; default_dur = pos (120 * second); has_path = true; file = none }

abbrev live : TimeoutManager
live = (set show vllm (pos (600 * second)) true tm).0

set_survives_example :
    let (restarted, e) =
      new_timeout_manager parse config
        (pos 0)
        true
        (holds ((vllm, show (pos (600 * second))) ∷ [])) in
    (e ≡ none)
    × (lookup vllm restarted.timeouts ≡ elim (lookup vllm live.timeouts) [
      | none ↦ lookup vllm (load_config parse config)
      | some x ↦ some x
    ])
unfolding set persist_timeouts shown insert text_eq all_positive
set_survives_example =
    set_survives parse show config (pos 0) vllm (pos (600 * second)) true tm
      ((vllm, show (pos (600 * second))) ∷ []) vllm reads_back
      (record { explicit = refl; default = refl }) refl refl refl
