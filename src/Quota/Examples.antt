-- ===== src/Quota/Examples.antt =====
-- The theorems on the circuit breaker at concrete inputs.
use ultiproxy.Base.{
  ◌≡◌, refl, false, none, some, List, [], ◌∷◌, Text, Time, ℤ, pos, bytes, arith, lookup, text_eq,
  Float, ltb_ℤ, leb_ℤ,
}
use ultiproxy.State.Types.{
  AdminState, HealthState, QuotaState, CircuitState, CredentialState, ProviderRuntime, zero_runtime,
}
use ultiproxy.Quota.LimitError.{LimitError, burst_rate}
use ultiproxy.Quota.Breaker.{
  Breaker, Clock, Call, allows, succeeds, fails, limits, run, breaker_row,
}
use ultiproxy.Quota.Breaker.Admin.{runtime_row}
use ultiproxy.Quota.Breaker.Agree.{circuits_agree, Linked}

-- Whole numbers in the place of floats; nothing here is multiplied but by 1.
abbrev whole : Float
whole = record {
  F = ℤ;
  of_int = λ n. n;
  to_int = λ n. n;
  add = λ x y. y;
  sub = λ x y. x;
  mul = λ x y. x;
  lt = ltb_ℤ;
  le = leb_ℤ;
}

abbrev zai : Text
zai = bytes "zai"

abbrev at : Time → Clock
at t = record { now = t; sync_now = t; sm_now = t }

abbrev runtime : AdminState → ProviderRuntime
runtime a = record zero_runtime {
  admin = a;
  health = HealthState.healthy;
  quota = QuotaState.healthy;
  circuit = CircuitState.closed;
  credential = CredentialState.valid;
}

abbrev breaker : AdminState → Breaker ℤ
breaker a = record {
  cfg = record { default_open_duration = pos 30; failure_threshold = pos 5; jitter_ratio = pos 0 };
  sm = some (record {
    snapshot = record { version = 1; providers = (zai, runtime a) ∷ []; models = [] };
    open_duration = pos 30;
    failure_threshold = pos 5;
  });
  states = [];
}

abbrev limited : LimitError
limited = record {
  scope = bytes "requests";
  kind = burst_rate;
  retry_at = none;
  retry_after = pos 60;
  permanent = false;
  provider = zai;
  model = [];
  credential = [];
  cause = none;
}

abbrev history : List (Call ℤ)
history =
    allows zai (at 1) (pos 0)
    ∷ limits limited (bytes "limited") (at 2)
    ∷ allows zai (at 62) (pos 0)
    ∷ succeeds zai (at 63)
    ∷ fails zai (at 64) none
    ∷ []

abbrev tripped : Breaker ℤ
tripped = record (breaker AdminState.enabled) {
  states =
      (
        zai,
        record {
          circuit = CircuitState.opened;
          opened_at = 2;
          cooldown = pos 60;
          probe_in_flight = false;
          consecutive_success = pos 0;
          consecutive_failure = pos 0;
        },
      )
      ∷ [];
}

breaker-Linked : Linked 0 zai (breaker AdminState.enabled)
unfolding lookup text_eq
breaker-Linked = (
  refl,
  runtime AdminState.enabled,
  refl,
  record {
    same = refl;
    known = λ e. cc;
    counted = omega arith;
    bounded = omega arith;
    natural = (refl, refl);
  },
)

circuits_agree_example :
    let b = run whole (breaker AdminState.enabled) history in
    (p : ProviderRuntime) × (runtime_row zai b.sm ≡ some p)
    × ((breaker_row zai b).circuit ≡ p.circuit)
circuits_agree_example =
    circuits_agree whole (breaker AdminState.enabled) history zai breaker-Linked (omega arith)
