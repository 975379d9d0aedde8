-- ===== src/Quota/Observer/Examples.antt =====
-- The theorems on the classifier and the observer at concrete answers.
use ultiproxy.Base.{
  ◌≡◌, refl, ◌+◌, true, not, ◌&&◌, leb, none, some, [], ◌∷◌, Text, bytes, ℤ, pos, Time, ltb_ℤ,
  leb_ℤ, Float, arith, text_eq, lookup, contains, starts_with, to_lower, lower_byte,
}
use ultiproxy.Provider.Sse.{trim_space, trim_left, trim_right}
use ultiproxy.Quota.Breaker.{Breaker, Clock, record_limit_error, allow_probe, admin_disabled}
use ultiproxy.Quota.Breaker.Probe.{opens}
use ultiproxy.Quota.Classifier.{Parsers, classify, kind_of, any_of, told}
use ultiproxy.Quota.Classifier.Timing.{Header, get_header}
use ultiproxy.Quota.Observer.{Observer, answer, is_rate_limit, round_trip}
use ultiproxy.Quota.Observer.Honoured.{answer_error, answer_honoured}

-- Whole numbers in the place of floats.
abbrev whole : Float
whole = record {
  F = ℤ;
  of_int = λ n. n;
  to_int = λ n. n;
  add = λ x y. y;
  sub = λ x y. x;
  mul = λ x y. x;
  lt = ltb_ℤ;
  le = leb_ℤ;
}

abbrev zai : Text
zai = bytes "zai"

-- Parsers that read the one header of the answer below and no JSON.
abbrev parsers : Parsers
parsers = record {
  parse_seconds = λ t. some (pos 30);
  parse_time = λ t. none;
  whole = λ t. t;
  unmarshal = λ t. none;
}

abbrev headers : Header
headers = (bytes "Retry-After", bytes "30" ∷ []) ∷ []

abbrev at : Time → Clock
at t = record { now = t; sync_now = t; sm_now = t }

abbrev breaker : Breaker ℤ
breaker = record {
  cfg = record { default_open_duration = pos 30; failure_threshold = pos 5; jitter_ratio = pos 0 };
  sm = none;
  states = [];
}

abbrev observer : Observer ℤ
observer = record {
  sm = none;
  breaker = some breaker;
  attempts = none;
  observations = [];
  store = none;
}

header_found : get_header headers (bytes "Retry-After") (bytes "Retry-After") ≡ 51 ∷ 48 ∷ []
unfolding get_header lookup text_eq
header_found = refl

status_limited : is_rate_limit 429 headers ≡ true
unfolding is_rate_limit
status_limited = refl

kind_opens : opens (classify parsers 0 429 headers [] zai).kind ≡ true
unfolding classify kind_of any_of told contains starts_with trim_space trim_left trim_right to_lower
    lower_byte text_eq
kind_opens = refl

answer_honoured_example :
    let e = answer_error parsers zai [] 0 429 headers [] in
    let b' = record_limit_error e [] (at 2) breaker in
    ((round_trip whole
        (λ x y. x)
        (λ t. none)
        parsers
        (λ l. [])
        zai
        []
        0
        (at 2)
        (answer 429 headers [])
        observer).breaker
      ≡ some b')
    × ((allow_probe whole zai (at 31) (pos 0) b').1
        ≡ (not (admin_disabled zai b'.sm) && leb (2 + 30) 31))
answer_honoured_example =
    answer_honoured whole (λ x y. x) (λ t. none) parsers (λ l. []) zai [] 0 (at 2) (at 31) (pos 0)
      429 headers [] 51 (48 ∷ []) 29 observer breaker refl refl status_limited header_found refl
      kind_opens (omega arith) refl
