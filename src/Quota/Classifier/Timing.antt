-- ===== src/Quota/Classifier/Timing.antt =====
-- The retry timing of pkg/quota/classifier.go and getHeader of pkg/quota/header_helper.go.
-- http.ParseTime and the float64 of a text are parameters.
use ultiproxy.Base.{
  ℕ, zero, ◌+◌, ◌*◌, Option, none, some, List, [], ◌∷◌, Text, bytes, ℤ, pos, negsuc, Time, Duration,
  time_sub, second, ltb_ℤ, ltb, to_lower, is_empty, text_eq, if◌then◌else◌, pos_part, or_else,
  lookup,
}
use ultiproxy.Base.Parse.{parse_int, wrapped}

-- http.Header: the values of each key, in canonical or any other spelling.
abbrev pub Header : Type 0
Header = List (Text × List Text)

abbrev first_value : List Text → Text
first_value [] = []
first_value (v ∷ vs) = v

-- The first row whose key is the same but for its case and that has a value.
unfoldable pub any_case : Text → Header → Text
any_case key [] = []
any_case key ((k, []) ∷ h) = any_case key h
any_case key ((k, v ∷ vs) ∷ h) =
    let rest = any_case key h in if text_eq (to_lower k) (to_lower key) then v else rest

-- `canonical` is the key's canonical spelling, under which http.Header.Get looks.
unfoldable pub get_header : Header → Text → Text → Text
get_header h canonical key =
    let val = first_value (or_else (lookup canonical h) []) in
    if is_empty val then any_case key h else val

-- The retry timing: a duration and a time.
abbrev pub Timing : Type 0
Timing = Duration × Option Time

abbrev pub no_timing : Timing
no_timing = (pos 0, none)

-- A time in the future gives the time until it.
abbrev until : Time → Time → Timing
until now t = let diff = time_sub t now in (if ltb_ℤ (pos 0) diff then diff else pos 0, some t)

-- time.Unix(n, 0), in nanoseconds after the zero time.
abbrev pub unix_time : ℕ → Time
unix_time n = (62135596800 + n) * second

-- 1. What http.ParseTime and strconv.ParseFloat, times a second, read.
module _ (parse_seconds : Text → Option Duration) (parse_time : Text → Option Time) where
  abbrev by_date : Time → Option Time → Timing
  by_date now none = no_timing
  by_date now (some t) = until now t

  abbrev by_seconds : Time → Text → Option Duration → Timing
  by_seconds now ra (some d) = (d, none)
  by_seconds now ra none = by_date now (parse_time ra)

  -- Retry-After: seconds that are not negative, or a date.
  unfoldable pub retry_after_timing : Time → Text → Timing
  retry_after_timing now ra =
      if is_empty ra then no_timing else by_seconds now ra (parse_seconds ra)

abbrev millis : Option ℤ → Duration
millis (some (pos n)) = wrapped (n * 1000000)
millis (some (negsuc n)) = pos 0
millis none = pos 0

-- retry-after-ms, where no duration is known yet.
unfoldable pub millis_timing : Text → Timing → Timing
millis_timing rams (pos zero, at) = (if is_empty rams then pos 0 else millis (parse_int rams), at)
millis_timing rams t = t

-- A reset header: seconds since 1970, if they are more than a billion, or a number of seconds.
-- `none` for a value that the loop passes over.
unfoldable pub reset_timing : Time → Text → Option Timing
reset_timing now val = elim (parse_int val) [
  | none ↦ none
  | some (negsuc n) ↦ none
  | some (pos n) ↦
      if ltb 1000000000 n
      then some (until now (unix_time n))
      else if ltb 0 n
      then some (pos (n * second), none)
      else none
]

-- The loop over the reset headers, whose values are given.
abbrev found_reset : Option Timing → Timing → Timing → Timing
found_reset none before rest = rest
found_reset (some (d, none)) (d', at) rest = (d, at)
found_reset (some (d, some t)) before rest = (d, some t)

unfoldable pub reset_loop : Time → List Text → Timing → Timing
reset_loop now [] t = t
reset_loop now (val ∷ vals) t =
    let rest = reset_loop now vals t in
    if is_empty val then rest else found_reset (reset_timing now val) t rest

abbrev if_unknown : Timing → Timing → Timing
if_unknown (pos zero, at) t = t
if_unknown (d, at) t = (d, at)

-- A duration without a time gives the time.
unfoldable pub with_time : Time → Timing → Timing
with_time now (d, some t) = (d, some t)
with_time now (d, none) = if ltb_ℤ (pos 0) d then (d, some (now + pos_part d)) else (d, none)

module _ (parse_seconds : Text → Option Duration) (parse_time : Text → Option Time) where
  -- The timing of all headers.
  unfoldable pub timing : Time → Header → Timing
  timing now h =
      let first =
        retry_after_timing parse_seconds parse_time now
          (get_header h (bytes "Retry-After") (bytes "Retry-After")) in
      let second_ =
        millis_timing (get_header h (bytes "Retry-After-Ms") (bytes "retry-after-ms")) first in
      let resets =
        get_header h (bytes "X-Ratelimit-Reset") (bytes "x-ratelimit-reset")
        ∷ get_header h (bytes "Ratelimit-Reset") (bytes "ratelimit-reset")
        ∷ get_header h (bytes "X-Ratelimit-Reset-Requests") (bytes "x-ratelimit-reset-requests")
        ∷ get_header h (bytes "X-Ratelimit-Reset-Tokens") (bytes "x-ratelimit-reset-tokens")
        ∷ [] in
      with_time now (if_unknown second_ (reset_loop now resets second_))
