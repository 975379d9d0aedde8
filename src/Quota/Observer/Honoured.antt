-- ===== src/Quota/Observer/Honoured.antt =====
-- From the Retry-After header of an answer to the next probe: pkg/quota/classifier.go,
-- pkg/quota/observer.go and pkg/quota/breaker.go together.
use ultiproxy.Base.{
  ◌≡◌, ℕ, suc, ◌+◌, ◌≤◌, true, false, not, ◌&&◌, Option, some, ◌∷◌, Text, bytes, pos, Time,
  Duration, max_int, leb, Float, is_empty, arith,
}
use ultiproxy.Quota.LimitError.{LimitError}
use ultiproxy.Quota.Breaker.{Breaker, Clock, record_limit_error, allow_probe, admin_disabled}
use ultiproxy.Quota.Breaker.Probe.{opens, retry_after_honoured}
use ultiproxy.Quota.Classifier.{Parsers, classify}
use ultiproxy.Quota.Classifier.Timing.{
  Header, get_header, retry_after_timing, millis_timing, with_time, timing,
}
use ultiproxy.Quota.Observer.{
  Observer, answer, is_rate_limit, round_trip, record_classifier_result, with_model_hint,
}

-- A positive number of seconds in Retry-After counts, whatever the other headers say.
timing-seconds :
    (parse_seconds : Text → Option Duration) (parse_time : Text → Option Time) (now : Time)
    (h : Header) (c : ℕ) (ra : Text) (d : ℕ)
    → get_header h (bytes "Retry-After") (bytes "Retry-After") ≡ c ∷ ra
    → parse_seconds (c ∷ ra) ≡ some (pos (suc d))
    → (timing parse_seconds parse_time now h).0 ≡ pos (suc d)
unfolding timing retry_after_timing millis_timing with_time
timing-seconds parse_seconds parse_time now h c ra d k p = rw (k, p) (ground arith)

-- The limit error of an answer, under the lane's hints.
abbrev pub answer_error : Parsers → Text → Text → Time → ℕ → Header → Text → LimitError
answer_error ps id model now status h body =
    with_model_hint model (classify ps now status h body id)

module _ (fl : Float) where
  open fl use {F, of_int, lt}

  -- If a lane answers with a rate-limit status and a Retry-After that is read as the positive
  -- duration d, the answer is classified as a kind that opens
  -- the circuit, and no jitter is configured, then the breaker lets the lane's next request
  -- through exactly when it comes no earlier than d after the answer was recorded and the
  -- administrator has not disabled the lane.
  pub answer_honoured :
      (div : F → F → F) (parse_float : Text → Option F) (ps : Parsers) (msg_of : LimitError → Text)
      (id model : Text) (now : Time) (clock later : Clock) (draw : F) (status : ℕ) (h : Header)
      (body : Text) (c : ℕ) (ra : Text) (d : ℕ) (o : Observer F) (b : Breaker F)
      → o.breaker ≡ some b
      → is_empty id ≡ false
      → is_rate_limit status h ≡ true
      → get_header h (bytes "Retry-After") (bytes "Retry-After") ≡ c ∷ ra
      → ps.parse_seconds (c ∷ ra) ≡ some (pos (suc d))
      → opens (classify ps now status h body id).kind ≡ true
      → suc d ≤ max_int
      → lt (of_int (pos 0)) b.cfg.jitter_ratio ≡ false
      → let e = answer_error ps id model now status h body in
        let b' = record_limit_error e (msg_of e) clock b in
        ((round_trip fl div parse_float ps msg_of id model now clock
            (answer status h body)
            o).breaker
          ≡ some b')
        × ((allow_probe fl id later draw b').1
            ≡ (not (admin_disabled id b'.sm) && leb (clock.now + suc d) later.now))
  unfolding round_trip record_classifier_result classify
  answer_honoured div parse_float ps msg_of id model now clock later draw status h body c ra d o b
        has named limited header parsed kind small plain =
      let e = answer_error ps id model now status h body in
      (
        rw (limited, has),
        retry_after_honoured fl e (msg_of e) clock later draw b (suc d) named kind
            (timing-seconds ps.parse_seconds ps.parse_time now h c ra d header parsed) (omega arith)
            small plain,
      )
