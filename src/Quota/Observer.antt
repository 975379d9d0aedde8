-- ===== src/Quota/Observer.antt =====
-- The passive observer of HTTP answers: pkg/quota/observer.go. Its writer is the list of the rows
-- that it is offered; what the writer makes of them is in Storage.Writer.
pub mod Honoured
mod Examples
use ultiproxy.Base.{
  ◌≡◌, ℕ, ◌/◌, Bool, true, false, not, ◌&&◌, ◌||◌, Option, none, some, List, [], ◌∷◌, ◌++◌, Text,
  bytes, ℤ, pos, negsuc, Time, Duration, second, Float, ◌==◌, leb, ltb, is_empty, if◌then◌else◌,
  or_else,
}
use ultiproxy.State.Types.{HealthState, QuotaState, CircuitState, ProviderRuntime}
use ultiproxy.State.Manager.{StateManager, update, amend}
use ultiproxy.Quota.LimitError.{
  LimitErrorKind, LimitError, quota_window, burst_rate, token_rate, spend_limit, account_limit,
  capacity, session_conflict, waiting_room, abuse_guard, unknown,
}
use ultiproxy.Quota.Breaker.{Breaker, Clock, record_limit_error, record_success, record_failure}
use ultiproxy.Quota.Classifier.{Parsers, classify}
use ultiproxy.Quota.Classifier.Timing.{Header, get_header}
use ultiproxy.Quota.Scheduler.{QuotaSnapshot, QuotaWindow}
use ultiproxy.Quota.Store.{QuotaStore, set}

-- The fields of storage.AttemptRecord that the observer sets; its status is 429.
pub record AttemptRow : Type 0 where
  pub provider : Text
  pub model : Text
  pub error_class : LimitErrorKind
  pub retry_after_seconds : ℤ
  pub reset_at : Option Time

-- storage.QuotaObservationRecord, whose label and unit are requests.
pub record Observation (F : Type 0) : Type 0 where
  pub provider : Text
  pub remaining : F
  pub limit : F
  pub used_pct : F
  pub observed_at : Time

-- A nil part of the observer is `none`.
pub record Observer (F : Type 0) : Type 0 where
  pub sm : Option StateManager
  pub breaker : Option (Breaker F)
  pub attempts : Option (List AttemptRow)
  pub observations : List (Observation F)
  pub store : Option (QuotaStore F)

abbrev is_window : LimitErrorKind → Bool
is_window quota_window = true
is_window _ = false

-- What the observer writes itself where it has no breaker.
unfoldable pub limited_runtime : LimitError → Text → Time → ProviderRuntime → ProviderRuntime
limited_runtime e msg now p =
    let seen = record p { observed_at = now; error = msg } in
    if e.permanent
    then record seen { quota = QuotaState.exhausted; health = HealthState.unavailable }
    else if is_window e.kind
    then record seen {
      quota = QuotaState.exhausted;
      valid_until = or_else e.retry_at p.valid_until;
    }
    else record seen {
      circuit = CircuitState.opened;
      circuit_opened_at = now;
      health = HealthState.degraded;
    }

-- `int(d.Seconds())` of a positive duration, up to the rounding of its float64.
abbrev whole_seconds : Duration → ℤ
whole_seconds (pos n) = pos (n / second)
whole_seconds (negsuc n) = pos 0

abbrev attempt_row : LimitError → AttemptRow
attempt_row e = record {
  provider = e.provider;
  model = e.model;
  error_class = e.kind;
  retry_after_seconds = whole_seconds e.retry_after;
  reset_at = e.retry_at;
}

abbrev track_attempt : LimitError → Option (List AttemptRow) → Option (List AttemptRow)
track_attempt e none = none
track_attempt e (some rows) =
    if is_empty e.provider then some rows else some (rows ++ (attempt_row e ∷ []))

module _ {F : Type 0} where
  abbrev with_breaker : LimitError → Text → Clock → Option (Breaker F) → Option (Breaker F)
  with_breaker e msg clock none = none
  with_breaker e msg clock (some b) = some (record_limit_error e msg clock b)

  abbrev with_manager :
      LimitError → Text → Time → Option (Breaker F) → Option StateManager → Option StateManager
  with_manager e msg now (some b) sm = sm
  with_manager e msg now none none = none
  with_manager e msg now none (some sm) =
      some (update (amend e.provider (limited_runtime e msg now)) sm)

  -- `msg` is `limitErr.Error()`.
  unfoldable pub record_classifier_result : LimitError → Text → Clock → Observer F → Observer F
  record_classifier_result e msg clock o = record o {
    breaker = with_breaker e msg clock o.breaker;
    sm = with_manager e msg clock.now o.breaker o.sm;
    attempts = track_attempt e o.attempts;
  }

  abbrev breaker_success : Text → Clock → Option (Breaker F) → Option (Breaker F)
  breaker_success id clock none = none
  breaker_success id clock (some b) =
      if is_empty id then some b else some (record_success id clock b)

  abbrev breaker_failure : Text → Clock → Text → Option (Breaker F) → Option (Breaker F)
  breaker_failure id clock err none = none
  breaker_failure id clock err (some b) =
      if is_empty id then some b else some (record_failure id clock (some err) b)

abbrev pub with_model_hint : Text → LimitError → LimitError
with_model_hint hint e = record e { model = (if is_empty e.model then hint else e.model) }

-- What the transport gives: an error, or an answer with its body.
pub data Answer : Type 0 where
  transport_error : Text → Answer
  answer : (status : ℕ) (headers : Header) (body : Text) → Answer

unfoldable pub is_rate_limit : ℕ → Header → Bool
is_rate_limit status h =
    status == 429
    || status == 529
    || status == 402
    || (status == 503 && not (is_empty (get_header h (bytes "Retry-After") (bytes "Retry-After"))))

-- The first of three headers that is there.
abbrev first_given : Text → Text → Text → Text
first_given a b c = if is_empty a then (if is_empty b then c else b) else a

unfoldable pub remaining_text : Header → Text
remaining_text h =
    first_given
      (get_header h (bytes "X-Ratelimit-Remaining-Requests")
        (bytes "x-ratelimit-remaining-requests"))
      (get_header h (bytes "X-Ratelimit-Remaining") (bytes "x-ratelimit-remaining"))
      (get_header h (bytes "Ratelimit-Remaining") (bytes "ratelimit-remaining"))

unfoldable pub limit_text : Header → Text
limit_text h =
    first_given
      (get_header h (bytes "X-Ratelimit-Limit-Requests") (bytes "x-ratelimit-limit-requests"))
      (get_header h (bytes "X-Ratelimit-Limit") (bytes "x-ratelimit-limit"))
      (get_header h (bytes "Ratelimit-Limit") (bytes "ratelimit-limit"))

-- A division and a parser of float64 are arguments.
module _ (fl : Float) (div : fl.F → fl.F → fl.F) (parse_float : Text → Option fl.F) where
  open fl use {F, of_int, sub, mul, lt}

  -- The used share of a limit, in percent.
  unfoldable pub used_share : F → F → F
  used_share limit rem =
      let zero_f = of_int (pos 0) in
      let pct = mul (div (sub limit rem) limit) (of_int (pos 100)) in
      if lt zero_f limit then (if lt pct zero_f then zero_f else pct) else zero_f

  abbrev store_set : Text → QuotaSnapshot F → Time → Option (QuotaStore F) → Option (QuotaStore F)
  store_set id snap now none = none
  store_set id snap now (some s) = some (set id (some snap) now s)

  abbrev observe_if :
      Option (List AttemptRow) → Observation F → List (Observation F) → List (Observation F)
  observe_if none obs rows = rows
  observe_if (some w) obs rows = rows ++ (obs ∷ [])

  unfoldable pub passive_quota : Text → Header → Time → F → Observer F → Observer F
  passive_quota id h now rem o =
      let limit = or_else (parse_float (limit_text h)) (of_int (pos 0)) in
      let pct = used_share limit rem in
      let obs : Observation F = record {
        provider = id;
        remaining = rem;
        limit = limit;
        used_pct = pct;
        observed_at = now;
      } in
      let window : QuotaWindow F = record { used_pct = pct; remaining = rem; limit = limit } in
      let snap : QuotaSnapshot F = record { observed_at = now; windows = window ∷ [] } in
      record o {
        observations = observe_if o.attempts obs o.observations;
        store = store_set id snap now o.store;
      }

  abbrev passive_if : Text → Header → Time → Option F → Observer F → Observer F
  passive_if id h now none o = o
  passive_if id h now (some rem) o = passive_quota id h now rem o

  unfoldable pub extract_passive_quota : Text → Header → Time → Observer F → Observer F
  extract_passive_quota id h now o =
      if is_empty id || is_empty (remaining_text h)
      then o
      else passive_if id h now (parse_float (remaining_text h)) o

  -- RoundTrip after the call; `msg_of` is LimitError.Error, `id` and `model`
  -- are the hints, and `now` is the clock that Classify, or the passive quota, reads.
  unfoldable pub round_trip :
      Parsers → (LimitError → Text) → Text → Text → Time → Clock → Answer → Observer F → Observer F
  round_trip ps msg_of id model now clock (transport_error err) o = record o {
    breaker = breaker_failure id clock err o.breaker;
  }
  round_trip ps msg_of id model now clock (answer status h body) o =
      let e = with_model_hint model (classify ps now status h body id) in
      if is_rate_limit status h
      then record_classifier_result e (msg_of e) clock o
      else if leb 200 status && ltb status 300
      then extract_passive_quota id h now
          (record o { breaker = breaker_success id clock o.breaker })
      else o
