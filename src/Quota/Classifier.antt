-- ===== src/Quota/Classifier.antt =====
-- Classify of pkg/quota/classifier.go: an HTTP answer to a limit error. encoding/json, the retry
-- timing's parsers and the printing of a float64 as a whole number are parameters.
pub mod Timing
pub mod Kinds
use ultiproxy.Base.{
  ◌≡◌, ℕ, ◌+◌, ◌*◌, ◌<◌, Bool, true, false, not, ◌&&◌, ◌||◌, Option, none, some, List, [], ◌∷◌,
  ◌++◌, Text, bytes, ℤ, pos, negsuc, Time, Duration, time_sub, second, ltb_ℤ, leb_ℤ, ltb, leb,
  length, take, ◌==◌, contains, to_lower, is_empty, text_eq, if◌then◌else◌, pos_part, or_else,
  lookup, is_some,
}
use ultiproxy.Base.Parse.{parse_int, wrapped}
use ultiproxy.Base.Json.{
  Json, null, boolean, number, string, array, object, Fields, get_field, as_string,
}
use ultiproxy.Provider.Sse.{trim_space}
use ultiproxy.Quota.LimitError.{
  LimitErrorKind, LimitError, burst_rate, token_rate, quota_window, spend_limit, account_limit,
  capacity, session_conflict, waiting_room, abuse_guard, unknown,
}
use Timing.{Header, timing}

abbrev pub spend_words : List Text
spend_words =
    bytes "insufficient_quota"
    ∷ bytes "spend limit"
    ∷ bytes "credit balance is too low"
    ∷ bytes "exceeded your current quota"
    ∷ bytes "billing details"
    ∷ bytes "purchase credits"
    ∷ bytes "payment required"
    ∷ []

abbrev pub abuse_words : List Text
abuse_words =
    bytes "abuse guard"
    ∷ bytes "account suspended"
    ∷ bytes "policy violation"
    ∷ bytes "flagged for abuse"
    ∷ []

abbrev pub session_words : List Text
session_words =
    bytes "session conflict"
    ∷ bytes "session in use"
    ∷ bytes "concurrent session"
    ∷ bytes "another request is in progress"
    ∷ bytes "session active"
    ∷ []

abbrev pub queue_words : List Text
queue_words =
    bytes "waiting room" ∷ bytes "request queued" ∷ bytes "queue full" ∷ bytes "in queue" ∷ []

abbrev pub capacity_words : List Text
capacity_words =
    bytes "overloaded"
    ∷ bytes "overloaded_error"
    ∷ bytes "capacity"
    ∷ bytes "server is temporarily overloaded"
    ∷ bytes "high demand"
    ∷ bytes "too busy"
    ∷ []

abbrev pub token_words : List Text
token_words =
    bytes "token_rate"
    ∷ bytes "tokens per minute"
    ∷ bytes "tpm"
    ∷ bytes "rate limit reached for tokens"
    ∷ []

abbrev pub window_words : List Text
window_words =
    bytes "quota_window"
    ∷ bytes "requests per day"
    ∷ bytes "rpd"
    ∷ bytes "daily limit"
    ∷ bytes "weekly limit"
    ∷ bytes "monthly limit"
    ∷ bytes "5-hour"
    ∷ bytes "plan limit"
    ∷ []

abbrev pub burst_words : List Text
burst_words =
    bytes "burst_rate"
    ∷ bytes "requests per minute"
    ∷ bytes "rpm"
    ∷ bytes "rate limit reached for requests"
    ∷ bytes "rate_limit_exceeded"
    ∷ bytes "rate_limit_error"
    ∷ bytes "too many requests"
    ∷ []

abbrev pub account_words : List Text
account_words = bytes "account limit" ∷ bytes "org limit" ∷ bytes "organization limit" ∷ []

abbrev pub forbidden_words : List Text
forbidden_words = bytes "abuse" ∷ bytes "policy" ∷ bytes "suspended" ∷ []

unfoldable pub any_of : List Text → Text → Bool
any_of [] text = false
any_of (w ∷ ws) text = contains text w || any_of ws text

-- 3. The kind by the status, the text and the error type.
unfoldable pub kind_of : ℕ → Text → Text → LimitErrorKind
kind_of status text error_type =
    if status == 402 || any_of spend_words text
    then spend_limit
    else if (status == 403 && any_of forbidden_words text) || any_of abuse_words text
    then abuse_guard
    else if any_of session_words text
    then session_conflict
    else if any_of queue_words text
    then waiting_room
    else if status == 529 || any_of capacity_words text
    then capacity
    else if any_of token_words text || text_eq error_type (bytes "tokens")
    then token_rate
    else if any_of window_words text
    then quota_window
    else if any_of burst_words text || text_eq error_type (bytes "requests")
    then burst_rate
    else if any_of account_words text
    then account_limit
    else unknown

-- The scope that goes with each kind, and whether the limit is permanent.
unfoldable pub scope_of : LimitErrorKind → Text
scope_of spend_limit = bytes "account"
scope_of abuse_guard = bytes "account"
scope_of session_conflict = bytes "session"
scope_of waiting_room = bytes "queue"
scope_of capacity = bytes "server"
scope_of token_rate = bytes "tokens"
scope_of quota_window = bytes "window"
scope_of burst_rate = bytes "requests"
scope_of account_limit = bytes "account"
scope_of unknown = bytes "unknown"

abbrev pub is_permanent : LimitErrorKind → Bool
is_permanent spend_limit = true
is_permanent abuse_guard = true
is_permanent _ = false

-- 2. What the body says.
pub record Told : Type 0 where
  pub message : Text
  pub error_type : Text
  pub code : Text
  pub model : Text

abbrev nothing_told : Told
nothing_told = record { message = []; error_type = []; code = []; model = [] }

-- `%.0f` of a number's text is an argument.
module _ (whole : Text → Text) where
  abbrev code_of : Json → Text
  code_of (string c) = c
  code_of (number n) = whole n
  code_of null = []
  code_of (boolean b) = []
  code_of (array a) = []
  code_of (object m) = []

  -- The error object, or the message beside it.
  abbrev inner : Json → Fields → Told
  inner (object e) m = record {
    message = as_string (get_field (bytes "message") e);
    error_type = as_string (get_field (bytes "type") e);
    code = code_of (get_field (bytes "code") e);
    model = as_string (get_field (bytes "model") e);
  }
  inner _ m = record nothing_told { message = as_string (get_field (bytes "message") m) }

  abbrev or_field : Text → Text → Fields → Text
  or_field t key m = if is_empty t then as_string (get_field key m) else t

  unfoldable pub told : Option Fields → Told
  told none = nothing_told
  told (some m) =
      let t = inner (get_field (bytes "error") m) m in
      record t {
        message = or_field t.message (bytes "detail") m;
        code = or_field t.code (bytes "code") m;
      }

abbrev joined : Told → Text → Text
joined t body = t.message ++ bytes " " ++ t.error_type ++ bytes " " ++ t.code ++ bytes " " ++ body

unfoldable pub cause_of : Text → Text → Option Text
cause_of message body =
    if not (is_empty message)
    then some message
    else if is_empty body
    then none
    else some (if ltb 200 (length body) then take 200 body else body)

-- The parsers that Classify calls.
pub record Parsers : Type 0 where
  pub parse_seconds : Text → Option Duration
  pub parse_time : Text → Option Time
  pub whole : Text → Text
  -- json.Unmarshal into a map; `none` for an error and for null
  pub unmarshal : Text → Option Fields

-- `headers` is empty for a nil map.
unfoldable pub classify : Parsers → Time → ℕ → Header → Text → Text → LimitError
classify ps now status headers body provider =
    let (after, at) = timing ps.parse_seconds ps.parse_time now headers in
    let trimmed = trim_space body in
    let t = told ps.whole (if is_empty trimmed then none else ps.unmarshal body) in
    let kind = kind_of status (to_lower (joined t trimmed)) t.error_type in
    record {
      scope = scope_of kind;
      kind = kind;
      retry_at = at;
      retry_after = after;
      permanent = is_permanent kind;
      provider = provider;
      model = t.model;
      credential = [];
      cause = cause_of t.message trimmed;
    }
