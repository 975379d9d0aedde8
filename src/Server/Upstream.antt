-- ===== src/Server/Upstream.antt =====
-- What the dispatcher of pkg/server/handlers.go makes of names and errors: the model id that goes
-- upstream, and the status and class of an error.
pub mod Laws
use ultiproxy.Base.{
  ℕ, Bool, true, false, Option, none, some, List, [], ◌∷◌, ◌&&◌, ◌||◌, Text, bytes, ◌==◌, leb, ltb,
  if◌then◌else◌, is_empty, contains, to_lower, text_eq,
}

-- The text before the first slash and the text after it.
unfoldable pub cut : Text → Option (Text × Text)
cut [] = none
cut (c ∷ s) =
    let rest = cut s in
    if c == b'/' then some ([], s) else elim rest [ none ↦ none | some (p, q) ↦ some (c ∷ p, q) ]

unfoldable pub strip_provider_prefix : Text → Text → Text
strip_provider_prefix model provider_name =
    if is_empty provider_name || is_empty model then model else elim (cut model) [
      | none ↦ model
      | some (prefix, rest) ↦
          if is_empty prefix
          then model
          else if text_eq (to_lower prefix) (to_lower provider_name)
          then rest
          else model
    ]

-- The error of a lane: its text, and its HTTPStatus() where it has one above 0.
pub record LaneError : Type 0 where
  pub message : Text
  pub http_status : Option ℕ

-- A status, the class of the error, and its text.
pub record Classified : Type 0 where
  pub status : ℕ
  pub class : Text
  pub text : Text

abbrev classified : ℕ → Text → Text → Classified
classified status class text = record { status = status; class = class; text = text }

unfoldable pub classify_http_status : ℕ → Text → Classified
classify_http_status code msg =
    if code == 429
    then classified 429 (bytes "rate_limit_exceeded") msg
    else if code == 401
    then classified 401 (bytes "authentication_error") msg
    else if code == 403
    then classified 403 (bytes "permission_denied") msg
    else if code == 404
    then classified 404 (bytes "not_found") msg
    else if code == 400 || code == 422
    then classified 400 (bytes "bad_request") msg
    else if leb 400 code && ltb code 500
    then classified 400 (bytes "bad_request") msg
    else classified 502 (bytes "bad_gateway") msg

unfoldable pub contains_any : Text → List Text → Bool
contains_any s [] = false
contains_any s (p ∷ ps) = contains s p || contains_any s ps

abbrev limit_words : List Text
limit_words =
    bytes "status 429"
    ∷ bytes "http 429"
    ∷ bytes "429 too many"
    ∷ bytes "resource_exhausted"
    ∷ bytes "quota_exceeded"
    ∷ bytes "daily token limit"
    ∷ bytes "rate limit"
    ∷ []

abbrev auth_words : List Text
auth_words = bytes "status 401" ∷ bytes "http 401" ∷ bytes "unauthorized" ∷ []

abbrev permission_words : List Text
permission_words = bytes "status 403" ∷ bytes "http 403" ∷ bytes "forbidden" ∷ []

abbrev missing_words : List Text
missing_words = bytes "status 404" ∷ bytes "http 404" ∷ bytes "not found" ∷ []

abbrev request_words : List Text
request_words = bytes "status 400" ∷ bytes "http 400" ∷ bytes "status 422" ∷ bytes "http 422" ∷ []

-- The words of the message decide, the first list that has one of them.
unfoldable pub sniff : Text → Text → Classified
sniff lower msg =
    if contains_any lower limit_words
    then classified 429 (bytes "rate_limit_exceeded") msg
    else if contains_any lower auth_words
    then classified 401 (bytes "authentication_error") msg
    else if contains_any lower permission_words
    then classified 403 (bytes "permission_denied") msg
    else if contains_any lower missing_words
    then classified 404 (bytes "not_found") msg
    else if contains_any lower request_words
    then classified 400 (bytes "bad_request") msg
    else classified 502 (bytes "bad_gateway") msg

-- The error is not an UnknownModelError here: the dispatcher returns on those before.
unfoldable pub classify_upstream_error : Option LaneError → Text → Classified
classify_upstream_error none fallback = classified 502 (bytes "bad_gateway") fallback
classify_upstream_error (some e) fallback = elim e.http_status [
  | some code ↦ classify_http_status code e.message
  | none ↦ sniff (to_lower e.message) e.message
]

unfoldable pub error_class_from_error : Option LaneError → Text
error_class_from_error e = (classify_upstream_error e []).class
