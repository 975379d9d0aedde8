-- ===== src/Quota/LimitError.antt =====
-- The classified limit error of pkg/quota/classifier.go.
use ultiproxy.Base.{Bool, Option, Text, Time, Duration}

pub data LimitErrorKind : Type 0 where
  burst_rate token_rate quota_window spend_limit account_limit : LimitErrorKind
  capacity session_conflict waiting_room abuse_guard unknown : LimitErrorKind

-- `cause` is the text of the wrapped error.
pub record LimitError : Type 0 where
  pub scope : Text
  pub kind : LimitErrorKind
  pub retry_at : Option Time
  pub retry_after : Duration
  pub permanent : Bool
  pub provider : Text
  pub model : Text
  pub credential : Text
  pub cause : Option Text
