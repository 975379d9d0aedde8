-- ===== src/Codec/OpenAi/Reason.antt =====
-- The finish reasons of pkg/codec/openai.go: a streamed and an unstreamed answer end alike.
use ultiproxy.Base.{
  ◌≡◌, refl, Bool, true, false, Text, bytes, text_eq, text_eq_iff, text_eq-exclusive, if◌then◌else◌,
  arith,
}
use ultiproxy.Codec.OpenAi.{stream_finish}
use ultiproxy.Codec.OpenAi.Response.{finish_of}

-- The reason that EventMessageStop writes.
abbrev pub streamed_finish : Bool → Text → Text
streamed_finish calls reason = if calls then bytes "tool_calls" else stream_finish reason

-- For every finish reason of the provider, with and without tool calls, the finish reason of an
-- unstreamed chat completion is the one that a stream of the same answer ends with.
pub finish_alike :
    (calls : Bool) (reason : Text) → finish_of calls reason ≡ streamed_finish calls reason
unfolding finish_of stream_finish text_eq
finish_alike true reason = refl
finish_alike false reason = ground (
  arith,
  text_eq_iff reason (bytes "stop"),
  text_eq-exclusive reason (bytes "stop") (bytes "tool_use") refl,
  text_eq-exclusive reason (bytes "stop") (bytes "end_turn") refl,
  text_eq-exclusive reason (bytes "stop") (bytes "max_tokens") refl,
  text_eq-exclusive reason (bytes "end_turn") (bytes "tool_use") refl,
)
