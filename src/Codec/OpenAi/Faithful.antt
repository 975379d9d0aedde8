-- ===== src/Codec/OpenAi/Faithful.antt =====
-- The chunks say what the events say.
use ultiproxy.Base.{
  ◌≡◌, refl, ap, ◌∙◌, subst, append_nil, Bool, true, false, Option, none, some, List, [], ◌∷◌, ◌++◌,
  Text, or_else, pos, if◌then◌else◌, if_both, is_empty,
}
use ultiproxy.Ir.{
  Event, message_start, block_start, text_delta, reasoning_delta, reasoning_signature,
  tool_call_start, tool_arguments_delta, tool_call_stop, usage_update, message_stop, upstream_error,
}
use ultiproxy.Codec.Out.{Accepting, ◌then_do◌}
use ultiproxy.Codec.Says.{Speaker, said, Says, emit-Says, silent, then_do-Says}
use ultiproxy.Codec.Said.{
  Saying, text, reasoning, arguments, unless_empty, call_said, event_said, all_said,
}
use ultiproxy.Codec.OpenAi.{
  ToolCall, Delta, empty_delta, Usage, Frame, chunk, usage_chunk, error_frame, done,
}
use ultiproxy.Codec.OpenAi.Stream.{
  Encoder, write_chunk, ensure_started, encode_text, encode_reasoning, call_delta, arguments_delta,
  encode_call_start, encode_stop, encode_event, write_usage, close, encode_all,
}

-- What a reader takes from an entry of `tool_calls`: its first one has the type.
abbrev tool_call_said : ToolCall → List Saying
tool_call_said c =
    let i = or_else c.index (pos 0) in
    (if is_empty c.call_type then [] else call_said i c.call_id c.name)
    ++ unless_empty c.arguments (arguments i c.arguments)

unfoldable pub tool_calls_said : List ToolCall → List Saying
tool_calls_said [] = []
tool_calls_said (c ∷ cs) = tool_call_said c ++ tool_calls_said cs

-- What a reader takes from a frame.
unfoldable pub frame_said : Frame → List Saying
frame_said (chunk c) =
    unless_empty c.delta.reasoning_content (reasoning c.delta.reasoning_content)
    ++ (unless_empty c.delta.content (text c.delta.content) ++ tool_calls_said c.delta.tool_calls)
frame_said (usage_chunk i c m u) = []
frame_said (error_frame m k) = []
frame_said done = []

abbrev pub speaker : Speaker
speaker = record {
  Encoder = Encoder;
  Frame = Frame;
  out = λ e. e.out;
  with_out = λ e o. record e { out = o };
  out-with_out = λ e o. refl;
  frame_said = frame_said;
}

ensure_started-Says :
    (e : Encoder) → Accepting e.out → Says speaker [] (said speaker e) (ensure_started e)
unfolding ensure_started write_chunk frame_said tool_calls_said
ensure_started-Says e a =
    if_both (λ r. Says speaker [] (said speaker e) r) e.started _ _ (silent speaker e a)
      (emit-Says speaker _ (record e { started = true }) a)

write_chunk-Says :
    (d : Delta) (reason : Option Text) (e : Encoder)
    → Accepting e.out
    → Says speaker
        (unless_empty d.reasoning_content (reasoning d.reasoning_content)
          ++ (unless_empty d.content (text d.content) ++ tool_calls_said d.tool_calls))
        (said speaker e)
        (write_chunk d reason e)
unfolding write_chunk frame_said
write_chunk-Says d reason e a = emit-Says speaker _ e a

encode_event-Says :
    (ev : Event) (e : Encoder)
    → Accepting e.out
    → Says speaker (event_said ev) (said speaker e) (encode_event ev e)
unfolding encode_event encode_text encode_reasoning encode_call_start encode_stop frame_said
    tool_calls_said
encode_event-Says (message_start id) e a =
    if_both (λ e'. Says speaker [] (said speaker e) (ensure_started e')) (is_empty id) _ _
      (ensure_started-Says e a) (ensure_started-Says (record e { stream_id = id }) a)
encode_event-Says (block_start i kind) e a = silent speaker e a
encode_event-Says (text_delta i t) e a =
    subst (λ l. Says speaker l (said speaker e) (encode_text t e)) (append_nil _)
      (then_do-Says speaker _ (ensure_started-Says e a) (λ e' a'. write_chunk-Says _ none e' a'))
encode_event-Says (reasoning_delta i t) e a =
    subst (λ l. Says speaker l (said speaker e) (encode_reasoning t e)) (append_nil _)
      (then_do-Says speaker _ (ensure_started-Says e a) (λ e' a'. write_chunk-Says _ none e' a'))
encode_event-Says (reasoning_signature i s) e a = silent speaker e a
encode_event-Says (tool_call_start i id name) e a =
    subst (λ l. Says speaker l (said speaker e) (encode_call_start i id name e))
      (append_nil _ ∙ append_nil _)
      (then_do-Says speaker _ (ensure_started-Says (record e { saw_tool_calls = true }) a)
        (λ e' a'. write_chunk-Says (call_delta i id name) none e' a'))
encode_event-Says (tool_arguments_delta i t) e a =
    subst (λ l. Says speaker l (said speaker e) (write_chunk (arguments_delta i t) none e))
      (append_nil _) (write_chunk-Says (arguments_delta i t) none e a)
encode_event-Says (tool_call_stop i) e a = silent speaker e a
encode_event-Says (usage_update u) e a = silent speaker (record e { last_usage = _ }) a
encode_event-Says (message_stop reason) e a =
    if_both (λ r. Says speaker [] (said speaker e) r) e.stopped _ _ (silent speaker e a)
      (write_chunk-Says empty_delta (some _) (record e { stopped = true }) a)
encode_event-Says (upstream_error kind message) e a =
    emit-Says speaker (error_frame message kind) e a

encode_all-Says :
    (evs : List Event) (e : Encoder)
    → Accepting e.out
    → Says speaker (all_said event_said evs) (said speaker e) (encode_all evs e)
unfolding encode_all all_said
encode_all-Says [] e a = silent speaker e a
encode_all-Says (ev ∷ evs) e a =
    then_do-Says speaker _ (encode_event-Says ev e a) (λ e' a'. encode_all-Says evs e' a')

close-Says : (e : Encoder) → Accepting e.out → Says speaker [] (said speaker e) (close e)
unfolding close frame_said
close-Says e a =
    if_both (λ r. Says speaker [] (said speaker e) r) e.closed _ _ (silent speaker e a)
      (then_do-Says speaker _ (usage e.include_usage e.last_usage (record e { closed = true }) a)
        (λ e' a'. emit-Says speaker done e' a'))
  where
    usage :
        (b : Bool) (u : Option Usage) (e' : Encoder)
        → Accepting e'.out
        → Says speaker [] (said speaker e') (write_usage b u e')
    usage false u e' a' = silent speaker e' a'
    usage true none e' a' = silent speaker e' a'
    usage true (some u) e' a' =
        emit-Says speaker (usage_chunk e'.stream_id e'.created e'.model u) e' a'

-- The whole stream on a writer that takes every write: the reader is told what the events say.
pub stream-says :
    (evs : List Event) (e : Encoder)
    → Accepting e.out
    → said speaker (encode_all evs e then_do close).0 ≡ said speaker e ++ all_said event_said evs
stream-says evs e a =
    (then_do-Says speaker _ (encode_all-Says evs e a) (λ e' a'. close-Says e' a')).said_more
    ∙ ap (λ l. said speaker e ++ l) (append_nil _)
