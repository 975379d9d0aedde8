-- ===== src/Codec/OpenAi/Once.antt =====
-- A stream of OpenAI chunks ends once: its finish reason and the end mark of its data.
use ultiproxy.Base.{
  ◌≡◌, refl, ℕ, ◌+◌, ◌≤◌, Bool, true, false, Option, none, some, List, [], ◌∷◌, ◌++◌, Text, ℤ,
  if_cases, if_both, is_some, arith,
}
use ultiproxy.Ir.{
  Event, message_start, block_start, text_delta, reasoning_delta, reasoning_signature,
  tool_call_start, tool_arguments_delta, tool_call_stop, usage_update, message_stop, upstream_error,
}
use ultiproxy.Codec.Out.{fprintf, then_do-keeps, then_do-into}
use ultiproxy.Codec.OpenAi.{Delta, Usage, Frame, chunk, usage_chunk, error_frame, done}
use ultiproxy.Codec.OpenAi.Stream.{
  Encoder, new_encoder, emit, write_chunk, ensure_started, encode_text, encode_reasoning,
  encode_call_start, encode_stop, encode_event, write_usage, close, Call, encode, finish, step, run,
}

abbrev pub is_done : Frame → Bool
is_done done = true
is_done (chunk c) = false
is_done (usage_chunk i c m u) = false
is_done (error_frame m k) = false

-- A chunk with a finish reason.
abbrev pub is_stop : Frame → Bool
is_stop done = false
is_stop (chunk c) = is_some c.finish_reason
is_stop (usage_chunk i c m u) = false
is_stop (error_frame m k) = false

abbrev pub to_count : Bool → ℕ
to_count true = 1
to_count false = 0

unfoldable pub count : (Frame → Bool) → List Frame → ℕ
count p [] = 0
count p (f ∷ fs) = to_count (p f) + count p fs

count-append :
    (p : Frame → Bool) (fs : List Frame) (f : Frame)
    → count p (fs ++ (f ∷ [])) ≡ count p fs + to_count (p f)
unfolding count
count-append p [] f = omega arith
count-append p (g ∷ fs) f = omega (arith, count-append p fs f)

-- At most one end mark and one finish reason so far, and none before Close and EventMessageStop.
pub record IsOnce (e : Encoder) : Type 0 where
  pub dones : count is_done e.out.written ≤ to_count e.closed
  pub stops : count is_stop e.out.written ≤ to_count e.stopped

emit-IsOnce :
    (f : Frame) (e : Encoder)
    → count is_done e.out.written + to_count (is_done f) ≤ to_count e.closed
    → count is_stop e.out.written + to_count (is_stop f) ≤ to_count e.stopped
    → IsOnce (emit f e).0
unfolding fprintf
emit-IsOnce f e h k = record {
  dones = ground (arith, count-append is_done e.out.written f);
  stops = ground (arith, count-append is_stop e.out.written f);
}

write_chunk-IsOnce : (d : Delta) (e : Encoder) → IsOnce e → IsOnce (write_chunk d none e).0
unfolding write_chunk
write_chunk-IsOnce d e p = emit-IsOnce _ e (omega (arith, p.dones)) (omega (arith, p.stops))

-- The predicate on what an encoding returns.
abbrev After : Encoder × Bool → Type 0
After r = IsOnce r.0

same :
    {e e' : Encoder}
    → IsOnce e
    → e'.out ≡ e.out
    → e'.closed ≡ e.closed
    → e'.stopped ≡ e.stopped
    → IsOnce e'
same p h k l = record { dones = ground (arith, p.dones); stops = ground (arith, p.stops) }

ensure_started-IsOnce : (e : Encoder) → IsOnce e → IsOnce (ensure_started e).0
unfolding ensure_started
ensure_started-IsOnce e p =
    if_both After e.started _ _ p
      (write_chunk-IsOnce _ (record e { started = true }) (same p refl refl refl))

encode_text-IsOnce : (t : Text) (e : Encoder) → IsOnce e → IsOnce (encode_text t e).0
unfolding encode_text
encode_text-IsOnce t e p =
    then_do-keeps IsOnce (ensure_started e) _ (ensure_started-IsOnce e p) (write_chunk-IsOnce _)

encode_reasoning-IsOnce : (t : Text) (e : Encoder) → IsOnce e → IsOnce (encode_reasoning t e).0
unfolding encode_reasoning
encode_reasoning-IsOnce t e p =
    then_do-keeps IsOnce (ensure_started e) _ (ensure_started-IsOnce e p) (write_chunk-IsOnce _)

encode_call_start-IsOnce :
    (i : ℤ) (id name : Text) (e : Encoder) → IsOnce e → IsOnce (encode_call_start i id name e).0
unfolding encode_call_start
encode_call_start-IsOnce i id name e p =
    let q : IsOnce (record e { saw_tool_calls = true }) = same p refl refl refl in
    then_do-keeps IsOnce (ensure_started _) _ (ensure_started-IsOnce _ q) (write_chunk-IsOnce _)

encode_stop-IsOnce : (reason : Text) (e : Encoder) → IsOnce e → IsOnce (encode_stop reason e).0
unfolding encode_stop write_chunk
encode_stop-IsOnce reason e p =
    if_cases After e.stopped _ _ (λ h. p)
      (λ h.
        emit-IsOnce _ (record e { stopped = true }) (omega (arith, p.dones))
          (ground (arith, p.stops)))

encode_event-IsOnce : (ev : Event) (e : Encoder) → IsOnce e → IsOnce (encode_event ev e).0
unfolding encode_event
encode_event-IsOnce (message_start id) e p =
    ensure_started-IsOnce _ (if_both IsOnce _ _ _ p (same p refl refl refl))
encode_event-IsOnce (block_start i kind) e p = p
encode_event-IsOnce (text_delta i t) e p = encode_text-IsOnce t e p
encode_event-IsOnce (reasoning_delta i t) e p = encode_reasoning-IsOnce t e p
encode_event-IsOnce (reasoning_signature i s) e p = p
encode_event-IsOnce (tool_call_start i id name) e p = encode_call_start-IsOnce i id name e p
encode_event-IsOnce (tool_arguments_delta i a) e p = write_chunk-IsOnce _ e p
encode_event-IsOnce (tool_call_stop i) e p = p
encode_event-IsOnce (usage_update u) e p = same p refl refl refl
encode_event-IsOnce (message_stop reason) e p = encode_stop-IsOnce reason e p
encode_event-IsOnce (upstream_error kind message) e p =
    emit-IsOnce _ e (omega (arith, p.dones)) (omega (arith, p.stops))

-- Within Close: the end mark has not been written.
record Ending (e : Encoder) : Type 0 where
  dones : count is_done e.out.written ≤ 0
  stops : count is_stop e.out.written ≤ to_count e.stopped
  closed : e.closed ≡ true

write_usage-Ending :
    (b : Bool) (u : Option Usage) (e : Encoder) → Ending e → Ending (write_usage b u e).0
unfolding fprintf
write_usage-Ending false u e p = p
write_usage-Ending true none e p = p
write_usage-Ending true (some u) e p =
    let f = usage_chunk e.stream_id e.created e.model u in
    record {
      dones = ground (arith, count-append is_done e.out.written f, p.dones);
      stops = ground (arith, count-append is_stop e.out.written f, p.stops);
      closed = p.closed;
    }

close-IsOnce : (e : Encoder) → IsOnce e → IsOnce (close e).0
unfolding close
close-IsOnce e p =
    if_cases After e.closed _ _ (λ h. p)
      (λ h.
        then_do-into Ending IsOnce
          (write_usage e.include_usage e.last_usage (record e { closed = true }))
          (λ e'. emit done e')
          (write_usage-Ending e.include_usage e.last_usage (record e { closed = true })
            (record { dones = ground (arith, p.dones); stops = p.stops; closed = refl }))
          (λ e' q. record { dones = ground (arith, q.dones); stops = q.stops })
          (λ e' q.
            emit-IsOnce done e' (ground (arith, q.dones, q.closed)) (ground (arith, q.stops))))

step-IsOnce : (c : Call) (e : Encoder) → IsOnce e → IsOnce (step c e)
unfolding step
step-IsOnce (encode ev) e p = encode_event-IsOnce ev e p
step-IsOnce finish e p = close-IsOnce e p

run_from-IsOnce : (cs : List Call) (e : Encoder) → IsOnce e → IsOnce (run cs e)
unfolding run
run_from-IsOnce [] e p = p
run_from-IsOnce (c ∷ cs) e p = run_from-IsOnce cs (step c e) (step-IsOnce c e p)

-- From a new encoder on an empty writer, any calls of EncodeEvent and Close, in any order and
-- with any writes failing, write at most one end mark, and none before a Close; and at most one
-- chunk with a finish reason, and none before an EventMessageStop.
pub run-IsOnce :
    (accepts : ℕ → Bool) (model id : Text) (now : ℤ) (include_usage : Bool) (cs : List Call)
    → IsOnce (
        run cs (
          new_encoder
            (record { accepts = accepts; attempts = 0; written = [] })
            model
            id
            now
            include_usage))
unfolding new_encoder count
run-IsOnce accepts model id now include_usage cs =
    run_from-IsOnce cs _ (record { dones = omega arith; stops = omega arith })
