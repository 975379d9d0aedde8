-- ===== src/Codec/Anthropic/Conforms.antt =====
-- The Anthropic encoder of pkg/codec/anthropic.go and the phases of the protocol, write by write.
pub mod Blocks
pub mod Stop
pub mod Close
pub mod Whole
use ultiproxy.Base.{
  ◌≡◌, refl, ap, ◌∙◌, sym, subst, Bool, true, false, ◌&&◌, ◌||◌, not, Option, none, some, List, [],
  ◌∷◌, ◌++◌, Text, bytes, ℤ, pos, negsuc, eq_ℤ, eq_ℤ_iff, eq_ℤ_refl, if◌then◌else◌, Bool-cases, inl,
  inr, is_empty, text_eq, arith,
}
use ultiproxy.Ir
use ultiproxy.Ir.{Event}
use ultiproxy.Codec.Out.{Out, fprintf, Accepting, put, fprintf-Accepting, ◌then_do◌}
use ultiproxy.Codec.Anthropic.{
  Opening, opens_text, opens_thinking, opens_tool_use, Delta, Frame, message_start,
  content_block_start, content_block_delta, content_block_stop, message_delta, message_stop,
  error_frame,
}
use ultiproxy.Codec.Anthropic.Stream.{
  Encoder, no_block, is_started, with_out, emit, ensure_message_start, idle,
  stop_active_block_if_needed, turn_to, start_block, open_block, encode_delta, encode_call_stop,
  stop_open_block, write_message_stop, write_message_delta, encode_stop,
}
use ultiproxy.Codec.Anthropic.Protocol.{
  Phase, fresh, when, advance, replay, replay-append, block_phase, end_phase, is_index, fits_block,
}

-- The frames so far are a run of the protocol that ends in p.
pub record Written (p : Phase) (r : Encoder × Bool) : Type 0 where
  pub accepting : Accepting r.0.out
  pub accepted : r.1 ≡ true
  pub replayed : replay r.0.out.written fresh ≡ some p

-- The encoder's fields are those of the phase.
pub record Matches (started : Bool) (active : ℤ) (blocks : List ℤ) (stopped : Bool) (p : Phase)
    : Type 0 where
  pub begun : started ≡ p.begun
  pub current : active ≡ p.current
  pub used : blocks ≡ p.used
  pub ended : stopped ≡ p.ended
  pub summed : p.summed ≡ p.ended
  pub held : (eq_ℤ p.current no_block || is_started p.current p.used) ≡ true

abbrev pub At : Encoder → Phase → Type 0
At e p = Matches e.started e.active_block_index e.started_blocks e.stopped p

pub record Reaches (p : Phase) (r : Encoder × Bool) : Type 0 where
  pub run : Written p r
  pub at : At r.0 p

pub emit-Accepting :
    (f : Frame) (e : Encoder) → Accepting e.out → emit f e ≡ (record e { out = put f e.out }, true)
unfolding emit
emit-Accepting f e a = ap (λ r. with_out e r) (fprintf-Accepting f e.out a)

pub emit-Written :
    (f : Frame) (e : Encoder) (p q : Phase)
    → Written p (e, true)
    → advance f p ≡ some q
    → Written q (emit f e)
unfolding emit
emit-Written f e p q w h =
    subst (λ r. Written q (with_out e r)) (sym (fprintf-Accepting f e.out w.accepting))
      (record {
        accepting = w.accepting;
        accepted = refl;
        replayed = replay-append e.out.written f fresh ∙ rw (w.replayed) h;
      })

pub emit-Reaches :
    (f : Frame) (e : Encoder) (p q : Phase)
    → Written p (e, true)
    → advance f p ≡ some q
    → At e q
    → Reaches q (emit f e)
unfolding emit
emit-Reaches f e p q w h a = record { run = emit-Written f e p q w h; at = a }

pub then_do-from :
    {p : Phase} (Q : Encoder × Bool → Type 0) (m : Encoder × Bool) {k : Encoder → Encoder × Bool}
    → Reaches p m
    → ((e : Encoder) → Reaches p (e, true) → Q (k e))
    → Q (m then_do k)
then_do-from Q (e, true) r h = h e r
then_do-from Q (e, false) r h = let absurd : true ≡ false = sym r.run.accepted in cc

pub then_do-Reaches :
    {p q : Phase} (m : Encoder × Bool) {k : Encoder → Encoder × Bool}
    → Reaches p m
    → ((e : Encoder) → Reaches p (e, true) → Reaches q (k e))
    → Reaches q (m then_do k)
then_do-Reaches {p} {q} m r h = then_do-from (Reaches q) m r h

-- Another record with the same writer.
pub rewritten :
    (e e' : Encoder) (p : Phase) → Written p (e, true) → e'.out ≡ e.out → Written p (e', true)
rewritten e e' p w h = record {
  accepting = subst Accepting (sym h) w.accepting;
  accepted = refl;
  replayed = ap (λ o. replay o.written fresh) h ∙ w.replayed;
}

start_if-Reaches :
    (b : Bool) (e : Encoder) (p : Phase)
    → Reaches p (e, true)
    → e.started ≡ b
    → Reaches
        (record p { begun = true })
        (if b
          then (e, true)
          else emit (message_start e.message_id e.model e.usage) (record e { started = true }))
unfolding advance
start_if-Reaches true e p r h =
    subst (λ x. Reaches (record p { begun = x }) (e, true)) (sym r.at.begun ∙ h) r
start_if-Reaches false e p r h =
    emit-Reaches _ (record e { started = true }) p _ (rewritten e _ p r.run refl)
      (let k : p.begun ≡ false = sym r.at.begun ∙ h in rw k)
      (record {
        begun = refl;
        current = r.at.current;
        used = r.at.used;
        ended = r.at.ended;
        summed = r.at.summed;
        held = r.at.held;
      })

pub ensure_message_start-Reaches :
    (e : Encoder) (p : Phase)
    → Reaches p (e, true)
    → Reaches (record p { begun = true }) (ensure_message_start e)
unfolding ensure_message_start
ensure_message_start-Reaches e p r = start_if-Reaches e.started e p r refl

-- A content_block_stop of the open block; the encoder notes it after the write.
stop_written :
    (e : Encoder) (p : Phase)
    → Reaches p (e, true)
    → eq_ℤ p.current no_block ≡ false
    → Reaches
        (record p { current = no_block })
        (
          record e {
            out = put (content_block_stop e.active_block_index) e.out;
            active_block_index = no_block;
          },
          true,
        )
unfolding advance
stop_written e p r h =
    let f = content_block_stop e.active_block_index in
    let q : Phase = record p { current = no_block } in
    let same = emit-Accepting f e r.run.accepting in
    let k : advance f p ≡ some q = rw (r.at.current, h, eq_ℤ_refl) in
    let w : Written q (record e { out = put f e.out }, true) =
      subst (λ m. Written q m) same (emit-Written f e p q r.run k) in
    record {
      run = rewritten (record e { out = put f e.out }) _ q w refl;
      at = record {
        begun = r.at.begun;
        current = refl;
        used = r.at.used;
        ended = r.at.ended;
        summed = r.at.summed;
        held = refl;
      };
    }

pub stop_current :
    (e : Encoder) (p : Phase)
    → Reaches p (e, true)
    → eq_ℤ p.current no_block ≡ false
    → Reaches
        (record p { current = no_block })
        (emit (content_block_stop e.active_block_index) e then_do idle)
stop_current e p r h =
    subst (λ m. Reaches (record p { current = no_block }) (m then_do idle))
      (sym (emit-Accepting (content_block_stop e.active_block_index) e r.run.accepting))
      (stop_written e p r h)

-- The same within Close, which drops the error.
pub stop_dropping :
    (e : Encoder) (p : Phase)
    → Reaches p (e, true)
    → eq_ℤ p.current no_block ≡ false
    → Reaches
        (record p { current = no_block })
        (
          record ((emit (content_block_stop e.active_block_index) e).0) {
            active_block_index = no_block;
          },
          true,
        )
stop_dropping e p r h =
    subst
      (λ m.
        Reaches (record p { current = no_block })
          (record (m.0) { active_block_index = no_block }, true))
      (sym (emit-Accepting (content_block_stop e.active_block_index) e r.run.accepting))
      (stop_written e p r h)
