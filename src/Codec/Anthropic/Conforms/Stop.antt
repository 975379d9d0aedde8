-- ===== src/Codec/Anthropic/Conforms/Stop.antt =====
-- The end of a message at the Anthropic encoder of pkg/codec/anthropic.go: EventMessageStop.
use ultiproxy.Base.{
  ◌≡◌, refl, ◌∙◌, sym, subst, Bool, true, false, Text, eq_ℤ, eq_ℤ_iff, if◌then◌else◌,
}
use ultiproxy.Codec.Out.{◌then_do◌}
use ultiproxy.Codec.Anthropic.{content_block_stop, message_stop, stream_stop_reason}
use ultiproxy.Codec.Anthropic.Stream.{
  Encoder, no_block, emit, ensure_message_start, idle, stop_open_block, write_message_stop,
  write_message_delta, encode_stop,
}
use ultiproxy.Codec.Anthropic.Protocol.{Phase, advance, end_phase}
use ultiproxy.Codec.Anthropic.Conforms.{
  Written, At, Reaches, emit-Written, emit-Reaches, then_do-Reaches, then_do-from, rewritten,
  ensure_message_start-Reaches, stop_current,
}

close_if-Reaches :
    (b : Bool) (e : Encoder) (p : Phase)
    → Reaches p (e, true)
    → eq_ℤ p.current no_block ≡ b
    → Reaches
        (record p { current = no_block })
        (if b then (e, true) else emit (content_block_stop e.active_block_index) e then_do idle)
close_if-Reaches true e p r h =
    subst (λ c. Reaches (record p { current = c }) (e, true)) ((eq_ℤ_iff p.current no_block).0 h) r
close_if-Reaches false e p r h = stop_current e p r h

stop_open_block-Reaches :
    (e : Encoder) (p : Phase)
    → Reaches p (e, true)
    → Reaches (record p { current = no_block }) (stop_open_block e)
unfolding stop_open_block
stop_open_block-Reaches e p r =
    subst
      (λ a.
        Reaches (record p { current = no_block })
          (if eq_ℤ a no_block
            then (e, true)
            else emit (content_block_stop e.active_block_index) e then_do idle))
      (sym r.at.current) (close_if-Reaches (eq_ℤ p.current no_block) e p r refl)

-- The phase between message_delta and message_stop.
abbrev pub summed_up : Phase → Phase
summed_up p = record p { begun = true; current = no_block; summed = true }

pub record Halfway (p : Phase) (r : Encoder × Bool) : Type 0 where
  pub run : Written (summed_up p) r
  pub at : At r.0 (record p { begun = true; current = no_block })

pub sum_up :
    (reason : Text) (e : Encoder) (p : Phase)
    → Reaches (record p { begun = true; current = no_block }) (e, true)
    → p.ended ≡ false
    → Halfway p (write_message_delta reason e)
unfolding advance emit
sum_up reason e p r h =
    let going : p.summed ≡ false = r.at.summed ∙ h in
    record { run = emit-Written _ e _ (summed_up p) r.run (rw going); at = r.at }

pub ended-Matches :
    (e : Encoder) (p : Phase)
    → At e (record p { begun = true; current = no_block })
    → At (record e { stopped = true }) (end_phase p)
ended-Matches e p a = record {
  begun = a.begun;
  current = a.current;
  used = a.used;
  ended = refl;
  summed = refl;
  held = refl;
}

write_stop-Reaches :
    (m : Encoder × Bool) (p : Phase)
    → Halfway p m
    → p.ended ≡ false
    → Reaches (end_phase p) (m then_do write_message_stop)
unfolding advance
write_stop-Reaches (e, true) p half h =
    emit-Reaches message_stop (record e { stopped = true }) (summed_up p) (end_phase p)
      (rewritten e _ _ half.run refl) (rw h) (ended-Matches e p half.at)
write_stop-Reaches (e, false) p half h = let absurd : true ≡ false = sym half.run.accepted in cc

pub encode_stop-Reaches :
    (reason : Text) (e : Encoder) (p : Phase)
    → Reaches p (e, true)
    → Reaches (if p.ended then p else end_phase p) (encode_stop reason e)
unfolding encode_stop
encode_stop-Reaches reason e p r =
    subst
      (λ b. Reaches (if p.ended then p else end_phase p) (
        if b
        then (e, true)
        else ensure_message_start e
          then_do stop_open_block
          then_do write_message_delta (stream_stop_reason reason)
          then_do write_message_stop))
      (sym r.at.ended) (end_if p.ended refl)
  where
    end_if :
        (b : Bool)
        → p.ended ≡ b
        → Reaches (if b then p else end_phase p) (
            if b
            then (e, true)
            else ensure_message_start e
              then_do stop_open_block
              then_do write_message_delta (stream_stop_reason reason)
              then_do write_message_stop)
    end_if true h = r
    end_if false h =
        let opened =
          then_do-Reaches (ensure_message_start e) (ensure_message_start-Reaches e p r)
            (λ e' r'. stop_open_block-Reaches e' (record p { begun = true }) r') in
        write_stop-Reaches _ p
          (then_do-from (Halfway p) _ opened
            (λ e' r'. sum_up (stream_stop_reason reason) e' p r' h))
          h
