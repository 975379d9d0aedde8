-- ===== src/Codec/Anthropic/Conforms/Close.antt =====
-- Close of the Anthropic encoder of pkg/codec/anthropic.go.
use ultiproxy.Base.{◌≡◌, refl, sym, subst, Bool, true, false, bytes, eq_ℤ, eq_ℤ_iff, if◌then◌else◌}
use ultiproxy.Codec.Anthropic.{content_block_stop, message_stop}
use ultiproxy.Codec.Anthropic.Stream.{
  Encoder, no_block, emit, write_message_delta, close_block, close_message, close,
}
use ultiproxy.Codec.Anthropic.Protocol.{Phase, advance, end_phase, close_phase}
use ultiproxy.Codec.Anthropic.Conforms.{Reaches, emit-Written, stop_dropping}
use ultiproxy.Codec.Anthropic.Conforms.Stop.{Halfway, summed_up, sum_up, ended-Matches}

drop_if-Reaches :
    (b : Bool) (e : Encoder) (p : Phase)
    → Reaches p (e, true)
    → eq_ℤ p.current no_block ≡ b
    → Reaches
        (record p { current = no_block })
        (
          if b then e else record ((emit (content_block_stop e.active_block_index) e).0) {
            active_block_index = no_block;
          },
          true,
        )
drop_if-Reaches true e p r h =
    subst (λ c. Reaches (record p { current = c }) (e, true)) ((eq_ℤ_iff p.current no_block).0 h) r
drop_if-Reaches false e p r h = stop_dropping e p r h

close_block-Reaches :
    (e : Encoder) (p : Phase)
    → Reaches p (e, true)
    → Reaches (record p { current = no_block }) (close_block e, true)
close_block-Reaches e p r =
    subst
      (λ a.
        Reaches (record p { current = no_block })
          (
            if eq_ℤ a no_block
                then e
                else record ((emit (content_block_stop e.active_block_index) e).0) {
                  active_block_index = no_block;
                },
            true,
          ))
      (sym r.at.current) (drop_if-Reaches (eq_ℤ p.current no_block) e p r refl)

-- message_stop after message_delta, where neither error is looked at.
drop_stop-Reaches :
    (m : Encoder × Bool) (p : Phase)
    → Halfway p m
    → p.ended ≡ false
    → Reaches (end_phase p) (record ((emit message_stop m.0).0) { stopped = true }, true)
unfolding advance emit
drop_stop-Reaches m p half h =
    let w =
      emit-Written message_stop m.0 (summed_up p) (end_phase p)
        (record { accepting = half.run.accepting; accepted = refl; replayed = half.run.replayed })
        (rw h) in
    record {
      run = record { accepting = w.accepting; accepted = refl; replayed = w.replayed };
      at = ended-Matches m.0 p half.at;
    }

message_if-Reaches :
    (b : Bool) (e : Encoder) (p : Phase)
    → Reaches (record p { current = no_block }) (e, true)
    → p.ended ≡ false
    → p.begun ≡ b
    → Reaches (if b then end_phase p else record p { current = no_block }) (
      if b
          then record ((emit message_stop ((write_message_delta (bytes "end_turn") e).0)).0) {
            stopped = true;
          }
          else e,
      true,
    )
message_if-Reaches true e p r h k =
    let begun : Reaches (record p { begun = true; current = no_block }) (e, true) =
      subst (λ b. Reaches (record p { begun = b; current = no_block }) (e, true)) k r in
    drop_stop-Reaches (write_message_delta (bytes "end_turn") e) p
      (sum_up (bytes "end_turn") e p begun h) h
message_if-Reaches false e p r h k = r

close_message-Reaches :
    (e : Encoder) (p : Phase)
    → Reaches (record p { current = no_block }) (e, true)
    → p.ended ≡ false
    → Reaches
        (if p.begun then end_phase p else record p { current = no_block })
        (close_message e, true)
close_message-Reaches e p r h =
    subst
      (λ b. Reaches (if p.begun then end_phase p else record p { current = no_block }) (
        if b
            then record ((emit message_stop ((write_message_delta (bytes "end_turn") e).0)).0) {
              stopped = true;
            }
            else e,
        true,
      ))
      (sym r.at.begun) (message_if-Reaches p.begun e p r h refl)

end_if-Reaches :
    (b : Bool) (e : Encoder) (p : Phase)
    → Reaches p (e, true)
    → p.ended ≡ b
    → Reaches
        (if b then p else if p.begun then end_phase p else record p { current = no_block })
        (if b then (e, true) else (close_message (close_block e), true))
end_if-Reaches true e p r h = r
end_if-Reaches false e p r h = close_message-Reaches (close_block e) p (close_block-Reaches e p r) h

pub close-Reaches :
    (e : Encoder) (p : Phase) → Reaches p (e, true) → Reaches (close_phase p) (close e)
unfolding close close_phase
close-Reaches e p r =
    subst
      (λ b.
        Reaches
          (if p.ended then p else if p.begun then end_phase p else record p { current = no_block })
          (if b then (e, true) else (close_message (close_block e), true)))
      (sym r.at.ended) (end_if-Reaches p.ended e p r refl)
