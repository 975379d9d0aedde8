-- ===== src/Codec/Anthropic/Conforms/Blocks.antt =====
-- The block events of the Anthropic encoder of pkg/codec/anthropic.go.
use ultiproxy.Base.{
  ◌≡◌, refl, ap, sym, subst, Bool, true, false, ◌&&◌, ◌||◌, not, some, ◌∷◌, ℤ, pos, negsuc, eq_ℤ,
  eq_ℤ_iff, eq_ℤ_refl, if◌then◌else◌, Bool-cases, if_cases, inl, inr, arith,
}
use ultiproxy.Codec.Out.{◌then_do◌}
use ultiproxy.Codec.Anthropic.{
  Opening, Delta, content_block_start, content_block_delta, content_block_stop,
}
use ultiproxy.Codec.Anthropic.Stream.{
  Encoder, no_block, is_started, emit, idle, stop_active_block_if_needed, turn_to, start_block,
  open_block, encode_delta, encode_call_stop,
}
use ultiproxy.Codec.Anthropic.Protocol.{
  Phase, BlockKind, text_kind, thinking_kind, tool_use_kind, opening_kind, delta_kind, same_kind,
  advance, block_phase, is_index, fits_block, fits_delta,
}
use ultiproxy.Codec.Anthropic.Conforms.{
  Reaches, emit-Reaches, then_do-Reaches, rewritten, ensure_message_start-Reaches, stop_current,
}

-- The phase in which the block i may go on or be opened.
abbrev pub left : Bool → Phase → Phase
left b p = record p { current = if b then no_block else p.current }

leave_if-Reaches :
    (b : Bool) (e : Encoder) (p : Phase)
    → Reaches p (e, true)
    → (b ≡ true → eq_ℤ p.current no_block ≡ false)
    → Reaches
        (left b p)
        (if b then emit (content_block_stop e.active_block_index) e then_do idle else (e, true))
leave_if-Reaches true e p r h = stop_current e p r (h refl)
leave_if-Reaches false e p r h = r

abbrev pub is_left : ℤ → Phase → Bool
is_left i p = not (eq_ℤ p.current no_block) && not (eq_ℤ p.current i)

-- What turn_to leaves for the block i.
abbrev pub turned : ℤ → Phase → Phase
turned i p = left (is_left i p) (record p { begun = true })

pub turn_to-Reaches :
    (i : ℤ) (e : Encoder) (p : Phase) → Reaches p (e, true) → Reaches (turned i p) (turn_to i e)
unfolding turn_to stop_active_block_if_needed
turn_to-Reaches i e p r = then_do-Reaches _ (ensure_message_start-Reaches e p r) (λ e' r'.
    subst
      (λ a. Reaches (turned i p) (
        if not (eq_ℤ a no_block) && not (eq_ℤ a i)
        then emit (content_block_stop e'.active_block_index) e' then_do idle
        else (e', true)))
      (sym r'.at.current)
      (leave_if-Reaches (is_left i p) e' (record p { begun = true }) r' (λ h. ground arith)))

pub start_block-Reaches :
    (i : ℤ) (o : Opening) (e : Encoder) (p : Phase)
    → Reaches p (e, true)
    → advance (content_block_start i o) p
      ≡ some (record p { current = i; kind = opening_kind o; used = i ∷ p.used })
    → Reaches
        (record p { current = i; kind = opening_kind o; used = i ∷ p.used })
        (start_block i o e)
unfolding start_block is_started
start_block-Reaches i o e p r h =
    emit-Reaches _ (record e { started_blocks = i ∷ e.started_blocks; active_block_index = i }) p _
      (rewritten e _ p r.run refl) h
      (record {
        begun = r.at.begun;
        current = refl;
        used = ap (λ js. i ∷ js) r.at.used;
        ended = r.at.ended;
        summed = r.at.summed;
        held = ground (arith, eq_ℤ_refl i);
      })

index-proper : (i : ℤ) → is_index i ≡ true → eq_ℤ i no_block ≡ false
index-proper (pos n) h = refl
index-proper (negsuc n) h = let absurd : false ≡ true = h in cc

-- A block that has been opened before is the open one.
again_current :
    (i : ℤ) (p : Phase)
    → fits_block i p ≡ true
    → is_started i p.used ≡ true
    → (if is_left i p then no_block else p.current) ≡ i
again_current i p h u =
    let k : eq_ℤ p.current i ≡ true = ground arith in
    let same : p.current ≡ i = (eq_ℤ_iff p.current i).0 k in ground (arith, same, k)

-- Before a new block, none is open.
pub new_current :
    (i : ℤ) (p : Phase)
    → fits_block i p ≡ true
    → (eq_ℤ p.current no_block || is_started p.current p.used) ≡ true
    → is_started i p.used ≡ false
    → (if is_left i p then no_block else p.current) ≡ no_block
new_current i p h held u =
    let proper : eq_ℤ i no_block ≡ false = index-proper i (ground arith) in
    elim (Bool-cases (eq_ℤ p.current i)) [
      | inl k ↦
          (let same : p.current ≡ i = (eq_ℤ_iff p.current i).0 k in
            let held_i : (eq_ℤ i no_block || is_started i p.used) ≡ true =
              subst (λ c. (eq_ℤ c no_block || is_started c p.used) ≡ true) same held in
            ground (arith, held_i, proper, u))
      | inr k ↦ ground (arith, eq_ℤ_iff p.current no_block, k)
    ]

pub open_if-Reaches :
    (b : Bool) (i : ℤ) (o : Opening) (e : Encoder) (p : Phase)
    → Reaches (turned i p) (e, true)
    → fits_block i p ≡ true
    → p.summed ≡ p.ended
    → (eq_ℤ p.current no_block || is_started p.current p.used) ≡ true
    → is_started i p.used ≡ b
    → Reaches (block_phase i (opening_kind o) p) (if b then (e, true) else start_block i o e)
unfolding advance
open_if-Reaches true i o e p r h k held u =
    let at_i : Reaches (record p { begun = true; current = i }) (e, true) =
      subst (λ c. Reaches (record p { begun = true; current = c }) (e, true))
        (again_current i p h u) r in
    subst
      (λ b.
        Reaches
          (record p {
            begun = true;
            current = i;
            kind = (if b then p.kind else opening_kind o);
            used = (if b then p.used else i ∷ p.used);
          })
          (e, true))
      (sym u) at_i
open_if-Reaches false i o e p r h k held u =
    let none_open : (if is_left i p then no_block else p.current) ≡ no_block =
      new_current i p h held u in
    let going : p.summed ≡ false = ground arith in
    subst
      (λ b.
        Reaches
          (record p {
            begun = true;
            current = i;
            kind = (if b then p.kind else opening_kind o);
            used = (if b then p.used else i ∷ p.used);
          })
          (start_block i o e))
      (sym u) (start_block-Reaches i o e (turned i p) r (rw (none_open, going, u)))

pub open_block-Reaches :
    (i : ℤ) (o : Opening) (e : Encoder) (p : Phase)
    → Reaches p (e, true)
    → fits_block i p ≡ true
    → Reaches (block_phase i (opening_kind o) p) (turn_to i e then_do open_block i o)
unfolding open_block
open_block-Reaches i o e p r h = then_do-Reaches _ (turn_to-Reaches i e p r) (λ e' r'.
    subst
      (λ js.
        Reaches (block_phase i (opening_kind o) p)
          (if is_started i js then (e', true) else start_block i o e'))
      (sym r'.at.used)
      (open_if-Reaches (is_started i p.used) i o e' p r' h r.at.summed r.at.held refl))

same_kind_refl : (k : BlockKind) → same_kind k k ≡ true
same_kind_refl text_kind = refl
same_kind_refl thinking_kind = refl
same_kind_refl tool_use_kind = refl

-- In a block that has just been opened, or is of its kind, a delta is a frame of the protocol.
delta_advances :
    (i : ℤ) (o : Opening) (d : Delta) (p : Phase)
    → fits_delta i (delta_kind d) p ≡ true
    → opening_kind o ≡ delta_kind d
    → p.summed ≡ p.ended
    → advance (content_block_delta i d) (block_phase i (opening_kind o) p)
      ≡ some (block_phase i (opening_kind o) p)
unfolding advance
delta_advances i o d p h k s =
    let going : p.summed ≡ false = ground arith in
    let same : same_kind (delta_kind d) (if is_started i p.used then p.kind else opening_kind o)
        ≡ true =
      if_cases (λ j. same_kind (delta_kind d) j ≡ true) (is_started i p.used) p.kind
        (opening_kind o) (λ u. ground (arith, u))
        (λ u.
          subst (λ j. same_kind (delta_kind d) j ≡ true) (sym k) (same_kind_refl (delta_kind d))) in
    rw (going, eq_ℤ_refl, same)

-- A delta, after its block has been turned to and opened.
pub encode_delta-Reaches :
    (i : ℤ) (o : Opening) (d : Delta) (e : Encoder) (p : Phase)
    → Reaches p (e, true)
    → fits_delta i (delta_kind d) p ≡ true
    → opening_kind o ≡ delta_kind d
    → Reaches (block_phase i (delta_kind d) p) (encode_delta i o d e)
unfolding encode_delta
encode_delta-Reaches i o d e p r h k =
    subst (λ j. Reaches (block_phase i j p) (encode_delta i o d e)) k
      (then_do-Reaches _ (open_block-Reaches i o e p r (ground arith)) (λ e' r'.
        let q = block_phase i (opening_kind o) p in
        emit-Reaches (content_block_delta i d) e' q q r'.run
          (delta_advances i o d p h k r.at.summed) r'.at))

-- A tool call opens a block of its own.
pub call_start-Reaches :
    (i : ℤ) (o : Opening) (e : Encoder) (p : Phase)
    → Reaches p (e, true)
    → (is_index i && not p.ended && not (is_started i p.used)) ≡ true
    → Reaches (block_phase i (opening_kind o) p) (turn_to i e then_do start_block i o)
unfolding advance
call_start-Reaches i o e p r h =
    let u : is_started i p.used ≡ false = ground arith in
    then_do-Reaches _ (turn_to-Reaches i e p r)
      (λ e' r'. open_if-Reaches false i o e' p r' (ground arith) r.at.summed r.at.held u)

stop_if-Reaches :
    (b : Bool) (i : ℤ) (e : Encoder) (p : Phase)
    → Reaches p (e, true)
    → is_index i ≡ true
    → eq_ℤ p.current i ≡ b
    → Reaches (if b then record p { current = no_block } else p) (
        if b
        then emit (content_block_stop i) (record e { active_block_index = no_block })
        else (e, true))
unfolding advance
stop_if-Reaches true i e p r h k =
    emit-Reaches _ (record e { active_block_index = no_block }) p _ (rewritten e _ p r.run refl)
      (rw (index-proper i h, k))
      (record {
        begun = r.at.begun;
        current = refl;
        used = r.at.used;
        ended = r.at.ended;
        summed = r.at.summed;
        held = refl;
      })
stop_if-Reaches false i e p r h k = r

pub call_stop-Reaches :
    (i : ℤ) (e : Encoder) (p : Phase)
    → Reaches p (e, true)
    → is_index i ≡ true
    → Reaches
        (if eq_ℤ p.current i then record p { current = no_block } else p)
        (encode_call_stop i e)
unfolding encode_call_stop
call_stop-Reaches i e p r h =
    subst
      (λ a. Reaches (if eq_ℤ p.current i then record p { current = no_block } else p) (
        if eq_ℤ a i
        then emit (content_block_stop i) (record e { active_block_index = no_block })
        else (e, true)))
      (sym r.at.current) (stop_if-Reaches (eq_ℤ p.current i) i e p r h refl)
