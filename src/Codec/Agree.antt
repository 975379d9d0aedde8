-- ===== src/Codec/Agree.antt =====
-- The two stream encoders of pkg/codec against each other.
use ultiproxy.Base.{
  ◌≡◌, ◌∙◌, sym, ap, Bool, true, Option, none, some, List, [], ◌∷◌, ◌++◌, Text, ℤ, refl,
}
use ultiproxy.Ir.{Event}
use ultiproxy.Codec.Out.{Out, ◌then_do◌}
use ultiproxy.Codec.Said.{Saying, event_said, all_said}
use ultiproxy.Codec.Says.{said}
use ultiproxy.Codec.OpenAi.Stream as OpenAiStream
use ultiproxy.Codec.OpenAi.Faithful as OpenAiFaithful
use ultiproxy.Codec.Anthropic.Stream as AnthropicStream
use ultiproxy.Codec.Anthropic.Faithful as AnthropicFaithful
use ultiproxy.Codec.Anthropic.{Frame}
use ultiproxy.Codec.Anthropic.Protocol.{Phase, fresh, after, advance, replay, in_order}
use ultiproxy.Codec.Anthropic.Conforms.Whole.{stream_conforms}

-- A writer that takes every write.
abbrev pub sink : {A : Type 0} → Out A
sink = record { accepts = λ n. true; attempts = 0; written = [] }

-- What a client of the OpenAI surface is told by a whole stream, Close included.
abbrev pub openai_told : Text → Text → ℤ → Bool → List Event → List Saying
openai_told model id now include_usage evs =
    said OpenAiFaithful.speaker
      (OpenAiStream.encode_all evs (OpenAiStream.new_encoder sink model id now include_usage)
        then_do OpenAiStream.close).0

-- What a client of the Anthropic surface takes from frames: it follows the protocol, so that a
-- delta counts only in an open block of its kind, and stops at the first frame that is none of it.
unfoldable pub read : List Frame → Phase → List Saying
read [] p = []
read (f ∷ fs) p = elim (advance f p) [
  | none ↦ []
  | some q ↦ AnthropicFaithful.frame_said f ++ read fs q
]

abbrev pub anthropic_told : Text → Text → List Event → List Saying
anthropic_told model id evs =
    read
      (AnthropicStream.encode_all evs (AnthropicStream.new_encoder sink model id)
        then_do AnthropicStream.close).0.out.written
      fresh

-- A frame of the protocol is read, and then the rest.
read_next :
    (f : Frame) (fs : List Frame) (o : Option Phase) (q : Phase)
    → after o (replay fs) ≡ some q
    → ((p : Phase) → replay fs p ≡ some q → read fs p ≡ all_said AnthropicFaithful.frame_said fs)
    → elim o [ none ↦ [] | some p ↦ AnthropicFaithful.frame_said f ++ read fs p ]
      ≡ all_said AnthropicFaithful.frame_said (f ∷ fs)
unfolding all_said
read_next f fs none q h k = cc
read_next f fs (some p) q h k = ap (λ l. AnthropicFaithful.frame_said f ++ l) (k p h)

-- A run of the protocol is read to its end.
read-replay :
    (fs : List Frame) (p q : Phase)
    → replay fs p ≡ some q
    → read fs p ≡ all_said AnthropicFaithful.frame_said fs
unfolding read replay all_said
read-replay [] p q h = refl
read-replay (f ∷ fs) p q h = read_next f fs (advance f p) q h (λ r. read-replay fs r q)

-- For events that take the blocks one after the other, each of one kind, none after the message's
-- stop, the OpenAI stream and the Anthropic stream tell their clients the same texts, reasoning
-- texts, tool calls and argument fragments in the same order, and these are the non-empty ones of
-- the events, byte for byte. The Anthropic client takes a delta only in an open block of its kind.
pub clients_told_alike :
    (evs : List Event) (model id : Text) (now : ℤ) (include_usage : Bool) (model' id' : Text)
    → in_order evs fresh ≡ true
    → (openai_told model id now include_usage evs ≡ anthropic_told model' id' evs)
      × (anthropic_told model' id' evs ≡ all_said event_said evs)
unfolding OpenAiStream.new_encoder AnthropicStream.new_encoder all_said
clients_told_alike evs model id now include_usage model' id' h =
    let a =
      OpenAiFaithful.stream-says evs (OpenAiStream.new_encoder sink model id now include_usage)
        (λ n. refl) in
    let b =
      AnthropicFaithful.stream-says evs (AnthropicStream.new_encoder sink model' id') (λ n. refl) in
    let c = read-replay _ fresh _ (stream_conforms evs model' id' (λ n. true) (λ n. refl) h) in
    (a ∙ sym (c ∙ b), c ∙ b)
