-- ===== src/Codec/Said.antt =====
-- What a stream tells its reader, whatever the format it is written in: the text, the reasoning
-- and the tool calls of pkg/ir/events.go in their order.
use ultiproxy.Base.{
  ◌≡◌, refl, ap, ◌∙◌, sym, append_assoc, ◌&&◌, List, [], ◌∷◌, ◌++◌, Text, is_empty, if◌then◌else◌,
  ℤ,
}
use ultiproxy.Ir.{
  Event, message_start, block_start, text_delta, reasoning_delta, reasoning_signature,
  tool_call_start, tool_arguments_delta, tool_call_stop, usage_update, message_stop, upstream_error,
}

pub data Saying : Type 0 where
  text : Text → Saying
  reasoning : Text → Saying
  call : (index : ℤ) (id name : Text) → Saying
  arguments : (index : ℤ) (fragment : Text) → Saying

-- The empty fragment says nothing.
abbrev pub unless_empty : Text → Saying → List Saying
unless_empty t s = if is_empty t then [] else s ∷ []

-- Nor does a call that has neither an id nor a name.
abbrev pub call_said : ℤ → Text → Text → List Saying
call_said i id name = if is_empty id && is_empty name then [] else call i id name ∷ []

abbrev pub event_said : Event → List Saying
event_said (message_start id) = []
event_said (block_start i kind) = []
event_said (text_delta i t) = unless_empty t (text t)
event_said (reasoning_delta i t) = unless_empty t (reasoning t)
event_said (reasoning_signature i s) = []
event_said (tool_call_start i id name) = call_said i id name
event_said (tool_arguments_delta i a) = unless_empty a (arguments i a)
event_said (tool_call_stop i) = []
event_said (usage_update u) = []
event_said (message_stop r) = []
event_said (upstream_error k m) = []

-- What a list of frames, or of events, says one after the other.
module _ {ℓ} {A : Type ℓ} (said : A → List Saying) where
  unfoldable pub all_said : List A → List Saying
  all_said [] = []
  all_said (a ∷ as_) = said a ++ all_said as_

  pub all_said-append : (xs ys : List A) → all_said (xs ++ ys) ≡ all_said xs ++ all_said ys
  unfolding all_said
  all_said-append [] ys = refl
  all_said-append (x ∷ xs) ys =
      ap (λ l. said x ++ l) (all_said-append xs ys)
      ∙ sym (append_assoc (said x) (all_said xs) (all_said ys))
