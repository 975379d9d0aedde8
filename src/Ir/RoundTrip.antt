-- ===== src/Ir/RoundTrip.antt =====
-- A message survives the way to JSON and back.
use ultiproxy.Base.{
  ◌≡◌, refl, Bool, true, false, Option, none, some, List, [], ◌∷◌, if◌then◌else◌, text_eq, ◌&&◌,
  arith,
}
use ultiproxy.Ir.{
  Block, text_block, image_block, tool_call_block, tool_result_block, reasoning_block,
  cache_control, other_block, Message,
}
use ultiproxy.Ir.Envelope.{wrap, wrap_all, unwrap, unwrap_all, to_wire, of_wire}

-- Whether the block's type is one of the package's.
abbrev pub is_own : Block → Bool
is_own (other_block k) = false
is_own (text_block t) = true
is_own (image_block b) = true
is_own (tool_call_block b) = true
is_own (tool_result_block b) = true
is_own (reasoning_block b) = true
is_own (cache_control b) = true

abbrev pub all_own : List (Option Block) → Bool
all_own [] = true
all_own (none ∷ bs) = all_own bs
all_own (some b ∷ bs) = is_own b && all_own bs

-- The blocks that are not nil.
abbrev pub present : List (Option Block) → List (Option Block)
present [] = []
present (none ∷ bs) = present bs
present (some b ∷ bs) = some b ∷ present bs

abbrev pub read {ℓ ℓ'} : {A : Type ℓ} {B : Type ℓ'} → (A → Option B) → Option A → Option B
read f none = none
read f (some a) = f a

unwrap-wrap : (b : Block) → read unwrap (wrap b) ≡ (if is_own b then some b else none)
unfolding unwrap wrap text_eq
unwrap-wrap (text_block t) = refl
unwrap-wrap (image_block b) = refl
unwrap-wrap (tool_call_block b) = refl
unwrap-wrap (tool_result_block b) = refl
unwrap-wrap (reasoning_block b) = refl
unwrap-wrap (cache_control b) = refl
unwrap-wrap (other_block k) = refl

unwrap_all-wrap_all :
    (bs : List (Option Block))
    → read unwrap_all (wrap_all bs) ≡ (if all_own bs then some (present bs) else none)
unfolding unwrap_all wrap_all
unwrap_all-wrap_all [] = refl
unwrap_all-wrap_all (none ∷ bs) = unwrap_all-wrap_all bs
unwrap_all-wrap_all (some b ∷ bs) = ground (arith, unwrap-wrap b, unwrap_all-wrap_all bs)

-- MarshalJSON fails on a message exactly when one of its blocks is of a type that the package
-- does not declare; otherwise UnmarshalJSON gives the same message back, without its nil blocks.
pub of_wire-to_wire :
    (m : Message)
    → read of_wire (to_wire m)
      ≡ (if all_own m.blocks then some (record m { blocks = present m.blocks }) else none)
unfolding of_wire to_wire
of_wire-to_wire m = ground (arith, unwrap_all-wrap_all m.blocks)
