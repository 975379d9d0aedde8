-- ===== src/Ir/Examples.antt =====
-- Messages as witnesses and tests.
use ultiproxy.Base.{◌≡◌, refl, none, some, [], ◌∷◌, bytes, pos, if◌then◌else◌, true}
use ultiproxy.Ir.{text_block, tool_call_block, cache_control, other_block, Message}
use ultiproxy.Ir.Envelope.{to_wire, of_wire, wrap_all, wrap}
use ultiproxy.Ir.RoundTrip.{all_own, present, read, of_wire-to_wire}

-- An assistant's turn with a nil block.
abbrev turn : Message
turn = record {
  role = bytes "assistant";
  blocks =
      some (text_block (bytes "on it"))
      ∷ none
      ∷ some (
          tool_call_block (record {
            index = pos 0;
            call_id = bytes "c1";
            name = bytes "look";
            arguments = bytes "{}";
          }))
      ∷ some (cache_control true)
      ∷ [];
  meta = (bytes "lane", bytes "hub") ∷ [];
}

of_wire-to_wire_example :
    read of_wire (to_wire turn)
    ≡ (if all_own turn.blocks then some (record turn { blocks = present turn.blocks }) else none)
of_wire-to_wire_example = of_wire-to_wire turn

-- A block of another package's type cannot be written.
foreign_refused :
    to_wire
      (record { role = bytes "user"; blocks = some (other_block (bytes "audio")) ∷ []; meta = [] })
    ≡ none
unfolding to_wire wrap_all wrap
foreign_refused = refl
