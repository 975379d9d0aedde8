-- ===== src/Codec/OpenAi/Merged.antt =====
-- What a chat completion of pkg/codec/openai.go makes of the blocks of any answer: it joins the
-- texts, joins the reasonings, and lists the calls.
use ultiproxy.Base.{
  ◌≡◌, refl, ap, ◌∙◌, append_assoc, append_nil, Bool, true, false, not, ◌&&◌, ◌||◌, Option, none,
  some, List, [], ◌∷◌, ◌++◌, map, Text, is_empty, if◌then◌else◌, text_eq,
}
use ultiproxy.Base.Json.{Json}
use ultiproxy.Ir.{
  Block, text_block, image_block, tool_call_block, tool_result_block, reasoning_block,
  cache_control, other_block, ToolCallBlock,
}
use ultiproxy.Codec.OpenAi.Request.{
  reasoning_blocks, content_blocks, decode_role, decode_message, Names,
}
use ultiproxy.Codec.OpenAi.Response.{Collected, nothing, call_of, collect, collect_all, reply_of}
use ultiproxy.Codec.OpenAi.Echo.{
  content_json, echo, calls_blocks, text_blocks, turn_blocks, calls_back, echoed_plain_turn,
}

abbrev pub texts : List (Option Block) → Text
texts [] = []
texts (some (text_block t) ∷ bs) = t ++ texts bs
texts (b ∷ bs) = texts bs

abbrev pub has_text : List (Option Block) → Bool
has_text [] = false
has_text (some (text_block t) ∷ bs) = true
has_text (b ∷ bs) = has_text bs

abbrev pub reasonings : List (Option Block) → Text
reasonings [] = []
reasonings (some (reasoning_block b) ∷ bs) = b.text ++ reasonings bs
reasonings (b ∷ bs) = reasonings bs

abbrev pub has_reasoning : List (Option Block) → Bool
has_reasoning [] = false
has_reasoning (some (reasoning_block b) ∷ bs) = true
has_reasoning (b ∷ bs) = has_reasoning bs

abbrev pub calls : List (Option Block) → List ToolCallBlock
calls [] = []
calls (some (tool_call_block b) ∷ bs) = b ∷ calls bs
calls (b ∷ bs) = calls bs

-- The one text of a reply, which is left out where nothing asks for it.
abbrev text_part : (asked : Bool) → (alone : Bool) → Text → List (Option Block)
text_part asked alone t = if asked then text_blocks alone t else []

-- The blocks of an answer with what the format has no place for left out.
abbrev pub merged_blocks : List (Option Block) → List (Option Block)
merged_blocks bs =
    let r = reasonings bs in
    let cs = calls bs in
    reasoning_blocks r
    ++ (text_part (has_text bs || (is_empty cs && not (has_reasoning bs)))
          (is_empty r && is_empty cs) (texts bs)
        ++ calls_blocks cs)

or_true : (b : Bool) → (b || true) ≡ true
or_true true = refl
or_true false = refl

abbrev summed : Collected → List (Option Block) → Collected
summed c bs = record {
  text_content = c.text_content ++ texts bs;
  has_text = c.has_text || has_text bs;
  reasoning_content = c.reasoning_content ++ reasonings bs;
  has_reasoning = c.has_reasoning || has_reasoning bs;
  tool_calls = c.tool_calls ++ map call_of (calls bs);
}

or_false : (b : Bool) → (b || false) ≡ b
or_false true = refl
or_false false = refl

collect_all-summed : (bs : List (Option Block)) (c : Collected) → collect_all bs c ≡ summed c bs
unfolding collect_all collect
collect_all-summed [] c = rw (
  append_nil c.text_content,
  append_nil c.reasoning_content,
  append_nil c.tool_calls,
  or_false c.has_text,
  or_false c.has_reasoning,
)
collect_all-summed (none ∷ bs) c = collect_all-summed bs c
collect_all-summed (some (text_block t) ∷ bs) c =
    collect_all-summed bs (collect (text_block t) c) ∙ rw (append_assoc, or_true)
collect_all-summed (some (reasoning_block b) ∷ bs) c =
    collect_all-summed bs (collect (reasoning_block b) c) ∙ rw (append_assoc, or_true)
collect_all-summed (some (tool_call_block b) ∷ bs) c =
    collect_all-summed bs (collect (tool_call_block b) c) ∙ rw append_assoc
collect_all-summed (some (image_block b) ∷ bs) c = collect_all-summed bs c
collect_all-summed (some (tool_result_block b) ∷ bs) c = collect_all-summed bs c
collect_all-summed (some (cache_control b) ∷ bs) c = collect_all-summed bs c
collect_all-summed (some (other_block k) ∷ bs) c = collect_all-summed bs c

reasonings_if :
    (bs : List (Option Block)) → (if has_reasoning bs then reasonings bs else []) ≡ reasonings bs
reasonings_if [] = refl
reasonings_if (none ∷ bs) = reasonings_if bs
reasonings_if (some (text_block t) ∷ bs) = reasonings_if bs
reasonings_if (some (reasoning_block b) ∷ bs) = refl
reasonings_if (some (tool_call_block b) ∷ bs) = reasonings_if bs
reasonings_if (some (image_block b) ∷ bs) = reasonings_if bs
reasonings_if (some (tool_result_block b) ∷ bs) = reasonings_if bs
reasonings_if (some (cache_control b) ∷ bs) = reasonings_if bs
reasonings_if (some (other_block k) ∷ bs) = reasonings_if bs

-- The text of a reply comes back as it is asked for.
text_back :
    (asked alone : Bool) (t : Text)
    → content_blocks alone (content_json (if asked then some t else none)) ≡ text_part asked alone t
unfolding content_blocks
text_back true alone t = refl
text_back false alone t = refl

parts_back :
    {a a' b b' : List (Option Block)} (r : List (Option Block))
    → a ≡ a'
    → b ≡ b'
    → r ++ (a ++ b) ≡ r ++ (a' ++ b')
parts_back r h k = rw (h, k)

module _ (marshal : Json → Text) (names : Names) where
  abbrev pub returned : List (Option Block) → List (Option Block)
  returned bs = (decode_message marshal (echo (reply_of (collect_all bs nothing))) names).0.blocks

  decode-summed :
      (t r : Text) (ht hr : Bool) (cs : List ToolCallBlock)
      → (decode_message marshal
          (echo (
            reply_of (record {
              text_content = t;
              has_text = ht;
              reasoning_content = r;
              has_reasoning = hr;
              tool_calls = map call_of cs;
            })))
          names).0.blocks
        ≡ (let thoughts = (if hr then r else []) in
            reasoning_blocks thoughts
            ++ (text_part (ht || (is_empty cs && not hr)) (is_empty thoughts && is_empty cs) t
                ++ calls_blocks cs))
  unfolding decode_message reply_of reasoning_blocks decode_role text_eq
  decode-summed t [] ht true [] = parts_back [] (text_back (ht || false) true t) (calls_back [])
  decode-summed t [] ht true (b ∷ cs) =
      parts_back [] (text_back (ht || false) false t) (calls_back (b ∷ cs))
  decode-summed t (y ∷ r) ht true [] =
      parts_back (reasoning_blocks (y ∷ r)) (text_back (ht || false) false t) (calls_back [])
  decode-summed t (y ∷ r) ht true (b ∷ cs) =
      parts_back (reasoning_blocks (y ∷ r)) (text_back (ht || false) false t) (calls_back (b ∷ cs))
  decode-summed t r ht false [] = parts_back [] (text_back (ht || true) true t) (calls_back [])
  decode-summed t r ht false (b ∷ cs) =
      parts_back [] (text_back (ht || false) false t) (calls_back (b ∷ cs))

  returned-merged_blocks : (bs : List (Option Block)) → returned bs ≡ merged_blocks bs
  returned-merged_blocks bs =
      ap (λ c. (decode_message marshal (echo (reply_of c)) names).0.blocks)
        (collect_all-summed bs nothing)
      ∙ decode-summed (texts bs) (reasonings bs) (has_text bs) (has_reasoning bs) (calls bs)
      ∙ ap
          (λ r.
            reasoning_blocks r
            ++ (text_part (has_text bs || (is_empty (calls bs) && not (has_reasoning bs)))
                  (is_empty r && is_empty (calls bs)) (texts bs)
                ++ calls_blocks (calls bs)))
          (reasonings_if bs)

  -- An answer that is encoded as a chat completion and sent back by the client as an assistant's
  -- message is decoded to one reasoning of the kind text, the reasonings of the answer joined and
  -- unsigned, one text, the texts joined, and the calls in their order, each with its index, id,
  -- name and arguments; an empty reasoning or text is left out, but for the text of an answer
  -- without reasoning text and calls that has a text block or no reasoning block. A turn that is already one reasoning of that kind, one text and calls, each
  -- left out if it is empty, but for the text of a turn that has nothing else, comes back as it is.
  pub echoed_turn :
      (bs : List (Option Block)) (r t : Text) (cs : List ToolCallBlock)
      → (returned bs ≡ merged_blocks bs) × (returned (turn_blocks r t cs) ≡ turn_blocks r t cs)
  echoed_turn bs r t cs = (returned-merged_blocks bs, echoed_plain_turn marshal names r t cs)
