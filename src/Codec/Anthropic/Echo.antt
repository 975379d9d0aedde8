-- ===== src/Codec/Anthropic/Echo.antt =====
-- An answer that pkg/codec/anthropic.go encodes and the client sends back in its next request.
use ultiproxy.Base.{
  ◌≡◌, refl, ap, ◌∙◌, sym, append_assoc, append_nil, ℤ, Bool, false, Option, some, List, [], ◌∷◌,
  ◌++◌, map, Text, bytes, pos, is_empty, text_eq, if◌then◌else◌,
}
use ultiproxy.Base.Json.{
  Json, string, array, object, Items, no_items, item, Fields, no_fields, field, get_field, is_null,
}
use ultiproxy.Ir.{
  Block, text_block, tool_call_block, reasoning_block, reasoning_text, reasoning_redacted,
}
use ultiproxy.Codec.Anthropic.Request.{
  AnthropicMessage, content_block, item_blocks, items_blocks, content_blocks, decode_message,
}
use ultiproxy.Codec.Anthropic.Response.{
  ContentBlock, empty_block, encode_block, encode_blocks, add_block, is_call,
}

-- json.Marshal of a content block: empty fields are left out.
abbrev text_if : Text → Text → Fields → Fields
text_if k t m = if is_empty t then m else field k (string t) m

abbrev json_if : Text → Json → Fields → Fields
json_if k v m = if is_null v then m else field k v m

unfoldable pub block_fields : ContentBlock → Fields
block_fields b = field (bytes "type") (string b.block_type) (
    text_if (bytes "text") b.text (
      text_if (bytes "id") b.block_id (
        text_if (bytes "name") b.name (
          json_if (bytes "input") b.input (
            text_if (bytes "thinking") b.thinking (
              text_if (bytes "signature") b.signature
                (text_if (bytes "data") b.redacted no_fields)))))))

abbrev content_items : List ContentBlock → Items
content_items [] = no_items
content_items (b ∷ bs) = item (object (block_fields b)) (content_items bs)

-- The client's assistant message.
abbrev pub echo : List ContentBlock → AnthropicMessage
echo content = record { role = bytes "assistant"; content = array (content_items content) }

-- What a model's answer is made of: `redacts` is a reasoning of the kind redacted, `thinks` one of
-- another kind. The arguments of a call are a JSON value.
pub data Part : Type 0 where
  says : Text → Part
  thinks : (kind text signature opaque : Text) → Part
  redacts : (text signature opaque : Text) → Part
  calls : (index : ℤ) (id name : Text) (input : Json) → Part

-- What the format has no place for: the index of a call, the opaque text and the kind of a
-- reasoning, and the signature of a redacted one.
abbrev pub returned : Part → Part
returned (says t) = says t
returned (thinks k t s o) = thinks reasoning_text t s []
returned (redacts t s o) = redacts t [] []
returned (calls i id name v) = calls (pos 0) id name v

-- json.Marshal of a value is an argument.
module _ (marshal : Json → Text) where
  abbrev pub part_block : Part → Block
  part_block (says t) = text_block t
  part_block (thinks k t s o) =
      reasoning_block (record { reasoning_kind = k; text = t; signature = s; opaque = o })
  part_block (redacts t s o) =
      reasoning_block
        (record { reasoning_kind = reasoning_redacted; text = t; signature = s; opaque = o })
  part_block (calls i id name v) =
      tool_call_block (record { index = i; call_id = id; name = name; arguments = marshal v })

  abbrev pub parts_blocks : List Part → List (Option Block)
  parts_blocks [] = []
  parts_blocks (p ∷ ps) = some (part_block p) ∷ parts_blocks ps

module _ (marshal : Json → Text) (unmarshal : Text → Option Json) where
  -- The input of a call is a value, not null, that JSON gives back, and what thinks is not redacted.
  abbrev pub IsPlain : Part → Type 0
  IsPlain (says t) = Unit
  IsPlain (thinks k t s o) = text_eq k reasoning_redacted ≡ false
  IsPlain (redacts t s o) = Unit
  IsPlain (calls i id name v) = (is_null v ≡ false) × (unmarshal (marshal v) ≡ some v)

  abbrev part_content : Part → ContentBlock
  part_content (says t) = record (empty_block (bytes "text")) { text = t }
  part_content (thinks k t s o) = record (empty_block (bytes "thinking")) {
    thinking = t;
    signature = s;
  }
  part_content (redacts t s o) = record (empty_block (bytes "redacted_thinking")) { redacted = t }
  part_content (calls i id name v) = record (empty_block (bytes "tool_use")) {
    block_id = id;
    name = name;
    input = v;
  }

  encode-part :
      (p : Part) → IsPlain p → encode_block unmarshal (part_block marshal p) ≡ some (part_content p)
  unfolding encode_block text_eq
  encode-part (says t) h = refl
  encode-part (thinks k t s o) h = rw h
  encode-part (redacts t s o) h = refl
  encode-part (calls i id name v) h = rw (h.1)

  decode-part :
      (p : Part)
      → IsPlain p
      → item_blocks marshal (object (block_fields (part_content p)))
        ≡ some (part_block marshal (returned p)) ∷ []
  unfolding item_blocks content_block block_fields get_field text_eq
  decode-part (says []) h = refl
  decode-part (says (c ∷ t)) h = refl
  decode-part (thinks k [] [] o) h = refl
  decode-part (thinks k [] (d ∷ s) o) h = refl
  decode-part (thinks k (c ∷ t) [] o) h = refl
  decode-part (thinks k (c ∷ t) (d ∷ s) o) h = refl
  decode-part (redacts [] s o) h = refl
  decode-part (redacts (c ∷ t) s o) h = refl
  decode-part (calls i [] [] v) h = rw (h.0, h.0)
  decode-part (calls i [] (d ∷ name) v) h = rw (h.0, h.0)
  decode-part (calls i (c ∷ id) [] v) h = rw (h.0, h.0)
  decode-part (calls i (c ∷ id) (d ∷ name) v) h = rw (h.0, h.0)

  -- An answer: the parts and whether each is plain.
  abbrev pub AllPlain : List Part → Type 0
  AllPlain [] = Unit
  AllPlain (p ∷ ps) = IsPlain p × AllPlain ps

  encode-parts :
      (ps : List Part) (content : List ContentBlock) (last : Bool)
      → AllPlain ps
      → (encode_blocks unmarshal (parts_blocks marshal ps) (content, last)).0
        ≡ content ++ map part_content ps
  unfolding encode_blocks
  encode-parts [] content last h = sym (append_nil content)
  encode-parts (p ∷ ps) content last h =
      ap
        (λ b.
          (encode_blocks unmarshal (parts_blocks marshal ps)
            (add_block b (is_call (part_block marshal p)) (content, last))).0)
        (encode-part p h.0)
      ∙ encode-parts ps (content ++ (part_content p ∷ [])) _ h.1
      ∙ append_assoc content (part_content p ∷ []) (map part_content ps)

  decode-parts :
      (ps : List Part)
      → AllPlain ps
      → items_blocks marshal (content_items (map part_content ps))
        ≡ parts_blocks marshal (map returned ps)
  unfolding items_blocks
  decode-parts [] h = refl
  decode-parts (p ∷ ps) h =
      ap (λ l. l ++ items_blocks marshal (content_items (map part_content ps))) (decode-part p h.0)
      ∙ ap (λ l. some (part_block marshal (returned p)) ∷ l) (decode-parts ps h.1)

-- An answer of texts, thinking, redacted thinking and tool calls that is encoded as an Anthropic
-- message and sent back by the client as the assistant's turn is decoded to the same blocks in the
-- same order, the signatures of thinking included, except that each call has the index 0, each
-- thinking the kind text, and no reasoning an opaque text and no redacted one a signature; if the
-- arguments of each call are JSON, not null, as json.Marshal writes it.
pub echoed_answer :
    (marshal : Json → Text) (unmarshal : Text → Option Json) (ps : List Part)
    → AllPlain marshal unmarshal ps
    → (decode_message marshal
        (echo (encode_blocks unmarshal (parts_blocks marshal ps) ([], false)).0)).blocks
      ≡ parts_blocks marshal (map returned ps)
unfolding decode_message content_blocks
echoed_answer marshal unmarshal ps h =
    ap (λ c. items_blocks marshal (content_items c)) (encode-parts marshal unmarshal ps [] false h)
    ∙ decode-parts marshal unmarshal ps h
