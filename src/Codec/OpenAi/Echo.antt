-- ===== src/Codec/OpenAi/Echo.antt =====
-- A reply that pkg/codec/openai.go encodes and the client sends back in its next request.
use ultiproxy.Base.{
  ◌≡◌, refl, ap, ◌∙◌, sym, append_assoc, append_nil, ℕ, ◌+◌, Bool, not, ◌&&◌, ◌||◌, Option, none,
  some, List, [], ◌∷◌, ◌++◌, map, Text, bytes, is_empty, text_eq, if◌then◌else◌, or_else,
}
use ultiproxy.Base.Json.{Json, null, string}
use ultiproxy.Ir.{Block, text_block, tool_call_block, ToolCallBlock}
use ultiproxy.Codec.OpenAi.Request.{
  ChatMessage, thought, reasoning_blocks, content_blocks, call_blocks, decode_role, decode_message,
  Names,
}
use ultiproxy.Codec.OpenAi.Response.{
  Reply, Collected, nothing, call_of, collect, collect_all, reply_of,
}

-- What a client sends back: the reply as an assistant's message of its next request.
abbrev pub content_json : Option Text → Json
content_json none = null
content_json (some t) = string t

abbrev pub echo : Reply → ChatMessage
echo r = record {
  role = bytes "assistant";
  content = content_json r.content;
  reasoning_content = or_else r.reasoning_content [];
  tool_calls = r.tool_calls;
  tool_call_id = [];
  name = [];
}

abbrev pub calls_blocks : List ToolCallBlock → List (Option Block)
calls_blocks [] = []
calls_blocks (c ∷ cs) = some (tool_call_block c) ∷ calls_blocks cs

-- A turn of the model: its reasoning, its text and its tool calls, without empty blocks, except
-- for the one text block of a turn that has nothing else.
abbrev pub text_blocks : Bool → Text → List (Option Block)
text_blocks alone t = if not (is_empty t) || alone then some (text_block t) ∷ [] else []

abbrev pub turn_blocks : Text → Text → List ToolCallBlock → List (Option Block)
turn_blocks r t calls =
    reasoning_blocks r ++ (text_blocks (is_empty r && is_empty calls) t ++ calls_blocks calls)

collect_all-append :
    (bs cs : List (Option Block)) (c : Collected)
    → collect_all (bs ++ cs) c ≡ collect_all cs (collect_all bs c)
unfolding collect_all
collect_all-append [] cs c = refl
collect_all-append (none ∷ bs) cs c = collect_all-append bs cs c
collect_all-append (some b ∷ bs) cs c = collect_all-append bs cs (collect b c)

collect_calls :
    (calls : List ToolCallBlock) (c : Collected)
    → collect_all (calls_blocks calls) c
      ≡ record c { tool_calls = c.tool_calls ++ map call_of calls }
unfolding collect_all collect
collect_calls [] c = ap (λ l. record c { tool_calls = l }) (sym (append_nil c.tool_calls))
collect_calls (b ∷ bs) c =
    collect_calls bs (record c { tool_calls = c.tool_calls ++ (call_of b ∷ []) })
    ∙ ap (λ l. record c { tool_calls = l })
        (append_assoc c.tool_calls (call_of b ∷ []) (map call_of bs))

-- The decoder gives every call back, index included.
call_blocks-map :
    (i : ℕ) (calls : List ToolCallBlock) → call_blocks i (map call_of calls) ≡ calls_blocks calls
unfolding call_blocks
call_blocks-map i [] = refl
call_blocks-map i (c ∷ cs) = ap (λ l. some (tool_call_block c) ∷ l) (call_blocks-map (i + 1) cs)

-- The reply of a turn.
abbrev turn_reply : Text → Text → List ToolCallBlock → Reply
turn_reply r t calls = record {
  content = (if not (is_empty t) || (is_empty r && is_empty calls) then some t else none);
  reasoning_content = (if is_empty r then none else some r);
  tool_calls = map call_of calls;
}

reply_of-turn :
    (r t : Text) (calls : List ToolCallBlock)
    → reply_of (collect_all (turn_blocks r t calls) nothing) ≡ turn_reply r t calls
unfolding reply_of reasoning_blocks collect collect_all
reply_of-turn [] [] [] = refl
reply_of-turn [] [] (b ∷ bs) = ap reply_of (collect_calls (b ∷ bs) nothing)
reply_of-turn [] (x ∷ t) calls =
    ap reply_of (collect_calls calls (collect (text_block (x ∷ t)) nothing))
reply_of-turn (y ∷ r) [] [] = refl
reply_of-turn (y ∷ r) [] (b ∷ bs) =
    ap reply_of (collect_calls (b ∷ bs) (collect (thought (y ∷ r)) nothing))
reply_of-turn (y ∷ r) (x ∷ t) calls =
    ap reply_of
      (collect_calls calls (collect (text_block (x ∷ t)) (collect (thought (y ∷ r)) nothing)))

pub calls_back :
    (calls : List ToolCallBlock) → call_blocks 0 (map call_of calls) ++ [] ≡ calls_blocks calls
calls_back calls = append_nil _ ∙ call_blocks-map 0 calls

decode-turn :
    (marshal : Json → Text) (names : Names) (r t : Text) (calls : List ToolCallBlock)
    → (decode_message marshal (echo (turn_reply r t calls)) names).0.blocks ≡ turn_blocks r t calls
unfolding decode_message reasoning_blocks content_blocks decode_role text_eq call_blocks
decode-turn marshal names [] [] [] = refl
decode-turn marshal names [] [] (b ∷ bs) = calls_back (b ∷ bs)
decode-turn marshal names [] (x ∷ t) calls =
    ap (λ l. some (text_block (x ∷ t)) ∷ l) (calls_back calls)
decode-turn marshal names (y ∷ r) [] calls = ap (λ l. some (thought (y ∷ r)) ∷ l) (calls_back calls)
decode-turn marshal names (y ∷ r) (x ∷ t) calls =
    ap (λ l. some (thought (y ∷ r)) ∷ some (text_block (x ∷ t)) ∷ l) (calls_back calls)

-- A turn of at most one reasoning, of the kind text and without a signature, then at most one text,
-- then tool calls, where no reasoning is empty and no text that stands beside another block, that is
-- encoded as a chat completion and sent back by the client as an assistant's message is decoded to
-- the same blocks: reasoning and text byte for byte, and every call with its index, id, name and
-- arguments.
pub echoed_plain_turn :
    (marshal : Json → Text) (names : Names) (r t : Text) (calls : List ToolCallBlock)
    → (decode_message marshal
        (echo (reply_of (collect_all (turn_blocks r t calls) nothing)))
        names).0.blocks
      ≡ turn_blocks r t calls
echoed_plain_turn marshal names r t calls =
    ap (λ m. (decode_message marshal (echo m) names).0.blocks) (reply_of-turn r t calls)
    ∙ decode-turn marshal names r t calls
