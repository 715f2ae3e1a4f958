-- ===== src/Context/Tokens.antt =====
-- The size estimates of internal/contextmgmt/compress.go. A text is a sequence of code points.
use Prim.Native.Char.{code}
use Prim.Native.String.{len}
use nowhere_agent.Base.{
  ℕ, ◌+◌, ◌/◌, String, Bool, true, false, List, [], ◌∷◌, Option, none, some, ltb, arith, ◌≡◌, ◌++◌,
  if◌then◌else◌,
}
use nowhere_agent.Provider.{Block, BlockType, Message, ToolDefinition}

pub record TokenCounter : Type 0 where
  pub ascii : ℕ
  pub non_ascii : ℕ

abbrev pub no_tokens : TokenCounter
no_tokens = record { ascii = 0; non_ascii = 0 }

abbrev pub add_ascii : TokenCounter → ℕ → TokenCounter
add_ascii c n = record c { ascii = c.ascii + n }

-- One character; `utf8.RuneSelf` is 128.
abbrev pub add_rune : TokenCounter → ℕ → TokenCounter
add_rune c r =
    if ltb r 128 then record c { ascii = c.ascii + 1 } else record c { non_ascii = c.non_ascii + 1 }

unfoldable pub add : TokenCounter → String → TokenCounter
add c String.[] = c
add c (String.◌∷◌ r s) = add (add_rune c (code r)) s

unfoldable pub tokens : TokenCounter → ℕ
tokens c = c.ascii / 4 + c.non_ascii

abbrev pub image_ref_bytes : ℕ
image_ref_bytes = 4000

abbrev pub is_image : Block → Bool
is_image b = elim b.type [ BlockType.image ↦ true | _ ↦ false ]

-- The bytes that an image block counts for: its payload, or a flat estimate before it is loaded.
abbrev pub image_bytes : Block → ℕ
image_bytes b = if ltb 0 (len b.image_data) then len b.image_data else image_ref_bytes

unfoldable pub count_input : TokenCounter → List (String × Option String) → TokenCounter
count_input c [] = c
count_input c ((k, v) ∷ input) =
    let c' = add c k in
    count_input (elim v [ none ↦ c' | some raw ↦ add (add_ascii c' 8) raw ]) input

unfoldable pub count_block : TokenCounter → Block → TokenCounter
count_block c b =
    let texts =
      add (add (add (add (add c b.text) b.thinking) b.tool_content) b.tool_name) b.args_error in
    let input = count_input texts b.tool_input in
    if is_image b then add_ascii input (image_bytes b) else input

unfoldable pub count_blocks : TokenCounter → List Block → TokenCounter
count_blocks c [] = c
count_blocks c (b ∷ bs) = count_blocks (count_block c b) bs

unfoldable pub count_messages : TokenCounter → List Message → TokenCounter
count_messages c [] = c
count_messages c (m ∷ ms) = count_messages (count_blocks c m.content) ms

unfoldable pub estimate_tokens : List Message → ℕ
estimate_tokens msgs = tokens (count_messages no_tokens msgs)

unfoldable pub count_tools : TokenCounter → List ToolDefinition → TokenCounter
count_tools c [] = c
count_tools c (t ∷ ts) =
    let named = add_ascii (add (add c t.name) t.description) 16 in
    count_tools (elim t.input_schema [ none ↦ named | some raw ↦ add named raw ]) ts

unfoldable pub estimate_overhead : String → List ToolDefinition → ℕ
estimate_overhead system tools = tokens (count_tools (add no_tokens system) tools)

unfoldable pub input_bytes : List (String × Option String) → ℕ
input_bytes [] = 0
input_bytes ((k, v) ∷ input) =
    len k + 8 + (elim v [ none ↦ 0 | some raw ↦ len raw ]) + input_bytes input

unfoldable pub block_bytes : Block → ℕ
block_bytes b =
    len b.text
    + len b.thinking
    + len b.tool_content
    + len b.tool_name
    + len b.args_error
    + input_bytes b.tool_input
    + (if is_image b then image_bytes b else 0)

unfoldable pub blocks_bytes : List Block → ℕ
blocks_bytes [] = 0
blocks_bytes (b ∷ bs) = block_bytes b + blocks_bytes bs

unfoldable pub content_bytes : List Message → ℕ
content_bytes [] = 0
content_bytes (m ∷ ms) = blocks_bytes m.content + content_bytes ms

-- The fingerprint of a conversation is the sum of those of its parts.
pub content_bytes-append :
    (xs ys : List Message) → content_bytes (xs ++ ys) ≡ content_bytes xs + content_bytes ys
unfolding content_bytes
content_bytes-append [] ys = omega arith
content_bytes-append (m ∷ xs) ys = omega (arith, content_bytes-append xs ys)
