-- ===== src/Provider.antt =====
-- The canonical message model, internal/provider/types.go.
use nowhere_agent.Base.{ℕ, ◌+◌, ◌/◌, ◌%◌, leb, String, Bool, false, List, [], ◌∷◌, Option, none}

pub data Role : Type 0 where
  user assistant : Role

pub data BlockType : Type 0 where
  text tool_use tool_result thinking image : BlockType

-- One unit of message content. A value of the tool input is given by what `json.Marshal` returns
-- for it (`none` for an error), the only thing that the modelled code reads of it; the nested
-- messages and the generative UI are carried along in their JSON form.
pub record Block : Type 0 where
  pub type : BlockType
  pub text : String
  pub thinking : String
  pub thinking_signature : String
  pub tool_use_id : String
  pub tool_name : String
  pub tool_input : List (String × Option String)
  pub args_error : String
  pub tool_result_id : String
  pub tool_content : String
  pub is_error : Bool
  pub tool_messages : Option String
  pub generative_ui : Option String
  pub media_type : String
  pub image_path : String
  pub image_data : String
  pub cache_point : Bool

pub record Message : Type 0 where
  pub role : Role
  pub content : List Block

-- A block of the given type with Go's zero values elsewhere.
abbrev pub empty_block : BlockType → Block
empty_block t = record {
  type = t;
  text = "";
  thinking = "";
  thinking_signature = "";
  tool_use_id = "";
  tool_name = "";
  tool_input = [];
  args_error = "";
  tool_result_id = "";
  tool_content = "";
  is_error = false;
  tool_messages = none;
  generative_ui = none;
  media_type = "";
  image_path = "";
  image_data = "";
  cache_point = false;
}

abbrev pub text_block : String → Block
text_block s = record (empty_block BlockType.text) { text = s }

abbrev pub text_message : Role → String → Message
text_message r s = record { role = r; content = text_block s ∷ [] }

abbrev pub is_tool_use : Block → Bool
is_tool_use b = elim b.type [ BlockType.tool_use ↦ Bool.true | _ ↦ false ]

abbrev pub is_tool_result : Block → Bool
is_tool_result b = elim b.type [ BlockType.tool_result ↦ Bool.true | _ ↦ false ]

abbrev pub is_assistant : Message → Bool
is_assistant m = elim m.role [ assistant ↦ Bool.true | user ↦ false ]

-- A tool as the model is told of it; the schema in its JSON form, `none` if it cannot be encoded.
pub record ToolDefinition : Type 0 where
  pub name : String
  pub description : String
  pub input_schema : Option String

-- `provider.Usage`; a count is the two's complement of an int64, since adjustments are negative.
pub record Usage : Type 0 where
  pub input : ℕ
  pub output : ℕ
  pub cache_read : ℕ
  pub cache_write : ℕ
  pub reasoning : ℕ

abbrev pub word : ℕ
word = 18_446_744_073_709_551_616

-- `u.X += v.X` for the four counts, on their two's complements.
abbrev pub add_usage : Usage → Usage → Usage
add_usage u v = record u {
  input = (u.input + v.input) % word;
  output = (u.output + v.output) % word;
  cache_read = (u.cache_read + v.cache_read) % word;
  cache_write = (u.cache_write + v.cache_write) % word;
}

-- `a >= b` on int64.
abbrev pub at_least : ℕ → ℕ → Bool
at_least a b = leb ((b + word / 2) % word) ((a + word / 2) % word)

-- Why a generation ended; a reason that the loop does not know passes through as its text.
pub data StopReason : Type 0 where
  stop_unknown stop_end_turn stop_tool_use stop_max_tokens stop_stop_sequence : StopReason
  stop_other : String → StopReason

-- A canonical event of a stream but the start of a message, of which the loop takes no notice; a
-- start without a block does nothing either.
pub data StreamEvent : Type 0 where
  event_error : String → StreamEvent
  block_start : ℕ → Option Block → StreamEvent
  block_delta : ℕ → String → String → StreamEvent
  block_stop : ℕ → StreamEvent
  message_stop : StopReason → Option Usage → StreamEvent
