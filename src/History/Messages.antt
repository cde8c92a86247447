-- ===== src/History/Messages.antt =====
-- nexau/core/messages.py: the data of a message; and the tests on messages of
-- nexau/archs/session/agent_run_action_service.py. JSON values are their texts.
use nex_au.Prelude.{ℕ, Bool, true, false, not, ◌&&◌, Option, none, List, [], ◌∷◌, all, select}
use nex_au.Prelude.Text.{Text}

-- Role
pub data Role : Type 0 where
  system : Role
  user : Role
  framework : Role
  assistant : Role
  tool : Role

-- TextBlock
pub record TextBlock : Type 0 where
  pub id : Option Text
  pub text : Text

-- ImageBlock
pub record ImageBlock : Type 0 where
  pub id : Option Text
  pub url : Option Text
  pub base64 : Option Text
  pub mime_type : Text
  pub detail : Text

-- ReasoningBlock
pub record ReasoningBlock : Type 0 where
  pub id : Option Text
  pub text : Text
  pub signature : Option Text
  pub redacted_data : Option Text

-- ToolUseBlock
pub record ToolUseBlock : Type 0 where
  pub id : Text
  pub name : Text
  pub input : Text
  pub raw_input : Option Text

-- ToolResultContentBlock, and `str | list[ToolResultContentBlock]`
pub data ResultPart : Type 0 where
  text_part : TextBlock → ResultPart
  image_part : ImageBlock → ResultPart

pub data ResultContent : Type 0 where
  plain : Text → ResultContent
  parts : List ResultPart → ResultContent

-- ToolResultBlock
pub record ToolResultBlock : Type 0 where
  pub tool_use_id : Text
  pub content : ResultContent
  pub is_error : Bool
  pub raw_output : Option Text

-- DiscriminatedBlock
pub data Block : Type 0 where
  text_block : TextBlock → Block
  image_block : ImageBlock → Block
  reasoning_block : ReasoningBlock → Block
  tool_use_block : ToolUseBlock → Block
  tool_result_block : ToolResultBlock → Block

-- `TextBlock(text=…)`
abbrev pub new_text : Text → Block
new_text t = text_block (record { id = none; text = t })

-- `ToolResultBlock(tool_use_id=…, content=…, is_error=…)`
abbrev pub new_result : (tool_use_id content : Text) → (is_error : Bool) → Block
new_result id content is_error =
    tool_result_block
      (record { tool_use_id = id; content = plain content; is_error = is_error; raw_output = none })

-- Message
pub record Message : Type 0 where
  pub id : Text
  pub role : Role
  pub content : List Block
  pub metadata : Text
  pub created_at : Option ℕ

abbrev pub is_system : Role → Bool
is_system system = true
is_system _ = false

abbrev pub is_assistant : Role → Bool
is_assistant assistant = true
is_assistant _ = false

abbrev pub is_tool : Role → Bool
is_tool tool = true
is_tool _ = false

abbrev pub is_reasoning : Block → Bool
is_reasoning (reasoning_block _) = true
is_reasoning _ = false

abbrev pub some_content : List Block → Bool
some_content [] = false
some_content (_ ∷ _) = true

-- `_is_reasoning_only_assistant`
unfoldable pub is_reasoning_only : Message → Bool
is_reasoning_only m = is_assistant m.role && (some_content m.content && all is_reasoning m.content)

-- `[m for m in messages if m.role != Role.SYSTEM]`
unfoldable pub non_system : List Message → List Message
non_system ms = select (λ m. not (is_system m.role)) ms

-- `[m for m in messages if not _is_reasoning_only_assistant(m)]`
unfoldable pub meaningful : List Message → List Message
meaningful ms = select (λ m. not (is_reasoning_only m)) ms
