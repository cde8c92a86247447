-- ===== src/History/Codec.antt =====
-- Messages as lists of texts and back, for the samples: a concrete choice of what a message is
-- compared by.
use nex_au.Prelude.{
  ℕ, zero, suc, ◌≡◌, refl, ap, sym, ◌∙◌, Bool, true, false, Option, none, some, List, [], ◌∷◌,
  nat_eq, list_eq, map,
}
use nex_au.Prelude.Text.{Text}
use nex_au.History.Messages.{
  Role, system, user, framework, assistant, tool, Block, text_block, image_block, reasoning_block,
  tool_use_block, tool_result_block, Message, TextBlock, ImageBlock, ResultPart, text_part,
  image_part, ResultContent, plain, parts,
}

abbrev optional : Option Text → Text
optional none = []
optional (some t) = 1 ∷ t

abbrev read_optional : Text → Option Text
read_optional [] = none
read_optional (_ ∷ t) = some t

read-optional : (o : Option Text) → read_optional (optional o) ≡ o
read-optional none = refl
read-optional (some t) = refl

abbrev flag : Bool → ℕ
flag false = 0
flag true = 1

abbrev read_flag : ℕ → Bool
read_flag zero = false
read_flag (suc _) = true

abbrev text_code : TextBlock → List Text
text_code b = optional b.id ∷ b.text ∷ []

abbrev image_code : ImageBlock → List Text
image_code b = optional b.id ∷ optional b.url ∷ optional b.base64 ∷ b.mime_type ∷ b.detail ∷ []

abbrev read_text : Text → Text → TextBlock
read_text i t = record { id = read_optional i; text = t }

abbrev read_image : Text → Text → Text → Text → Text → ImageBlock
read_image i u b m d = record {
  id = read_optional i;
  url = read_optional u;
  base64 = read_optional b;
  mime_type = m;
  detail = d;
}

-- A text has two fields and an image five.
abbrev part_code : ResultPart → List Text
part_code (text_part b) = text_code b
part_code (image_part b) = image_code b

abbrev read_part : List Text → ResultPart
read_part (i ∷ t ∷ []) = text_part (read_text i t)
read_part (i ∷ u ∷ b ∷ m ∷ d ∷ []) = image_part (read_image i u b m d)
read_part _ = text_part (read_text [] [])

read-part : (p : ResultPart) → read_part (part_code p) ≡ p
read-part (text_part b) = rw (read-optional b.id) refl
read-part (image_part b) = rw (read-optional b.id, read-optional b.url, read-optional b.base64) refl

read-parts : (ps : List ResultPart) → map read_part (map part_code ps) ≡ ps
read-parts [] = refl
read-parts (p ∷ ps) = rw (read-part p, read-parts ps) refl

-- A plain content stands in a row by itself, a list of parts behind an empty one.
abbrev content_code : ResultContent → List (List Text)
content_code (plain t) = (t ∷ []) ∷ []
content_code (parts ps) = [] ∷ map part_code ps

abbrev read_content : List (List Text) → ResultContent
read_content ((t ∷ []) ∷ []) = plain t
read_content ([] ∷ ps) = parts (map read_part ps)
read_content _ = plain []

read-content : (c : ResultContent) → read_content (content_code c) ≡ c
read-content (plain t) = refl
read-content (parts ps) = ap parts (read-parts ps)

-- The first row has a number of empty texts in front that tells the kind.
abbrev block_code : Block → List (List Text)
block_code (text_block b) = [] ∷ text_code b ∷ []
block_code (image_block b) = ([] ∷ []) ∷ image_code b ∷ []
block_code (reasoning_block b) =
    ([] ∷ [] ∷ [])
    ∷ (optional b.id ∷ b.text ∷ optional b.signature ∷ optional b.redacted_data ∷ [])
    ∷ []
block_code (tool_use_block b) =
    ([] ∷ [] ∷ [] ∷ []) ∷ (b.id ∷ b.name ∷ b.input ∷ optional b.raw_input ∷ []) ∷ []
block_code (tool_result_block b) =
    ([] ∷ [] ∷ [] ∷ [] ∷ [])
    ∷ (b.tool_use_id ∷ (flag b.is_error ∷ []) ∷ optional b.raw_output ∷ [])
    ∷ content_code b.content

abbrev read_flag_text : Text → Bool
read_flag_text [] = false
read_flag_text (n ∷ _) = read_flag n

abbrev read_block : List (List Text) → Block
read_block ([] ∷ (i ∷ t ∷ []) ∷ []) = text_block (read_text i t)
read_block ((_ ∷ []) ∷ (i ∷ u ∷ b ∷ m ∷ d ∷ []) ∷ []) = image_block (read_image i u b m d)
read_block ((_ ∷ _ ∷ []) ∷ (i ∷ t ∷ s ∷ r ∷ []) ∷ []) = reasoning_block (record {
  id = read_optional i;
  text = t;
  signature = read_optional s;
  redacted_data = read_optional r;
})
read_block ((_ ∷ _ ∷ _ ∷ []) ∷ (i ∷ n ∷ p ∷ r ∷ []) ∷ []) =
    tool_use_block (record { id = i; name = n; input = p; raw_input = read_optional r })
read_block ((_ ∷ _ ∷ _ ∷ _ ∷ []) ∷ (i ∷ e ∷ r ∷ []) ∷ c) = tool_result_block (record {
  tool_use_id = i;
  content = read_content c;
  is_error = read_flag_text e;
  raw_output = read_optional r;
})
read_block _ = text_block (read_text [] [])

read-flag : (b : Bool) → read_flag (flag b) ≡ b
read-flag false = refl
read-flag true = refl

read-block : (b : Block) → read_block (block_code b) ≡ b
read-block (text_block b) = rw (read-optional b.id) refl
read-block (image_block b) =
    rw (read-optional b.id, read-optional b.url, read-optional b.base64) refl
read-block (reasoning_block b) =
    rw (read-optional b.id, read-optional b.signature, read-optional b.redacted_data) refl
read-block (tool_use_block b) = rw (read-optional b.raw_input) refl
read-block (tool_result_block b) =
    rw (read-content b.content, read-flag b.is_error, read-optional b.raw_output) refl

abbrev role_code : Role → Text
role_code system = []
role_code user = 0 ∷ []
role_code framework = 0 ∷ 0 ∷ []
role_code assistant = 0 ∷ 0 ∷ 0 ∷ []
role_code tool = 0 ∷ 0 ∷ 0 ∷ 0 ∷ []

abbrev read_role : Text → Role
read_role [] = system
read_role (_ ∷ []) = user
read_role (_ ∷ _ ∷ []) = framework
read_role (_ ∷ _ ∷ _ ∷ []) = assistant
read_role _ = tool

read-role : (r : Role) → read_role (role_code r) ≡ r
read-role system = refl
read-role user = refl
read-role framework = refl
read-role assistant = refl
read-role tool = refl

abbrev time_code : Option ℕ → Text
time_code none = []
time_code (some n) = n ∷ []

abbrev read_time : Text → Option ℕ
read_time [] = none
read_time (n ∷ _) = some n

read-time : (o : Option ℕ) → read_time (time_code o) ≡ o
read-time none = refl
read-time (some n) = refl

abbrev pub print : Message → List (List (List Text))
print m =
    ((m.id ∷ role_code m.role ∷ m.metadata ∷ time_code m.created_at ∷ []) ∷ [])
    ∷ map block_code m.content

abbrev empty_message : Message
empty_message = record { id = []; role = system; content = []; metadata = []; created_at = none }

abbrev pub read : List (List (List Text)) → Message
read (((id ∷ role ∷ metadata ∷ time ∷ []) ∷ []) ∷ blocks) = record {
  id = id;
  role = read_role role;
  content = map read_block blocks;
  metadata = metadata;
  created_at = read_time time;
}
read _ = empty_message

read-blocks : (bs : List Block) → map read_block (map block_code bs) ≡ bs
read-blocks [] = refl
read-blocks (b ∷ bs) = rw (read-block b, read-blocks bs) refl

read-print : (m : Message) → read (print m) ≡ m
read-print m = rw (read-role m.role, read-time m.created_at, read-blocks m.content) refl

pub print-injective : (m n : Message) → print m ≡ print n → m ≡ n
print-injective m n e = sym (read-print m) ∙ ap read e ∙ read-print n
