-- ===== src/Compaction/Item.antt =====
-- The items of a model's input, as src/uv_agent/agent/compaction.py and src/uv_agent/agent/messages.py
-- read them. An item is a dictionary: a key that is missing and one with an empty value are read alike.
use uv_agent.Common.{
  ℕ, Bool, false, ◌||◌, List, [], ◌∷◌, ◌++◌, map, ◌==◌, ◌*◌, ◌-◌, if◌then◌else◌, length, take, leb,
}
use uv_agent.Common.Text.{Text, lit, text_eq, starts_with, join, concat, is_space}
use mathlib.Core.List.{reverse}

-- The prompt texts on whose wording nothing depends.
pub record Prompts : Type 0 where
  pub judge_request : Text
  pub scaffold_markers : List Text
  pub post_tool_bridge : Text
  pub truncation_suffix : Text
  pub no_summary : Text
  pub continuation : Text

pub record Content : Type 0 where
  pub kind : Text
  pub text : Text

pub data Item : Type 0 where
  message : (role : Text) (content : List Content) → Item
  function_call : (call_id name arguments : Text) → Item
  function_call_output : (call_id output : Text) → Item
  other : (kind : Text) (content : List Content) → Item

abbrev pub is_one_of : Text → List Text → Bool
is_one_of s [] = false
is_one_of s (t ∷ ts) = text_eq s t || is_one_of s ts

-- `marker in text`
unfoldable pub occurs : Text → Text → Bool
occurs marker [] = starts_with [] marker
occurs marker (c ∷ s) = starts_with (c ∷ s) marker || occurs marker s

-- `any(marker in text for marker in markers)`
abbrev pub occurs_any : List Text → Text → Bool
occurs_any [] text = false
occurs_any (marker ∷ markers) text = occurs marker text || occurs_any markers text

abbrev pub user : Text
user = lit "user"

abbrev pub assistant : Text
assistant = lit "assistant"

-- `message_item`
unfoldable pub message_item : Text → Text → Item
message_item role text = message role (record { kind = lit "input_text"; text = text } ∷ [])

abbrev text_kinds : List Text
text_kinds = lit "input_text" ∷ lit "output_text" ∷ lit "text" ∷ lit "refusal" ∷ []

abbrev texts_of : List Content → List Text
texts_of [] = []
texts_of (c ∷ cs) = if is_one_of c.kind text_kinds then c.text ∷ texts_of cs else texts_of cs

abbrev content_of : Item → List Content
content_of (message role content) = content
content_of (function_call call_id name arguments) = []
content_of (function_call_output call_id output) = []
content_of (other kind content) = content

-- `message_item_text`
unfoldable pub message_item_text : Item → Text
message_item_text item = join (lit "\n") (texts_of (content_of item))

-- Whether an item is a message of a role.
abbrev pub has_role : Text → Item → Bool
has_role role (message r content) = text_eq r role
has_role role _ = false

-- `xml_text`, which is `html.escape(text, quote=False)`
abbrev escape : ℕ → Text
escape c =
    if c == b'&'
    then lit "&amp;"
    else if c == b'<'
    then lit "&lt;"
    else if c == b'>'
    then lit "&gt;"
    else c ∷ []

unfoldable pub xml_text : Text → Text
xml_text s = concat (map escape s)

abbrev rstrip_reversed : Text → Text
rstrip_reversed [] = []
rstrip_reversed (c ∷ s) = if is_space c then rstrip_reversed s else c ∷ s

-- `truncate_text_to_estimated_tokens`
unfoldable pub truncate_text : Prompts → Text → ℕ → Text
truncate_text prompts text max_tokens =
    let max_chars = max_tokens * 4 in
    let keep = max_chars - length prompts.truncation_suffix in
    if max_tokens == 0
    then []
    else if leb (length text) max_chars
    then text
    else reverse (rstrip_reversed (reverse (take keep text))) ++ prompts.truncation_suffix
