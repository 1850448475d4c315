-- ===== src/Compaction/Judge.antt =====
-- `parse_judge_response` and `strip_compaction_judge_history` of src/uv_agent/agent/compaction.py.
pub mod Filter
use uv_agent.Common.{
  ℕ, Bool, true, false, not, ◌&&◌, ◌||◌, Option, none, some, List, [], ◌∷◌, ◌++◌, ◌==◌,
  if◌then◌else◌, is_some,
}
use uv_agent.Common.Text.{Text, lit, text_eq, starts_with, strip, lstrip}
use uv_agent.Compaction.Item.{
  Prompts, Item, is_one_of, message_item_text, has_role, user, assistant,
}

abbrev closed : Text → List Text
closed [] = []
closed (c ∷ s) = (b'{' ∷ (c ∷ s) ++ b'}' ∷ []) ∷ []

-- The matches of `\{[^}]+\}`: an open brace, at least one character that is no closing brace, and a
-- closing brace. The text since an open brace is kept while one is open.
unfoldable pub blocks : Option Text → Text → List Text
blocks brace [] = []
blocks none (c ∷ s) =
    let inside = blocks (some []) s in
    let outside = blocks none s in if c == b'{' then inside else outside
blocks (some acc) (c ∷ s) =
    let after = blocks none s in
    let further = blocks (some (acc ++ c ∷ [])) s in
    if c == b'}' then closed acc ++ after else further

-- `json.loads`: the keys of the object that a text stands for, if it is one.
module _ (prompts : Prompts) (loads : Text → Option (List Text)) where
  abbrev has_dependency : Option (List Text) → Bool
  has_dependency none = false
  has_dependency (some keys) = is_one_of (lit "history_dependency") keys

  abbrev first_judge : List Text → Option Text
  first_judge [] = none
  first_judge (block ∷ rest) = if has_dependency (loads block) then some block else first_judge rest

  -- `parse_judge_response`; the object is known by its text.
  unfoldable pub parse_judge_response : Text → Option Text
  parse_judge_response text = first_judge (blocks none text)

  -- `_is_compaction_judge_request_item`
  unfoldable pub is_judge_request : Item → Bool
  is_judge_request item =
      has_role user item
      && starts_with (lstrip (message_item_text item)) (strip prompts.judge_request)

  -- `_is_non_judge_user_message`
  unfoldable pub is_non_judge_user : Item → Bool
  is_non_judge_user item = has_role user item && not (is_judge_request item)

  -- `_is_compaction_judge_response_item`
  unfoldable pub is_judge_response : Item → Bool
  is_judge_response item =
      has_role assistant item && is_some (parse_judge_response (message_item_text item))

  -- The loop of `strip_compaction_judge_history`, with its variable `skipping_judge_exchange`.
  unfoldable pub strip_from : Bool → List Item → List Item
  strip_from skipping [] = []
  strip_from skipping (item ∷ items) =
      let skipped = strip_from true items in
      let kept = strip_from false items in
      if is_judge_request item
      then skipped
      else if skipping && not (is_non_judge_user item)
      then skipped
      else if is_judge_response item
      then kept
      else item ∷ kept

  unfoldable pub strip_judge_history : List Item → List Item
  strip_judge_history items = strip_from false items
