-- ===== src/Compaction/Retain.antt =====
-- The history that a compaction keeps: `_retained_recent_history_entries`,
-- `_retained_user_history_entries` and the entries that they select, in
-- src/uv_agent/agent/compaction.py.
pub mod Budget
pub mod Ending
pub mod Merge
use mathlib.Core.List.{reverse}
use uv_agent.Common.{
  ℕ, zero, suc, ◌+◌, ◌-◌, ◌/◌, Bool, true, false, not, ◌&&◌, ◌||◌, Option, none, some, List, [],
  ◌∷◌, ◌++◌, ◌==◌, if◌then◌else◌, leb, ltb, length,
}
use uv_agent.Common.Text.{Text, lit, text_eq}
use uv_agent.Compaction.Item.{
  Prompts, Item, message, function_call, function_call_output, other, is_one_of, occurs, occurs_any,
  message_item, message_item_text, has_role, user, assistant, xml_text, truncate_text,
}

-- The tuple that tells entries apart; each begins with "item".
pub data Identity : Type 0 where
  of_message : (order : ℕ) (role : Text) → Identity
  of_call : (order : ℕ) (call_id name : Text) → Identity
  of_output : (order : ℕ) (call_id : Text) → Identity

-- `RetainedHistoryEntry`
pub record Entry : Type 0 where
  pub order : ℕ
  pub identity : Identity
  pub text : Text

-- The argument `max_tokens`: a text, cut where it is given.
abbrev pub cut : Prompts → Option ℕ → Text → Text
cut prompts none text = text
cut prompts (some max_tokens) text = truncate_text prompts text max_tokens

abbrev or_tool : Text → Text
or_tool [] = lit "tool"
or_tool (c ∷ s) = c ∷ s

abbrev or_user : Text → Text
or_user [] = user
or_user (c ∷ s) = c ∷ s

-- The three templates of an entry.
abbrev message_entry : Text → Text → Text
message_entry role text =
    lit "<message role=\"" ++ xml_text role ++ lit "\">\n" ++ xml_text text ++ lit "\n</message>"

abbrev call_entry : Text → Text → Text → Text
call_entry name call_id arguments =
    lit "<tool_call name=\""
    ++ xml_text name
    ++ lit "\" call_id=\""
    ++ xml_text call_id
    ++ lit "\">\n"
    ++ xml_text arguments
    ++ lit "\n</tool_call>"

abbrev output_entry : Text → Text → Text
output_entry call_id output =
    lit "<tool_output call_id=\""
    ++ xml_text call_id
    ++ lit "\">\n"
    ++ xml_text output
    ++ lit "\n</tool_output>"

abbrev message_of : ℕ → Text → Text → Option Entry
message_of order role [] = none
message_of order role (c ∷ s) =
    if is_one_of role (user ∷ assistant ∷ [])
    then some (record {
      order = order;
      identity = of_message order role;
      text = message_entry role (c ∷ s);
    })
    else none

-- A call always has a name, so that its test never fails.
abbrev call_of : ℕ → Text → Text → Text → Option Entry
call_of order call_id name arguments = some (record {
  order = order;
  identity = of_call order call_id name;
  text = call_entry name call_id arguments;
})

abbrev output_of : ℕ → Text → Text → Option Entry
output_of order [] [] = none
output_of order call_id output = some (record {
  order = order;
  identity = of_output order call_id;
  text = output_entry call_id output;
})

-- `_retained_history_entry_from_item`
unfoldable pub entry_from_item : Prompts → Item → ℕ → Option ℕ → Option Entry
entry_from_item prompts (message role content) order max_tokens =
    message_of order (or_user role)
      (cut prompts max_tokens (message_item_text (message role content)))
entry_from_item prompts (function_call call_id name arguments) order max_tokens =
    call_of order call_id (or_tool name) (cut prompts max_tokens arguments)
entry_from_item prompts (function_call_output call_id output) order max_tokens =
    output_of order call_id (cut prompts max_tokens output)
entry_from_item prompts (other kind content) order max_tokens = none

-- `_recent_context_candidate_entry`
unfoldable pub recent_candidate : Prompts → Item → ℕ → Option ℕ → Option Entry
recent_candidate prompts (message role content) order max_tokens =
    if is_one_of role (user ∷ assistant ∷ [])
    then (if occurs_any prompts.scaffold_markers (message_item_text (message role content))
        then none
        else entry_from_item prompts (message role content) order max_tokens)
    else none
recent_candidate prompts (other kind content) order max_tokens = none
recent_candidate prompts item order max_tokens = entry_from_item prompts item order max_tokens

-- `retain_item_after_compaction`
unfoldable pub retain_item : Prompts → Item → Bool
retain_item prompts item =
    let text = message_item_text item in
    if has_role user item || has_role assistant item
    then (if occurs (lit "<agent_retained_history") text
        then false
        else if has_role assistant item
        then occurs prompts.post_tool_bridge text
        else not (occurs_any prompts.scaffold_markers text))
    else false

-- `COMPACTION_USER_MESSAGE_MAX_TOKENS`
abbrev pub user_max_tokens : ℕ
user_max_tokens = 20000

abbrev pub at_least_one : ℕ → ℕ
at_least_one zero = 1
at_least_one (suc n) = suc n

-- The items with their indices.
abbrev pub numbered : ℕ → List Item → List (Item × ℕ)
numbered n [] = []
numbered n (item ∷ items) = (item, n) ∷ numbered (suc n) items

abbrev pub with_text : Option Entry → Option Entry
with_text none = none
with_text (some e) = elim e.text [ [] ↦ none | c ∷ s ↦ some e ]

abbrev pub entries_of : Option Entry → List Entry
entries_of none = []
entries_of (some e) = e ∷ []

-- `json.dumps` of a list of items.
module _ (dumps : List Item → Text) where
  -- `estimate_tokens`
  unfoldable pub estimate_tokens : List Item → ℕ
  estimate_tokens items = at_least_one (length (dumps items) / 4)

  -- `_entry_tokens`
  abbrev pub entry_tokens : Entry → ℕ
  entry_tokens e = estimate_tokens (message_item user e.text ∷ [])

  -- The loop of both selections, from the last item to the first: the entry of an item, the same entry
  -- cut to so many tokens, the items, and the variable `remaining`.
  unfoldable pub select :
      (full : Item × ℕ → Option Entry) (shortened : Item × ℕ → ℕ → Option Entry)
      → List (Item × ℕ)
      → ℕ
      → List Entry
  select full shortened [] remaining = []
  select full shortened (item ∷ items) remaining = elim (full item) [
    | none ↦ select full shortened items remaining
    | some e ↦
        let rest = select full shortened items (remaining - entry_tokens e) in
        if leb (entry_tokens e) remaining
        then (if remaining - entry_tokens e == 0 then e ∷ [] else e ∷ rest)
        else if ltb 0 remaining
        then entries_of (shortened item remaining)
        else []
  ]

  -- `_retained_recent_history_entries`
  unfoldable pub recent_entries : Prompts → List Item → ℕ → List Entry
  recent_entries prompts items k =
      if k == 0
      then []
      else reverse (
          select (λ (item, n). recent_candidate prompts item n none)
            (λ (item, n) max. with_text (recent_candidate prompts item n (some max)))
            (reverse (numbered 0 items)) k)

  abbrev pub user_entry : Prompts → Option ℕ → Item × ℕ → Option Entry
  user_entry prompts max (item, n) =
      if retain_item prompts item then entry_from_item prompts item n max else none

  -- `_retained_user_history_entries`
  unfoldable pub user_entries : Prompts → List Item → List Entry
  user_entries prompts items = reverse (
      select (user_entry prompts none) (λ item max. user_entry prompts (some max) item)
        (reverse (numbered 0 items)) user_max_tokens)
