-- ===== src/Compaction/Handoff.antt =====
-- The message that replaces a compacted conversation: `compaction_replacement_input`,
-- `compaction_handoff_item`, `normalize_compaction_replacement_input` and what they call, in
-- src/uv_agent/agent/compaction.py.
pub mod Stable
use uv_agent.Common.{
  ℕ, Bool, true, false, not, ◌&&◌, ◌||◌, Option, none, some, List, [], ◌∷◌, ◌++◌, ◌==◌,
  if◌then◌else◌, drop, length,
}
use uv_agent.Common.Text.{Text, lit, starts_with, strip, join}
use uv_agent.Compaction.Item.{
  Prompts, Item, message, occurs, occurs_any, message_item, message_item_text, user,
}
use uv_agent.Compaction.Judge.{strip_judge_history}
use uv_agent.Compaction.Retain.{
  Entry, entries_of, numbered, recent_candidate, recent_entries, user_entries,
}
use uv_agent.Compaction.Retain.Merge.{merge_entries}

abbrev pub or_else : Text → Text → Text
or_else [] fallback = fallback
or_else (c ∷ s) fallback = c ∷ s

abbrev pub nonempty_texts : List Entry → List Text
nonempty_texts [] = []
nonempty_texts (e ∷ es) = elim e.text [
  | [] ↦ nonempty_texts es
  | c ∷ s ↦ (c ∷ s) ∷ nonempty_texts es
]

abbrev history_block : Text → Text
history_block [] = lit "<agent_retained_history />"
history_block (c ∷ s) =
    lit "<agent_retained_history>\n" ++ (c ∷ s) ++ lit "\n</agent_retained_history>"

-- `_render_retained_history`; with no entries there is no text either.
unfoldable pub render_retained : List Entry → Text
render_retained entries = history_block (join (lit "\n\n") (nonempty_texts (merge_entries entries)))

-- `ModelResponse`, as far as it is read here.
pub record Response : Type 0 where
  pub output_text : Text
  pub output : List Item

abbrev message_texts : List Item → List Text
message_texts [] = []
message_texts (message role content ∷ items) = elim (message_item_text (message role content)) [
  | [] ↦ message_texts items
  | c ∷ s ↦ (c ∷ s) ∷ message_texts items
]
message_texts (_ ∷ items) = message_texts items

abbrev text_or_messages : Text → Response → Text
text_or_messages [] response = join (lit "\n") (message_texts response.output)
text_or_messages (c ∷ s) response = response.output_text

-- `compaction_response_summary_text`
unfoldable pub summary_text : Response → Text
summary_text response = text_or_messages (strip response.output_text) response

-- The text around the first place of a marker: `text.find(marker)`, and the slices by it.
unfoldable pub split_at : Text → Text → Option (Text × Text)
split_at marker [] = if starts_with [] marker then some ([], []) else none
split_at marker (c ∷ s) =
    let later = split_at marker s in
    if starts_with (c ∷ s) marker
    then some ([], drop (length marker) (c ∷ s))
    else elim later [ none ↦ none | some (before, after) ↦ some (c ∷ before, after) ]

abbrev until_close : Text → Text
until_close body = elim (split_at (lit "</agent_conversation_summary>") body) [
  | none ↦ strip body
  | some (before, after) ↦ strip before
]

-- `_legacy_conversation_summary_text`
unfoldable pub legacy_summary : Text → Option Text
legacy_summary text = elim (split_at (lit "<agent_conversation_summary>") text) [
  | none ↦ none
  | some (before, body) ↦ some (until_close body)
]

module _ (prompts : Prompts) where
  abbrev pub handoff_text : Text → Text → Text
  handoff_text retained_history summary =
      lit "<agent_compaction_handoff>\n"
      ++ retained_history
      ++ lit "\n\n<agent_conversation_summary>\n"
      ++ summary
      ++ lit "\n</agent_conversation_summary>\n\n<agent_compaction_continuation>\n"
      ++ prompts.continuation
      ++ lit "\n</agent_compaction_continuation>\n</agent_compaction_handoff>"

  -- `compaction_handoff_item`; no caller gives it a history that is rendered already.
  unfoldable pub handoff_item : Text → List Entry → Item
  handoff_item summary entries = message_item user (handoff_text (render_retained entries) summary)

  abbrev legacy_item : Item → Option Text → List Text × List Item → List Text × List Item
  legacy_item item (some []) (summaries, retained) = (summaries, retained)
  legacy_item item (some (c ∷ s)) (summaries, retained) = ((c ∷ s) ∷ summaries, retained)
  legacy_item item none (summaries, retained) =
      if occurs_any prompts.scaffold_markers (message_item_text item)
      then (summaries, retained)
      else (summaries, item ∷ retained)

  -- The loop of `_legacy_replacement_parts`.
  unfoldable pub legacy_parts : List Item → List Text × List Item
  legacy_parts [] = ([], [])
  legacy_parts (item ∷ items) =
      legacy_item item (legacy_summary (message_item_text item)) (legacy_parts items)

  abbrev candidates : List (Item × ℕ) → List Entry
  candidates [] = []
  candidates ((item, n) ∷ items) =
      entries_of (recent_candidate prompts item n none) ++ candidates items

  -- The last statements of `normalize_compaction_replacement_input`.
  abbrev pub legacy_handoff : List Text × List Item → Item
  legacy_handoff (summaries, retained) =
      handoff_item (or_else (strip (join (lit "\n\n") summaries)) prompts.no_summary)
        (candidates (numbered 0 retained))

  abbrev pub is_handoff : Item → Bool
  is_handoff item = occurs (lit "<agent_compaction_handoff>") (message_item_text item)

  abbrev pub first_handoff : List Item → Option Item
  first_handoff [] = none
  first_handoff (item ∷ items) = if is_handoff item then some item else first_handoff items

  abbrev pub from_source : List Item → Option Item → List Item
  from_source source (some item) = item ∷ []
  from_source [] none = []
  from_source (item ∷ items) none = legacy_handoff (legacy_parts (item ∷ items)) ∷ []

  -- `normalize_compaction_replacement_input`
  unfoldable pub normalize_replacement : (loads : Text → Option (List Text)) → List Item → List Item
  normalize_replacement loads items =
      from_source (strip_judge_history prompts loads items)
        (first_handoff (strip_judge_history prompts loads items))

  -- `compaction_replacement_input`
  unfoldable pub replacement_input :
      (dumps : List Item → Text) → List Item → Response → ℕ → List Item
  replacement_input dumps items response k =
      let chosen = user_entries dumps prompts items in
      let recent = recent_entries dumps prompts items k in
      handoff_item (or_else (strip (summary_text response)) prompts.no_summary)
        (if k == 0 then chosen else chosen ++ recent)
      ∷ []
