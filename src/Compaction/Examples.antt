-- ===== src/Compaction/Examples.antt =====
-- A short conversation, and the theorems about compaction at it.
use uv_agent.Common.{◌⊎◌, ◌≡◌, refl, true, Option, none, some, List, [], ◌∷◌}
use uv_agent.Common.Text.{Text, lit, starts_with, strip}
use uv_agent.Compaction.Item.{Prompts, Item, message_item, function_call, user, assistant}
use uv_agent.Compaction.Judge.{strip_judge_history}
use uv_agent.Compaction.Judge.Filter.{AllPlain, user_messages, strip_judge_history-AllPlain}
use uv_agent.Compaction.Retain.{
  with_text, Identity, of_message, of_call, Entry, numbered, recent_candidate, recent_entries,
}
use uv_agent.Compaction.Retain.Ending.{KeepsEnd, recent_entries-KeepsEnd}
use uv_agent.Compaction.Retain.Merge.{merge_entries}
use uv_agent.Compaction.Retain.Merge.Longest.{lookup, longest, IsUnique, IsOrdered}
use uv_agent.Compaction.Retain.Merge.Sorted.{merge_entries-longest}
use uv_agent.Compaction.Handoff.{Response, normalize_replacement, replacement_input}
use uv_agent.Compaction.Handoff.Stable.{IsHandoff, normalize_replacement-stable}

abbrev prompts : Prompts
prompts = record {
  judge_request = lit "<agent_compaction_judge_request>\nhow long?\n";
  scaffold_markers = lit "<agent_compaction_handoff>" ∷ [];
  post_tool_bridge = lit "bridge";
  truncation_suffix = lit "\n[cut]";
  no_summary = lit "(none)";
  continuation = lit "go on";
}

-- Every text counts as an object that has the judge's key, and an item as forty characters.
abbrev loads : Text → Option (List Text)
loads text = some (lit "history_dependency" ∷ [])

abbrev dumps : List Item → Text
dumps items = lit "0123456789012345678901234567890123456789"

abbrev conversation : List Item
conversation =
    message_item user (lit "first")
    ∷ message_item user (lit "<agent_compaction_judge_request>\nhow long?")
    ∷ message_item assistant (lit "{\"history_dependency\": \"low\"}")
    ∷ message_item user (lit "second")
    ∷ function_call (lit "1") (lit "run_python") (lit "print()")
    ∷ []

abbrev response : Response
response = record { output_text = lit "summary"; output = [] }

abbrev entries : List Entry
entries =
    record { order = 1; identity = of_call 1 (lit "1") (lit "run"); text = lit "call" }
    ∷ record { order = 0; identity = of_message 0 user; text = lit "cut" }
    ∷ record { order = 0; identity = of_message 0 user; text = lit "whole" }
    ∷ []

prompts-tagged :
    starts_with (strip prompts.judge_request) (lit "<agent_compaction_judge_request>") ≡ true
unfolding starts_with strip
prompts-tagged = refl

strip_judge_history-AllPlain_example :
    AllPlain prompts loads (strip_judge_history prompts loads conversation)
    × (user_messages prompts loads (strip_judge_history prompts loads conversation)
        ≡ user_messages prompts loads conversation)
    × (strip_judge_history prompts loads (strip_judge_history prompts loads conversation)
        ≡ strip_judge_history prompts loads conversation)
strip_judge_history-AllPlain_example = strip_judge_history-AllPlain prompts loads conversation

recent_entries-KeepsEnd_example :
    KeepsEnd dumps
      (λ (item, n). recent_candidate prompts item n none)
      (λ (item, n) max. with_text (recent_candidate prompts item n (some max)))
      (numbered 0 conversation)
      25
      (recent_entries dumps prompts conversation 25)
recent_entries-KeepsEnd_example = recent_entries-KeepsEnd dumps prompts conversation 25

merge_entries-longest_example :
    IsOrdered (merge_entries entries)
    × IsUnique (merge_entries entries)
    × ((i : Identity) → lookup i (merge_entries entries) ≡ longest i none entries)
merge_entries-longest_example = merge_entries-longest entries

normalize_replacement-stable_example :
    IsHandoff prompts loads prompts-tagged
      (replacement_input prompts dumps conversation response 25)
    × (normalize_replacement prompts loads
          (replacement_input prompts dumps conversation response 25)
        ≡ replacement_input prompts dumps conversation response 25)
    × ((strip_judge_history prompts loads conversation ≡ []
          × normalize_replacement prompts loads conversation ≡ [])
        ⊎ IsHandoff prompts loads prompts-tagged (normalize_replacement prompts loads conversation))
    × (normalize_replacement prompts loads (normalize_replacement prompts loads conversation)
        ≡ normalize_replacement prompts loads conversation)
normalize_replacement-stable_example =
    normalize_replacement-stable prompts loads prompts-tagged dumps conversation response 25
