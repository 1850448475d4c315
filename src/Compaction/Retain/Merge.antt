-- ===== src/Compaction/Retain/Merge.antt =====
-- `_merge_retained_history_entries` of src/uv_agent/agent/compaction.py.
pub mod Longest
pub mod Sorted
use uv_agent.Common.{
  ℕ, Bool, true, false, ◌&&◌, List, [], ◌∷◌, ◌==◌, if◌then◌else◌, leb, ltb, length,
}
use uv_agent.Common.Text.{Text, text_eq}
use uv_agent.Compaction.Retain.{Identity, of_message, of_call, of_output, Entry}

-- `==` on the tuples.
unfoldable pub identity_eq : Identity → Identity → Bool
identity_eq (of_message n role) (of_message n' role') = n == n' && text_eq role role'
identity_eq (of_call n call_id name) (of_call n' call_id' name') =
    n == n' && (text_eq call_id call_id' && text_eq name name')
identity_eq (of_output n call_id) (of_output n' call_id') = n == n' && text_eq call_id call_id'
identity_eq _ _ = false

-- One turn of the loop on `by_identity`, whose values are kept in the order of insertion.
unfoldable pub put_entry : Entry → List Entry → List Entry
put_entry entry [] = entry ∷ []
put_entry entry (current ∷ rest) =
    let later = put_entry entry rest in
    if identity_eq current.identity entry.identity
    then (if ltb (length current.text) (length entry.text) then entry ∷ rest else current ∷ rest)
    else current ∷ later

unfoldable pub put_entries : List Entry → List Entry → List Entry
put_entries [] by_identity = by_identity
put_entries (entry ∷ entries) by_identity = put_entries entries (put_entry entry by_identity)

unfoldable pub insert_by_order : Entry → List Entry → List Entry
insert_by_order entry [] = entry ∷ []
insert_by_order entry (next ∷ rest) =
    let later = insert_by_order entry rest in
    if leb entry.order next.order then entry ∷ next ∷ rest else next ∷ later

-- `sorted(..., key=lambda entry: entry.order)`
unfoldable pub sort_by_order : List Entry → List Entry
sort_by_order [] = []
sort_by_order (entry ∷ entries) = insert_by_order entry (sort_by_order entries)

unfoldable pub merge_entries : List Entry → List Entry
merge_entries entries = sort_by_order (put_entries entries [])
