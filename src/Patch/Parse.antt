-- ===== src/Patch/Parse.antt =====
-- `_parse_patch` of src/uv_agent_runtime/patch.py. The source walks an index through the lines between
-- the first and the last; here the walk is over what is left of them.
pub mod Fuel
pub mod Render
mod Loops
pub mod Roundtrip
use uv_agent.Common.{
  ℕ, zero, suc, Bool, ◌||◌, Option, none, some, List, [], ◌∷◌, if◌then◌else◌, ◌==◌, length, drop,
}
use uv_agent.Common.Text.{Text, lit, text_eq, starts_with, strip}
use uv_agent.Common.Lines.{splitlines}
use uv_agent.Patch.Error.{
  patch_empty, no_begin, no_end, no_operations, not_added, not_a_hunk, blank_line, invalid_line,
  empty_hunk, no_change, unexpected_line, no_path, out_of_fuel, Result, ok, err, ◌>>=◌,
}

-- A line of a hunk keeps its prefix, " ", "-" or "+".
abbrev pub Hunk : Type 0
Hunk = List Text

pub data FileOp : Type 0 where
  add_file : (path : Text) (lines : List Text) → FileOp
  delete_file : (path : Text) → FileOp
  update_file : (path : Text) (hunks : List Hunk) (move_to : Option Text) → FileOp

abbrev pub begin_mark : Text
begin_mark = lit "*** Begin Patch"

abbrev pub end_mark : Text
end_mark = lit "*** End Patch"

abbrev pub eof_mark : Text
eof_mark = lit "*** End of File"

abbrev pub add_prefix : Text
add_prefix = lit "*** Add File: "

abbrev pub delete_prefix : Text
delete_prefix = lit "*** Delete File: "

abbrev pub update_prefix : Text
update_prefix = lit "*** Update File: "

abbrev pub move_prefix : Text
move_prefix = lit "*** Move to: "

abbrev pub stars : Text
stars = lit "*** "

abbrev pub at_mark : Text
at_mark = lit "@@"

abbrev pub path_or_error : Text → Text → Result Text
path_or_error prefix [] = err (no_path (strip prefix))
path_or_error prefix (c ∷ s) = ok (c ∷ s)

unfoldable pub parse_path : Text → Text → Result Text
parse_path line prefix = path_or_error prefix (strip (drop (length prefix) line))

-- What a loop has read, and the lines behind it.
abbrev pub Rest : Type 0 → Type 0
Rest A = A × List Text

abbrev pub consed : {A : Type 0} → A → Rest (List A) → Rest (List A)
consed a (xs, rest) = (a ∷ xs, rest)

-- The loop over the lines of a new file.
unfoldable pub take_added : Text → List Text → Result (Rest (List Text))
take_added path [] = ok ([], [])
take_added path (line ∷ lines) =
    let more = take_added path lines in
    if starts_with line stars
    then ok ([], line ∷ lines)
    else if starts_with line (lit "+")
    then more >>= (λ r. ok (consed (drop 1 line) r))
    else err (not_added path line)

-- The tests that end the loop over the lines of a hunk.
abbrev pub ends_hunk : Text → Bool
ends_hunk line = starts_with line at_mark || text_eq line eof_mark || starts_with line stars

-- `current[0] in " +-"`
abbrev pub is_hunk_kind : ℕ → Bool
is_hunk_kind c = c == b' ' || c == b'+' || c == b'-'

abbrev pub check_hunk_line : Text → Text → Result Text
check_hunk_line path [] = err (blank_line path [])
check_hunk_line path (c ∷ s) =
    if is_hunk_kind c then ok (c ∷ s) else err (invalid_line path (c ∷ s))

unfoldable pub take_hunk : Text → List Text → Result (Rest Hunk)
take_hunk path [] = ok ([], [])
take_hunk path (line ∷ lines) =
    let more = take_hunk path lines in
    if ends_hunk line
    then ok ([], line ∷ lines)
    else check_hunk_line path line >>= λ kept. more >>= λ r. ok (consed kept r)

abbrev pub nonempty_hunk : Text → Rest Hunk → Result (Rest Hunk)
nonempty_hunk path ([], rest) = err (empty_hunk path)
nonempty_hunk path (line ∷ lines, rest) = ok (line ∷ lines, rest)

-- The loop over the hunks of an update.
unfoldable pub take_hunks : ℕ → Text → List Text → Result (Rest (List Hunk))
take_hunks fuel path [] = ok ([], [])
take_hunks zero path (line ∷ lines) = err out_of_fuel
take_hunks (suc fuel) path (line ∷ lines) =
    let skipped = take_hunks fuel path lines in
    if text_eq line eof_mark
    then skipped
    else if starts_with line stars
    then ok ([], line ∷ lines)
    else if starts_with line at_mark
    then (take_hunk path lines >>= nonempty_hunk path >>= λ r.
        take_hunks fuel path r.1 >>= λ s. ok (consed r.0 s))
    else err (not_a_hunk path line)

-- The optional line behind the header of an update.
unfoldable pub take_move : List Text → Result (Rest (Option Text))
take_move [] = ok (none, [])
take_move (line ∷ lines) =
    if starts_with line move_prefix
    then parse_path line move_prefix >>= (λ path. ok (some path, lines))
    else ok (none, line ∷ lines)

abbrev pub check_change : Text → List Hunk → Option Text → Result FileOp
check_change path [] none = err (no_change path)
check_change path hunks move_to = ok (update_file path hunks move_to)

-- One turn of the outer loop: an operation, and the lines behind it.
unfoldable pub take_op : Text → List Text → Result (Rest FileOp)
take_op line lines =
    if starts_with line add_prefix
    then (parse_path line add_prefix >>= λ path.
        take_added path lines >>= λ r. ok (add_file path r.0, r.1))
    else if starts_with line delete_prefix
    then (parse_path line delete_prefix >>= λ path. ok (delete_file path, lines))
    else if starts_with line update_prefix
    then (parse_path line update_prefix >>= λ path. take_move lines >>= λ moved.
        take_hunks (suc (length moved.1)) path moved.1 >>= λ r.
        check_change path r.0 moved.0 >>= λ op. ok (op, r.1))
    else err (unexpected_line line)

unfoldable pub take_ops : ℕ → List Text → Result (List FileOp)
take_ops fuel [] = ok []
take_ops zero (line ∷ lines) = err out_of_fuel
take_ops (suc fuel) (line ∷ lines) =
    take_op line lines >>= λ r. take_ops fuel r.1 >>= λ ops. ok (r.0 ∷ ops)

-- `lines[-1]`, and the lines between the first and it.
abbrev pub last : Text → List Text → Text
last line [] = line
last line (next ∷ lines) = last next lines

abbrev pub init : List Text → List Text
init [] = []
init (line ∷ []) = []
init (line ∷ next ∷ lines) = line ∷ init (next ∷ lines)

abbrev pub some_ops : List FileOp → Result (List FileOp)
some_ops [] = err no_operations
some_ops (op ∷ ops) = ok (op ∷ ops)

unfoldable pub parse_lines : List Text → Result (List FileOp)
parse_lines [] = err patch_empty
parse_lines (line ∷ lines) =
    if text_eq line begin_mark
    then (if text_eq (last line lines) end_mark
        then take_ops (suc (length lines)) (init lines) >>= some_ops
        else err no_end)
    else err no_begin

unfoldable pub parse_patch : Text → Result (List FileOp)
parse_patch patch = parse_lines (splitlines patch)
