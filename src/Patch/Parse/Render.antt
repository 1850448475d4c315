-- ===== src/Patch/Parse/Render.antt =====
-- The text of a patch for given operations, and the texts that can stand in one.
pub use uv_agent.Common.Lines.{IsLine}
use uv_agent.Common.{All, ◌≡◌, true, Option, none, some, List, [], ◌∷◌, ◌++◌, map}
use uv_agent.Common.Text.{Text, concat, strip}
use uv_agent.Patch.Parse.{
  Hunk, FileOp, add_file, delete_file, update_file, add_prefix, delete_prefix, update_prefix,
  move_prefix, begin_mark, end_mark, at_mark, is_hunk_kind,
}

abbrev pub hunk_lines : List Hunk → List Text
hunk_lines [] = []
hunk_lines (hunk ∷ hunks) = at_mark ∷ (hunk ++ hunk_lines hunks)

abbrev pub move_lines : Option Text → List Text
move_lines none = []
move_lines (some path) = (move_prefix ++ path) ∷ []

abbrev pub op_lines : FileOp → List Text
op_lines (add_file path lines) = (add_prefix ++ path) ∷ map (λ l. b'+' ∷ l) lines
op_lines (delete_file path) = (delete_prefix ++ path) ∷ []
op_lines (update_file path hunks move_to) =
    (update_prefix ++ path) ∷ (move_lines move_to ++ hunk_lines hunks)

abbrev pub ops_lines : List FileOp → List Text
ops_lines [] = []
ops_lines (op ∷ ops) = op_lines op ++ ops_lines ops

abbrev pub patch_lines : List FileOp → List Text
patch_lines ops = begin_mark ∷ (ops_lines ops ++ end_mark ∷ [])

-- Each line with its end.
unfoldable pub render_patch : List FileOp → Text
render_patch ops = concat (map (λ l. l ++ 10 ∷ []) (patch_lines ops))

-- Not empty, on one line, and with no white space around it.
abbrev pub IsPath : Text → Type 0
IsPath [] = ⊥
IsPath (c ∷ s) = (strip (c ∷ s) ≡ c ∷ s) × IsLine (c ∷ s)

abbrev pub IsHunkLine : Text → Type 0
IsHunkLine [] = ⊥
IsHunkLine (c ∷ s) = (is_hunk_kind c ≡ true) × IsLine (c ∷ s)

abbrev pub IsHunk : Hunk → Type 0
IsHunk [] = ⊥
IsHunk (line ∷ lines) = IsHunkLine line × All IsHunkLine lines

abbrev pub IsMove : Option Text → Type 0
IsMove none = Unit {0}
IsMove (some path) = IsPath path

-- An update changes or moves something.
abbrev pub Changes : List Hunk → Option Text → Type 0
Changes [] none = ⊥
Changes _ _ = Unit {0}

abbrev pub IsOp : FileOp → Type 0
IsOp (add_file path lines) = IsPath path × All IsLine lines
IsOp (delete_file path) = IsPath path
IsOp (update_file path hunks move_to) =
    IsPath path × All IsHunk hunks × IsMove move_to × Changes hunks move_to
