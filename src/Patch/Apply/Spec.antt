-- ===== src/Patch/Apply/Spec.antt =====
-- What a patch means, with no staging: each operation acts at once on what stands at the paths.
use uv_agent.Common.{Option, none, some, List, [], ◌∷◌, if◌then◌else◌, is_some}
use uv_agent.Common.Text.{Text, text_eq}
use uv_agent.Patch.Error.{
  already_exists, missing, move_target_exists, escapes, os_error, Result, ok, err, ◌>>=◌,
}
use uv_agent.Patch.Parse.{FileOp, add_file, delete_file, update_file}
use uv_agent.Patch.Hunks.{apply_hunks}
use uv_agent.Patch.Disk.{Entry, file, unreadable, directory, Files, put}
use uv_agent.Patch.Apply.{or_raise, join_lines}

-- The text of a file that is to be updated.
abbrev pub text_or_raise : Text → Option Entry → Result Text
text_or_raise name none = err (missing name)
text_or_raise name (some (file text)) = ok text
text_or_raise name (some unreadable) = err (os_error name)
text_or_raise name (some directory) = err (os_error name)

module _ (resolve : Text → Option Text) where
  abbrev pub move_file : Files → Text → Text → Option Text → Result Files
  move_file files source text none = ok (put files source (some (file text)))
  move_file files source text (some name) = or_raise (escapes name) (resolve name) >>= λ target.
      if text_eq target source
      then ok (put (put files source none) target (some (file text)))
      else if is_some (files target)
      then err (move_target_exists name)
      else ok (put (put files source none) target (some (file text)))

  unfoldable pub run_op : FileOp → Files → Result Files
  run_op (add_file name lines) files = or_raise (escapes name) (resolve name) >>= λ path.
      if is_some (files path)
      then err (already_exists name)
      else ok (put files path (some (file (join_lines lines))))
  run_op (delete_file name) files = or_raise (escapes name) (resolve name) >>= λ path.
      if is_some (files path) then ok (put files path none) else err (missing name)
  run_op (update_file name hunks move_to) files =
      or_raise (escapes name) (resolve name) >>= λ source.
      text_or_raise name (files source) >>= λ text.
      apply_hunks text hunks name >>= λ changed. move_file files source changed move_to

  unfoldable pub run_ops : List FileOp → Files → Result Files
  run_ops [] files = ok files
  run_ops (op ∷ ops) files = run_op op files >>= run_ops ops
