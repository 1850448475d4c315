-- ===== src/Patch/Apply.antt =====
-- `apply_patch`, `dry_run_patch` and `_apply_ops` of src/uv_agent_runtime/patch.py.
pub mod Spec
pub mod Staging
pub mod Keys
pub mod Writes
pub mod Parents
use uv_agent.Common.{
  ℕ, zero, suc, ◌≡◌, Bool, true, false, not, ◌&&◌, Option, none, some, List, [], ◌∷◌, ◌++◌,
  if◌then◌else◌, length, is_some, ltb, ◌==◌,
}
use uv_agent.Common.Text.{Text, text_eq, join}
use uv_agent.Patch.Error.{
  Error, already_exists, missing, move_target_exists, escapes, os_error, Result, ok, err, ◌>>=◌,
}
use uv_agent.Patch.Parse.{Hunk, FileOp, add_file, delete_file, update_file, parse_patch}
use uv_agent.Patch.Hunks.{apply_hunks}
use uv_agent.Patch.Disk.{Disk}

-- The dictionary `pending`, in the order of insertion; a file that is staged as deleted has `none`.
abbrev pub Pending : Type 0
Pending = List (Text × Option Text)

-- `_read_pending`; `none` is `_MISSING`.
unfoldable pub read_pending : Text → Pending → Option (Option Text)
read_pending path [] = none
read_pending path ((p, content) ∷ pending) =
    if text_eq p path then some content else read_pending path pending

-- `pending[path] = content`
unfoldable pub stage : Text → Option Text → Pending → Pending
stage path content [] = (path, content) ∷ []
stage path content ((p, old) ∷ pending) =
    if text_eq p path then (p, content) ∷ pending else (p, old) ∷ stage path content pending

abbrev trailing : List Text → Text
trailing [] = []
trailing (l ∷ ls) = 10 ∷ []

unfoldable pub join_lines : List Text → Text
join_lines lines = join (10 ∷ []) lines ++ trailing lines

abbrev pub or_raise {ℓ} : {A : Type ℓ} → Error → Option A → Result A
or_raise e none = err e
or_raise e (some a) = ok a

module _ (disk : Disk) where
  open disk use {
    State, workdir, resolve, parent, exists, read_text, unlink, rmdir, make_parents, write_text,
  }

  -- `_resolve_patch_path`
  abbrev pub resolve_path : Text → Result Text
  resolve_path path = or_raise (escapes path) (resolve path)

  -- Whether a path is free: it is staged as deleted, or not staged and not there.
  abbrev pub is_free : State → Text → Pending → Bool
  is_free s path pending = elim (read_pending path pending) [
    | none ↦ not (exists s path)
    | some none ↦ true
    | some (some text) ↦ false
  ]

  -- The text of a file that is to be updated, by what is staged for it.
  abbrev pub staged_or_read : State → Text → Text → Option (Option Text) → Result Text
  staged_or_read s name path none =
      if exists s path then or_raise (os_error name) (read_text s path) else err (missing name)
  staged_or_read s name path (some none) = err (missing name)
  staged_or_read s name path (some (some text)) = ok text

  abbrev pub current_text : State → Text → Text → Pending → Result Text
  current_text s name path pending = staged_or_read s name path (read_pending path pending)

  abbrev pub move_text : State → Text → Text → Option Text → Pending → Result Pending
  move_text s source text none pending = ok (stage source (some text) pending)
  move_text s source text (some name) pending = resolve_path name >>= λ target.
      if text_eq target source
      then ok (stage target (some text) (stage source none pending))
      else if is_free s target pending
      then ok (stage target (some text) (stage source none pending))
      else err (move_target_exists name)

  -- One turn of the first loop of `_apply_ops`.
  unfoldable pub stage_op : State → FileOp → Pending → Result Pending
  stage_op s (add_file name lines) pending = resolve_path name >>= λ path.
      if is_free s path pending
      then ok (stage path (some (join_lines lines)) pending)
      else err (already_exists name)
  stage_op s (delete_file name) pending = resolve_path name >>= λ path.
      if is_free s path pending then err (missing name) else ok (stage path none pending)
  stage_op s (update_file name hunks move_to) pending = resolve_path name >>= λ source.
      current_text s name source pending >>= λ text.
      apply_hunks text hunks name >>= λ changed. move_text s source changed move_to pending

  unfoldable pub stage_ops : State → List FileOp → Pending → Result Pending
  stage_ops s [] pending = ok pending
  stage_ops s (op ∷ ops) pending = stage_op s op pending >>= stage_ops s ops

  -- `_remove_empty_parents`, on fuel above the length of the path.
  unfoldable pub remove_empty_parents : ℕ → Text → State → State
  remove_empty_parents zero path s = s
  remove_empty_parents (suc fuel) path s =
      if text_eq path workdir
      then s
      else if exists s path
      then elim (rmdir s path) [ none ↦ s | some s' ↦ remove_empty_parents fuel (parent path) s' ]
      else s

  -- What is left of a step on the disk that may raise: the state, and whether it raised.
  abbrev pub Written : Type 0
  Written = Result (Unit {0}) × State

  abbrev pub written : Text → State → Option State → Written
  written path s none = (err (os_error path), s)
  written path s (some s') = (ok tt, s')

  abbrev unlinked : Text → State → Option State → Written
  unlinked path s none = (err (os_error path), s)
  unlinked path s (some s') =
      (ok tt, remove_empty_parents (suc (length (parent path))) (parent path) s')

  -- One turn of the last loop of `_apply_ops`.
  unfoldable pub write_one : Text → Option Text → State → Written
  write_one path none s = if exists s path then unlinked path s (unlink s path) else (ok tt, s)
  write_one path (some text) s = elim (make_parents s path) [
    | none ↦ (err (os_error path), s)
    | some s' ↦ written path s' (write_text s' path text)
  ]

  abbrev pub then_write : (State → Written) → Written → Written
  then_write k (ok tt, s) = k s
  then_write k (err e, s) = (err e, s)

  unfoldable pub write_all : Pending → State → Written
  write_all [] s = (ok tt, s)
  write_all ((path, content) ∷ pending) s =
      then_write (write_all pending) (write_one path content s)

  -- `_apply_ops`
  abbrev commit : Bool → State → Result Pending → Written
  commit write s (err e) = (err e, s)
  commit write s (ok pending) = if write then write_all pending s else (ok tt, s)

  unfoldable pub apply_ops : List FileOp → Bool → State → Written
  apply_ops ops write s = commit write s (stage_ops s ops [])
