-- ===== src/Patch/Envelope.antt =====
-- `apply_patch`, `dry_run_patch`, `_changed_files` and `PatchResult` of
-- src/uv_agent_runtime/patch.py.
pub mod Agreement
pub mod Changed
use uv_agent.Common.{
  ℕ, Bool, true, false, Option, none, some, List, [], ◌∷◌, if◌then◌else◌, ltb, ◌==◌, ◌||◌,
}
use uv_agent.Common.Text.{Text, text_eq}
use uv_agent.Patch.Error.{Error, Result, ok, err, ◌>>=◌}
use uv_agent.Patch.Parse.{FileOp, add_file, delete_file, update_file, parse_patch}
use uv_agent.Patch.Disk.{Disk}
use uv_agent.Patch.Apply.{apply_ops, Written}

pub record PatchResult : Type 0 where
  pub returncode : ℕ
  pub stdout : Text
  pub stderr : Text
  pub changed_files : List Text

-- How a call ends: it returns a result, or raises the `RuntimeError` with what was raised before it.
pub data Outcome : Type 0 where
  returned : PatchResult → Outcome
  runtime_error : (stderr : Text) → Outcome

abbrev pub contains : Text → List Text → Bool
contains path [] = false
contains path (p ∷ ps) = text_eq p path || contains path ps

-- `changed.add(path)`
unfoldable pub add : Text → List Text → List Text
add path changed = if contains path changed then changed else path ∷ changed

abbrev pub add_target : Option Text → List Text → List Text
add_target none changed = changed
add_target (some move_to) changed = add move_to changed

abbrev pub add_op : FileOp → List Text → List Text
add_op (add_file path lines) changed = add path changed
add_op (delete_file path) changed = add path changed
add_op (update_file path hunks move_to) changed = add_target move_to (add path changed)

-- `_changed_files`, the set as a list in some order
unfoldable pub changed_files_of : List FileOp → List Text → List Text
changed_files_of [] changed = changed
changed_files_of (op ∷ ops) changed = changed_files_of ops (add_op op changed)

-- The order of strings, by code point.
unfoldable pub text_leb : Text → Text → Bool
text_leb [] b = true
text_leb (x ∷ a) [] = false
text_leb (x ∷ a) (y ∷ b) = if ltb x y then true else if x == y then text_leb a b else false

unfoldable pub insert : Text → List Text → List Text
insert t [] = t ∷ []
insert t (u ∷ us) = if text_leb t u then t ∷ u ∷ us else u ∷ insert t us

-- `sorted`
unfoldable pub sorted : List Text → List Text
sorted [] = []
sorted (t ∷ ts) = insert t (sorted ts)

-- `str(exc)` is text that Python and the file system compose.
module _ (disk : Disk) (str : Error → Text) where
  -- The `except` of `apply_patch` and of `dry_run_patch`, and their last line.
  abbrev pub result : Bool → List FileOp → Result (Unit {0}) → Outcome
  result check ops (ok tt) = returned (record {
    returncode = 0;
    stdout = [];
    stderr = [];
    changed_files = sorted (changed_files_of ops []);
  })
  result true ops (err e) = runtime_error (str e)
  result false ops (err e) =
      returned (record { returncode = 1; stdout = []; stderr = str e; changed_files = [] })

  abbrev pub run : Bool → Bool → Result (List FileOp) → disk.State → Outcome × disk.State
  run write check (err e) s = (result check [] (err e), s)
  run write check (ok ops) s = finish (apply_ops disk ops write s)
    where
      finish : Written disk → Outcome × disk.State
      finish (r, s') = (result check ops r, s')

  unfoldable pub apply_patch : Text → Bool → disk.State → Outcome × disk.State
  apply_patch patch check s = run true check (parse_patch patch) s

  unfoldable pub dry_run_patch : Text → Bool → disk.State → Outcome × disk.State
  dry_run_patch patch check s = run false check (parse_patch patch) s
