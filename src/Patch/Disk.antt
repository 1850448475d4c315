-- ===== src/Patch/Disk.antt =====
-- The file system, as src/uv_agent_runtime/patch.py uses it. Its operations are a parameter; what they
-- are documented to do to the contents of files is a record of laws.
use uv_agent.Common.{◌<◌, ◌≡◌, ◌⊎◌, Bool, Option, none, some, if◌then◌else◌, is_some, length}
use uv_agent.Common.Text.{Text, text_eq}

-- Paths are texts, as `Path.resolve` spells them. `none` is an exception.
pub record Disk : Type 1 where
  pub State : Type 0
  pub workdir : Text
  -- `(workdir / path).resolve()`, or `none` where it is not relative to the working directory
  pub resolve : Text → Option Text
  pub parent : Text → Text
  pub exists : State → Text → Bool
  pub read_text : State → Text → Option Text
  pub unlink : State → Text → Option State
  pub rmdir : State → Text → Option State
  pub make_parents : State → Text → Option State
  pub write_text : State → Text → Text → Option State

-- What stands at a path: a file with a text, a file that cannot be read as a text, or a directory.
pub data Entry : Type 0 where
  file : Text → Entry
  unreadable directory : Entry

abbrev pub text_of : Option Entry → Option Text
text_of (some (file text)) = some text
text_of (some unreadable) = none
text_of (some directory) = none
text_of none = none

-- What stands at each path.
abbrev pub Files : Type 0
Files = Text → Option Entry

abbrev pub put : Files → Text → Option Entry → Files
put files path entry p = if text_eq path p then entry else files p

-- Canonical paths are those that `resolve` gives, and the parents of such. On these, the operations see
-- and change what stands at a path, and each operation that succeeds changes only what it says.
pub record Laws (disk : Disk) : Type 1 where
  pub content : disk.State → Files
  pub IsCanonical : Text → Type 0
  pub resolve_lem : (name p : Text) → disk.resolve name ≡ some p → IsCanonical p
  pub parent_lem : (p : Text) → IsCanonical p → IsCanonical (disk.parent p)
  pub exists_lem :
      (s : disk.State) (p : Text) → IsCanonical p → disk.exists s p ≡ is_some (content s p)
  pub read_lem :
      (s : disk.State) (p : Text) → IsCanonical p → disk.read_text s p ≡ text_of (content s p)
  pub unlink_lem :
      (s s' : disk.State) (p : Text)
      → IsCanonical p
      → disk.unlink s p ≡ some s'
      → content s' ≡ put (content s) p none
  -- only directories are removed so
  pub rmdir_lem :
      (s s' : disk.State) (p : Text)
      → IsCanonical p
      → disk.rmdir s p ≡ some s'
      → (content s p ≡ some directory) × (content s' ≡ put (content s) p none)
  -- the root of a file system is its own parent, and is not removed
  pub shorter_lem :
      (s s' : disk.State) (p : Text)
      → IsCanonical p
      → disk.rmdir s p ≡ some s'
      → length (disk.parent p) < length p
  -- directories are made where nothing stood
  pub make_parents_lem :
      (s s' : disk.State) (p : Text)
      → IsCanonical p
      → disk.make_parents s p ≡ some s'
      → (q : Text)
      → (content s' q ≡ content s q) ⊎ ((content s q ≡ none) × (content s' q ≡ some directory))
  pub write_lem :
      (s s' : disk.State) (p t : Text)
      → IsCanonical p
      → disk.write_text s p t ≡ some s'
      → content s' ≡ put (content s) p (some (file t))
