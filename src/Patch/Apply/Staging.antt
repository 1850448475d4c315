-- ===== src/Patch/Apply/Staging.antt =====
-- Staging refines the meaning of a patch: the staged files, laid over those on the disk, are the files
-- after the operations, and the same exceptions are raised.
use mathlib.Core.Path.{fun_ext}
use uv_agent.Common.{
  ◌≡◌, refl, ap, ◌∙◌, Bool, true, false, not, Option, none, some, List, [], ◌∷◌, arith,
  if◌then◌else◌, is_some,
}
use uv_agent.Common.Text.{Text, text_eq, text_eq_iff}
use uv_agent.Patch.Error.{Error, escapes, Result, ok, err, ◌>>=◌}
use uv_agent.Patch.Parse.{FileOp, add_file, delete_file, update_file}
use uv_agent.Patch.Hunks.{apply_hunks}
use uv_agent.Patch.Disk.{Disk, Laws, Entry, file, unreadable, directory, text_of, Files, put}
use uv_agent.Patch.Apply.{
  Pending, read_pending, stage, or_raise, is_free, staged_or_read, current_text, move_text,
  stage_op, stage_ops, join_lines,
}
use uv_agent.Patch.Apply.Spec.{text_or_raise, move_file, run_op, run_ops}

pub read_pending-stage :
    (path : Text) (content : Option Text) (pending : Pending) (p : Text)
    → read_pending p (stage path content pending)
      ≡ (if text_eq path p then some content else read_pending p pending)
unfolding read_pending stage
read_pending-stage path content [] p = refl
read_pending-stage path content ((q, old) ∷ pending) p = ground (
  arith,
  text_eq_iff path p,
  text_eq_iff q path,
  text_eq_iff q p,
  read_pending-stage path content pending p,
)

-- The staged contents over those of the disk.
abbrev pub entry_of : Option Text → Option Entry
entry_of none = none
entry_of (some text) = some (file text)

abbrev pub laid : Option (Option Text) → Option Entry → Option Entry
laid none below = below
laid (some content) below = entry_of content

abbrev pub overlay : Files → Pending → Files
overlay files pending p = laid (read_pending p pending) (files p)

pub overlay-stage :
    (files : Files) (path : Text) (content : Option Text) (pending : Pending)
    → overlay files (stage path content pending)
      ≡ put (overlay files pending) path (entry_of content)
overlay-stage files path content pending =
    fun_ext (λ p. ground (arith, read_pending-stage path content pending p))

abbrev pub map_result : (Pending → Files) → Result Pending → Result Files
map_result f (ok a) = ok (f a)
map_result f (err e) = err e

-- What follows a path that may not resolve, or a text that may be missing.
map_result-raise :
    {A : Type 0} (f : Pending → Files) (e : Error) (o : Option A) (k : A → Result Pending)
    (h : A → Result Files)
    → ((a : A) → o ≡ some a → map_result f (k a) ≡ h a)
    → map_result f (or_raise e o >>= k) ≡ (or_raise e o >>= h)
map_result-raise f e none k h k=h = refl
map_result-raise f e (some a) k h k=h = k=h a refl

map_result-bind :
    (f : Pending → Files) (m : Result Text) (k : Text → Result Pending) (h : Text → Result Files)
    → ((t : Text) → map_result f (k t) ≡ h t)
    → map_result f (m >>= k) ≡ (m >>= h)
map_result-bind f (err e) k h k=h = refl
map_result-bind f (ok t) k h k=h = k=h t

map_result-if :
    (f : Pending → Files) (b : Bool) (x y : Result Pending)
    → map_result f (if b then x else y) ≡ (if b then map_result f x else map_result f y)
map_result-if f true x y = refl
map_result-if f false x y = refl

if-both :
    (b : Bool) {x y x' y' : Result Files}
    → x ≡ x'
    → y ≡ y'
    → (if b then x else y) ≡ (if b then x' else y')
if-both true x=x' y=y' = x=x'
if-both false x=x' y=y' = y=y'

if-not :
    (b : Bool) (x y x' y' : Result Files)
    → x ≡ x'
    → y ≡ y'
    → (if not b then x else y) ≡ (if b then y' else x')
if-not true x y x' y' x=x' y=y' = y=y'
if-not false x y x' y' x=x' y=y' = x=x'

module _ (disk : Disk) (laws : Laws disk) (s : disk.State) where
  open laws use {content, IsCanonical, resolve_lem, exists_lem, read_lem}

  is_free-overlay :
      (path : Text) (pending : Pending)
      → IsCanonical path
      → is_free disk s path pending ≡ not (is_some (overlay (content s) pending path))
  is_free-overlay path pending f = ground (arith, exists_lem s path f)

  current_text-overlay :
      (name path : Text) (pending : Pending)
      → IsCanonical path
      → current_text disk s name path pending
        ≡ text_or_raise name (overlay (content s) pending path)
  current_text-overlay name path pending f = by_staged (read_pending path pending)
    where
      below :
          (entry : Option Entry)
          → disk.exists s path ≡ is_some entry
          → disk.read_text s path ≡ text_of entry
          → staged_or_read disk s name path none ≡ text_or_raise name entry
      below none there reads = rw there refl
      below (some (file text)) there reads = rw (there, reads) refl
      below (some unreadable) there reads = rw (there, reads) refl
      below (some directory) there reads = rw (there, reads) refl

      by_staged :
          (staged : Option (Option Text))
          → staged_or_read disk s name path staged
            ≡ text_or_raise name (laid staged (content s path))
      by_staged none = below (content s path) (exists_lem s path f) (read_lem s path f)
      by_staged (some none) = refl
      by_staged (some (some text)) = refl

  stage_two :
      (source target text : Text) (pending : Pending)
      → overlay (content s) (stage target (some text) (stage source none pending))
        ≡ put (put (overlay (content s) pending) source none) target (some (file text))
  stage_two source target text pending =
      overlay-stage (content s) target (some text) (stage source none pending)
      ∙ ap (λ files. put files target (some (file text)))
          (overlay-stage (content s) source none pending)

  -- A guard on a free path, in both.
  guard-overlay :
      (path : Text) (pending : Pending) (x y : Result Pending) (x' y' : Result Files)
      → IsCanonical path
      → map_result (overlay (content s)) x ≡ x'
      → map_result (overlay (content s)) y ≡ y'
      → map_result (overlay (content s)) (if is_free disk s path pending then x else y)
        ≡ (if is_some (overlay (content s) pending path) then y' else x')
  guard-overlay path pending x y x' y' f x=x' y=y' =
      map_result-if (overlay (content s)) (is_free disk s path pending) x y
      ∙ rw (is_free-overlay path pending f)
          (if-not (is_some (overlay (content s) pending path)) _ _ x' y' x=x' y=y')

  move_text-overlay :
      (source text : Text) (move_to : Option Text) (pending : Pending)
      → map_result (overlay (content s)) (move_text disk s source text move_to pending)
        ≡ move_file disk.resolve (overlay (content s) pending) source text move_to
  move_text-overlay source text none pending =
      ap ok (overlay-stage (content s) source (some text) pending)
  move_text-overlay source text (some name) pending =
      map_result-raise (overlay (content s)) (escapes name) (disk.resolve name) _ _ (λ target found.
        map_result-if (overlay (content s)) (text_eq target source) _ _
        ∙ if-both (text_eq target source) (ap ok (stage_two source target text pending)) (
            guard-overlay target pending _ _ _ _ (resolve_lem name target found)
              (ap ok (stage_two source target text pending)) refl))

  stage_op-overlay :
      (op : FileOp) (pending : Pending)
      → map_result (overlay (content s)) (stage_op disk s op pending)
        ≡ run_op disk.resolve op (overlay (content s) pending)
  unfolding stage_op run_op
  stage_op-overlay (add_file name lines) pending =
      map_result-raise (overlay (content s)) (escapes name) (disk.resolve name) _ _ (λ path found.
        guard-overlay path pending _ _ _ _ (resolve_lem name path found)
          (ap ok (overlay-stage (content s) path (some (join_lines lines)) pending)) refl)
  stage_op-overlay (delete_file name) pending =
      map_result-raise (overlay (content s)) (escapes name) (disk.resolve name) _ _ (λ path found.
        guard-overlay path pending _ _ _ _ (resolve_lem name path found) refl
          (ap ok (overlay-stage (content s) path none pending)))
  stage_op-overlay (update_file name hunks move_to) pending =
      map_result-raise (overlay (content s)) (escapes name) (disk.resolve name) _ _ (λ source found.
        rw (current_text-overlay name source pending (resolve_lem name source found)) (
          map_result-bind (overlay (content s))
            (text_or_raise name (overlay (content s) pending source)) _ _
            (λ text.
              map_result-bind (overlay (content s)) (apply_hunks text hunks name) _ _
                (λ changed. move_text-overlay source changed move_to pending))))

  -- Staging the operations of a patch gives, over the disk, the files that the operations give one
  -- after the other on those of the disk, or raises what they raise, when the file system keeps its
  -- laws; directories and files that cannot be read are among what stands on the disk.
  pub stage_ops-overlay :
      (ops : List FileOp) (pending : Pending)
      → map_result (overlay (content s)) (stage_ops disk s ops pending)
        ≡ run_ops disk.resolve ops (overlay (content s) pending)
  unfolding stage_ops run_ops
  stage_ops-overlay [] pending = refl
  stage_ops-overlay (op ∷ ops) pending =
      step (stage_op disk s op pending) (stage_ops-overlay ops)
      ∙ ap (λ r. r >>= run_ops disk.resolve ops) (stage_op-overlay op pending)
    where
      step :
          (r : Result Pending)
          → ((next : Pending)
              → map_result (overlay (content s)) (stage_ops disk s ops next)
                ≡ run_ops disk.resolve ops (overlay (content s) next))
          → map_result (overlay (content s)) (r >>= stage_ops disk s ops)
            ≡ (map_result (overlay (content s)) r >>= run_ops disk.resolve ops)
      step (err e) rest = refl
      step (ok next) rest = rest next
