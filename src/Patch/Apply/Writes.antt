-- ===== src/Patch/Apply/Writes.antt =====
-- The last loop of `_apply_ops` writes the staged contents, and `_apply_ops` as a whole does to the
-- files what the operations of the patch mean.
use mathlib.Core.Path.{fun_ext, subst}
use uv_agent.Common.{
  ℕ, zero, suc, ◌≡◌, refl, sym, ap, ◌∙◌, Bool, true, false, Option, none, some, List, [], ◌∷◌,
  arith, if◌then◌else◌, is_some, length, Bool-cases, inl, inr,
}
use uv_agent.Common.Text.{Text, text_eq, text_eq_iff}
use uv_agent.Patch.Error.{os_error, Result, ok, err}
use uv_agent.Patch.Parse.{FileOp}
use uv_agent.Patch.Disk.{Disk, Laws, Entry, file, unreadable, directory, Files, put}
use uv_agent.Patch.Apply.{
  Pending, read_pending, stage_ops, Written, written, unlinked, remove_empty_parents, write_one,
  write_all, then_write, apply_ops,
}
use uv_agent.Patch.Apply.Staging.{entry_of, laid, overlay, map_result, stage_ops-overlay}
use uv_agent.Patch.Apply.Keys.{IsStaged, stage_ops-Staged}
use uv_agent.Patch.Apply.Spec.{run_ops}

-- What stands at a path, directories left aside.
abbrev but_directories : Option Entry → Option Entry
but_directories none = none
but_directories (some (file text)) = some (file text)
but_directories (some unreadable) = some unreadable
but_directories (some directory) = none

-- The same files stand at all paths; which directories there are may differ.
abbrev pub SameFiles : Files → Files → Type 0
SameFiles files other = (p : Text) → but_directories (files p) ≡ but_directories (other p)

put-SameFiles :
    (files other : Files) (path : Text) (entry : Option Entry)
    → SameFiles files other
    → SameFiles (put files path entry) (put other path entry)
put-SameFiles files other path entry same p = elim (Bool-cases (text_eq path p)) [
  | inl here ↦ rw here refl
  | inr there ↦ rw there (same p)
]

put-absent :
    (files : Files) (path : Text)
    → but_directories (files path) ≡ none
    → SameFiles (put files path none) files
put-absent files path absent p = elim (Bool-cases (text_eq path p)) [
  | inl here ↦
      rw here
        (sym (ap (λ q. but_directories (files q)) (sym ((text_eq_iff path p).0 here)) ∙ absent))
  | inr there ↦ rw there refl
]

overlay-SameFiles :
    (files other : Files) (pending : Pending)
    → SameFiles files other
    → SameFiles (overlay files pending) (overlay other pending)
overlay-SameFiles files other pending same p = by_staged (read_pending p pending)
  where
    by_staged :
        (staged : Option (Option Text))
        → but_directories (laid staged (files p)) ≡ but_directories (laid staged (other p))
    by_staged none = same p
    by_staged (some content) = refl

module _ (disk : Disk) (laws : Laws disk) where
  open laws use {
    content, IsCanonical, parent_lem, exists_lem, unlink_lem, rmdir_lem, make_parents_lem,
    write_lem,
  }

  -- How writing ends: with the given files, or with an exception of the file system.
  unfoldable pub Ends : Files → Written disk → Type 0
  Ends files (ok tt, s) = SameFiles (content s) files
  Ends files (err e, s) = (path : Text) × (e ≡ os_error path)

  Ends-SameFiles :
      (files other : Files) (w : Written disk) → SameFiles files other → Ends files w → Ends other w
  unfolding Ends
  Ends-SameFiles files other (ok done, s) same ends = λ p. ends p ∙ same p
  Ends-SameFiles files other (err e, s) same ends = ends

  rmdir-SameFiles :
      (s s' : disk.State) (path : Text)
      → IsCanonical path
      → disk.rmdir s path ≡ some s'
      → SameFiles (content s') (content s)
  rmdir-SameFiles s s' path canonical removed =
      let (there, gone) = rmdir_lem s s' path canonical removed in
      subst (λ files. SameFiles files (content s)) (sym gone)
        (put-absent (content s) path (ap but_directories there))

  make_parents-SameFiles :
      (s s' : disk.State) (path : Text)
      → IsCanonical path
      → disk.make_parents s path ≡ some s'
      → SameFiles (content s') (content s)
  make_parents-SameFiles s s' path canonical made p =
      elim (make_parents_lem s s' path canonical made p) [
        | inl same ↦ ap but_directories same
        | inr (absent, new) ↦ ap but_directories new ∙ sym (ap but_directories absent)
      ]

  remove_empty_parents-SameFiles :
      (fuel : ℕ) (path : Text) (s : disk.State)
      → IsCanonical path
      → SameFiles (content (remove_empty_parents disk fuel path s)) (content s)
  unfolding remove_empty_parents
  remove_empty_parents-SameFiles zero path s canonical = λ p. refl
  remove_empty_parents-SameFiles (suc fuel) path s canonical =
      go (text_eq path disk.workdir) (disk.exists s path) (disk.rmdir s path) refl (λ s'.
        remove_empty_parents-SameFiles fuel (disk.parent path) s' (parent_lem path canonical))
    where
      go :
          (at_root there : Bool) (removed : Option disk.State)
          → disk.rmdir s path ≡ removed
          → ((s' : disk.State)
              → SameFiles
                  (content (remove_empty_parents disk fuel (disk.parent path) s'))
                  (content s'))
          → SameFiles
              (content (
                if at_root
                then s
                else if there
                then elim removed [
                  | none ↦ s
                  | some s' ↦ remove_empty_parents disk fuel (disk.parent path) s'
                ]
                else s))
              (content s)
      go true there removed h rest = λ p. refl
      go false false removed h rest = λ p. refl
      go false true none h rest = λ p. refl
      go false true (some s') h rest = λ p. rest s' p ∙ rmdir-SameFiles s s' path canonical h p

  write_one-Ends :
      (path : Text) (text : Option Text) (s : disk.State)
      → IsCanonical path
      → Ends (put (content s) path (entry_of text)) (write_one disk path text s)
  unfolding write_one Ends
  write_one-Ends path none s f =
      go (disk.exists s path) (disk.unlink s path) (exists_lem s path f) refl
    where
      go :
          (there : Bool) (left : Option disk.State)
          → there ≡ is_some (content s path)
          → disk.unlink s path ≡ left
          → Ends
              (put (content s) path none)
              (if there then unlinked disk path s left else (ok tt, s))
      go false left h u = λ p.
          let absent : content s path ≡ none = ground (arith, h) in
          sym (put-absent (content s) path (ap but_directories absent) p)
      go true none h u = (path, refl)
      go true (some s') h u = λ p.
          remove_empty_parents-SameFiles (suc (length (disk.parent path))) (disk.parent path) s'
            (parent_lem path f) p
          ∙ ap (λ files. but_directories (files p)) (unlink_lem s s' path f u)
  write_one-Ends path (some text) s f = go (disk.make_parents s path) refl
    where
      go :
          (made : Option disk.State)
          → disk.make_parents s path ≡ made
          → Ends (put (content s) path (some (file text))) (elim made [
            | none ↦ (err (os_error path), s)
            | some s' ↦ written disk path s' (disk.write_text s' path text)
          ])
      go none h = (path, refl)
      go (some s') h = wrote (disk.write_text s' path text) refl
        where
          wrote :
              (after : Option disk.State)
              → disk.write_text s' path text ≡ after
              → Ends (put (content s) path (some (file text))) (written disk path s' after)
          wrote none w = (path, refl)
          wrote (some s'') w = λ p.
              ap (λ files. but_directories (files p)) (write_lem s' s'' path text f w)
              ∙ put-SameFiles (content s') (content s) path (some (file text))
                  (make_parents-SameFiles s s' path f h) p

  -- The first staged path, once more: it is not staged later.
  overlay-first :
      (files : Files) (path : Text) (text : Option Text) (pending : Pending)
      → read_pending path pending ≡ none
      → overlay (put files path (entry_of text)) pending ≡ overlay files ((path, text) ∷ pending)
  unfolding read_pending
  overlay-first files path text pending free = fun_ext (λ p.
      elim (Bool-cases (text_eq path p))
        as (λ c.
          overlay (put files path (entry_of text)) pending p
          ≡ overlay files ((path, text) ∷ pending) p) [
            | inl same ↦
                rw
                  (
                    same,
                    subst (λ q. read_pending q pending ≡ none) ((text_eq_iff path p).0 same) free,
                  )
                  refl
            | inr other ↦ rw (other) refl
          ])

  pub write_all-Ends :
      (pending : Pending) (s : disk.State)
      → IsStaged disk laws pending
      → Ends (overlay (content s) pending) (write_all disk pending s)
  unfolding write_all Ends IsStaged read_pending
  write_all-Ends [] s staged = λ p. refl
  write_all-Ends ((path, text) ∷ pending) s (free, f, staged) =
      go (write_one disk path text s) (write_one-Ends path text s f)
        (λ s'. write_all-Ends pending s' staged)
    where
      go :
          (w : Written disk)
          → Ends (put (content s) path (entry_of text)) w
          → ((s' : disk.State) → Ends (overlay (content s') pending) (write_all disk pending s'))
          → Ends
              (overlay (content s) ((path, text) ∷ pending))
              (then_write disk (write_all disk pending) w)
      go (err e, s') h rest = h
      go (ok tt, s') h rest =
          subst (λ files. Ends files (write_all disk pending s'))
            (overlay-first (content s) path text pending free)
            (Ends-SameFiles (overlay (content s') pending) _ (write_all disk pending s')
              (overlay-SameFiles (content s') (put (content s) path (entry_of text)) pending h)
              (rest s'))

  -- Outcomes of a patch: when its operations, taken one after the other, raise, so does applying it,
  -- and the disk is as it was; else, validating it changes nothing, and applying it leaves the files
  -- as the operations do, unless the file system raises.
  unfoldable pub Meant : List FileOp → disk.State → Result Files → Type 0
  Meant ops s (err e) =
      (apply_ops disk ops true s ≡ (err e, s)) × (apply_ops disk ops false s ≡ (err e, s))
  Meant ops s (ok files) =
      Ends files (apply_ops disk ops true s) × (apply_ops disk ops false s ≡ (ok tt, s))

  -- On a file system that keeps its laws, for every patch: if its operations raise, taken one
  -- after the other on the files, then applying and validating the patch both raise that and leave
  -- the disk as it is; if they do not, validating returns and leaves the disk as it is, and
  -- applying it either leaves the files as the operations do, those that cannot be read as texts
  -- too, or raises what the file system raises. Operations may name directories; only which
  -- directories are left is not stated.
  pub apply_ops-Meant :
      (ops : List FileOp) (s : disk.State) → Meant ops s (run_ops disk.resolve ops (content s))
  unfolding apply_ops IsStaged read_pending Meant
  apply_ops-Meant ops s =
      subst (Meant ops s) (stage_ops-overlay disk laws s ops []) (go (stage_ops disk s ops []) refl)
    where
      go :
          (r : Result Pending)
          → stage_ops disk s ops [] ≡ r
          → Meant ops s (map_result (overlay (content s)) r)
      go (err e) h = rw (h) (refl, refl)
      go (ok pending) h =
          rw (h) (write_all-Ends pending s (stage_ops-Staged disk laws s ops [] pending tt h), refl)
