-- ===== src/Patch/Envelope/Agreement.antt =====
-- `dry_run_patch` against `apply_patch`.
use uv_agent.Common.{◌≡◌, refl, Bool, true, false, List, [], ◌⊎◌, inl, inr}
use uv_agent.Common.Text.{Text}
use uv_agent.Patch.Error.{Error, Result, ok, err}
use uv_agent.Patch.Parse.{FileOp, parse_patch}
use uv_agent.Patch.Disk.{Disk, Laws, Files}
use uv_agent.Patch.Apply.{Written, apply_ops}
use uv_agent.Patch.Apply.Spec.{run_ops}
use uv_agent.Patch.Apply.Writes.{Ends, Meant, apply_ops-Meant}
use uv_agent.Patch.Envelope.{result, run, apply_patch, dry_run_patch, Outcome}

module _ (disk : Disk) (laws : Laws disk) (str : Error → Text) where
  -- The patch is refused: both calls end in the same way, and the disk is as it was.
  pub Refused : Bool → disk.State → (dry applied : Outcome × disk.State) → Type 0
  Refused check s dry applied =
      (e : Error) × (dry ≡ (result disk str check [] (err e), s))
      × (applied ≡ (result disk str check [] (err e), s))

  -- The operations leave the files as they should be: the dry run reports success and leaves the disk
  -- as it was, and the other call ends with those files or with an exception of the file system.
  pub Accepted :
      Bool → Result (List FileOp) → disk.State → (dry applied : Outcome × disk.State) → Type 0
  Accepted check parsed s dry applied =
      (ops : List FileOp) × (files : Files) × (w : Written disk) × (parsed ≡ ok ops)
      × (run_ops disk.resolve ops (laws.content s) ≡ ok files)
      × (dry ≡ (result disk str check ops (ok tt), s))
      × (applied ≡ (result disk str check ops w.0, w.1))
      × Ends disk laws files w

  result-err :
      (check : Bool) (ops : List FileOp) (e : Error)
      → result disk str check ops (err e) ≡ result disk str check [] (err e)
  result-err true ops e = refl
  result-err false ops e = refl

  -- On a file system that keeps its laws a dry run predicts the patch: it always leaves the disk
  -- as it is; where it fails, applying the patch fails in the same way and leaves the disk as it
  -- is; where it does not, applying the patch leaves the files as the parsed operations do one
  -- after the other, with the same report, unless the file system raises. Which directories are left
  -- is not stated.
  pub dry_run_patch-apply_patch :
      (patch : Text) (check : Bool) (s : disk.State)
      → Refused check s (dry_run_patch disk str patch check s) (apply_patch disk str patch check s)
        ⊎ Accepted check
            (parse_patch patch)
            s
            (dry_run_patch disk str patch check s)
            (apply_patch disk str patch check s)
  unfolding dry_run_patch apply_patch Meant Accepted Refused
  dry_run_patch-apply_patch patch check s = go (parse_patch patch)
    where
      split :
          (ops : List FileOp) (r : Result Files)
          → run_ops disk.resolve ops (laws.content s) ≡ r
          → Meant disk laws ops s r
          → Refused check s
              (run disk str false check (ok ops) s)
              (run disk str true check (ok ops) s)
            ⊎ Accepted check
                (ok ops)
                s
                (run disk str false check (ok ops) s)
                (run disk str true check (ok ops) s)
      split ops (err e) h (applied, dry) =
          inl (e, rw (dry, result-err check ops e) refl, rw (applied, result-err check ops e) refl)
      split ops (ok files) h (ends, dry) =
          inr (ops, files, apply_ops disk ops true s, refl, h, rw (dry) refl, refl, ends)

      go :
          (parsed : Result (List FileOp))
          → Refused check s (run disk str false check parsed s) (run disk str true check parsed s)
            ⊎ Accepted check parsed s
                (run disk str false check parsed s)
                (run disk str true check parsed s)
      go (err e) = inl (e, refl, refl)
      go (ok ops) =
          split ops (run_ops disk.resolve ops (laws.content s)) refl
            (apply_ops-Meant disk laws ops s)
