-- ===== src/Patch/Apply/Keys.antt =====
-- The staged paths: each is staged once, and each is canonical.
use mathlib.Core.Path.{subst}
use uv_agent.Common.{
  ◌≡◌, refl, ◌∙◌, Bool, true, false, Option, none, some, List, [], ◌∷◌, arith, if◌then◌else◌,
  Bool-cases, inl, inr,
}
use uv_agent.Common.Text.{Text, text_eq, text_eq_iff}
use uv_agent.Patch.Error.{Error, escapes, Result, ok, err, ◌>>=◌}
use uv_agent.Patch.Parse.{FileOp, add_file, delete_file, update_file}
use uv_agent.Patch.Hunks.{apply_hunks}
use uv_agent.Patch.Disk.{Disk, Laws}
use uv_agent.Patch.Apply.{
  Pending, read_pending, stage, or_raise, is_free, current_text, move_text, stage_op, stage_ops,
}
use uv_agent.Patch.Apply.Staging.{read_pending-stage}

ok-injective : {a b : Pending} → ok a ≡ ok b → a ≡ b
ok-injective h = cc

text_ne_sym : (p q : Text) → text_eq p q ≡ false → text_eq q p ≡ false
text_ne_sym p q h = ground (arith, text_eq_iff p q, text_eq_iff q p)

module _ (disk : Disk) (laws : Laws disk) where
  open laws use {
    content, IsCanonical, resolve_lem, exists_lem, unlink_lem, rmdir_lem, make_parents_lem,
    write_lem,
  }

  -- Each path is staged once, and is canonical.
  unfoldable pub IsStaged : Pending → Type 0
  IsStaged [] = Unit {0}
  IsStaged ((path, text) ∷ pending) =
      (read_pending path pending ≡ none) × IsCanonical path × IsStaged pending

  stage-IsStaged :
      (path : Text) (text : Option Text) (pending : Pending)
      → IsCanonical path
      → IsStaged pending
      → IsStaged (stage path text pending)
  unfolding stage IsStaged read_pending
  stage-IsStaged path text [] f staged = (refl, f, tt)
  stage-IsStaged path text ((q, old) ∷ pending) f (free, g, staged) =
      elim (Bool-cases (text_eq q path)) [
        | inl same ↦ rw (same) (free, g, staged)
        | inr other ↦ rw (other) (
          read_pending-stage path text pending q ∙ rw (text_ne_sym q path other) free,
          g,
          stage-IsStaged path text pending f staged,
        )
      ]

  Staged : Result Pending → Type 0
  Staged (err e) = Unit {0}
  Staged (ok pending) = IsStaged pending

  raise-Staged :
      {A : Type 0} (e : Error) (o : Option A) (k : A → Result Pending)
      → ((a : A) → o ≡ some a → Staged (k a))
      → Staged (or_raise e o >>= k)
  unfolding Staged
  raise-Staged e none k next = tt
  raise-Staged e (some a) k next = next a refl

  bind-Staged :
      (m : Result Text) (k : Text → Result Pending) → ((t : Text) → Staged (k t)) → Staged (m >>= k)
  unfolding Staged
  bind-Staged (err e) k next = tt
  bind-Staged (ok t) k next = next t

  if-Staged : (b : Bool) (x y : Result Pending) → Staged x → Staged y → Staged (if b then x else y)
  if-Staged true x y sx sy = sx
  if-Staged false x y sx sy = sy

  module _ (s : disk.State) where
    move_text-Staged :
        (source text : Text) (move_to : Option Text) (pending : Pending)
        → IsCanonical source
        → IsStaged pending
        → Staged (move_text disk s source text move_to pending)
    unfolding Staged
    move_text-Staged source text none pending f staged = stage-IsStaged source _ pending f staged
    move_text-Staged source text (some name) pending f staged =
        raise-Staged (escapes name) (disk.resolve name) _ (λ target found.
          let moved =
            stage-IsStaged target (some text) (stage source none pending)
              (resolve_lem name target found) (stage-IsStaged source none pending f staged) in
          if-Staged (text_eq target source) _ _ moved
            (if-Staged (is_free disk s target pending) _ _ moved tt))

    stage_op-Staged :
        (op : FileOp) (pending : Pending) → IsStaged pending → Staged (stage_op disk s op pending)
    unfolding stage_op Staged
    stage_op-Staged (add_file name lines) pending staged =
        raise-Staged (escapes name) (disk.resolve name) _ (λ path found.
          if-Staged (is_free disk s path pending) _ _
            (stage-IsStaged path _ pending (resolve_lem name path found) staged) tt)
    stage_op-Staged (delete_file name) pending staged =
        raise-Staged (escapes name) (disk.resolve name) _ (λ path found.
          if-Staged (is_free disk s path pending) _ _ tt
            (stage-IsStaged path none pending (resolve_lem name path found) staged))
    stage_op-Staged (update_file name hunks move_to) pending staged =
        raise-Staged (escapes name) (disk.resolve name) _ (λ source found.
          bind-Staged (current_text disk s name source pending) _ (λ text.
            bind-Staged (apply_hunks text hunks name) _ (λ changed.
              move_text-Staged source changed move_to pending (resolve_lem name source found)
                staged)))

    pub stage_ops-Staged :
        (ops : List FileOp) (pending staged : Pending)
        → IsStaged pending
        → stage_ops disk s ops pending ≡ ok staged
        → IsStaged staged
    unfolding stage_ops Staged
    stage_ops-Staged [] pending staged good h = subst IsStaged (ok-injective h) good
    stage_ops-Staged (op ∷ ops) pending staged good h =
        step (stage_op disk s op pending) (stage_op-Staged op pending good)
          (λ next. stage_ops-Staged ops next staged) h
      where
        step :
            (r : Result Pending)
            → Staged r
            → ((next : Pending)
                → IsStaged next
                → stage_ops disk s ops next ≡ ok staged
                → IsStaged staged)
            → (r >>= stage_ops disk s ops) ≡ ok staged
            → IsStaged staged
        step (err e) good rest h = cc
        step (ok next) good rest h = rest next good h
