-- ===== src/Patch/Apply/Parents.antt =====
-- The loop of `_remove_empty_parents` ends for a reason the source gives.
use uv_agent.Common.{
  ℕ, zero, suc, ◌≡◌, ◌<◌, refl, Bool, true, false, Option, none, some, arith, if◌then◌else◌, length,
}
use uv_agent.Common.Text.{Text, text_eq}
use uv_agent.Patch.Disk.{Disk, Laws}
use uv_agent.Patch.Apply.{remove_empty_parents}

module _ (disk : Disk) where
  -- The runs of the loop: it stops at the working directory, at a path that is not there and at a
  -- directory that is not removed, and goes on to the parent of one that is.
  pub data Removes : Text → disk.State → disk.State → Type 0 where
    at_stop : {p : Text} {s : disk.State} → text_eq p disk.workdir ≡ true → Removes p s s
    not_there : {p : Text} {s : disk.State} → disk.exists s p ≡ false → Removes p s s
    kept : {p : Text} {s : disk.State} → disk.rmdir s p ≡ none → Removes p s s
    removed :
        {p : Text} {s s' s'' : disk.State}
        → text_eq p disk.workdir ≡ false
        → disk.exists s p ≡ true
        → disk.rmdir s p ≡ some s'
        → Removes (disk.parent p) s' s''
        → Removes p s s''

  module _ (laws : Laws disk) where
    -- On a file system that keeps its laws, from a canonical path and on fuel above its length, the
    -- loop of `_remove_empty_parents` runs to its end: it stops at the working directory, where there
    -- is nothing, or at what it cannot remove, and has removed all directories before that.
    pub remove_empty_parents-Removes :
        (fuel : ℕ) (path : Text) (s : disk.State)
        → laws.IsCanonical path
        → length path < fuel
        → Removes path s (remove_empty_parents disk fuel path s)
    unfolding remove_empty_parents
    remove_empty_parents-Removes zero path s canonical enough = absurd (omega (arith, enough))
    remove_empty_parents-Removes (suc fuel) path s canonical enough =
        go (text_eq path disk.workdir) (disk.exists s path) (disk.rmdir s path) refl refl refl
          (λ s'.
            remove_empty_parents-Removes fuel (disk.parent path) s'
              (laws.parent_lem path canonical))
      where
        go :
            (at_root there : Bool) (left : Option disk.State)
            → text_eq path disk.workdir ≡ at_root
            → disk.exists s path ≡ there
            → disk.rmdir s path ≡ left
            → ((s' : disk.State)
                → length (disk.parent path) < fuel
                → Removes
                    (disk.parent path)
                    s'
                    (remove_empty_parents disk fuel (disk.parent path) s'))
            → Removes path s (
                if at_root
                then s
                else if there
                then elim left [
                  | none ↦ s
                  | some s' ↦ remove_empty_parents disk fuel (disk.parent path) s'
                ]
                else s)
        go true there left a b c rest = at_stop a
        go false false left a b c rest = not_there b
        go false true none a b c rest = kept c
        go false true (some s') a b c rest =
            removed a b c (rest s' (omega (arith, enough, laws.shorter_lem s s' path canonical c)))
