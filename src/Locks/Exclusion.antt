-- ===== src/Locks/Exclusion.antt =====
-- Where no call removes stale files, one lock is held at a time.
use uv_agent.Common.{
  ℕ, ◌≡◌, ◌≢◌, ◌⊎◌, ◌&&◌, ◌||◌, Bool, true, false, Option, none, some, List, [], ◌∷◌, ◌==◌,
}
use uv_agent.Locks.{
  File, Place, removing, created, aborting, held, releasing, Input, token_in, System,
}

-- The file is the one that the call has created.
abbrev Mine : ℕ → Option File → Type 0
Mine call none = ⊥
Mine call (some file) = file.creator ≡ call

-- What a call at a place knows of the file.
abbrev Claim : ℕ → Place → Option File → Type 0
Claim call created file = Mine call file
Claim call aborting file = Mine call file
Claim call held file = Mine call file × (token_in file ≡ some call)
Claim call (releasing true) file = Mine call file
Claim call removing file = ⊥
Claim call _ file = Unit {0}

-- The next place of a call has its claim, and the claims of the others are kept.
abbrev Kept : ℕ → Option File → Place × Option File → Type 0
Kept p file (place, file') =
    Claim p place file'
    × ((q : ℕ) (other : Place) → p ≢ q → Claim q other file → Claim q other file')

-- The call works under the lock, or is about to remove its file.
abbrev pub owns : Place → Bool
owns created = true
owns aborting = true
owns held = true
owns (releasing true) = true
owns _ = false

-- The file system has refused the call to read or to remove the file.
abbrev pub is_troubled : Input → Bool
is_troubled input = input.read_raises || input.unlink_raises

unfoldable pub troubled : ℕ → List (ℕ × Input) → Bool
troubled call [] = false
troubled call ((other, input) ∷ turns) = (other == call && is_troubled input) || troubled call turns

-- The calls that are excused for leaving their file behind.
module _ (excused : ℕ → Bool) where
  -- If the file is the one of the call, then the call still owns it, or is excused.
  abbrev KeptUp : ℕ → Place → Option File → Type 0
  KeptUp call place none = Unit {0}
  KeptUp call place (some file) = file.creator ≡ call → (owns place ≡ true) ⊎ (excused call ≡ true)

  -- What a step does to the creator of the file.
  abbrev Handed : ℕ → Option File → Place × Option File → Type 0
  Handed p file (place, file') =
      KeptUp p place file'
      × ((q : ℕ) (other : Place) → p ≢ q → KeptUp q other file → KeptUp q other file')

module _ (excused : ℕ → Bool) where
  record Inv (s : System) : Type 0 where
    claims : (q : ℕ) → Claim q (s.places q) s.file
    kept_up : (q : ℕ) → KeptUp excused q (s.places q) s.file

pub record IsExclusive (turns : List (ℕ × Input)) (s : System) : Type 0 where
  pub one : (p q : ℕ) → owns (s.places p) ≡ true → owns (s.places q) ≡ true → p ≡ q
  pub readable : (p : ℕ) → s.places p ≡ held → token_in s.file ≡ some p
  pub freed :
      (file : File)
      → s.file ≡ some file
      → (owns (s.places file.creator) ≡ true) ⊎ (troubled file.creator turns ≡ true)
