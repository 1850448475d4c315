-- ===== src/Locks/Examples.antt =====
-- Two calls that wait for one lock, and the theorems about the lock at them.
use uv_agent.Common.{ℕ, ◌≡◌, refl, Bool, false, true, none, some, List, [], ◌∷◌, ◌++◌, arith}
use uv_agent.Locks.{removing, held, Settings, Input, System, run}
use uv_agent.Locks.Races.{four, race-held}

abbrev patient : ℕ → Settings
patient call = record { deadline = none; stale_after = none }

abbrev at : (unlink_raises : Bool) → ℕ → Input
at unlink_raises now = record {
  now = now;
  open_raises = false;
  write_raises = false;
  stat_raises = false;
  read_raises = false;
  unlink_raises = unlink_raises;
}

-- The first call opens and writes; the second finds the file; the first releases the lock, and the file
-- is not removed.
abbrev turns : List (ℕ × Input)
turns = (1, at false 5) ∷ (2, at false 6) ∷ (1, at false 7) ∷ (1, at false 8) ∷ (1, at true 9) ∷ []

abbrev hasty : ℕ → Settings
hasty call = record { deadline = some 100; stale_after = some 10 }

abbrev both_removing : System
both_removing = record {
  places = λ call. removing;
  file = some (record { creator = 9; token = some 9; mtime = 0 });
}

race-held_example :
    ((run hasty (four 1 20 ++ four 2 20) both_removing).places 1 ≡ held)
    × ((run hasty (four 1 20 ++ four 2 20) both_removing).places 2 ≡ held)
race-held_example = race-held hasty both_removing 1 2 20 (omega arith) refl refl refl refl
