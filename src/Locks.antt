-- ===== src/Locks.antt =====
-- src/uv_agent_runtime/lockfile.py: locks between processes, each a file that is created exclusively.
-- One lock file and any number of calls of `acquire_file_lock`, each with the release of what it
-- acquired; a call is known by a number, which is its token as well, since tokens do not repeat. The
-- steps of a call are what it does between two uses of the file system or the clock.
pub mod Exclusion
pub mod Races
mod Examples
use uv_agent.Common.{
  ℕ, ◌+◌, ◌-◌, Bool, true, false, Option, none, some, List, [], ◌∷◌, ltb, leb, ◌==◌, if◌then◌else◌,
}

-- The lock file: the call whose `os.open` made it, the token that can be read from it, and the time of
-- its last change.
pub record File : Type 0 where
  pub creator : ℕ
  pub token : Option ℕ
  pub mtime : ℕ

-- Where a call is.
pub data Place : Type 0 where
  -- about to open the file, to test whether it is stale, to remove it, and to test the deadline
  opening testing removing waiting : Place
  -- the file is created and the payload not yet written; writing it has failed
  created aborting : Place
  -- the lock is returned; `release_file_lock` has read the token, which was its own or not
  held : Place
  releasing : (owns_path : Bool) → Place
  -- the ends: released, TimeoutError, and what `os.open`, `os.write` or the last `unlink` raised
  released timed_out failed : Place

-- The arguments of a call, with `deadline` computed.
pub record Settings : Type 0 where
  pub deadline : Option ℕ
  pub stale_after : Option ℕ

-- What a step finds outside: the clock, and which calls of the operating system raise: `os.open` an error
-- other than FileExistsError, `os.write` and `stat` any, `unlink` one other than FileNotFoundError, and
-- whether the text of the file cannot be read, although it is there.
pub record Input : Type 0 where
  pub now : ℕ
  pub open_raises : Bool
  pub write_raises : Bool
  pub stat_raises : Bool
  pub read_raises : Bool
  pub unlink_raises : Bool

-- The token that stands in the file: one that is missing or not yet written has none.
abbrev pub token_in : Option File → Option ℕ
token_in none = none
token_in (some file) = file.token

-- `_read_lock_token`
unfoldable pub read_lock_token : (raises : Bool) → Option File → Option ℕ
read_lock_token true file = none
read_lock_token false file = token_in file

abbrev pub same_token : Option ℕ → ℕ → Bool
same_token none call = false
same_token (some token) call = token == call

-- The test of `_remove_stale_lock`.
unfoldable pub is_stale : Option ℕ → Option File → ℕ → Bool
is_stale none file now = false
is_stale (some limit) none now = false
is_stale (some limit) (some file) now = leb limit (now - file.mtime)

abbrev pub is_over : Option ℕ → ℕ → Bool
is_over none now = false
is_over (some deadline) now = leb deadline now

-- `os.write` through the descriptor of the call: it reaches the file that the call has created, whether
-- or not that is still the lock file.
unfoldable pub write_payload : ℕ → ℕ → Option File → Option File
write_payload call now none = none
write_payload call now (some file) =
    if file.creator == call
    then some (record file { token = some call; mtime = now })
    else some file

-- `os.open` with O_CREAT and O_EXCL
unfoldable pub open_exclusive : ℕ → ℕ → Option File → Place × Option File
open_exclusive call now none =
    (created, some (record { creator = call; token = none; mtime = now }))
open_exclusive call now (some file) = (testing, some file)

-- `unlink`: the next place and the file, by whether it raises.
abbrev pub unlink : (raises : Bool) → (passed refused : Place) → Option File → Place × Option File
unlink true passed refused file = (refused, file)
unlink false passed refused file = (passed, none)

-- One step of a call, to its next place.
unfoldable pub advance : Settings → Input → ℕ → Place → Option File → Place × Option File
unfolding open_exclusive is_stale write_payload read_lock_token
advance settings input call opening file =
    if input.open_raises then (failed, file) else open_exclusive call input.now file
advance settings input call testing file = (
  if input.stat_raises
      then waiting
      else if is_stale settings.stale_after file input.now
      then removing
      else waiting,
  file,
)
advance settings input call removing file = unlink input.unlink_raises waiting waiting file
advance settings input call waiting file =
    (if is_over settings.deadline input.now then timed_out else opening, file)
advance settings input call created file =
    if input.write_raises then (aborting, file) else (held, write_payload call input.now file)
advance settings input call aborting file = unlink input.unlink_raises failed failed file
advance settings input call held file =
    (releasing (same_token (read_lock_token input.read_raises file) call), file)
advance settings input call (releasing true) file = unlink input.unlink_raises released failed file
advance settings input call (releasing false) file = (released, file)
advance settings input call released file = (released, file)
advance settings input call timed_out file = (timed_out, file)
advance settings input call failed file = (failed, file)

-- All calls, and the file that they share.
pub record System : Type 0 where
  pub places : ℕ → Place
  pub file : Option File

abbrev pub put : (ℕ → Place) → ℕ → Place → ℕ → Place
put places call place other = if other == call then place else places other

-- A call makes its next step.
unfoldable pub step : (ℕ → Settings) → ℕ × Input → System → System
step settings (call, input) s =
    let (place, file) = advance (settings call) input call (s.places call) s.file in
    record { places = put s.places call place; file = file }

-- The calls make steps in any order.
unfoldable pub run : (ℕ → Settings) → List (ℕ × Input) → System → System
run settings [] s = s
run settings (turn ∷ turns) s = run settings turns (step settings turn s)

-- No lock file, and all calls at their beginning.
abbrev pub start : System
start = record { places = λ call. opening; file = none }
