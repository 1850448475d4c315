-- ===== src/Patch/Parse/Loops.antt =====
-- Each loop of the parser reads what is rendered for it and stops at the next "*** " line.
use uv_agent.Common.{
  All, ℕ, zero, suc, ◌≤◌, ◌≡◌, refl, true, false, Option, none, some, List, [], ◌∷◌, ◌++◌, map,
  arith, length, drop-append_length, length-append, append_assoc, ap,
}
use uv_agent.Common.Text.{Text, text_eq, starts_with}
use uv_agent.Patch.Error.{ok}
use uv_agent.Patch.Parse.{
  Hunk, FileOp, parse_path, take_added, take_hunk, take_hunks, take_move, take_op, eof_mark, stars,
  move_prefix, add_prefix, delete_prefix, update_prefix, ends_hunk, is_hunk_kind, add_file,
  delete_file, update_file, check_change,
}
use uv_agent.Patch.Parse.Render.{
  hunk_lines, move_lines, op_lines, IsPath, IsHunkLine, IsHunk, IsMove, Changes, IsOp,
}

pub starts_with-append : (prefix s : Text) → starts_with (prefix ++ s) prefix ≡ true
unfolding starts_with
starts_with-append [] s = refl
starts_with-append (c ∷ prefix) s = ground (arith, starts_with-append prefix s)

pub parse_path-append :
    (prefix path : Text) → IsPath path → parse_path (prefix ++ path) prefix ≡ ok path
unfolding parse_path
parse_path-append prefix [] p = absurd p
parse_path-append prefix (c ∷ s) p = rw (drop-append_length prefix (c ∷ s), p.0)

-- The lines at which the loops stop: none, or a header.
abbrev pub Stops : List Text → Type 0
Stops [] = Unit {0}
Stops (line ∷ lines) = (starts_with line stars ≡ true) × (text_eq line eof_mark ≡ false)

take_added-rendered :
    (path : Text) (added rest : List Text)
    → Stops rest
    → take_added path (map (λ l. b'+' ∷ l) added ++ rest) ≡ ok (added, rest)
unfolding take_added starts_with
take_added-rendered path [] [] s = refl
take_added-rendered path [] (line ∷ lines) s = rw s.0
take_added-rendered path (l ∷ added) rest s = rw (take_added-rendered path added rest s)

-- The lines at which a hunk stops.
abbrev pub EndsHunk : List Text → Type 0
EndsHunk [] = Unit {0}
EndsHunk (line ∷ lines) = ends_hunk line ≡ true

kind-not-end : (c : ℕ) (s : Text) → is_hunk_kind c ≡ true → ends_hunk (c ∷ s) ≡ false
unfolding starts_with text_eq
kind-not-end c s k = ground arith

take_hunk-rendered :
    (path : Text) (hunk rest : List Text)
    → All IsHunkLine hunk
    → EndsHunk rest
    → take_hunk path (hunk ++ rest) ≡ ok (hunk, rest)
unfolding take_hunk
take_hunk-rendered path [] [] h e = refl
take_hunk-rendered path [] (line ∷ lines) h e = rw e
take_hunk-rendered path ([] ∷ hunk) rest h e = absurd h.0
take_hunk-rendered path ((c ∷ s) ∷ hunk) rest h e =
    rw (kind-not-end c s h.0.0, h.0.0, take_hunk-rendered path hunk rest h.1 e)

EndsHunk-hunk_lines :
    (hunks : List Hunk) (rest : List Text) → Stops rest → EndsHunk (hunk_lines hunks ++ rest)
unfolding starts_with
EndsHunk-hunk_lines [] [] s = tt
EndsHunk-hunk_lines [] (line ∷ lines) s = ground arith
EndsHunk-hunk_lines (hunk ∷ hunks) rest s = refl

-- `lines` is what is left when the loop starts, and `fuel` covers it.
take_hunks-rendered :
    (fuel : ℕ) (path : Text) (hunks : List Hunk) (rest : List Text)
    → All IsHunk hunks
    → Stops rest
    → length (hunk_lines hunks ++ rest) ≤ fuel
    → take_hunks fuel path (hunk_lines hunks ++ rest) ≡ ok (hunks, rest)
unfolding take_hunks starts_with text_eq
take_hunks-rendered fuel path [] [] h s le = refl
take_hunks-rendered zero path [] (line ∷ lines) h s le = absurd (omega arith)
take_hunks-rendered (suc fuel) path [] (line ∷ lines) h s le = rw (s.1, s.0)
take_hunks-rendered fuel path ([] ∷ hunks) rest h s le = absurd h.0
take_hunks-rendered zero path ((l ∷ ls) ∷ hunks) rest h s le = absurd (omega arith)
take_hunks-rendered (suc fuel) path ((l ∷ ls) ∷ hunks) rest h s le =
    let fits : length (hunk_lines hunks ++ rest) ≤ fuel = omega (
      arith,
      ap length (append_assoc ls (hunk_lines hunks) rest),
      length-append ls (hunk_lines hunks ++ rest),
    ) in
    rw (
      append_assoc (l ∷ ls) (hunk_lines hunks) rest,
      take_hunk-rendered path (l ∷ ls) (hunk_lines hunks ++ rest) h.0
          (EndsHunk-hunk_lines hunks rest s),
      take_hunks-rendered fuel path hunks rest h.1 s fits,
    )

-- No line of the hunks reads as a move.
take_move-none :
    (hunk : Hunk) (hunks : List Hunk) (rest : List Text)
    → take_move (hunk_lines (hunk ∷ hunks) ++ rest) ≡ ok (none, hunk_lines (hunk ∷ hunks) ++ rest)
unfolding take_move starts_with
take_move-none hunk hunks rest = refl

take_move-some :
    (path : Text) (lines : List Text)
    → IsPath path
    → take_move ((move_prefix ++ path) ∷ lines) ≡ ok (some path, lines)
unfolding take_move
take_move-some path lines p =
    rw (starts_with-append move_prefix path, parse_path-append move_prefix path p)

take_move-rendered :
    (hunks : List Hunk) (move_to : Option Text) (rest : List Text)
    → IsMove move_to
    → Changes hunks move_to
    → take_move (move_lines move_to ++ (hunk_lines hunks ++ rest))
      ≡ ok (move_to, hunk_lines hunks ++ rest)
take_move-rendered [] none rest m c = absurd c
take_move-rendered (hunk ∷ hunks) none rest m c = take_move-none hunk hunks rest
take_move-rendered hunks (some path) rest m c = take_move-some path (hunk_lines hunks ++ rest) m

check_change-ok :
    (path : Text) (hunks : List Hunk) (move_to : Option Text)
    → Changes hunks move_to
    → check_change path hunks move_to ≡ ok (update_file path hunks move_to)
check_change-ok path [] none c = absurd c
check_change-ok path [] (some m) c = refl
check_change-ok path (h ∷ hs) move_to c = refl

delete-not-add : (path : Text) → starts_with (delete_prefix ++ path) add_prefix ≡ false
unfolding starts_with
delete-not-add path = refl

update-not-add : (path : Text) → starts_with (update_prefix ++ path) add_prefix ≡ false
unfolding starts_with
update-not-add path = refl

update-not-delete : (path : Text) → starts_with (update_prefix ++ path) delete_prefix ≡ false
unfolding starts_with
update-not-delete path = refl

-- What the loop over the operations does with the lines of one operation.
abbrev pub ReadsOp : FileOp → List Text → List Text → Type 0
ReadsOp op [] rest = ⊥
ReadsOp op (line ∷ lines) rest = take_op line (lines ++ rest) ≡ ok (op, rest)

pub take_op-rendered :
    (op : FileOp) (rest : List Text) → IsOp op → Stops rest → ReadsOp op (op_lines op) rest
unfolding take_op
take_op-rendered (add_file path lines) rest v s = rw (
  starts_with-append add_prefix path,
  parse_path-append add_prefix path v.0,
  take_added-rendered path lines rest s,
)
take_op-rendered (delete_file path) rest v s = rw (
  delete-not-add path,
  starts_with-append delete_prefix path,
  parse_path-append delete_prefix path v,
)
take_op-rendered (update_file path hunks move_to) rest v s = rw (
  update-not-add path,
  update-not-delete path,
  starts_with-append update_prefix path,
  parse_path-append update_prefix path v.0,
  append_assoc (move_lines move_to) (hunk_lines hunks) rest,
  take_move-rendered hunks move_to rest v.2 v.3,
  take_hunks-rendered (suc (length (hunk_lines hunks ++ rest))) path hunks rest v.1 s (omega arith),
  check_change-ok path hunks move_to v.3,
)
