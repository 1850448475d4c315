-- ===== src/Patch/Parse/Roundtrip.antt =====
-- The parser gives back the operations of a rendered patch.
use uv_agent.Common.{
  All, All-append, ℕ, zero, suc, ◌≤◌, ◌≡◌, ◌≢◌, refl, false, Option, none, some, List, [], ◌∷◌,
  ◌++◌, map, arith, length, length-append, ap, ◌∙◌,
}
use uv_agent.Common.Text.{Text, text_eq, text_eq_refl, starts_with}
use uv_agent.Common.Lines.Joined.{splitlines-concat}
use uv_agent.Common.Lines.{is_break}
use uv_agent.Patch.Error.{ok}
use uv_agent.Patch.Parse.{
  Hunk, FileOp, take_ops, init, last, begin_mark, end_mark, parse_lines, parse_patch, add_file,
  delete_file, update_file, move_prefix, add_prefix, delete_prefix, update_prefix,
}
use uv_agent.Patch.Parse.Render.{
  op_lines, ops_lines, patch_lines, render_patch, IsLine, IsOp, IsPath, IsHunkLine, hunk_lines,
  move_lines, IsHunk, IsMove,
}
use uv_agent.Patch.Parse.Loops.{Stops, ReadsOp, take_op-rendered}

init-snoc : (lines : List Text) (line : Text) → init (lines ++ line ∷ []) ≡ lines
init-snoc [] line = refl
init-snoc (l ∷ []) line = refl
init-snoc (l ∷ k ∷ lines) line = ap (λ t. l ∷ t) (init-snoc (k ∷ lines) line)

last-snoc :
    (first : Text) (lines : List Text) (line : Text) → last first (lines ++ line ∷ []) ≡ line
last-snoc first [] line = refl
last-snoc first (l ∷ lines) line = last-snoc l lines line

-- An operation's first line is a header.
Stops-op : (op : FileOp) (rest : List Text) → Stops (op_lines op ++ rest)
unfolding starts_with text_eq
Stops-op (add_file path lines) rest = (refl, refl)
Stops-op (delete_file path) rest = (refl, refl)
Stops-op (update_file path hunks move_to) rest = (refl, refl)

Stops-ops : (ops : List FileOp) → Stops (ops_lines ops)
Stops-ops [] = tt
Stops-ops (op ∷ ops) = Stops-op op (ops_lines ops)

take_ops-cons :
    (fuel : ℕ) (op : FileOp) (lines rest : List Text) (ops : List FileOp)
    → ReadsOp op lines rest
    → length (lines ++ rest) ≤ fuel
    → ((smaller : ℕ) → length rest ≤ smaller → take_ops smaller rest ≡ ok ops)
    → take_ops fuel (lines ++ rest) ≡ ok (op ∷ ops)
unfolding take_ops
take_ops-cons fuel op [] rest ops r le ih = absurd r
take_ops-cons zero op (l ∷ ls) rest ops r le ih = absurd (omega arith)
take_ops-cons (suc fuel) op (l ∷ ls) rest ops r le ih =
    rw (r, ih fuel (omega (arith, length-append ls rest)))

take_ops-rendered :
    (ops : List FileOp)
    → All IsOp ops
    → (fuel : ℕ) → length (ops_lines ops) ≤ fuel
    → take_ops fuel (ops_lines ops) ≡ ok ops
take_ops-rendered [] v fuel le = unfold take_ops in refl
take_ops-rendered (op ∷ ops) v fuel le =
    take_ops-cons fuel op (op_lines op) (ops_lines ops) ops
      (take_op-rendered op (ops_lines ops) v.0 (Stops-ops ops)) le (take_ops-rendered ops v.1)

parse_lines-rendered :
    (ops : List FileOp) → ops ≢ [] → All IsOp ops → parse_lines (patch_lines ops) ≡ ok ops
unfolding parse_lines
parse_lines-rendered [] some_op v = absurd (some_op refl)
parse_lines-rendered (op ∷ ops) some_op v =
    let body = ops_lines (op ∷ ops) in
    rw (
      text_eq_refl begin_mark,
      last-snoc begin_mark body end_mark,
      text_eq_refl end_mark,
      init-snoc body end_mark,
      take_ops-rendered (op ∷ ops) v (suc (length (body ++ end_mark ∷ [])))
          (omega (arith, length-append body (end_mark ∷ []))),
    )

IsPath-IsLine : (path : Text) → IsPath path → IsLine path
IsPath-IsLine [] p = absurd p
IsPath-IsLine (c ∷ s) p = p.1

IsHunkLine-IsLine : (line : Text) → IsHunkLine line → IsLine line
IsHunkLine-IsLine [] p = absurd p
IsHunkLine-IsLine (c ∷ s) p = p.1

lines-IsLine : (lines : List Text) → All IsHunkLine lines → All IsLine lines
lines-IsLine [] h = tt
lines-IsLine (l ∷ ls) h = (IsHunkLine-IsLine l h.0, lines-IsLine ls h.1)

hunk_lines-IsLine : (hunks : List Hunk) → All IsHunk hunks → All IsLine (hunk_lines hunks)
hunk_lines-IsLine [] h = tt
hunk_lines-IsLine ([] ∷ hunks) h = absurd h.0
hunk_lines-IsLine ((l ∷ ls) ∷ hunks) h = (
  (refl, (refl, tt)),
  All-append IsLine (l ∷ ls) (hunk_lines hunks) (lines-IsLine (l ∷ ls) h.0)
      (hunk_lines-IsLine hunks h.1),
)

added-IsLine : (lines : List Text) → All IsLine lines → All IsLine (map (λ l. b'+' ∷ l) lines)
added-IsLine [] v = tt
added-IsLine (l ∷ ls) v = ((refl, v.0), added-IsLine ls v.1)

header-IsLine : (prefix path : Text) → IsLine prefix → IsPath path → IsLine (prefix ++ path)
header-IsLine prefix path p v =
    All-append (λ c. is_break c ≡ false) prefix path p (IsPath-IsLine path v)

move-IsLine : (move_to : Option Text) → IsMove move_to → All IsLine (move_lines move_to)
move-IsLine none m = tt
move-IsLine (some path) m = (header-IsLine move_prefix path (ground arith) m, tt)

op-IsLine : (op : FileOp) → IsOp op → All IsLine (op_lines op)
op-IsLine (add_file path lines) v =
    (header-IsLine add_prefix path (ground arith) v.0, added-IsLine lines v.1)
op-IsLine (delete_file path) v = (header-IsLine delete_prefix path (ground arith) v, tt)
op-IsLine (update_file path hunks move_to) v = (
  header-IsLine update_prefix path (ground arith) v.0,
  All-append IsLine (move_lines move_to) (hunk_lines hunks) (move-IsLine move_to v.2)
      (hunk_lines-IsLine hunks v.1),
)

ops-IsLine : (ops : List FileOp) → All IsOp ops → All IsLine (ops_lines ops)
ops-IsLine [] v = tt
ops-IsLine (op ∷ ops) v =
    All-append IsLine (op_lines op) (ops_lines ops) (op-IsLine op v.0) (ops-IsLine ops v.1)

-- The parser reads back any list of operations that a patch can hold: at least one, with paths that
-- are not empty, stand on one line and have no white space around them; with added lines of one line
-- each; with hunks that are not empty and whose lines begin with " ", "+" or "-"; and with a hunk or
-- a move target in each update.
pub parse_patch-render_patch :
    (ops : List FileOp) → ops ≢ [] → All IsOp ops → parse_patch (render_patch ops) ≡ ok ops
unfolding parse_patch render_patch
parse_patch-render_patch ops some_op v =
    let marked : All IsLine (patch_lines ops) = (
      ground arith,
      All-append IsLine (ops_lines ops) (end_mark ∷ []) (ops-IsLine ops v) (ground arith, tt),
    ) in
    ap parse_lines (splitlines-concat (patch_lines ops) marked) ∙ parse_lines-rendered ops some_op v
