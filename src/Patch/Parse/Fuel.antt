-- ===== src/Patch/Parse/Fuel.antt =====
-- The loops of the parser end by themselves: the fuel that the model gives them is enough.
use mathlib.Core.Path.{subst}
use uv_agent.Common.{
  ℕ, zero, suc, ◌≤◌, ◌≢◌, Bool, true, false, Option, none, some, List, [], ◌∷◌, arith, length, drop,
  if◌then◌else◌,
}
use uv_agent.Common.Text.{Text, lit, text_eq, starts_with}
use uv_agent.Common.Lines.{splitlines}
use uv_agent.Patch.Error.{Error, out_of_fuel, Result, ok, err, ◌>>=◌}
use uv_agent.Patch.Parse.{
  Hunk, FileOp, Rest, parse_path, take_added, take_hunk, take_hunks, take_move, take_op, take_ops,
  parse_lines, parse_patch, eof_mark, stars, at_mark, begin_mark, end_mark, init, last, move_prefix,
  add_prefix, delete_prefix, update_prefix, ends_hunk, nonempty_hunk, check_change, check_hunk_line,
  some_ops, path_or_error, consed,
}

abbrev InFuel : Error → Type 0
InFuel out_of_fuel = ⊥
InFuel _ = Unit {0}

-- The result satisfies `P`, or is an exception of the source.
abbrev Post {ℓ} : {A : Type ℓ} → (A → Type 0) → Result A → Type 0
Post P (ok a) = P a
Post P (err e) = InFuel e

Post-bind {ℓ κ} :
    {A : Type ℓ} {B : Type κ} (P : A → Type 0) (Q : B → Type 0) (m : Result A) (f : A → Result B)
    → Post P m
    → ((a : A) → P a → Post Q (f a))
    → Post Q (m >>= f)
Post-bind P Q (ok a) f p k = k a p
Post-bind P Q (err e) f p k = p

Post-if {ℓ} :
    {A : Type ℓ} (P : A → Type 0) (b : Bool) (x y : Result A)
    → Post P x
    → Post P y
    → Post P (if b then x else y)
Post-if P true x y px py = px
Post-if P false x y px py = py

-- A loop leaves at most the lines that it was given.
abbrev AtMost : {A : Type 0} → ℕ → Rest A → Type 0
AtMost n r = length r.1 ≤ n

abbrev Any {ℓ} : {A : Type ℓ} → A → Type 0
Any a = Unit {0}

path-InFuel : (prefix s : Text) → Post Any (path_or_error prefix s)
path-InFuel prefix [] = tt
path-InFuel prefix (c ∷ s) = tt

parse_path-InFuel : (line prefix : Text) → Post Any (parse_path line prefix)
unfolding parse_path
parse_path-InFuel line prefix = path-InFuel prefix _

take_added-AtMost :
    (path : Text) (lines : List Text) → Post (AtMost (length lines)) (take_added path lines)
unfolding take_added
take_added-AtMost path [] = omega arith
take_added-AtMost path (line ∷ lines) =
    let n = suc (length lines) in
    let more =
      Post-bind (AtMost (length lines)) (AtMost n) (take_added path lines)
        (λ r. ok (consed (drop 1 line) r)) (take_added-AtMost path lines) (λ r p. omega arith) in
    Post-if (AtMost n) (starts_with line stars) _ _ (omega arith)
      (Post-if (AtMost n) (starts_with line (lit "+")) _ _ more tt)

check_hunk_line-InFuel : (path line : Text) → Post Any (check_hunk_line path line)
check_hunk_line-InFuel path [] = tt
check_hunk_line-InFuel path (c ∷ s) = ground arith

take_hunk-AtMost :
    (path : Text) (lines : List Text) → Post (AtMost (length lines)) (take_hunk path lines)
unfolding take_hunk
take_hunk-AtMost path [] = omega arith
take_hunk-AtMost path (line ∷ lines) =
    let n = suc (length lines) in
    let more = λ (kept : Text).
      Post-bind (AtMost (length lines)) (AtMost n) (take_hunk path lines) (λ r. ok (consed kept r))
        (take_hunk-AtMost path lines) (λ r p. omega arith) in
    Post-if (AtMost n) (ends_hunk line) _ _ (omega arith) (
      Post-bind Any (AtMost n) (check_hunk_line path line) _ (check_hunk_line-InFuel path line)
        (λ kept _. more kept))

nonempty_hunk-AtMost :
    (path : Text) (n : ℕ) (r : Rest Hunk) → AtMost n r → Post (AtMost n) (nonempty_hunk path r)
nonempty_hunk-AtMost path n ([], rest) p = tt
nonempty_hunk-AtMost path n (line ∷ lines, rest) p = p

AtMost-weaken :
    {A : Type 0} (n : ℕ) (r : Result (Rest A)) → Post (AtMost n) r → Post (AtMost (suc n)) r
AtMost-weaken n (ok r) p = omega arith
AtMost-weaken n (err e) p = p

take_hunks-AtMost :
    (fuel : ℕ) (path : Text) (lines : List Text)
    → length lines ≤ fuel
    → Post (AtMost (length lines)) (take_hunks fuel path lines)
unfolding take_hunks
take_hunks-AtMost fuel path [] le = omega arith
take_hunks-AtMost zero path (line ∷ lines) le = absurd (omega arith)
take_hunks-AtMost (suc fuel) path (line ∷ lines) le =
    let n = suc (length lines) in
    let skipped =
      AtMost-weaken (length lines) (take_hunks fuel path lines)
        (take_hunks-AtMost fuel path lines (omega arith)) in
    let hunk =
      Post-bind (AtMost (length lines)) (AtMost (length lines)) (take_hunk path lines)
        (nonempty_hunk path) (take_hunk-AtMost path lines)
        (nonempty_hunk-AtMost path (length lines)) in
    let more = λ (r : Rest Hunk) (p : AtMost (length lines) r).
      Post-bind (AtMost (length r.1)) (AtMost n) (take_hunks fuel path r.1) (λ s. ok (consed r.0 s))
        (take_hunks-AtMost fuel path r.1 (omega arith)) (λ s q. omega arith) in
    Post-if (AtMost n) (text_eq line eof_mark) _ _ skipped (
      Post-if (AtMost n) (starts_with line stars) _ _ (omega arith) (
        Post-if (AtMost n) (starts_with line at_mark) _ _
          (Post-bind (AtMost (length lines)) (AtMost n)
            (take_hunk path lines >>= nonempty_hunk path) _ hunk more)
          tt))

take_move-AtMost : (lines : List Text) → Post (AtMost (length lines)) (take_move lines)
unfolding take_move
take_move-AtMost [] = omega arith
take_move-AtMost (line ∷ lines) =
    let n = suc (length lines) in
    Post-if (AtMost n) (starts_with line move_prefix) _ _
      (Post-bind Any (AtMost n) (parse_path line move_prefix) (λ path. ok (some path, lines))
        (parse_path-InFuel line move_prefix) (λ path _. omega arith))
      (omega arith)

check_change-InFuel :
    (path : Text) (hunks : List Hunk) (move_to : Option Text)
    → Post Any (check_change path hunks move_to)
check_change-InFuel path [] none = tt
check_change-InFuel path [] (some m) = tt
check_change-InFuel path (h ∷ hs) move_to = tt

take_update-AtMost :
    (path : Text) (lines : List Text)
    → Post (AtMost (length lines)) (
        take_move lines >>= λ moved. take_hunks (suc (length moved.1)) path moved.1 >>= λ r.
        check_change path r.0 moved.0 >>= λ op. ok (op, r.1))
take_update-AtMost path lines =
    let n = length lines in
    Post-bind (AtMost n) (AtMost n) (take_move lines) _ (take_move-AtMost lines) (λ moved p.
      Post-bind (AtMost (length moved.1)) (AtMost n)
        (take_hunks (suc (length moved.1)) path moved.1) _
        (take_hunks-AtMost (suc (length moved.1)) path moved.1 (omega arith))
        (λ r q.
          Post-bind Any (AtMost n) (check_change path r.0 moved.0) _
            (check_change-InFuel path r.0 moved.0) (λ op _. omega arith)))

take_op-AtMost :
    (line : Text) (lines : List Text) → Post (AtMost (length lines)) (take_op line lines)
unfolding take_op
take_op-AtMost line lines =
    let n = length lines in
    Post-if (AtMost n) (starts_with line add_prefix) _ _
      (Post-bind Any (AtMost n) (parse_path line add_prefix) _ (parse_path-InFuel line add_prefix)
        (λ path _.
          Post-bind (AtMost n) (AtMost n) (take_added path lines) _ (take_added-AtMost path lines)
            (λ r p. p)))
      (Post-if (AtMost n) (starts_with line delete_prefix) _ _
        (Post-bind Any (AtMost n) (parse_path line delete_prefix) _
          (parse_path-InFuel line delete_prefix) (λ path _. omega arith))
        (Post-if (AtMost n) (starts_with line update_prefix) _ _
          (Post-bind Any (AtMost n) (parse_path line update_prefix) _
            (parse_path-InFuel line update_prefix) (λ path _. take_update-AtMost path lines))
          tt))

take_ops-InFuel :
    (fuel : ℕ) (lines : List Text) → length lines ≤ fuel → Post Any (take_ops fuel lines)
unfolding take_ops
take_ops-InFuel fuel [] le = tt
take_ops-InFuel zero (line ∷ lines) le = absurd (omega arith)
take_ops-InFuel (suc fuel) (line ∷ lines) le =
    Post-bind (AtMost (length lines)) Any (take_op line lines) _ (take_op-AtMost line lines) (λ r p.
      Post-bind Any Any (take_ops fuel r.1) _ (take_ops-InFuel fuel r.1 (omega arith))
        (λ ops _. tt))

length-init : (lines : List Text) → length (init lines) ≤ length lines
length-init [] = omega arith
length-init (line ∷ []) = omega arith
length-init (line ∷ next ∷ lines) = omega (arith, length-init (next ∷ lines))

some_ops-InFuel : (ops : List FileOp) → Post Any (some_ops ops)
some_ops-InFuel [] = tt
some_ops-InFuel (op ∷ ops) = tt

parse_lines-InFuel : (lines : List Text) → Post Any (parse_lines lines)
unfolding parse_lines
parse_lines-InFuel [] = tt
parse_lines-InFuel (line ∷ lines) =
    Post-if Any (text_eq line begin_mark) _ _
      (Post-if Any (text_eq (last line lines) end_mark) _ _
        (Post-bind Any Any (take_ops (suc (length lines)) (init lines)) some_ops
          (take_ops-InFuel (suc (length lines)) (init lines) (omega (arith, length-init lines)))
          (λ ops _. some_ops-InFuel ops))
        tt)
      tt

-- On every text the parser returns operations or raises one of the exceptions of the source: its
-- loops always have fuel left.
pub parse_patch-ne_out_of_fuel : (patch : Text) → parse_patch patch ≢ err out_of_fuel
unfolding parse_patch
parse_patch-ne_out_of_fuel patch e = subst (Post Any) e (parse_lines-InFuel (splitlines patch))
