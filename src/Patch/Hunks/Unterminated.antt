-- ===== src/Patch/Hunks/Unterminated.antt =====
-- A hunk that adds a line behind the one line of a file that has no line end.
use mathlib.Core.Path.{subst}
use uv_agent.Common.{
  ℕ, zero, suc, ◌-◌, ◌≡◌, refl, ap, ◌∙◌, sym, true, false, [], ◌∷◌, ◌++◌, arith, length, drop,
  append-nil, append_assoc, Bool-cases, inl, inr, ◌==◌, some,
}
use uv_agent.Common.Text.{Text, text_eq, text_eq_iff, text_eq_refl, ends_with, concat}
use uv_agent.Common.Lines.{is_break, read_lines, splitlines_keepends, flush}
use uv_agent.Patch.Error.{ok}
use uv_agent.Patch.Parse.Render.{IsLine}
use uv_agent.Patch.Hunks.{
  lf, line_body, detect_newline, old_side, find_subsequence, search, lines_eq, locate, replace_at,
  replacement_lines, apply_hunk, apply_each, apply_hunks,
}

read_lines-unterminated :
    (cur line : Text)
    → IsLine line
    → read_lines (record { after_cr = false; current = cur }) line ≡ flush (cur ++ line)
unfolding read_lines
read_lines-unterminated cur [] v = ap flush (sym (append-nil cur))
read_lines-unterminated cur (c ∷ line) v =
    let plain : (c == 13) ≡ false = ground (arith, v.0) in
    rw (plain, v.0)
      (read_lines-unterminated (cur ++ c ∷ []) line v.1 ∙ ap flush (append_assoc cur (c ∷ []) line))

IsLine-drop : (n : ℕ) (s : Text) → IsLine s → IsLine (drop n s)
IsLine-drop zero s v = v
IsLine-drop (suc n) [] v = v
IsLine-drop (suc n) (c ∷ s) v = IsLine-drop n s v.1

ends_with-line :
    (s : Text) (d : ℕ) (suffix : Text)
    → is_break d ≡ true
    → IsLine s
    → ends_with s (d ∷ suffix) ≡ false
unfolding ends_with
ends_with-line s d suffix b v =
    let n = length s - length (d ∷ suffix) in
    elim (Bool-cases (text_eq (drop n s) (d ∷ suffix))) [
      | inl e ↦
          let same = (text_eq_iff (drop n s) (d ∷ suffix)).0 e in
          let bad = subst IsLine same (IsLine-drop n s v) in absurd (cc (b, bad.0))
      | inr e ↦ ground arith
    ]

line_body-line : (s : Text) → IsLine s → line_body s ≡ s
unfolding line_body
line_body-line s v = rw (ends_with-line s 13 lf refl v, ends_with-line s 10 [] refl v)

detect_newline-line : (s : Text) → IsLine s → detect_newline (s ∷ []) ≡ lf
unfolding detect_newline
detect_newline-line s v = rw (ends_with-line s 13 lf refl v, ends_with-line s 10 [] refl v)

find_subsequence_self : (s : Text) → find_subsequence (s ∷ []) (s ∷ []) 0 ≡ some 0
unfolding find_subsequence search lines_eq
find_subsequence_self s = rw (text_eq_refl s)

-- Where a file is one line that is not empty and has no line end, a hunk that keeps this line and adds
-- one behind it leaves the two joined on one line: no line end is put between them.
pub apply_hunks-joins :
    (c : ℕ) (s added path : Text)
    → IsLine (c ∷ s)
    → apply_hunks (c ∷ s) (((b' ' ∷ c ∷ s) ∷ (b'+' ∷ added) ∷ []) ∷ []) path
      ≡ ok ((c ∷ s) ++ (added ++ lf))
unfolding apply_hunks apply_each apply_hunk locate old_side replace_at replacement_lines concat
    splitlines_keepends
apply_hunks-joins c s added path v =
    rw
      (
        read_lines-unterminated [] (c ∷ s) v,
        line_body-line (c ∷ s) v,
        detect_newline-line (c ∷ s) v,
        find_subsequence_self (c ∷ s),
      )
      (simp append-nil)
