-- ===== src/Patch/Hunks/Sides.antt =====
-- A replacement has the new side of its hunk, line for line, without the line ends.
use mathlib.Core.Path.{subst}
use uv_agent.Common.{
  All, ℕ, zero, suc, ◌-◌, ◌≡◌, refl, true, false, ◌⊎◌, inl, inr, List, [], ◌∷◌, ◌++◌, map, arith,
  length, drop, length-append, drop-append_length, take-append_length, leb, ◌==◌, Bool-cases,
}
use uv_agent.Common.Text.{Text, text_eq, text_eq_iff, text_eq_refl, ends_with, drop_last}
use uv_agent.Patch.Parse.{Hunk}
use uv_agent.Patch.Parse.Render.{IsLine, IsHunkLine}
use uv_agent.Patch.Hunks.{
  crlf, lf, line_body, detect_newline, old_side, new_side, replacement_lines,
}

ends_with-append : (s suffix : Text) → ends_with (s ++ suffix) suffix ≡ true
unfolding ends_with
ends_with-append s suffix =
    let k : length (s ++ suffix) - length suffix ≡ length s =
      omega (arith, length-append s suffix) in
    rw (k, drop-append_length s suffix, text_eq_refl suffix)
      (let le : leb (length suffix) (length (s ++ suffix)) ≡ true =
          ground (arith, length-append s suffix) in
        rw le)

drop_last-append : (s suffix : Text) → drop_last (length suffix) (s ++ suffix) ≡ s
drop_last-append s suffix =
    let k : length (s ++ suffix) - length suffix ≡ length s =
      omega (arith, length-append s suffix) in
    rw k (take-append_length s suffix)

abbrev NotCr : Text → Type 0
NotCr = All (λ c. (c == 13) ≡ false)

NotCr-drop : (n : ℕ) (s : Text) → NotCr s → NotCr (drop n s)
NotCr-drop zero s v = v
NotCr-drop (suc n) [] v = v
NotCr-drop (suc n) (c ∷ s) v = NotCr-drop n s v.1

NotCr-line : (s : Text) → IsLine s → NotCr (s ++ lf)
NotCr-line [] v = (refl, tt)
NotCr-line (c ∷ s) v = (ground (arith, v.0), NotCr-line s v.1)

ends_with-crlf : (s : Text) → NotCr s → ends_with s crlf ≡ false
unfolding ends_with
ends_with-crlf s v = elim (Bool-cases (text_eq (drop (length s - 2) s) crlf)) [
  | inl e ↦
      let same = (text_eq_iff (drop (length s - 2) s) crlf).0 e in
      let bad = subst NotCr same (NotCr-drop (length s - 2) s v) in absurd (cc bad.0)
  | inr e ↦ ground arith
]

pub line_body-crlf : (s : Text) → line_body (s ++ crlf) ≡ s
unfolding line_body
line_body-crlf s = rw (ends_with-append s crlf) (drop_last-append s crlf)

pub line_body-lf : (s : Text) → IsLine s → line_body (s ++ lf) ≡ s
unfolding line_body
line_body-lf s v =
    rw (ends_with-crlf (s ++ lf) (NotCr-line s v), ends_with-append s lf) (drop_last-append s lf)

pub detect_newline-cases :
    (lines : List Text) → (detect_newline lines ≡ crlf) ⊎ (detect_newline lines ≡ lf)
unfolding detect_newline
detect_newline-cases [] = inr refl
detect_newline-cases (line ∷ lines) = ground (arith, detect_newline-cases lines)

line_body-newline :
    (newline s : Text) → (newline ≡ crlf) ⊎ (newline ≡ lf) → IsLine s → line_body (s ++ newline) ≡ s
line_body-newline newline s (inl e) v = rw e (line_body-crlf s)
line_body-newline newline s (inr e) v = rw e (line_body-lf s v)

module _ (newline : Text) (ends : (newline ≡ crlf) ⊎ (newline ≡ lf)) where
  pub replacement_lines-new_side :
      (hunk : Hunk) (matched : List Text)
      → All IsHunkLine hunk
      → map line_body matched ≡ old_side hunk
      → map line_body (replacement_lines matched hunk newline) ≡ new_side hunk
  unfolding replacement_lines old_side new_side
  replacement_lines-new_side [] matched h e = refl
  replacement_lines-new_side ([] ∷ hunk) matched h e = absurd h.0
  replacement_lines-new_side ((c ∷ s) ∷ hunk) [] h e =
      ground
        (arith, line_body-newline newline s ends h.0.1.1, replacement_lines-new_side hunk [] h.1)
  replacement_lines-new_side ((c ∷ s) ∷ hunk) (m ∷ ms) h e = ground (
    arith,
    line_body-newline newline s ends h.0.1.1,
    replacement_lines-new_side hunk ms h.1,
    replacement_lines-new_side hunk (m ∷ ms) h.1,
  )
