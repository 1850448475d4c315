-- ===== src/Textops/Lines.antt =====
-- `edit_lines` replaces the lines that it is told to and keeps the others.
use uv_agent.Common.{
  ℕ, ◌+◌, ◌≤◌, ◌≡◌, refl, sym, ap, ◌∙◌, ◌⊎◌, inl, inr, Bool, true, false, Option, none, List, [],
  ◌∷◌, ◌++◌, length, length-append, All, arith,
}
use uv_agent.Common.Text.{Text}
use uv_agent.Common.Lines.{IsLine, splitlines}
use uv_agent.Common.Outcome.{returned}
use uv_agent.Textops.Newlines.{lf, single}
use uv_agent.Textops.Newlines.Joined.{
  LastFilled, splitlines-normalize_text, splitlines-normalize_text_snoc,
}
use uv_agent.Textops.{
  TextFile, write_like, check_range, Options, EditResult, spliced, is_nonempty, result_of,
  replaced_lines, written_by, edit_lines,
}

filled-is_nonempty : (lines : List Text) → LastFilled lines → is_nonempty lines ≡ true
filled-is_nonempty [] filled = absurd filled
filled-is_nonempty (line ∷ lines) filled = refl

-- The range of an edit: an insertion, or lines that are there.
abbrev pub IsRange : (start end count : ℕ) → Type 0
IsRange start end count =
    (1 ≤ start) × (((start ≡ end + 1) × (start ≤ count + 1)) ⊎ ((start ≤ end) × (end ≤ count)))

check_range-returned :
    (start end count : ℕ)
    → IsRange start end count
    → (inserting : Bool) × (check_range start end count ≡ returned inserting)
unfolding check_range
check_range-returned start end count (low, inl (insert, within)) =
    (true, ground (arith, low, insert, within))
check_range-returned start end count (low, inr (order, within)) =
    (false, ground (arith, low, order, within))

written_by-lines :
    (before : TextFile) (after : List Text) (options : Options)
    → before.newline ≡ single lf
    → before.final_newline ≡ true
    → options.newline ≡ none
    → options.final_newline ≡ none
    → All IsLine after
    → LastFilled after
    → splitlines (written_by before after options).0 ≡ after
unfolding write_like
written_by-lines before after options style ends no_newline no_final lines filled =
    rw (style, ends, no_newline, no_final, filled-is_nonempty after filled)
      (splitlines-normalize_text after lines filled)

-- In a file whose line ends are all "\n" and which ends in one, an edit of a range that is valid, with
-- no anchors and no other style asked for, returns; it reports how many lines there are then; and the
-- text that it writes has exactly these lines: the old ones before the range, the lines of the new
-- text, and the old ones behind the range. This needs that these lines have no line end inside, and
-- that the last of them is not empty.
pub edit_lines-spliced :
    (search : Text → Text → Option Bool) (before : TextFile) (start end : ℕ) (new_text : Text)
    (options : Options)
    → before.newline ≡ single lf
    → before.final_newline ≡ true
    → options.newline ≡ none
    → options.final_newline ≡ none
    → options.expect_first ≡ none
    → options.expect_last ≡ none
    → IsRange start end (length (splitlines before.text))
    → All IsLine (spliced start end (splitlines new_text) (splitlines before.text))
    → LastFilled (spliced start end (splitlines new_text) (splitlines before.text))
    → (written : Text) × (bom : Bool) × (result : EditResult) × (edit_lines search before start end
          new_text options
        ≡ returned (written, bom, result))
      × (splitlines written ≡ spliced start end (splitlines new_text) (splitlines before.text))
      × (result.line_count_after ≡ length (splitlines written))
unfolding edit_lines
edit_lines-spliced search before start end new_text options style ends no_newline no_final no_first
      no_last range lines filled =
    let old = splitlines before.text in
    let after = spliced start end (splitlines new_text) old in
    let (inserting, checked) = check_range-returned start end (length old) range in
    let written = written_by before after options in
    let held = written_by-lines before after options style ends no_newline no_final lines filled in
    (
      written.0,
      written.1,
      result_of before.text written.0 (replaced_lines inserting start end old) old after,
      rw (checked, no_first, no_last),
      held,
      ap length (sym held),
    )

written_by-snoc :
    (before : TextFile) (after : List Text) (options : Options) (line : Text) (lines : List Text)
    → before.newline ≡ single lf
    → before.final_newline ≡ true
    → options.newline ≡ none
    → options.final_newline ≡ none
    → after ≡ (line ∷ lines) ++ [] ∷ []
    → All IsLine (line ∷ lines)
    → splitlines (written_by before after options).0 ≡ line ∷ lines
unfolding write_like
written_by-snoc before after options line lines style ends no_newline no_final snoc all =
    rw (snoc, style, ends, no_newline, no_final) (splitlines-normalize_text_snoc line lines all)

-- In a file whose line ends are all "\n" and which ends in one, an edit after which the last of at least
-- two lines is empty loses that line: with no anchors and no other style asked for, and in a range that
-- is valid, the edit returns and counts the line, but the text that it writes has only the lines before
-- it.
pub edit_lines_loses :
    (search : Text → Text → Option Bool) (before : TextFile) (start end : ℕ) (new_text : Text)
    (options : Options) (line : Text) (lines : List Text)
    → before.newline ≡ single lf
    → before.final_newline ≡ true
    → options.newline ≡ none
    → options.final_newline ≡ none
    → options.expect_first ≡ none
    → options.expect_last ≡ none
    → IsRange start end (length (splitlines before.text))
    → spliced start end (splitlines new_text) (splitlines before.text) ≡ (line ∷ lines) ++ [] ∷ []
    → All IsLine (line ∷ lines)
    → (written : Text) × (bom : Bool) × (result : EditResult) × (edit_lines search before start end
          new_text options
        ≡ returned (written, bom, result))
      × (splitlines written ≡ line ∷ lines)
      × (result.line_count_after ≡ length (splitlines written) + 1)
unfolding edit_lines
edit_lines_loses search before start end new_text options line lines style ends no_newline no_final
      no_first no_last range snoc all =
    let old = splitlines before.text in
    let after = spliced start end (splitlines new_text) old in
    let (inserting, checked) = check_range-returned start end (length old) range in
    let written = written_by before after options in
    let held =
      written_by-snoc before after options line lines style ends no_newline no_final snoc all in
    (
      written.0,
      written.1,
      result_of before.text written.0 (replaced_lines inserting start end old) old after,
      rw (checked, no_first, no_last),
      held,
      ap length snoc ∙ (length-append (line ∷ lines) ([] ∷ []) ∙ ap (λ l. length l + 1) (sym held)),
    )
