-- ===== src/Textops/Examples.antt =====
-- A file of two lines, and the theorems about edits of it.
use mathlib.Core.Path.{subst}
use uv_agent.Common.{
  ◌⊎◌, ◌||◌, ℕ, some, sym, All, ◌+◌, ◌≡◌, refl, Bool, true, false, Option, none, [], ◌∷◌, length,
  inr, arith,
}
use uv_agent.Common.Text.{Text, lit, starts_with}
use uv_agent.Common.Lines.{splitlines, IsLine}
use uv_agent.Common.Outcome.{raised, returned}
use uv_agent.Textops.Newlines.{lf, single}
use uv_agent.Textops.{TextFile, startswith, Options, EditResult, spliced, edit_lines, occurs}
use uv_agent.Textops.Newlines.Joined.{LastFilled}
use uv_agent.Textops.Selection.{
  pos, negsuc, negative_size, Selectors, check_exclusive, any_occurs, validate_lines,
  validate_around, validate, first_with, range_around, range_tail, range_head, range_lines,
  selected_line_range, read_range,
}
use uv_agent.Textops.Selection.Within.{is_negative, IsSelection, read_range-IsSelection}
use uv_agent.Textops.Lines.{IsRange, edit_lines-spliced, edit_lines_loses}

abbrev file : TextFile
file = record { text = lit "ab\ncd\n"; newline = single lf; final_newline = true; bom = false }

abbrev options : Options
options = record {
  expect_first = none;
  expect_last = none;
  expect_mode = startswith;
  strip_indent = true;
  newline = none;
  final_newline = none;
  bom = none;
}

abbrev search : Text → Text → Option Bool
search pattern text = none

two : splitlines file.text ≡ lit "ab" ∷ lit "cd" ∷ []
unfolding splitlines
two = refl

-- The second line is replaced by "x".
replaced : spliced 2 2 (splitlines (lit "x\n")) (splitlines file.text) ≡ lit "ab" ∷ lit "x" ∷ []
unfolding splitlines
replaced = refl

-- The second line is replaced by an empty one.
emptied : spliced 2 2 (splitlines (lit "\n")) (splitlines file.text) ≡ lit "ab" ∷ [] ∷ []
unfolding splitlines
emptied = refl

ab-IsLine : IsLine (lit "ab")
ab-IsLine = (refl, (refl, tt))

second-IsRange : IsRange 2 2 (length (splitlines file.text))
second-IsRange =
    subst (λ l. IsRange 2 2 (length l)) (sym two) (omega arith, inr (omega arith, omega arith))

edit_lines-spliced_example :
    (written : Text) × (bom : Bool) × (result : EditResult) × (edit_lines search file 2 2
        (lit "x\n")
        options
      ≡ returned (written, bom, result))
    × (splitlines written ≡ spliced 2 2 (splitlines (lit "x\n")) (splitlines file.text))
    × (result.line_count_after ≡ length (splitlines written))
edit_lines-spliced_example =
    edit_lines-spliced search file 2 2 (lit "x\n") options refl refl refl refl refl refl
      second-IsRange (subst (All IsLine) (sym replaced) (ab-IsLine, ((refl, tt), tt)))
      (subst LastFilled (sym replaced) tt)

edit_lines_loses_example :
    (written : Text) × (bom : Bool) × (result : EditResult) × (edit_lines search file 2 2
        (lit "\n")
        options
      ≡ returned (written, bom, result))
    × (splitlines written ≡ lit "ab" ∷ [])
    × (result.line_count_after ≡ length (splitlines written) + 1)
edit_lines_loses_example =
    edit_lines_loses search file 2 2 (lit "\n") options (lit "ab") [] refl refl refl refl refl refl
      second-IsRange emptied (ab-IsLine, tt)

abbrev selectors : Selectors
selectors = record { lines = none; head = none; tail = none; around = some (lit "cd") }

alone : check_exclusive selectors ≡ returned tt
unfolding check_exclusive
alone = refl

valid : validate (lit "ab" ∷ lit "cd" ∷ []) selectors ≡ returned tt
unfolding validate validate_lines validate_around any_occurs occurs starts_with
valid = refl

-- One line around the second one.
both : read_range (lit "ab" ∷ lit "cd" ∷ []) selectors (pos 1) ≡ returned (1, 2)
unfolding read_range check_exclusive validate validate_lines validate_around any_occurs
    selected_line_range range_lines range_head range_tail range_around first_with occurs starts_with
both = refl

-- A negative number of lines.
minus_one :
    read_range
      (lit "ab" ∷ [])
      (record { lines = none; head = some (negsuc 0); tail = none; around = none })
      (pos 1)
    ≡ raised negative_size
unfolding read_range check_exclusive validate validate_lines validate_around selected_line_range
    range_lines range_head
minus_one = refl

read_range-IsSelection_example :
    ((start : ℕ) × (end : ℕ) × (read_range (lit "ab" ∷ lit "cd" ∷ []) selectors (pos 1)
        ≡ returned (start, end))
      × IsSelection 2 start end)
    ⊎ ((read_range (lit "ab" ∷ lit "cd" ∷ []) selectors (pos 1) ≡ raised negative_size)
        × ((is_negative selectors.head || is_negative selectors.tail) ≡ true))
read_range-IsSelection_example =
    read_range-IsSelection (lit "ab" ∷ lit "cd" ∷ []) selectors 1 alone valid
