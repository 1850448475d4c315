-- ===== src/Textops.antt =====
-- The edits of whole lines in src/uv_agent_runtime/textops.py: `edit_lines`, with the reading and the
-- writing of texts that keep the style of their line ends. A file is the text that is decoded from it,
-- and whether it begins with a byte order mark; `re.search` is a parameter.
pub mod Newlines
pub mod Lines
pub mod Selection
mod Examples
use uv_agent.Common.{
  ℕ, zero, suc, ◌+◌, ◌-◌, Bool, true, false, not, ◌&&◌, ◌||◌, Option, none, some, List, [], ◌∷◌,
  ◌++◌, length, take, drop, ltb, leb, ◌==◌, if◌then◌else◌,
}
use mathlib.Core.List.{reverse}
use uv_agent.Common.Text.{Text, lit, text_eq, starts_with, lstrip, join}
use uv_agent.Common.Lines.{splitlines}
use uv_agent.Common.Outcome.{Outcome, raised, returned, ◌>>=◌}
use uv_agent.Textops.Newlines.{
  Eol, lf, crlf, cr, Style, single, mixed, no_newline, detect_newline_style, single_newline_style,
  ends_newline, normalize_text, replace_crlf, replace_char,
}

-- `TextFile`, without its path and encoding.
pub record TextFile : Type 0 where
  pub text : Text
  pub newline : Style
  pub final_newline : Bool
  pub bom : Bool

-- `read_text_lossless`, of a decoded text
unfoldable pub read_text_lossless : Text → Bool → TextFile
unfolding detect_newline_style ends_newline
read_text_lossless text bom = record {
  text = text;
  newline = detect_newline_style text;
  final_newline = ends_newline text;
  bom = bom;
}

abbrev pub given_or {ℓ} : {A : Type ℓ} → Option A → A → A
given_or none default = default
given_or (some value) default = value

abbrev pub eol_or : Option Eol → Option Eol → Option Eol
eol_or none default = default
eol_or (some eol) default = some eol

-- `write_text_lossless` like a file that is given: the text and the mark that are written.
unfoldable pub write_like : Text → TextFile → Option Eol → Option Bool → Option Bool → Text × Bool
write_like text template newline final_newline bom =
    let eol = eol_or newline (single_newline_style template.newline) in
    (
      normalize_text text eol (some (given_or final_newline template.final_newline)),
      given_or bom template.bom,
    )

pub data Mode : Type 0 where
  startswith contains exact regex : Mode

pub data Error : Type 0 where
  start_too_small insert_outside start_after_end range_outside : Error
  expect_on_insert : Error
  not_matched : (line_no : ℕ) → Error
  invalid_regex : (pattern : Text) → Error

unfoldable pub occurs : Text → Text → Bool
occurs part [] = starts_with [] part
occurs part (c ∷ s) = starts_with (c ∷ s) part || occurs part s

abbrev first_or_empty : List Text → Text
first_or_empty [] = []
first_or_empty (line ∷ lines) = line

abbrev last_or_empty : List Text → Text
last_or_empty [] = []
last_or_empty (line ∷ []) = line
last_or_empty (line ∷ next ∷ lines) = last_or_empty (next ∷ lines)

-- The tests of the range; whether the edit is an insertion.
unfoldable pub check_range : (start end count : ℕ) → Outcome Error Bool
check_range start end count =
    if ltb start 1
    then raised start_too_small
    else if start == end + 1
    then (if ltb (count + 1) start then raised insert_outside else returned true)
    else if ltb end start
    then raised start_after_end
    else if ltb count start || ltb count end
    then raised range_outside
    else returned false

-- The arguments of `edit_lines` with a default.
pub record Options : Type 0 where
  pub expect_first : Option Text
  pub expect_last : Option Text
  pub expect_mode : Mode
  pub strip_indent : Bool
  pub newline : Option Eol
  pub final_newline : Option Bool
  pub bom : Option Bool

pub record EditResult : Type 0 where
  pub changed : Bool
  pub replaced_text : Text
  pub line_count_before : ℕ
  pub line_count_after : ℕ

abbrev pub is_nonempty : List Text → Bool
is_nonempty [] = false
is_nonempty (line ∷ lines) = true

-- The lines of the file after the edit.
abbrev pub spliced : (start end : ℕ) → List Text → List Text → List Text
spliced start end new lines = take (start - 1) lines ++ (new ++ drop end lines)

-- What `edit_lines` returns.
abbrev pub result_of : (before written : Text) → (replaced lines after : List Text) → EditResult
result_of before written replaced lines after = record {
  changed = not (text_eq before written);
  replaced_text = join (lit "\n") replaced;
  line_count_before = length lines;
  line_count_after = length after;
}

-- The lines that an edit replaces.
abbrev pub replaced_lines : Bool → (start end : ℕ) → List Text → List Text
replaced_lines inserting start end lines =
    if inserting then [] else drop (start - 1) (take end lines)

-- The text and the mark that an edit writes.
abbrev pub written_by : TextFile → List Text → Options → Text × Bool
written_by before after options =
    write_like (join (lit "\n") after) before options.newline
      (some (given_or options.final_newline (before.final_newline && is_nonempty after)))
      options.bom

-- `re.search(expected, actual)`, and none for a pattern that is not one.
module _ (search : Text → Text → Option Bool) where
  abbrev matches : Mode → Text → Text → Outcome Error Bool
  matches startswith expected actual = returned (starts_with actual expected)
  matches contains expected actual = returned (occurs expected actual)
  matches exact expected actual = returned (text_eq actual expected)
  matches regex expected actual = elim (search expected actual) [
    | none ↦ raised (invalid_regex expected)
    | some found ↦ returned found
  ]

  -- `_check_expected_line`
  unfoldable pub check_expected_line :
      (line expected : Text)
      → Mode
      → (strip_indent : Bool) → (line_no : ℕ) → Outcome Error (Unit {0})
  check_expected_line line expected mode strip_indent line_no = do
    matched ← matches mode expected (if strip_indent then lstrip line else line)
    if matched then returned tt else raised (not_matched line_no)

  -- One of the anchors `expect_first` and `expect_last`.
  abbrev pub check_anchor : Bool → Option Text → Text → Mode → Bool → ℕ → Outcome Error (Unit {0})
  check_anchor inserting none line mode strip_indent line_no = returned tt
  check_anchor inserting (some expected) line mode strip_indent line_no =
      if inserting
      then raised expect_on_insert
      else check_expected_line line expected mode strip_indent line_no

  -- `edit_lines`, with the text and the mark that it writes.
  unfoldable pub edit_lines :
      TextFile
      → (start end : ℕ) → (new_text : Text) → Options
      → Outcome Error (Text × Bool × EditResult)
  edit_lines before start end new_text options = do
    let lines = splitlines before.text
    inserting ← check_range start end (length lines)
    let replaced = replaced_lines inserting start end lines
    first ←
        check_anchor inserting options.expect_first (first_or_empty replaced) options.expect_mode
          options.strip_indent start
    last ←
        check_anchor inserting options.expect_last (last_or_empty replaced) options.expect_mode
          options.strip_indent end
    let after = spliced start end (splitlines new_text) lines
    let written = written_by before after options
    returned (written.0, written.1, result_of before.text written.0 replaced lines after)
