-- ===== src/Patch/Hunks.antt =====
-- `_apply_hunks` of src/uv_agent_runtime/patch.py and the functions that it calls.
pub mod Search
pub mod Bodies
pub mod Sides
pub mod Unterminated
use uv_agent.Common.{
  ℕ, zero, suc, ◌+◌, ◌-◌, ◌≡◌, Bool, true, false, ◌&&◌, ◌||◌, Option, none, some, List, [], ◌∷◌,
  ◌++◌, map, if◌then◌else◌, ◌==◌, length, take, drop,
}
use uv_agent.Common.Text.{Text, lit, text_eq, ends_with, drop_last, concat}
use uv_agent.Common.Lines.{splitlines_keepends}
use uv_agent.Patch.Error.{Result, ok, err, hunk_not_found, ◌>>=◌}
use uv_agent.Patch.Parse.{Hunk}

abbrev pub crlf : Text
crlf = 13 ∷ 10 ∷ []

abbrev pub lf : Text
lf = 10 ∷ []

unfoldable pub line_body : Text → Text
line_body line =
    if ends_with line crlf
    then drop_last 2 line
    else if ends_with line lf
    then drop_last 1 line
    else line

unfoldable pub detect_newline : List Text → Text
detect_newline [] = lf
detect_newline (line ∷ lines) =
    if ends_with line crlf then crlf else if ends_with line lf then lf else detect_newline lines

-- `==` on lists of texts.
unfoldable pub lines_eq : List Text → List Text → Bool
lines_eq [] [] = true
lines_eq [] (t ∷ ts) = false
lines_eq (s ∷ ss) [] = false
lines_eq (s ∷ ss) (t ∷ ts) = text_eq s t && lines_eq ss ts

-- `lines[index : index + count]`
abbrev pub slice : List Text → ℕ → ℕ → List Text
slice lines index count = take count (drop index lines)

-- The `for` loop of `_find_subsequence`, with the rounds that `range` gives.
unfoldable pub search : ℕ → ℕ → List Text → List Text → Option ℕ
search zero index lines target = none
search (suc rounds) index lines target =
    let later = search rounds (suc index) lines target in
    if lines_eq (slice lines index (length target)) target then some index else later

unfoldable pub find_subsequence : List Text → List Text → ℕ → Option ℕ
find_subsequence lines [] start = some start
find_subsequence lines (t ∷ ts) start =
    search (suc (length lines) - length (t ∷ ts) - start) start lines (t ∷ ts)

-- The lines of a hunk that its file has, and those that it gets: each line without its prefix.
-- The parser has refused lines with no prefix.
unfoldable pub old_side : Hunk → List Text
old_side [] = []
old_side ([] ∷ hunk) = old_side hunk
old_side ((c ∷ s) ∷ hunk) =
    let rest = old_side hunk in if c == b' ' || c == b'-' then s ∷ rest else rest

unfoldable pub new_side : Hunk → List Text
new_side [] = []
new_side ([] ∷ hunk) = new_side hunk
new_side ((c ∷ s) ∷ hunk) =
    let rest = new_side hunk in if c == b' ' || c == b'+' then s ∷ rest else rest

abbrev pub head_lines : List Text → List Text
head_lines [] = []
head_lines (m ∷ ms) = m ∷ []

-- `_replacement_lines`; `matched` is what is left of the list behind `matched_index`.
unfoldable pub replacement_lines : List Text → Hunk → Text → List Text
replacement_lines matched [] newline = []
replacement_lines matched ([] ∷ hunk) newline = replacement_lines matched hunk newline
replacement_lines matched ((c ∷ s) ∷ hunk) newline =
    let later = replacement_lines (drop 1 matched) hunk newline in
    let same = replacement_lines matched hunk newline in
    if c == b' '
    then head_lines matched ++ later
    else if c == b'-'
    then later
    else if c == b'+'
    then (s ++ newline) ∷ same
    else same

-- The variables of the loop of `_apply_hunks`.
pub record Buffer : Type 0 where
  pub original : List Text
  pub bodies : List Text
  pub search_start : ℕ

-- `lines[start : start + count] = replacement`
abbrev pub splice : List Text → ℕ → ℕ → List Text → List Text
splice lines start count replacement =
    take start lines ++ (replacement ++ drop (start + count) lines)

-- The second search starts at the top.
abbrev pub find_again : List Text → List Text → ℕ → Option ℕ → Option ℕ
find_again bodies expected zero none = none
find_again bodies expected (suc n) none = find_subsequence bodies expected 0
find_again bodies expected n (some start) = some start

unfoldable pub locate : List Text → List Text → ℕ → Option ℕ
locate bodies expected start =
    find_again bodies expected start (find_subsequence bodies expected start)

unfoldable pub replace_at : Text → Hunk → Buffer → ℕ → Buffer
replace_at newline hunk b start =
    let count = length (old_side hunk) in
    let replacement = replacement_lines (slice b.original start count) hunk newline in
    record {
      original = splice b.original start count replacement;
      bodies = splice b.bodies start count (map line_body replacement);
      search_start = start + length (map line_body replacement);
    }

abbrev pub replace_found : Text → Text → Hunk → Buffer → Option ℕ → Result Buffer
replace_found path newline hunk b none = err (hunk_not_found path)
replace_found path newline hunk b (some start) = ok (replace_at newline hunk b start)

-- One turn of the loop.
unfoldable pub apply_hunk : Text → Text → Hunk → Buffer → Result Buffer
apply_hunk path newline hunk b =
    replace_found path newline hunk b (locate b.bodies (old_side hunk) b.search_start)

unfoldable pub apply_each : Text → Text → List Hunk → Buffer → Result Buffer
apply_each path newline [] b = ok b
apply_each path newline (hunk ∷ hunks) b =
    apply_hunk path newline hunk b >>= apply_each path newline hunks

abbrev pub load : Text → Buffer
load text = record {
  original = splitlines_keepends text;
  bodies = map line_body (splitlines_keepends text);
  search_start = 0;
}

unfoldable pub apply_hunks : Text → List Hunk → Text → Result Text
apply_hunks text hunks path =
    apply_each path (detect_newline (splitlines_keepends text)) hunks (load text) >>= λ b.
    ok (concat b.original)
