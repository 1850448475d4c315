-- ===== src/Textops/Selection.antt =====
-- The selection of lines in `read_file` of src/uv_agent_runtime/textops.py: its arguments are checked
-- twice, by `_validate_read_file_selection` and by `_selected_line_range`.
pub mod Within
use uv_agent.Common.{
  ℕ, zero, suc, ◌+◌, ◌-◌, ◌≤◌, ◌≡◌, refl, sym, ap, ◌∙◌, ◌⊎◌, inl, inr, Bool, true, false, not, ◌&&◌,
  ◌||◌, Option, none, some, List, [], ◌∷◌, length, ltb, ◌==◌, Bool-cases, arith, if◌then◌else◌,
}
use uv_agent.Common.Text.{Text}
use uv_agent.Common.Outcome.{Outcome, raised, returned, ◌>>=◌}
use uv_agent.Textops.{occurs}

-- The integers that a call passes; `negsuc n` is -(n + 1).
pub data ℤ : Type 0 where
  pos negsuc : ℕ → ℤ

pub data SelectionError : Type 0 where
  not_exclusive negative_context negative_size range_outside around_empty not_found : SelectionError

-- The selectors of `read_file`.
pub record Selectors : Type 0 where
  pub lines : Option (ℤ × ℤ)
  pub head : Option ℤ
  pub tail : Option ℤ
  pub around : Option Text

abbrev given {ℓ} : {A : Type ℓ} → Option A → ℕ
given none = 0
given (some value) = 1

-- At most one selector is given.
unfoldable pub check_exclusive : Selectors → Outcome SelectionError (Unit {0})
check_exclusive s =
    if ltb 1 (given s.lines + (given s.head + (given s.tail + given s.around)))
    then raised not_exclusive
    else returned tt

-- `start < 1 or end < start or end > line_count`
abbrev pub outside : (start end : ℤ) → (count : ℕ) → Bool
outside (pos start) (pos end) count = ltb start 1 || (ltb end start || ltb count end)
outside (pos start) (negsuc end) count = true
outside (negsuc start) end count = true

abbrev pub is_empty_range : (start end : ℤ) → Bool
is_empty_range (pos start) (pos end) = start == 1 && end == 0
is_empty_range (pos start) (negsuc end) = false
is_empty_range (negsuc start) end = false

unfoldable pub any_occurs : Text → List Text → Bool
any_occurs around [] = false
any_occurs around (line ∷ lines) = occurs around line || any_occurs around lines

abbrev is_none_selected : Option (ℤ × ℤ) → ℕ → Bool
is_none_selected none count = false
is_none_selected (some (start, end)) count = count == 0 && is_empty_range start end

unfoldable pub validate_lines : Option (ℤ × ℤ) → ℕ → Outcome SelectionError (Unit {0})
validate_lines none count = returned tt
validate_lines (some (start, end)) count =
    if count == 0 || outside start end count then raised range_outside else returned tt

unfoldable pub validate_around : Option Text → List Text → Outcome SelectionError (Unit {0})
validate_around none lines = returned tt
validate_around (some []) lines = raised around_empty
validate_around (some (c ∷ around)) lines =
    if any_occurs (c ∷ around) lines then returned tt else raised not_found

-- `_validate_read_file_selection`
unfoldable pub validate : List Text → Selectors → Outcome SelectionError (Unit {0})
validate logical_lines s =
    let checked = validate_lines s.lines (length logical_lines) >>= λ valid.
    validate_around s.around logical_lines in
    if is_none_selected s.lines (length logical_lines) then returned tt else checked

-- `enumerate(logical_lines, start=index)`, as far as the first line with the text.
unfoldable pub first_with : Text → (index : ℕ) → List Text → Option ℕ
first_with around index [] = none
first_with around index (line ∷ lines) =
    let later = first_with around (index + 1) lines in
    if occurs around line then some index else later

-- The range of an empty file.
unfoldable pub empty_range : Option (ℤ × ℤ) → Option Text → Outcome SelectionError (ℕ × ℕ)
empty_range none none = returned (0, 0)
empty_range none (some around) = raised not_found
empty_range (some (start, end)) none =
    if is_empty_range start end then returned (0, 0) else raised range_outside
empty_range (some (start, end)) (some around) =
    if is_empty_range start end then raised not_found else raised range_outside

abbrev pub at_most : ℕ → ℕ → ℕ
at_most count n = if ltb count n then count else n

abbrev pub at_least_one : ℕ → ℕ
at_least_one n = if n == 0 then 1 else n

abbrev around_range : (count context : ℕ) → Option ℕ → Outcome SelectionError (ℕ × ℕ)
around_range count context none = raised not_found
around_range count context (some index) =
    returned (at_least_one (index - context), at_most count (index + context))

unfoldable pub range_around :
    List Text → Option Text → (context : ℕ) → Outcome SelectionError (ℕ × ℕ)
range_around logical_lines none context = returned (1, length logical_lines)
range_around logical_lines (some []) context = raised around_empty
range_around logical_lines (some (c ∷ around)) context =
    around_range (length logical_lines) context (first_with (c ∷ around) 1 logical_lines)

abbrev pub tail_range : (count tail : ℕ) → ℕ × ℕ
tail_range count tail = if tail == 0 then (0, 0) else (at_least_one (count + 1 - tail), count)

unfoldable pub range_tail :
    List Text → Option ℤ → Option Text → (context : ℕ) → Outcome SelectionError (ℕ × ℕ)
range_tail logical_lines none around context = range_around logical_lines around context
range_tail logical_lines (some (negsuc n)) around context = raised negative_size
range_tail logical_lines (some (pos tail)) around context =
    returned (tail_range (length logical_lines) tail)

abbrev pub head_range : (count head : ℕ) → ℕ × ℕ
head_range count head = if head == 0 then (0, 0) else (1, at_most count head)

unfoldable pub range_head :
    List Text → Option ℤ → Option ℤ → Option Text → (context : ℕ) → Outcome SelectionError (ℕ × ℕ)
range_head logical_lines none tail around context = range_tail logical_lines tail around context
range_head logical_lines (some (negsuc n)) tail around context = raised negative_size
range_head logical_lines (some (pos head)) tail around context =
    returned (head_range (length logical_lines) head)

-- The range `lines`, unless it is outside of the file.
abbrev pub within : (start end : ℤ) → (count : ℕ) → Outcome SelectionError (ℕ × ℕ)
within (pos start) (pos end) count =
    if outside (pos start) (pos end) count then raised range_outside else returned (start, end)
within (pos start) (negsuc end) count = raised range_outside
within (negsuc start) end count = raised range_outside

unfoldable pub range_lines : List Text → Selectors → (context : ℕ) → Outcome SelectionError (ℕ × ℕ)
range_lines logical_lines s context = elim s.lines [
  | none ↦ range_head logical_lines s.head s.tail s.around context
  | some range ↦ within range.0 range.1 (length logical_lines)
]

-- `_selected_line_range`
unfoldable pub selected_line_range :
    List Text → Selectors → (context : ℕ) → Outcome SelectionError (ℕ × ℕ)
selected_line_range [] s context = empty_range s.lines s.around
selected_line_range (line ∷ lines) s context = range_lines (line ∷ lines) s context

abbrev pub check_context : ℤ → Outcome SelectionError ℕ
check_context (pos context) = returned context
check_context (negsuc n) = raised negative_context

-- `read_file`, as far as the range of lines that it reads.
unfoldable pub read_range : List Text → Selectors → (context : ℤ) → Outcome SelectionError (ℕ × ℕ)
read_range logical_lines s context = do
  exclusive ← check_exclusive s
  size ← check_context context
  valid ← validate logical_lines s
  selected_line_range logical_lines s size
