-- ===== src/Textops/Selection/Within.antt =====
-- The range that `read_file` selects lies in the file.
use uv_agent.Common.{
  Bool, false, ◌||◌, ℕ, ◌+◌, ◌-◌, ◌≤◌, ◌≡◌, refl, ◌⊎◌, inl, inr, true, Option, none, some, List, [],
  ◌∷◌, length, ◌==◌, Bool-cases, arith,
}
use uv_agent.Common.Text.{Text}
use uv_agent.Common.Outcome.{Outcome, raised, returned}
use uv_agent.Textops.{occurs}
use uv_agent.Textops.Selection.{
  ℤ, pos, negsuc, negative_size, tail_range, head_range, SelectionError, at_most, at_least_one,
  outside, is_empty_range, Selectors, check_exclusive, any_occurs, validate_lines, validate_around,
  validate, first_with, empty_range, range_around, range_tail, range_head, range_lines,
  selected_line_range, read_range,
}

-- No lines, or a range of lines that the file has.
abbrev pub IsSelection : (count start end : ℕ) → Type 0
IsSelection count start end =
    ((start ≡ 0) × (end ≡ 0)) ⊎ ((1 ≤ start) × (start ≤ end) × (end ≤ count))

abbrev Selects : ℕ → Outcome SelectionError (ℕ × ℕ) → Type 0
Selects count outcome =
    (start : ℕ) × (end : ℕ) × (outcome ≡ returned (start, end)) × IsSelection count start end

first_with-bounds :
    (around : Text) (index : ℕ) (lines : List Text)
    → any_occurs around lines ≡ true
    → (found : ℕ) × (first_with around index lines ≡ some found)
      × (index ≤ found)
      × (found + 1 ≤ index + length lines)
unfolding first_with any_occurs
first_with-bounds around index [] p = cc
first_with-bounds around index (line ∷ lines) p = elim (Bool-cases (occurs around line)) [
  | inl e ↦ (index, rw e refl, omega arith, omega arith)
  | inr e ↦
      let (found, same, low, high) =
        first_with-bounds around (index + 1) lines (ground (arith, e, p)) in
      (found, rw e same, omega arith, omega arith)
]

range_around-Selects :
    (lines : List Text) (around : Option Text) (context : ℕ)
    → 1 ≤ length lines
    → validate_around around lines ≡ returned tt
    → Selects (length lines) (range_around lines around context)
unfolding range_around validate_around
range_around-Selects lines none context filled valid =
    (1, length lines, refl, inr (omega arith, filled, omega arith))
range_around-Selects lines (some []) context filled valid = cc
range_around-Selects lines (some (c ∷ around)) context filled valid =
    let (found, same, low, high) = first_with-bounds (c ∷ around) 1 lines (ground (arith, valid)) in
    (
      at_least_one (found - context),
      at_most (length lines) (found + context),
      rw same refl,
      inr (ground arith, ground arith, ground arith),
    )

abbrev pub is_negative : Option ℤ → Bool
is_negative none = false
is_negative (some (pos n)) = false
is_negative (some (negsuc n)) = true

-- A selection is made, or a number of lines is negative and this is raised.
abbrev Ends : ℕ → Selectors → Outcome SelectionError (ℕ × ℕ) → Type 0
Ends count s outcome =
    Selects count outcome
    ⊎ ((outcome ≡ raised negative_size) × ((is_negative s.head || is_negative s.tail) ≡ true))

tail_range-Selects : (count tail : ℕ) → 1 ≤ count → Selects count (returned (tail_range count tail))
tail_range-Selects count tail filled = elim (Bool-cases (tail == 0)) [
  | inl e ↦ (0, 0, rw e refl, inl (refl, refl))
  | inr e ↦ (
    at_least_one (count + 1 - tail),
    count,
    rw e refl,
    inr (ground arith, ground (arith, e), omega arith),
  )
]

head_range-Selects : (count head : ℕ) → 1 ≤ count → Selects count (returned (head_range count head))
head_range-Selects count head filled = elim (Bool-cases (head == 0)) [
  | inl e ↦ (0, 0, rw e refl, inl (refl, refl))
  | inr e ↦ (1, at_most count head, rw e refl, inr (omega arith, ground (arith, e), ground arith))
]

range_head-Ends :
    (logical_lines : List Text) (range : Option (ℤ × ℤ)) (head tail : Option ℤ)
    (around : Option Text) (context : ℕ)
    → 1 ≤ length logical_lines
    → validate_around around logical_lines ≡ returned tt
    → Ends
        (length logical_lines)
        (record { lines = range; head = head; tail = tail; around = around })
        (range_head logical_lines head tail around context)
unfolding range_head range_tail
range_head-Ends lines range (some (negsuc n)) tail around context filled valid = inr (refl, refl)
range_head-Ends lines range (some (pos head)) tail around context filled valid =
    inl (head_range-Selects (length lines) head filled)
range_head-Ends lines range none (some (negsuc n)) around context filled valid = inr (refl, refl)
range_head-Ends lines range none (some (pos tail)) around context filled valid =
    inl (tail_range-Selects (length lines) tail filled)
range_head-Ends lines range none none around context filled valid =
    inl (range_around-Selects lines around context filled valid)

range_lines-Ends :
    (line : Text) (lines : List Text) (range : Option (ℤ × ℤ)) (head tail : Option ℤ)
    (around : Option Text) (context : ℕ)
    → (let s : Selectors = record { lines = range; head = head; tail = tail; around = around } in
        validate (line ∷ lines) s ≡ returned tt
        → Ends (length (line ∷ lines)) s (range_lines (line ∷ lines) s context))
unfolding range_lines validate validate_lines
range_lines-Ends line lines none head tail around context valid =
    range_head-Ends (line ∷ lines) none head tail around context (omega arith) valid
range_lines-Ends line lines (some (negsuc start, end)) head tail around context valid =
    absurd (ground (arith, valid))
range_lines-Ends line lines (some (pos start, negsuc end)) head tail around context valid =
    absurd (ground (arith, valid))
range_lines-Ends line lines (some (pos start, pos end)) head tail around context valid =
    elim (Bool-cases (outside (pos start) (pos end) (length (line ∷ lines)))) [
      | inl e ↦ absurd (ground (arith, e, valid))
      | inr e ↦
          inl (start, end, rw e refl, inr (ground (arith, e), ground (arith, e), ground (arith, e)))
    ]

empty_range-Selects :
    (range : Option (ℤ × ℤ)) (head tail : Option ℤ) (around : Option Text)
    → (let s : Selectors = record { lines = range; head = head; tail = tail; around = around } in
        check_exclusive s ≡ returned tt
        → validate [] s ≡ returned tt
        → Selects 0 (empty_range range around))
unfolding empty_range check_exclusive validate validate_lines validate_around any_occurs
empty_range-Selects none head tail none exclusive valid = (0, 0, refl, inl (refl, refl))
empty_range-Selects none head tail (some []) exclusive valid = cc
empty_range-Selects none head tail (some (c ∷ around)) exclusive valid = cc
empty_range-Selects (some (start, end)) head tail none exclusive valid =
    elim (Bool-cases (is_empty_range start end)) [
      | inl e ↦ (0, 0, rw e refl, inl (refl, refl))
      | inr e ↦ absurd (ground (arith, e, valid))
    ]
empty_range-Selects (some range) head tail (some around) exclusive valid =
    absurd (ground (arith, exclusive))

-- Where at most one selector is given, the context is not negative and the checks of
-- `_validate_read_file_selection` pass, `read_file` selects either no lines, or a range of lines that
-- the file has; or it raises that `head` or `tail` is negative, which only happens where one of them is.
-- It raises nothing else.
pub read_range-IsSelection :
    (logical_lines : List Text) (s : Selectors) (context : ℕ)
    → check_exclusive s ≡ returned tt
    → validate logical_lines s ≡ returned tt
    → ((start : ℕ) × (end : ℕ) × (read_range logical_lines s (pos context) ≡ returned (start, end))
        × IsSelection (length logical_lines) start end)
      ⊎ ((read_range logical_lines s (pos context) ≡ raised negative_size)
          × ((is_negative s.head || is_negative s.tail) ≡ true))
unfolding read_range selected_line_range
read_range-IsSelection [] s context exclusive valid =
    let (start, end, same, held) =
      empty_range-Selects s.lines s.head s.tail s.around exclusive valid in
    inl (start, end, rw (exclusive, valid) same, held)
read_range-IsSelection (line ∷ lines) s context exclusive valid =
    rw (exclusive, valid) (range_lines-Ends line lines s.lines s.head s.tail s.around context valid)
