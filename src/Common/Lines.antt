-- ===== src/Common/Lines.antt =====
-- `str.splitlines`, with and without the line ends.
pub mod Joined
use uv_agent.Common.{
  All, ℕ, ◌≡◌, refl, sym, ap, ◌∙◌, Bool, true, false, ◌&&◌, ◌||◌, List, [], ◌∷◌, ◌++◌, map,
  append_assoc, append-nil, arith, leb, ◌==◌, if◌then◌else◌,
}
use uv_agent.Common.Text.{Text, concat}

-- The code points that end a line: \n \v \f \r \x1c \x1d \x1e \x85 U+2028 U+2029.
abbrev pub is_break : ℕ → Bool
is_break c =
    (leb 10 c && leb c 13) || (leb 28 c && leb c 30) || c == 0x85 || (leb 0x2028 c && leb c 0x2029)

-- No line end inside.
abbrev pub IsLine : Text → Type 0
IsLine = All (λ c. is_break c ≡ false)

abbrev pub flush : Text → List Text
flush [] = []
flush (c ∷ s) = (c ∷ s) ∷ []

-- The line that is being read, and whether it ends in a `\r` that a `\n` would join.
pub record Reading : Type 0 where
  pub after_cr : Bool
  pub current : Text

-- One more character: the lines that it completes, and what is being read then.
abbrev advance : Reading → ℕ → List Text × Reading
advance r c =
    if r.after_cr
    then (if c == 10
        then ((r.current ++ c ∷ []) ∷ [], record { after_cr = false; current = [] })
        else if c == 13
        then (r.current ∷ [], record { after_cr = true; current = c ∷ [] })
        else if is_break c
        then (r.current ∷ (c ∷ []) ∷ [], record { after_cr = false; current = [] })
        else (r.current ∷ [], record { after_cr = false; current = c ∷ [] }))
    else if c == 13
    then ([], record { after_cr = true; current = r.current ++ c ∷ [] })
    else if is_break c
    then ((r.current ++ c ∷ []) ∷ [], record { after_cr = false; current = [] })
    else ([], record { after_cr = false; current = r.current ++ c ∷ [] })

unfoldable pub read_lines : Reading → Text → List Text
read_lines r [] = flush r.current
read_lines r (c ∷ s) = let (done, r') = advance r c in done ++ read_lines r' s

-- `text.splitlines(keepends=True)`
unfoldable pub splitlines_keepends : Text → List Text
unfolding read_lines
splitlines_keepends s = read_lines (record { after_cr = false; current = [] }) s

-- A line of it without its end.
unfoldable pub strip_break : Text → Text
strip_break [] = []
strip_break (c ∷ []) = if is_break c then [] else c ∷ []
strip_break (c ∷ d ∷ []) =
    if c == 13 && d == 10 then [] else if is_break d then c ∷ [] else c ∷ d ∷ []
strip_break (c ∷ d ∷ e ∷ s) = c ∷ strip_break (d ∷ e ∷ s)

-- `text.splitlines()`
unfoldable pub splitlines : Text → List Text
unfolding splitlines_keepends strip_break
splitlines s = map strip_break (splitlines_keepends s)

concat-flush : (s : Text) → concat (flush s) ≡ s
unfolding concat
concat-flush [] = refl
concat-flush (c ∷ s) = append-nil (c ∷ s)

concat-append : (ss ts : List Text) → concat (ss ++ ts) ≡ concat ss ++ concat ts
unfolding concat
concat-append [] ts = refl
concat-append (s ∷ ss) ts = simp (concat-append ss ts, append_assoc)

advance-text :
    (r : Reading) (c : ℕ) → concat (advance r c).0 ++ (advance r c).1.current ≡ r.current ++ c ∷ []
unfolding concat
advance-text r c = ground (
  arith,
  append-nil (r.current ++ c ∷ []),
  append-nil r.current,
  append-nil ((r.current ++ c ∷ []) ++ []),
)

read_lines-concat : (r : Reading) (s : Text) → concat (read_lines r s) ≡ r.current ++ s
unfolding read_lines
read_lines-concat r [] = concat-flush r.current ∙ sym (append-nil r.current)
read_lines-concat r (c ∷ s) =
    concat-append (advance r c).0 (read_lines (advance r c).1 s)
    ∙ ap (λ t. concat (advance r c).0 ++ t) (read_lines-concat (advance r c).1 s)
    ∙ sym (append_assoc (concat (advance r c).0) (advance r c).1.current s)
    ∙ ap (λ t. t ++ s) (advance-text r c)
    ∙ append_assoc r.current (c ∷ []) s

-- Joining the kept lines gives the text back.
pub concat-splitlines_keepends : (s : Text) → concat (splitlines_keepends s) ≡ s
unfolding splitlines_keepends
concat-splitlines_keepends s = read_lines-concat (record { after_cr = false; current = [] }) s

splitlines-mixed :
    splitlines (97 ∷ 13 ∷ 10 ∷ 98 ∷ 13 ∷ 12 ∷ 10 ∷ 99 ∷ [])
    ≡ (97 ∷ []) ∷ (98 ∷ []) ∷ [] ∷ [] ∷ (99 ∷ []) ∷ []
unfolding splitlines
splitlines-mixed = refl
