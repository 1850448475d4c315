-- ===== src/Common/Lines/Joined.antt =====
-- Lines that are put together with "\n" behind each, and read again.
use mathlib.Core.Path.{ap₂}
use uv_agent.Common.{
  ℕ, ◌≡◌, refl, ap, ◌∙◌, false, List, [], ◌∷◌, ◌++◌, map, append_assoc, All, arith, ◌==◌,
}
use uv_agent.Common.Text.{Text, concat}
use uv_agent.Common.Lines.{
  is_break, IsLine, read_lines, splitlines_keepends, strip_break, splitlines,
}

pub plain-ne-cr : (c : ℕ) → is_break c ≡ false → (c == 13) ≡ false
plain-ne-cr c e = ground arith

-- A line that ends in "\n" is read as that line.
read_lines-line :
    (cur line : Text) (s : Text)
    → IsLine line
    → read_lines (record { after_cr = false; current = cur }) (line ++ 10 ∷ s)
      ≡ (cur ++ (line ++ 10 ∷ [])) ∷ read_lines (record { after_cr = false; current = [] }) s
unfolding read_lines
read_lines-line cur [] s v = refl
read_lines-line cur (c ∷ line) s v =
    rw (plain-ne-cr c v.0, v.0)
      (read_lines-line (cur ++ c ∷ []) line s v.1
        ∙ ap (λ l. l ∷ read_lines (record { after_cr = false; current = [] }) s)
            (append_assoc cur (c ∷ []) (line ++ 10 ∷ [])))

strip_break-line : (line : Text) → IsLine line → strip_break (line ++ 10 ∷ []) ≡ line
unfolding strip_break
strip_break-line [] v = refl
strip_break-line (c ∷ []) v = rw (plain-ne-cr c v.0)
strip_break-line (c ∷ d ∷ []) v = ap (λ t. c ∷ t) (strip_break-line (d ∷ []) v.1)
strip_break-line (c ∷ d ∷ e ∷ line) v = ap (λ t. c ∷ t) (strip_break-line (d ∷ e ∷ line) v.1)

pub splitlines-concat :
    (lines : List Text)
    → All IsLine lines
    → splitlines (concat (map (λ l. l ++ 10 ∷ []) lines)) ≡ lines
unfolding splitlines splitlines_keepends concat
splitlines-concat [] v = unfold read_lines in refl
splitlines-concat (line ∷ lines) v =
    ap (map strip_break) (
      ap (read_lines (record { after_cr = false; current = [] }))
        (append_assoc line (10 ∷ []) (concat (map (λ l. l ++ 10 ∷ []) lines)))
      ∙ read_lines-line [] line (concat (map (λ l. l ++ 10 ∷ []) lines)) v.0)
    ∙ ap₂ (λ l ls. l ∷ ls) (strip_break-line line v.0) (splitlines-concat lines v.1)
