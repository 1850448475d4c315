-- ===== src/Textops/Newlines.antt =====
-- The styles of line ends in src/uv_agent_runtime/textops.py: `_detect_newline_style` and
-- `normalize_text`.
pub mod Joined
use uv_agent.Common.{
  ℕ, Bool, true, false, ◌&&◌, ◌||◌, Option, none, some, [], ◌∷◌, ◌++◌, ◌==◌, if◌then◌else◌,
}
use mathlib.Core.List.{reverse}
use uv_agent.Common.Text.{Text}

pub data Eol : Type 0 where
  lf crlf cr : Eol

pub data Style : Type 0 where
  single : Eol → Style
  mixed no_newline : Style

-- `text.replace("\r\n", to)`
unfoldable pub replace_crlf : Text → Text → Text
replace_crlf to [] = []
replace_crlf to (c ∷ []) = c ∷ []
replace_crlf to (c ∷ d ∷ s) =
    let replaced = to ++ replace_crlf to s in
    let kept = c ∷ replace_crlf to (d ∷ s) in if c == 13 && d == 10 then replaced else kept

-- `text.replace` of a single character
unfoldable pub replace_char : ℕ → Text → Text → Text
replace_char old to [] = []
replace_char old to (c ∷ s) =
    let rest = replace_char old to s in if c == old then to ++ rest else c ∷ rest

unfoldable pub has_crlf : Text → Bool
has_crlf [] = false
has_crlf (c ∷ []) = false
has_crlf (c ∷ d ∷ s) = (c == 13 && d == 10) || has_crlf (d ∷ s)

unfoldable pub has_char : ℕ → Text → Bool
has_char old [] = false
has_char old (c ∷ s) = c == old || has_char old s

abbrev pub style_of : (has_crlf has_lf has_cr : Bool) → Style
style_of false false false = no_newline
style_of true false false = single crlf
style_of false true false = single lf
style_of false false true = single cr
style_of true true _ = mixed
style_of true _ true = mixed
style_of _ true true = mixed

-- `_detect_newline_style`
unfoldable pub detect_newline_style : Text → Style
unfolding has_crlf has_char replace_crlf
detect_newline_style text =
    style_of (has_crlf text) (has_char 10 (replace_crlf [] text))
      (has_char 13 (replace_crlf [] text))

-- `_single_newline_style`
abbrev pub single_newline_style : Style → Option Eol
single_newline_style (single eol) = some eol
single_newline_style mixed = none
single_newline_style no_newline = none

abbrev pub is_newline : ℕ → Bool
is_newline c = c == 10 || c == 13

-- `text.endswith(("\n", "\r"))`
unfoldable pub ends_newline : Text → Bool
ends_newline [] = false
ends_newline (c ∷ []) = is_newline c
ends_newline (c ∷ d ∷ s) = ends_newline (d ∷ s)

unfoldable pub lstrip_newlines : Text → Text
lstrip_newlines [] = []
lstrip_newlines (c ∷ s) = if is_newline c then lstrip_newlines s else c ∷ s

-- `text.rstrip("\r\n")`
abbrev pub rstrip_newlines : Text → Text
rstrip_newlines text = reverse (lstrip_newlines (reverse text))

abbrev pub newline_text : Eol → Text
newline_text lf = 10 ∷ []
newline_text crlf = 13 ∷ 10 ∷ []
newline_text cr = 13 ∷ []

abbrev style_text : Style → Text
style_text (single eol) = newline_text eol
style_text mixed = newline_text lf
style_text no_newline = newline_text lf

-- `_final_newline_for_text`
abbrev final_newline_for : Text → Option Eol → Text
final_newline_for text none = style_text (detect_newline_style text)
final_newline_for text (some eol) = newline_text eol

unfoldable pub to_lf : Text → Text
unfolding replace_crlf replace_char
to_lf text = replace_char 13 (10 ∷ []) (replace_crlf (10 ∷ []) text)

abbrev pub with_eol : Option Eol → Text → Text
with_eol none text = text
with_eol (some lf) text = to_lf text
with_eol (some crlf) text = replace_char 10 (13 ∷ 10 ∷ []) (to_lf text)
with_eol (some cr) text = replace_char 10 (13 ∷ []) (to_lf text)

abbrev pub with_final : Option Eol → Option Bool → Text → Text
with_final eol none text = text
with_final eol (some true) text =
    if ends_newline text then text else text ++ final_newline_for text eol
with_final eol (some false) text = rstrip_newlines text

-- `normalize_text`
unfoldable pub normalize_text : Text → Option Eol → Option Bool → Text
unfolding to_lf ends_newline
normalize_text text eol final_newline = with_final eol final_newline (with_eol eol text)
