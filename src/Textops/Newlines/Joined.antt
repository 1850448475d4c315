-- ===== src/Textops/Newlines/Joined.antt =====
-- What `normalize_text` writes for lines that are joined, and what is read back.
use uv_agent.Common.{
  ℕ, ◌≡◌, refl, sym, ap, ◌∙◌, true, false, some, List, [], ◌∷◌, ◌++◌, map, append_assoc, append-nil,
  ◌==◌, All, All-append, arith,
}
use uv_agent.Common.Text.{Text, lit, join, concat}
use uv_agent.Common.Lines.{IsLine, splitlines}
use uv_agent.Common.Lines.Joined.{plain-ne-cr, splitlines-concat}
use uv_agent.Textops.Newlines.{lf, replace_crlf, replace_char, ends_newline, to_lf, normalize_text}

-- No "\r" inside.
abbrev NoCr : Text → Type 0
NoCr = All λ c. (c == 13) ≡ false

NoCr-replace_crlf : (to text : Text) → NoCr text → replace_crlf to text ≡ text
unfolding replace_crlf
NoCr-replace_crlf to [] p = refl
NoCr-replace_crlf to (c ∷ []) p = refl
NoCr-replace_crlf to (c ∷ d ∷ s) p = rw p.0 (ap (λ t. c ∷ t) (NoCr-replace_crlf to (d ∷ s) p.1))

NoCr-replace_char : (to text : Text) → NoCr text → replace_char 13 to text ≡ text
unfolding replace_char
NoCr-replace_char to [] p = refl
NoCr-replace_char to (c ∷ s) p = rw (p.0, NoCr-replace_char to s p.1)

NoCr-to_lf : (text : Text) → NoCr text → to_lf text ≡ text
unfolding to_lf
NoCr-to_lf text p = rw (NoCr-replace_crlf (10 ∷ []) text p) (NoCr-replace_char (10 ∷ []) text p)

IsLine-NoCr : (line : Text) → IsLine line → NoCr line
IsLine-NoCr [] p = tt
IsLine-NoCr (c ∷ line) p = (plain-ne-cr c p.0, IsLine-NoCr line p.1)

join-NoCr : (lines : List Text) → All IsLine lines → NoCr (join (lit "\n") lines)
unfolding join
join-NoCr [] p = tt
join-NoCr (line ∷ []) p = IsLine-NoCr line p.0
join-NoCr (line ∷ next ∷ lines) p =
    All-append (λ c. (c == 13) ≡ false) line _ (IsLine-NoCr line p.0)
      (refl, join-NoCr (next ∷ lines) p.1)

-- There is a line, and the last one is not empty.
abbrev pub LastFilled : List Text → Type 0
LastFilled [] = ⊥
LastFilled ([] ∷ []) = ⊥
LastFilled ((c ∷ line) ∷ []) = Unit {0}
LastFilled (line ∷ next ∷ lines) = LastFilled (next ∷ lines)

ends_newline-line : (c : ℕ) (line : Text) → IsLine (c ∷ line) → ends_newline (c ∷ line) ≡ false
unfolding ends_newline
ends_newline-line c [] p = ground (arith, p.0)
ends_newline-line c (d ∷ line) p = ends_newline-line d line p.1

-- The end of a text that is not empty.
ends_newline-append :
    (s : Text) (c : ℕ) (t : Text) → ends_newline (s ++ (c ∷ t)) ≡ ends_newline (c ∷ t)
unfolding ends_newline
ends_newline-append [] c t = refl
ends_newline-append (a ∷ []) c t = refl
ends_newline-append (a ∷ b ∷ s) c t = ends_newline-append (b ∷ s) c t

ends_newline-behind : (t : Text) → (t ≡ [] → ⊥) → ends_newline (10 ∷ t) ≡ ends_newline t
unfolding ends_newline
ends_newline-behind [] filled = absurd (filled refl)
ends_newline-behind (c ∷ t) filled = refl

append-ne-nil : (s : Text) (c : ℕ) (t : Text) → s ++ (c ∷ t) ≡ [] → ⊥
append-ne-nil [] c t same = cc
append-ne-nil (a ∷ s) c t same = cc

join-ne-nil : (lines : List Text) → LastFilled lines → join (lit "\n") lines ≡ [] → ⊥
unfolding join
join-ne-nil [] filled same = filled
join-ne-nil ([] ∷ []) filled same = filled
join-ne-nil ((c ∷ line) ∷ []) filled same = cc
join-ne-nil (line ∷ next ∷ lines) filled same =
    append-ne-nil line 10 (join (lit "\n") (next ∷ lines)) same

ends_newline-join :
    (lines : List Text)
    → All IsLine lines
    → LastFilled lines
    → ends_newline (join (lit "\n") lines) ≡ false
unfolding join
ends_newline-join [] p filled = absurd filled
ends_newline-join ([] ∷ []) p filled = absurd filled
ends_newline-join ((c ∷ line) ∷ []) p filled = ends_newline-line c line p.0
ends_newline-join (line ∷ next ∷ lines) p filled =
    ends_newline-append line 10 (join (lit "\n") (next ∷ lines))
    ∙ ends_newline-behind (join (lit "\n") (next ∷ lines)) (join-ne-nil (next ∷ lines) filled)
    ∙ ends_newline-join (next ∷ lines) p.1 filled

join-concat :
    (line : Text) (lines : List Text)
    → join (lit "\n") (line ∷ lines) ++ 10 ∷ [] ≡ concat (map (λ l. l ++ 10 ∷ []) (line ∷ lines))
unfolding join concat
join-concat line [] = sym (append-nil (line ++ 10 ∷ []))
join-concat line (next ∷ lines) =
    append_assoc line (10 ∷ join (lit "\n") (next ∷ lines)) (10 ∷ [])
    ∙ ap (λ t. line ++ (10 ∷ t)) (join-concat next lines)
    ∙ sym (append_assoc line (10 ∷ []) (concat (map (λ l. l ++ 10 ∷ []) (next ∷ lines))))

-- What is written for lines with "\n" as their end, the last one included, holds these lines.
pub splitlines-normalize_text :
    (lines : List Text)
    → All IsLine lines
    → LastFilled lines
    → splitlines (normalize_text (join (lit "\n") lines) (some lf) (some true)) ≡ lines
unfolding normalize_text
splitlines-normalize_text [] p filled = absurd filled
splitlines-normalize_text (line ∷ lines) p filled =
    rw
      (
        NoCr-to_lf (join (lit "\n") (line ∷ lines)) (join-NoCr (line ∷ lines) p),
        ends_newline-join (line ∷ lines) p filled,
      )
      (ap splitlines (join-concat line lines) ∙ splitlines-concat (line ∷ lines) p)

join-snoc :
    (line : Text) (lines : List Text)
    → join (lit "\n") ((line ∷ lines) ++ [] ∷ []) ≡ join (lit "\n") (line ∷ lines) ++ 10 ∷ []
unfolding join
join-snoc line [] = refl
join-snoc line (next ∷ lines) =
    ap (λ t. line ++ (10 ∷ t)) (join-snoc next lines)
    ∙ sym (append_assoc line (10 ∷ join (lit "\n") (next ∷ lines)) (10 ∷ []))

pub splitlines-normalize_text_snoc :
    (line : Text) (lines : List Text)
    → All IsLine (line ∷ lines)
    → splitlines
        (normalize_text (join (lit "\n") ((line ∷ lines) ++ [] ∷ [])) (some lf) (some true))
      ≡ line ∷ lines
unfolding normalize_text
splitlines-normalize_text_snoc line lines p =
    let all = All-append IsLine (line ∷ lines) ([] ∷ []) p (tt, tt) in
    let ends : ends_newline (join (lit "\n") (line ∷ lines) ++ 10 ∷ []) ≡ true =
      ends_newline-append (join (lit "\n") (line ∷ lines)) 10 [] ∙ (unfold ends_newline in refl) in
    rw
      (
        NoCr-to_lf (join (lit "\n") ((line ∷ lines) ++ [] ∷ []))
            (join-NoCr ((line ∷ lines) ++ [] ∷ []) all),
        join-snoc line lines,
        ends,
      )
      (ap splitlines (join-concat line lines) ∙ splitlines-concat (line ∷ lines) p)
