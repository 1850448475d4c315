-- ===== src/Patch/Hunks/Search.antt =====
-- `_find_subsequence` of src/uv_agent_runtime/patch.py finds the first place at or behind its start.
use mathlib.Core.Path.{subst}
use uv_agent.Common.{
  ℕ, zero, suc, ◌+◌, ◌-◌, ◌≤◌, ◌<◌, ◌≡◌, ◌↔◌, refl, ap, true, Option, none, some, List, [], ◌∷◌,
  arith, length, drop, length-take, length-drop, Bool-cases, inl, inr, ◌==◌, ==_iff, sym,
}
use uv_agent.Common.Text.{Text, text_eq_iff}
use uv_agent.Patch.Hunks.{lines_eq, slice, search, find_subsequence, find_again, locate}

pub lines_eq_iff : (ss ts : List Text) → (lines_eq ss ts ≡ true) ↔ (ss ≡ ts)
unfolding lines_eq
lines_eq_iff [] [] = ground arith
lines_eq_iff [] (t ∷ ts) = ground arith
lines_eq_iff (s ∷ ss) [] = ground arith
lines_eq_iff (s ∷ ss) (t ∷ ts) = ground (arith, text_eq_iff s t, lines_eq_iff ss ts)

-- `target` stands in `lines` at `index`.
abbrev pub Occurs : List Text → List Text → ℕ → Type 0
Occurs lines target index = slice lines index (length target) ≡ target

-- What a search from `start` says: the first place, or that there is none.
abbrev pub First : List Text → List Text → ℕ → Option ℕ → Type 0
First lines target start none = (j : ℕ) → start ≤ j → ¬ (Occurs lines target j)
First lines target start (some i) =
    (start ≤ i) × Occurs lines target i × ((j : ℕ) → start ≤ j → j < i → ¬ (Occurs lines target j))

Occurs-fits :
    (lines target : List Text) (j : ℕ) → Occurs lines target j → length target ≤ length lines - j
Occurs-fits lines target j o =
    omega (arith, ap length o, length-take (length target) (drop j lines), length-drop j lines)

not-later :
    (lines target : List Text) (index : ℕ) (r : Option ℕ)
    → ¬ (Occurs lines target index)
    → First lines target (suc index) r
    → First lines target index r
not-later lines target index none ne f = λ j le o. elim (Bool-cases (index == j)) [
  | inl e ↦ ne (subst (Occurs lines target) (sym ((==_iff index j).0 e)) o)
  | inr e ↦ f j (ground arith) o
]
not-later lines target index (some i) ne f = (
  omega (arith, f.0),
  f.1,
  λ j le lt o. elim (Bool-cases (index == j)) [
    | inl e ↦ ne (subst (Occurs lines target) (sym ((==_iff index j).0 e)) o)
    | inr e ↦ f.2 j (ground arith) lt o
  ],
)

-- There is no place at `bound` or behind it.
module _ (lines target : List Text) (bound : ℕ)
    (beyond : (j : ℕ) → bound ≤ j → ¬ (Occurs lines target j)) where
  search-First :
      (rounds index : ℕ)
      → bound ≤ rounds + index
      → First lines target index (search rounds index lines target)
  unfolding search
  search-First zero index le = λ j more. beyond j (omega arith)
  search-First (suc rounds) index le =
      let matches = lines_eq_iff (slice lines index (length target)) target in
      elim (Bool-cases (lines_eq (slice lines index (length target)) target)) [
        | inl e ↦ rw e (omega arith, matches.0 e, λ j more less. absurd (omega arith))
        | inr e ↦ rw e (
            not-later lines target index (search rounds (suc index) lines target)
              (λ o. absurd (cc (e, matches.1 o))) (search-First rounds (suc index) (omega arith)))
      ]

-- The search returns the first place at or behind `start` at which the target stands, and none only
-- if it stands at no such place.
pub find_subsequence-First :
    (lines target : List Text) (start : ℕ)
    → First lines target start (find_subsequence lines target start)
unfolding find_subsequence
find_subsequence-First lines [] start = (omega arith, refl, λ j le lt. absurd (omega arith))
find_subsequence-First lines (t ∷ ts) start =
    search-First lines (t ∷ ts) (suc (length lines) - length (t ∷ ts))
      (λ j le o. omega (arith, Occurs-fits lines (t ∷ ts) j o))
      (suc (length lines) - length (t ∷ ts) - start) start (omega arith)

-- Where the two searches of a hunk end: at a place, or nowhere in the whole file.
abbrev pub Located : List Text → List Text → Option ℕ → Type 0
Located lines target none = (j : ℕ) → ¬ (Occurs lines target j)
Located lines target (some i) = Occurs lines target i

find_again-Located :
    (lines target : List Text) (start : ℕ) (r : Option ℕ)
    → First lines target start r
    → Located lines target (find_again lines target start r)
find_again-Located lines target zero none f = λ j. f j (omega arith)
find_again-Located lines target (suc n) none f =
    from_top (find_subsequence lines target 0) (find_subsequence-First lines target 0)
  where
    from_top : (r : Option ℕ) → First lines target 0 r → Located lines target r
    from_top none g = λ j. g j (omega arith)
    from_top (some i) g = g.1
find_again-Located lines target zero (some i) f = f.1
find_again-Located lines target (suc n) (some i) f = f.1

pub locate-Located :
    (lines target : List Text) (start : ℕ) → Located lines target (locate lines target start)
unfolding locate
locate-Located lines target start =
    find_again-Located lines target start (find_subsequence lines target start)
      (find_subsequence-First lines target start)
