-- ===== src/Patch/Hunks/Bodies.antt =====
-- What a run of `_apply_hunks` does to the lines of a file, read without their ends.
use mathlib.Core.Path.{subst}
use uv_agent.Common.{
  All, ℕ, zero, suc, ◌+◌, ◌≡◌, refl, sym, ap, ◌∙◌, Option, none, some, List, [], ◌∷◌, ◌++◌, map,
  arith, length, take, drop, take-append-drop, map-append, map-take, map-drop, ◌⊎◌,
}
use uv_agent.Common.Text.{Text, concat}
use uv_agent.Common.Lines.{splitlines_keepends}
use uv_agent.Patch.Error.{Error, hunk_not_found, ok, err, ◌>>=◌, bind-returned}
use uv_agent.Patch.Parse.{Hunk}
use uv_agent.Patch.Parse.Render.{IsHunkLine, IsHunk}
use uv_agent.Patch.Hunks.{
  Buffer, crlf, lf, line_body, detect_newline, old_side, new_side, replacement_lines, slice, splice,
  locate, replace_at, replace_found, apply_hunk, apply_each, load, apply_hunks,
}
use uv_agent.Patch.Hunks.Search.{Occurs, Located, locate-Located}
use uv_agent.Patch.Hunks.Sides.{detect_newline-cases, replacement_lines-new_side}

-- The lines that the searches read are those of the file, kept in step and never read anew.
abbrev pub IsTracked : Buffer → Type 0
IsTracked b = b.bodies ≡ map line_body b.original

-- Each hunk in turn takes a place that has its old side, and leaves its new side there.
pub data Patched : List Hunk → List Text → List Text → Type 0 where
  unchanged : {lines : List Text} → Patched [] lines lines
  changed :
      {hunk : Hunk} {hunks : List Hunk} {lines result : List Text} (before after : List Text)
      → lines ≡ before ++ (old_side hunk ++ after)
      → Patched hunks (before ++ (new_side hunk ++ after)) result
      → Patched (hunk ∷ hunks) lines result

drop-nil : (n : ℕ) → drop {A = Text} n [] ≡ []
drop-nil zero = refl
drop-nil (suc n) = refl

suc-add : (n m : ℕ) → suc (n + m) ≡ suc n + m
suc-add n m = omega arith

drop-drop : (n m : ℕ) (xs : List Text) → drop m (drop n xs) ≡ drop (n + m) xs
drop-drop zero m xs = ap (λ k. drop k xs) (omega arith)
drop-drop (suc n) m [] = drop-nil m ∙ sym (drop-nil (suc n + m))
drop-drop (suc n) m (x ∷ xs) = drop-drop n m xs ∙ ap (λ k. drop k (x ∷ xs)) (suc-add n m)

map-splice :
    (lines replacement : List Text) (start count : ℕ)
    → map line_body (splice lines start count replacement)
      ≡ splice (map line_body lines) start count (map line_body replacement)
map-splice lines replacement start count =
    simp (map-append, map-take line_body start lines, map-drop line_body (start + count) lines)

replace_at-IsTracked :
    (newline : Text) (hunk : Hunk) (b : Buffer) (start : ℕ)
    → IsTracked b
    → IsTracked (replace_at newline hunk b start)
unfolding replace_at
replace_at-IsTracked newline hunk b start e =
    let count = length (old_side hunk) in
    let replacement = replacement_lines (slice b.original start count) hunk newline in
    ap (λ l. splice l start count (map line_body replacement)) e
    ∙ sym (map-splice b.original replacement start count)

-- The place of the old side, in the middle of the lines.
split-at :
    (lines target : List Text) (start : ℕ)
    → Occurs lines target start
    → lines ≡ take start lines ++ (target ++ drop (start + length target) lines)
split-at lines target start o = sym (
    ap (λ l. take start lines ++ l)
      (ap (λ t. t ++ drop (start + length target) lines) (sym o)
        ∙ ap (λ l. slice lines start (length target) ++ l)
            (sym (drop-drop start (length target) lines))
        ∙ take-append-drop (length target) (drop start lines))
    ∙ take-append-drop start lines)

replace_at-bodies :
    (newline : Text) (hunk : Hunk) (b : Buffer) (start : ℕ)
    → (newline ≡ crlf) ⊎ (newline ≡ lf)
    → All IsHunkLine hunk
    → IsTracked b
    → Occurs b.bodies (old_side hunk) start
    → (replace_at newline hunk b start).bodies
      ≡ splice b.bodies start (length (old_side hunk)) (new_side hunk)
unfolding replace_at
replace_at-bodies newline hunk b start ends h e o =
    let count = length (old_side hunk) in
    let matched =
      map-take line_body count (drop start b.original)
      ∙ ap (take count) (map-drop line_body start b.original ∙ ap (drop start) (sym e))
      ∙ o in
    ap (splice b.bodies start count)
      (replacement_lines-new_side newline ends hunk (slice b.original start count) h matched)

ok_injective {ℓ} : {A : Type ℓ} (a b : A) → ok a ≡ ok b → a ≡ b
ok_injective a b e = cc

IsHunk-lines : (hunk : Hunk) → IsHunk hunk → All IsHunkLine hunk
IsHunk-lines [] h = absurd h
IsHunk-lines (line ∷ lines) h = h

module _ (path newline : Text) (ends : (newline ≡ crlf) ⊎ (newline ≡ lf)) where
  apply_each-Patched :
      (hunks : List Hunk) (b b' : Buffer)
      → All IsHunk hunks
      → IsTracked b
      → apply_each path newline hunks b ≡ ok b'
      → IsTracked b' × Patched hunks b.bodies b'.bodies
  unfolding apply_each apply_hunk
  apply_each-Patched [] b b' h e done =
      subst (λ x. IsTracked x × Patched [] b.bodies x.bodies) (ok_injective b b' done)
        (e, unchanged)
  apply_each-Patched (hunk ∷ hunks) b b' h e done =
      from_place (locate b.bodies (old_side hunk) b.search_start)
        (locate-Located b.bodies (old_side hunk) b.search_start)
        (λ start.
          apply_each-Patched hunks (replace_at newline hunk b start) b' h.1
            (replace_at-IsTracked newline hunk b start e))
        done
    where
      from_place :
          (r : Option ℕ)
          → Located b.bodies (old_side hunk) r
          → ((start : ℕ)
              → apply_each path newline hunks (replace_at newline hunk b start) ≡ ok b'
              → IsTracked b' × Patched hunks (replace_at newline hunk b start).bodies b'.bodies)
          → (replace_found path newline hunk b r >>= apply_each path newline hunks) ≡ ok b'
          → IsTracked b' × Patched (hunk ∷ hunks) b.bodies b'.bodies
      from_place none l ih d = cc
      from_place (some start) l ih d =
          let (tracked, rest) = ih start d in
          (
            tracked,
            changed (take start b.bodies) (drop (start + length (old_side hunk)) b.bodies)
                (split-at b.bodies (old_side hunk) start l)
                (subst (λ lines. Patched hunks lines b'.bodies)
                  (replace_at-bodies newline hunk b start ends (IsHunk-lines hunk h.0) e l) rest),
          )

replace_found-err :
    (path newline : Text) (hunk : Hunk) (b : Buffer) (r : Option ℕ) (error : Error)
    → Located b.bodies (old_side hunk) r
    → replace_found path newline hunk b r ≡ err error
    → (error ≡ hunk_not_found path) × ((j : ℕ) → ¬ (Occurs b.bodies (old_side hunk) j))
replace_found-err path newline hunk b none error l e = (cc, l)
replace_found-err path newline hunk b (some start) error l e = cc

-- If `_apply_hunks` returns, the text that it returns is the concatenation of lines which, read
-- without their ends, come from those of the given text by replacing, hunk after hunk, one place
-- that has the hunk's old side by its new side, with all lines before and behind it kept.
pub apply_hunks-Patched :
    (text : Text) (hunks : List Hunk) (path result : Text)
    → All IsHunk hunks
    → apply_hunks text hunks path ≡ ok result
    → (lines : List Text) × (result ≡ concat lines)
      × Patched hunks (map line_body (splitlines_keepends text)) (map line_body lines)
unfolding apply_hunks
apply_hunks-Patched text hunks path result h e =
    let newline = detect_newline (splitlines_keepends text) in
    let (b, applied, joined) =
      bind-returned (apply_each path newline hunks (load text)) (λ b. ok (concat b.original)) e in
    let (tracked, patched) =
      apply_each-Patched path newline (detect_newline-cases (splitlines_keepends text)) hunks
        (load text) b h refl applied in
    (
      b.original,
      sym (ok_injective (concat b.original) result joined),
      subst (Patched hunks (map line_body (splitlines_keepends text))) tracked patched,
    )

-- A hunk fails only with "hunk context was not found", and only if its old side stands nowhere in
-- the lines of the file: the search that resumes behind the last hunk falls back to the whole file.
pub apply_hunk-err :
    (path newline : Text) (hunk : Hunk) (b : Buffer) (error : Error)
    → apply_hunk path newline hunk b ≡ err error
    → (error ≡ hunk_not_found path) × ((j : ℕ) → ¬ (Occurs b.bodies (old_side hunk) j))
unfolding apply_hunk
apply_hunk-err path newline hunk b error e =
    replace_found-err path newline hunk b (locate b.bodies (old_side hunk) b.search_start) error
      (locate-Located b.bodies (old_side hunk) b.search_start) e
