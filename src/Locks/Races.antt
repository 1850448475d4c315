-- ===== src/Locks/Races.antt =====
-- Where calls remove stale files, two can hold the lock at once although neither is stale.
use mathlib.Core.Path.{ap₂}
use uv_agent.Common.{
  ap, ◌∙◌, ◌++◌, ℕ, ◌≡◌, ◌≢◌, refl, true, false, Option, none, List, [], ◌∷◌, ◌==◌, ==_refl, arith,
}
use uv_agent.Locks.{
  File, Place, opening, removing, waiting, held, Settings, Input, write_payload, open_exclusive,
  advance, System, step, run, is_over,
}

abbrev at : ℕ → Input
at now = record {
  now = now;
  open_raises = false;
  write_raises = false;
  stat_raises = false;
  read_raises = false;
  unlink_raises = false;
}

-- Four steps of one call.
abbrev pub four : ℕ → ℕ → List (ℕ × Input)
four call now = (call, at now) ∷ (call, at now) ∷ (call, at now) ∷ (call, at now) ∷ []

run-append :
    (settings : ℕ → Settings) (xs ys : List (ℕ × Input)) (s : System)
    → run settings (xs ++ ys) s ≡ run settings ys (run settings xs s)
unfolding run
run-append settings [] ys s = refl
run-append settings (x ∷ xs) ys s = run-append settings xs ys (step settings x s)

-- After a step of `p` from a place and a file that are known.
step-places :
    (settings : ℕ → Settings) (p now : ℕ) (s : System) {place place' : Place}
    {file file' : Option File}
    → s.places p ≡ place
    → s.file ≡ file
    → advance (settings p) (at now) p place file ≡ (place', file')
    → ((step settings (p, at now) s).places p ≡ place')
      × ((step settings (p, at now) s).file ≡ file')
      × ((q : ℕ) → (q == p) ≡ false → (step settings (p, at now) s).places q ≡ s.places q)
unfolding step
step-places settings p now s here there next =
    let own : (p == p) ≡ true = ==_refl p in
    let same = ap₂ (advance (settings p) (at now) p) here there ∙ next in
    (rw own (ap (λ x. x.0) same), ap (λ x. x.1) same, λ q other. rw other)

waiting_on :
    (settings : Settings) (p now : ℕ)
    → is_over settings.deadline now ≡ false
    → advance settings (at now) p waiting none ≡ (opening, none)
unfolding advance
waiting_on settings p now early = rw early

four-held :
    (settings : ℕ → Settings) (p now : ℕ) (s : System)
    → s.places p ≡ removing
    → is_over (settings p).deadline now ≡ false
    → ((run settings (four p now) s).places p ≡ held)
      × ((q : ℕ) → (q == p) ≡ false → (run settings (four p now) s).places q ≡ s.places q)
unfolding run advance open_exclusive write_payload
four-held settings p now s first early =
    let a = step-places settings p now s first refl refl in
    let s1 = step settings (p, at now) s in
    let b = step-places settings p now s1 a.0 a.1 (waiting_on (settings p) p now early) in
    let s2 = step settings (p, at now) s1 in
    let c = step-places settings p now s2 b.0 b.1 refl in
    let s3 = step settings (p, at now) s2 in
    let d = step-places settings p now s3 c.0 c.1 refl in
    (d.0, λ q other. d.2 q other ∙ c.2 q other ∙ b.2 q other ∙ a.2 q other)

-- If two calls have both found the file stale, and the deadline of neither has passed, then both come
-- to hold the lock after four steps of the one and four of the other: the second removes the file that
-- the first has just made, however young that is.
pub race-held :
    (settings : ℕ → Settings) (s : System) (p q now : ℕ)
    → p ≢ q
    → s.places p ≡ removing
    → s.places q ≡ removing
    → is_over (settings p).deadline now ≡ false
    → is_over (settings q).deadline now ≡ false
    → ((run settings (four p now ++ four q now) s).places p ≡ held)
      × ((run settings (four p now ++ four q now) s).places q ≡ held)
race-held settings s p q now differ first second early early' =
    let (p_held, others) = four-held settings p now s first early in
    let middle = run settings (four p now) s in
    let q_waits : middle.places q ≡ removing = others q (ground arith) ∙ second in
    let (q_held, rest) = four-held settings q now middle q_waits early' in
    let both = run-append settings (four p now) (four q now) s in
    (
      ap (λ (t : System). t.places p) both ∙ (rest p (ground arith) ∙ p_held),
      ap (λ (t : System). t.places q) both ∙ q_held,
    )
