-- ===== src/Compaction/Retain/Merge/Longest.antt =====
-- The merged entries: one for each identity, the longest, in order.
use mathlib.Core.Path.{subst}
use uv_agent.Common.{
  ℕ, ◌≤◌, ◌≡◌, refl, ap, ◌∙◌, Bool, true, false, Option, none, some, List, [], ◌∷◌, arith,
  if◌then◌else◌, ltb, length, Bool-cases, inl, inr,
}
use uv_agent.Common.Text.{text_eq_iff, text_eq_refl}
use uv_agent.Compaction.Retain.{Identity, of_message, of_call, of_output, Entry}
use uv_agent.Compaction.Retain.Merge.{identity_eq, put_entry, put_entries}

pub identity_eq-eq : (i j : Identity) → identity_eq i j ≡ true → i ≡ j
unfolding identity_eq
identity_eq-eq (of_message n r) (of_message n' r') h = ground (arith, text_eq_iff r r')
identity_eq-eq (of_call n c m) (of_call n' c' m') h =
    ground (arith, text_eq_iff c c', text_eq_iff m m')
identity_eq-eq (of_output n c) (of_output n' c') h = ground (arith, text_eq_iff c c')
identity_eq-eq (of_message n r) (of_call n' c' m') h = cc
identity_eq-eq (of_message n r) (of_output n' c') h = cc
identity_eq-eq (of_call n c m) (of_message n' r') h = cc
identity_eq-eq (of_call n c m) (of_output n' c') h = cc
identity_eq-eq (of_output n c) (of_message n' r') h = cc
identity_eq-eq (of_output n c) (of_call n' c' m') h = cc

identity_eq_refl : (i : Identity) → identity_eq i i ≡ true
unfolding identity_eq
identity_eq_refl (of_message n r) = ground (arith, text_eq_refl r)
identity_eq_refl (of_call n c m) = ground (arith, text_eq_refl c, text_eq_refl m)
identity_eq_refl (of_output n c) = ground (arith, text_eq_refl c)

identity_eq_sym : (i j : Identity) → identity_eq i j ≡ true → identity_eq j i ≡ true
identity_eq_sym i j h =
    subst (λ k. identity_eq k i ≡ true) (identity_eq-eq i j h) (identity_eq_refl i)

pub identity_ne_sym : (i j : Identity) → identity_eq i j ≡ false → identity_eq j i ≡ false
identity_ne_sym i j h = elim (Bool-cases (identity_eq j i)) as (λ _. identity_eq j i ≡ false) [
  | inl same ↦ cc (h, identity_eq_sym j i same)
  | inr apart ↦ apart
]

-- What equals one of two that differ differs from the other.
pub identity_apart :
    (c e i : Identity) → identity_eq c e ≡ false → identity_eq c i ≡ true → identity_eq e i ≡ false
identity_apart c e i h found =
    identity_ne_sym i e (subst (λ k. identity_eq k e ≡ false) (identity_eq-eq c i found) h)

-- The entry of an identity.
unfoldable pub lookup : Identity → List Entry → Option Entry
lookup i [] = none
lookup i (e ∷ es) = if identity_eq e.identity i then some e else lookup i es

-- The longer of what was found before and an entry; what was found before, where they are as long.
abbrev pub longer : Option Entry → Entry → Entry
longer none e = e
longer (some c) e = if ltb (length c.text) (length e.text) then e else c

-- The longest entry of an identity, the first of those.
unfoldable pub longest : Identity → Option Entry → List Entry → Option Entry
longest i found [] = found
longest i found (e ∷ es) =
    longest i (if identity_eq e.identity i then some (longer found e) else found) es

unfoldable pub IsUnique : List Entry → Type 0
IsUnique [] = Unit {0}
IsUnique (e ∷ es) = (lookup e.identity es ≡ none) × IsUnique es

abbrev pub NotAfter : ℕ → List Entry → Type 0
NotAfter n [] = Unit {0}
NotAfter n (e ∷ es) = n ≤ e.order

unfoldable pub IsOrdered : List Entry → Type 0
IsOrdered [] = Unit {0}
IsOrdered (e ∷ es) = NotAfter e.order es × IsOrdered es

lookup-put_entry :
    (i : Identity) (e : Entry) (es : List Entry)
    → lookup i (put_entry e es)
      ≡ (if identity_eq e.identity i then some (longer (lookup i es) e) else lookup i es)
unfolding lookup put_entry
lookup-put_entry i e [] = ground arith
lookup-put_entry i e (c ∷ cs) =
    go (identity_eq c.identity e.identity) refl (lookup-put_entry i e cs)
  where
    go :
        (same : Bool)
        → identity_eq c.identity e.identity ≡ same
        → lookup i (put_entry e cs)
          ≡ (if identity_eq e.identity i then some (longer (lookup i cs) e) else lookup i cs)
        → lookup i (
            if same
            then (if ltb (length c.text) (length e.text) then e ∷ cs else c ∷ cs)
            else c ∷ put_entry e cs)
          ≡ (if identity_eq e.identity i
              then some (longer (lookup i (c ∷ cs)) e)
              else lookup i (c ∷ cs))
    go true h rest =
        ground (arith, ap (λ k. identity_eq k i) (identity_eq-eq c.identity e.identity h))
    go false h rest =
        elim (Bool-cases (identity_eq c.identity i))
          as (λ _. lookup i (c ∷ put_entry e cs) ≡ (
            if identity_eq e.identity i
            then some (longer (lookup i (c ∷ cs)) e)
            else lookup i (c ∷ cs))) [
              | inl found ↦ rw (found, other found) refl
              | inr not_here ↦ rw (not_here) rest
            ]
      where
        other : identity_eq c.identity i ≡ true → identity_eq e.identity i ≡ false
        other = identity_apart c.identity e.identity i h

pub lookup-put_entries :
    (i : Identity) (es by_identity : List Entry)
    → lookup i (put_entries es by_identity) ≡ longest i (lookup i by_identity) es
unfolding put_entries longest
lookup-put_entries i [] by_identity = refl
lookup-put_entries i (e ∷ es) by_identity =
    lookup-put_entries i es (put_entry e by_identity)
    ∙ ap (λ o. longest i o es) (lookup-put_entry i e by_identity)

put_entry-IsUnique : (e : Entry) (es : List Entry) → IsUnique es → IsUnique (put_entry e es)
unfolding put_entry IsUnique lookup
put_entry-IsUnique e [] unique = (refl, tt)
put_entry-IsUnique e (c ∷ cs) (new, unique) =
    go (identity_eq c.identity e.identity) (ltb (length c.text) (length e.text)) refl
      (put_entry-IsUnique e cs unique)
  where
    go :
        (same more : Bool)
        → identity_eq c.identity e.identity ≡ same
        → IsUnique (put_entry e cs)
        → IsUnique (if same then (if more then e ∷ cs else c ∷ cs) else c ∷ put_entry e cs)
    go true false h rest = (new, unique)
    go true true h rest =
        (subst (λ k. lookup k cs ≡ none) (identity_eq-eq c.identity e.identity h) new, unique)
    go false more h rest = (lookup-put_entry c.identity e cs ∙ rw (apart) new, rest)
      where
        apart : identity_eq e.identity c.identity ≡ false
        apart = identity_ne_sym c.identity e.identity h

pub put_entries-IsUnique :
    (es by_identity : List Entry) → IsUnique by_identity → IsUnique (put_entries es by_identity)
unfolding put_entries
put_entries-IsUnique [] by_identity unique = unique
put_entries-IsUnique (e ∷ es) by_identity unique =
    put_entries-IsUnique es (put_entry e by_identity) (put_entry-IsUnique e by_identity unique)
