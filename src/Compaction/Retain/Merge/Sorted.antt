-- ===== src/Compaction/Retain/Merge/Sorted.antt =====
-- The sorted entries of `_merge_retained_history_entries`.
use uv_agent.Common.{
  ◌≤◌, ◌≡◌, refl, ap, ◌∙◌, Bool, true, false, none, some, List, [], ◌∷◌, arith, if◌then◌else◌, leb,
  Bool-cases, inl, inr,
}
use uv_agent.Compaction.Retain.{Identity, Entry}
use uv_agent.Compaction.Retain.Merge.{
  identity_eq, put_entries, insert_by_order, sort_by_order, merge_entries,
}
use uv_agent.Compaction.Retain.Merge.Longest.{
  identity_ne_sym, identity_apart, lookup, longest, IsUnique, NotAfter, IsOrdered,
  lookup-put_entries, put_entries-IsUnique,
}

lookup-insert_by_order :
    (i : Identity) (e : Entry) (es : List Entry)
    → lookup e.identity es ≡ none
    → lookup i (insert_by_order e es) ≡ (if identity_eq e.identity i then some e else lookup i es)
unfolding lookup insert_by_order
lookup-insert_by_order i e [] new = refl
lookup-insert_by_order i e (c ∷ cs) new =
    go (leb e.order c.order) (identity_eq c.identity e.identity) refl new
      (lookup-insert_by_order i e cs)
  where
    go :
        (first same : Bool)
        → identity_eq c.identity e.identity ≡ same
        → (if same then some c else lookup e.identity cs) ≡ none
        → (lookup e.identity cs ≡ none
            → lookup i (insert_by_order e cs)
              ≡ (if identity_eq e.identity i then some e else lookup i cs))
        → lookup i (if first then e ∷ c ∷ cs else c ∷ insert_by_order e cs)
          ≡ (if identity_eq e.identity i then some e else lookup i (c ∷ cs))
    go true same h n rest = refl
    go false true h n rest = cc
    go false false h n rest =
        elim (Bool-cases (identity_eq c.identity i))
          as (λ _.
            lookup i (c ∷ insert_by_order e cs)
            ≡ (if identity_eq e.identity i then some e else lookup i (c ∷ cs))) [
              | inl found ↦ rw (found, other found) refl
              | inr not_here ↦ rw (not_here) (rest n)
            ]
      where
        other : identity_eq c.identity i ≡ true → identity_eq e.identity i ≡ false
        other = identity_apart c.identity e.identity i h

lookup-sort_by_order :
    (i : Identity) (es : List Entry) → IsUnique es → lookup i (sort_by_order es) ≡ lookup i es
unfolding lookup sort_by_order IsUnique
lookup-sort_by_order i [] unique = refl
lookup-sort_by_order i (e ∷ es) (new, unique) =
    lookup-insert_by_order i e (sort_by_order es) (lookup-sort_by_order e.identity es unique ∙ new)
    ∙ ap (λ o. if identity_eq e.identity i then some e else o) (lookup-sort_by_order i es unique)

insert_by_order-IsUnique :
    (e : Entry) (es : List Entry)
    → lookup e.identity es ≡ none
    → IsUnique es
    → IsUnique (insert_by_order e es)
unfolding insert_by_order IsUnique lookup
insert_by_order-IsUnique e [] new unique = (refl, tt)
insert_by_order-IsUnique e (c ∷ cs) new (fresh, unique) =
    go (leb e.order c.order) (identity_eq c.identity e.identity) refl new
      (λ n. insert_by_order-IsUnique e cs n unique)
  where
    go :
        (first same : Bool)
        → identity_eq c.identity e.identity ≡ same
        → (if same then some c else lookup e.identity cs) ≡ none
        → (lookup e.identity cs ≡ none → IsUnique (insert_by_order e cs))
        → IsUnique (if first then e ∷ c ∷ cs else c ∷ insert_by_order e cs)
    go true same h n rest = (new, (fresh, unique))
    go false true h n rest = cc
    go false false h n rest = (lookup-insert_by_order c.identity e cs n ∙ rw (apart) fresh, rest n)
      where
        apart : identity_eq e.identity c.identity ≡ false
        apart = identity_ne_sym c.identity e.identity h

sort_by_order-IsUnique : (es : List Entry) → IsUnique es → IsUnique (sort_by_order es)
unfolding sort_by_order IsUnique
sort_by_order-IsUnique [] unique = tt
sort_by_order-IsUnique (e ∷ es) (new, unique) =
    insert_by_order-IsUnique e (sort_by_order es) (lookup-sort_by_order e.identity es unique ∙ new)
      (sort_by_order-IsUnique es unique)

insert_by_order-IsOrdered :
    (e : Entry) (es : List Entry) → IsOrdered es → IsOrdered (insert_by_order e es)
unfolding insert_by_order IsOrdered
insert_by_order-IsOrdered e [] ordered = (tt, tt)
insert_by_order-IsOrdered e (c ∷ cs) (after, ordered) =
    go (leb e.order c.order) refl (insert_by_order-IsOrdered e cs ordered)
  where
    behind :
        (cs : List Entry)
        → NotAfter c.order cs
        → c.order ≤ e.order
        → NotAfter c.order (insert_by_order e cs)
    behind [] n le = le
    behind (d ∷ ds) n le =
        elim (leb e.order d.order)
          as (λ b. NotAfter c.order (if b then e ∷ d ∷ ds else d ∷ insert_by_order e ds)) [
            | true ↦ le
            | false ↦ n
          ]

    go :
        (first : Bool)
        → leb e.order c.order ≡ first
        → IsOrdered (insert_by_order e cs)
        → IsOrdered (if first then e ∷ c ∷ cs else c ∷ insert_by_order e cs)
    go true h rest = (ground (arith, h), (after, ordered))
    go false h rest = (behind cs after (ground (arith, h)), rest)

sort_by_order-IsOrdered : (es : List Entry) → IsOrdered (sort_by_order es)
unfolding sort_by_order IsOrdered
sort_by_order-IsOrdered [] = tt
sort_by_order-IsOrdered (e ∷ es) =
    insert_by_order-IsOrdered e (sort_by_order es) (sort_by_order-IsOrdered es)

-- Merging keeps one entry of each identity, the longest of those given and the first of the longest,
-- and nothing else, and puts the entries in the order of their items.
pub merge_entries-longest :
    (entries : List Entry)
    → IsOrdered (merge_entries entries)
      × IsUnique (merge_entries entries)
      × ((i : Identity) → lookup i (merge_entries entries) ≡ longest i none entries)
unfolding merge_entries IsUnique lookup
merge_entries-longest entries =
    let unique = put_entries-IsUnique entries [] tt in
    (
      sort_by_order-IsOrdered (put_entries entries []),
      sort_by_order-IsUnique (put_entries entries []) unique,
      λ i. lookup-sort_by_order i (put_entries entries []) unique ∙ lookup-put_entries i entries [],
    )
