-- ===== src/Compaction/Retain/Ending.antt =====
-- The selections, oldest entry first: they keep the end of the conversation.
use mathlib.Core.List.{reverse, reverse-append, reverse-reverse, reverse-cons}
use uv_agent.Common.{
  ℕ, ◌+◌, ◌≤◌, ◌<◌, ◌≡◌, ◌⊎◌, inl, inr, refl, sym, ap, ◌∙◌, Bool, true, false, Option, none, some,
  List, [], ◌∷◌, ◌++◌, arith, ◌-◌, ◌==◌, ltb, if◌then◌else◌, append-nil, append_assoc,
}
use uv_agent.Common.Text.{Text}
use uv_agent.Compaction.Item.{Prompts, Item}
use uv_agent.Compaction.Retain.{
  Entry, entries_of, numbered, entry_tokens, select, recent_candidate, recent_entries, with_text,
  user_entries, user_entry, user_max_tokens,
}
use uv_agent.Compaction.Retain.Budget.{cut_entries, entries_from, total, select-Selection}

entries_from-append :
    (full : Item × ℕ → Option Entry) (xs ys : List (Item × ℕ))
    → entries_from full (xs ++ ys) ≡ entries_from full xs ++ entries_from full ys
unfolding entries_from
entries_from-append full [] ys = refl
entries_from-append full (x ∷ xs) ys =
    ap (λ l. entries_of (full x) ++ l) (entries_from-append full xs ys)
    ∙ sym (append_assoc (entries_of (full x)) (entries_from full xs) (entries_from full ys))

reverse-entries_of : (o : Option Entry) → reverse (entries_of o) ≡ entries_of o
reverse-entries_of none = refl
reverse-entries_of (some e) = refl

-- Reversing the items reverses their entries.
entries_from-reverse :
    (full : Item × ℕ → Option Entry) (xs : List (Item × ℕ))
    → entries_from full (reverse xs) ≡ reverse (entries_from full xs)
unfolding entries_from
entries_from-reverse full [] = refl
entries_from-reverse full (x ∷ xs) =
    ap (entries_from full) (reverse-cons x xs)
    ∙ entries_from-append full (reverse xs) (x ∷ [])
    ∙ ap (λ l. l ++ (entries_of (full x) ++ [])) (entries_from-reverse full xs)
    ∙ ap (λ l. reverse (entries_from full xs) ++ l)
        (append-nil (entries_of (full x)) ∙ sym (reverse-entries_of (full x)))
    ∙ sym (reverse-append (entries_of (full x)) (entries_from full xs))

total-append :
    (dumps : List Item → Text) (xs ys : List Entry)
    → total dumps (xs ++ ys) ≡ total dumps xs + total dumps ys
unfolding total
total-append dumps [] ys = omega arith
total-append dumps (x ∷ xs) ys = omega (arith, total-append dumps xs ys)

total-reverse :
    (dumps : List Item → Text) (xs : List Entry) → total dumps (reverse xs) ≡ total dumps xs
unfolding total
total-reverse dumps [] = refl
total-reverse dumps (x ∷ xs) =
    ap (total dumps) (reverse-cons x xs)
    ∙ total-append dumps (reverse xs) (x ∷ [])
    ∙ omega (arith, total-reverse dumps xs)

cut_entries-reverse :
    (dumps : List Item → Text) (full : Item × ℕ → Option Entry)
    (shortened : Item × ℕ → ℕ → Option Entry) (item : Item × ℕ) (n : ℕ)
    → reverse (cut_entries dumps full shortened item n) ≡ cut_entries dumps full shortened item n
cut_entries-reverse dumps full shortened item n = by_test (ltb 0 n)
  where
    by_test :
        (some_left : Bool)
        → reverse (if some_left then entries_of (shortened item n) else [])
          ≡ (if some_left then entries_of (shortened item n) else [])
    by_test true = reverse-entries_of (shortened item n)
    by_test false = refl

module _ (dumps : List Item → Text) (full : Item × ℕ → Option Entry)
    (shortened : Item × ℕ → ℕ → Option Entry) where
  -- The end of a history that a selection keeps, oldest first: the whole entries of the last items
  -- fit the budget; the items further back are left because there are none, the budget is
  -- spent, or the entry of the next one did not fit: then what stands before the whole entries is the
  -- entry of this item, cut to the tokens that remained, if any did.
  pub record KeepsEnd (items : List (Item × ℕ)) (budget : ℕ) (result : List Entry) : Type 0 where
    pub before : List (Item × ℕ)
    pub kept : List (Item × ℕ)
    pub short : List Entry
    pub split : items ≡ before ++ kept
    pub made : result ≡ short ++ entries_from full kept
    pub fits : total dumps (entries_from full kept) ≤ budget
    pub stops :
        ((before ≡ []) × (short ≡ []))
        ⊎ ((total dumps (entries_from full kept) ≡ budget) × (short ≡ []))
        ⊎ ((init : List (Item × ℕ)) × (item : Item × ℕ) × (e : Entry) × (before ≡ init ++ item ∷ [])
            × (full item ≡ some e)
            × (budget < total dumps (entries_from full kept) + entry_tokens dumps e)
            × (short
                ≡ cut_entries dumps full shortened item
                    (budget - total dumps (entries_from full kept))))

  reverse-KeepsEnd :
      (items : List (Item × ℕ)) (budget : ℕ)
      → KeepsEnd items budget (reverse (select dumps full shortened (reverse items) budget))
  reverse-KeepsEnd items budget =
      let s = select-Selection dumps full shortened (reverse items) budget in
      let same : total dumps (entries_from full (reverse s.taken))
          ≡ total dumps (entries_from full s.taken) =
        ap (total dumps) (entries_from-reverse full s.taken)
        ∙ total-reverse dumps (entries_from full s.taken) in
      record {
        before = reverse s.left;
        kept = reverse s.taken;
        short = reverse s.short;
        split = sym (reverse-reverse items) ∙ ap reverse s.split ∙ reverse-append s.taken s.left;
        made =
            ap reverse s.made
            ∙ reverse-append (entries_from full s.taken) s.short
            ∙ ap (λ l. reverse s.short ++ l) (sym (entries_from-reverse full s.taken));
        fits = omega (arith, same, s.fits);
        stops = elim s.stops [
          | inl (nil, none_short) ↦ inl (ap reverse nil, ap reverse none_short)
          | inr (inl (spent, none_short)) ↦ inr (inl (same ∙ spent, ap reverse none_short))
          | inr (inr (item, rest, e, l, f, lt, one)) ↦ inr (
              inr (
                reverse rest,
                item,
                e,
                ap reverse l ∙ reverse-cons item rest,
                f,
                omega (arith, same, lt),
                ap reverse one
                    ∙ cut_entries-reverse dumps full shortened item _
                    ∙ ap (λ n. cut_entries dumps full shortened item (budget - n)) (sym same),
              ))
        ];
      }

positive : (k : ℕ) → (k == 0) ≡ true → k ≡ 0
positive k h = ground (arith, h)

-- The recent history that a compaction keeps is the end of the conversation: with a budget of k
-- tokens it has the whole entries of the last items, in their order, which together have k tokens
-- at most. Items further back are left out only where there are none, the budget is spent, or the entry
-- of the next one does not fit; in that case, and only then, one more entry may stand before the whole
-- ones: that of this next item, with its text cut to the tokens that remain, unless none remain or the
-- cut entry is empty.
pub recent_entries-KeepsEnd :
    (dumps : List Item → Text) (prompts : Prompts) (items : List Item) (k : ℕ)
    → KeepsEnd dumps
        (λ (item, n). recent_candidate prompts item n none)
        (λ (item, n) max. with_text (recent_candidate prompts item n (some max)))
        (numbered 0 items)
        k
        (recent_entries dumps prompts items k)
unfolding recent_entries entries_from total
recent_entries-KeepsEnd dumps prompts items k = go (k == 0) refl
  where
    full : Item × ℕ → Option Entry
    full (item, n) = recent_candidate prompts item n none

    shortened : Item × ℕ → ℕ → Option Entry
    shortened (item, n) max = with_text (recent_candidate prompts item n (some max))

    go :
        (none_kept : Bool)
        → (k == 0) ≡ none_kept
        → KeepsEnd dumps full shortened (numbered 0 items) k (
            if none_kept
            then []
            else reverse (select dumps full shortened (reverse (numbered 0 items)) k))
    go true h = record {
      before = numbered 0 items;
      kept = [];
      short = [];
      split = sym (append-nil (numbered 0 items));
      made = refl;
      fits = omega arith;
      stops = inr (inl (sym (positive k h), refl));
    }
    go false h = reverse-KeepsEnd dumps full shortened (numbered 0 items) k

-- The user messages that a compaction keeps are chosen in the same way, with a budget of 20000 tokens.
user_entries-KeepsEnd :
    (dumps : List Item → Text) (prompts : Prompts) (items : List Item)
    → KeepsEnd dumps
        (user_entry dumps prompts none)
        (λ item max. user_entry dumps prompts (some max) item)
        (numbered 0 items)
        user_max_tokens
        (user_entries dumps prompts items)
unfolding user_entries
user_entries-KeepsEnd dumps prompts items =
    reverse-KeepsEnd dumps (user_entry dumps prompts none)
      (λ item max. user_entry dumps prompts (some max) item) (numbered 0 items) user_max_tokens
