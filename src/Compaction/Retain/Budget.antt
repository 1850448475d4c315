-- ===== src/Compaction/Retain/Budget.antt =====
-- The selections keep the end of the history, as far as the budget goes.
use uv_agent.Common.{
  ℕ, ◌+◌, ◌-◌, ◌≤◌, ◌<◌, ◌≡◌, ◌⊎◌, inl, inr, refl, ap, ◌∙◌, Bool, true, false, Option, none, some,
  List, [], ◌∷◌, ◌++◌, arith, ◌==◌, if◌then◌else◌, leb, ltb,
}
use uv_agent.Common.Text.{Text}
use uv_agent.Compaction.Item.{Item}
use uv_agent.Compaction.Retain.{Entry, entries_of, entry_tokens, select}

module _ (full : Item × ℕ → Option Entry) where
  -- The entries of some items, in their order.
  unfoldable pub entries_from : List (Item × ℕ) → List Entry
  entries_from [] = []
  entries_from (item ∷ items) = entries_of (full item) ++ entries_from items

module _ (dumps : List Item → Text) where
  unfoldable pub total : List Entry → ℕ
  total [] = 0
  total (e ∷ es) = entry_tokens dumps e + total es

  empty : {n : ℕ} → total [] ≤ n
  unfolding total
  empty = omega arith

  module _ (full : Item × ℕ → Option Entry) (shortened : Item × ℕ → ℕ → Option Entry) where
    -- The entry of an item, cut to the tokens that remain, if any do.
    abbrev pub cut_entries : Item × ℕ → ℕ → List Entry
    cut_entries item remaining =
        if ltb 0 remaining then entries_of (shortened item remaining) else []

    -- Of items from the last to the first: the first ones give whole entries, which fit the budget.
    -- Then the budget is spent, or no item is left, or the next entry does not fit and is cut
    -- to what remains.
    pub record Selection (items : List (Item × ℕ)) (budget : ℕ) (result : List Entry) : Type 0 where
      pub taken : List (Item × ℕ)
      pub left : List (Item × ℕ)
      pub short : List Entry
      pub split : items ≡ taken ++ left
      pub made : result ≡ entries_from full taken ++ short
      pub fits : total (entries_from full taken) ≤ budget
      pub stops :
          ((left ≡ []) × (short ≡ []))
          ⊎ ((total (entries_from full taken) ≡ budget) × (short ≡ []))
          ⊎ ((item : Item × ℕ) × (rest : List (Item × ℕ)) × (e : Entry) × (left ≡ item ∷ rest)
              × (full item ≡ some e)
              × (budget < total (entries_from full taken) + entry_tokens dumps e)
              × (short ≡ cut_entries item (budget - total (entries_from full taken))))

    -- An item with no entry is passed over.
    skip-Selection :
        (item : Item × ℕ) (items : List (Item × ℕ)) (budget : ℕ) (result : List Entry)
        → full item ≡ none
        → Selection items budget result
        → Selection (item ∷ items) budget result
    unfolding entries_from
    skip-Selection item items budget result h s = record {
      taken = item ∷ s.taken;
      left = s.left;
      short = s.short;
      split = ap (λ l. item ∷ l) s.split;
      made = rw (h) s.made;
      fits = rw (h) s.fits;
      stops = rw (h) s.stops;
    }

    -- An entry that fits is taken, and the rest has what is left of the budget.
    take-Selection :
        (item : Item × ℕ) (items : List (Item × ℕ)) (budget : ℕ) (e : Entry) (result : List Entry)
        → full item ≡ some e
        → entry_tokens dumps e ≤ budget
        → Selection items (budget - entry_tokens dumps e) result
        → Selection (item ∷ items) budget (e ∷ result)
    unfolding entries_from total
    take-Selection item items budget e result h le s = record {
      taken = item ∷ s.taken;
      left = s.left;
      short = s.short;
      split = ap (λ l. item ∷ l) s.split;
      made = rw (h) (ap (λ l. e ∷ l) s.made);
      fits = rw (h) (omega (arith, le, s.fits));
      stops = rw (h) (further s.stops);
    }
      where
        sum : ℕ
        sum = total (entries_from full s.taken)

        further :
            ((s.left ≡ []) × (s.short ≡ []))
              ⊎ ((sum ≡ budget - entry_tokens dumps e) × (s.short ≡ []))
              ⊎ ((item : Item × ℕ) × (rest : List (Item × ℕ)) × (e' : Entry) × (s.left
                    ≡ item ∷ rest)
                  × (full item ≡ some e')
                  × (budget - entry_tokens dumps e < sum + entry_tokens dumps e')
                  × (s.short ≡ cut_entries item (budget - entry_tokens dumps e - sum)))
            → ((s.left ≡ []) × (s.short ≡ []))
              ⊎ ((entry_tokens dumps e + sum ≡ budget) × (s.short ≡ []))
              ⊎ ((item : Item × ℕ) × (rest : List (Item × ℕ)) × (e' : Entry) × (s.left
                    ≡ item ∷ rest)
                  × (full item ≡ some e')
                  × (budget < entry_tokens dumps e + sum + entry_tokens dumps e')
                  × (s.short ≡ cut_entries item (budget - (entry_tokens dumps e + sum))))
        further (inl done) = inl done
        further (inr (inl (spent, nil))) = inr (inl (omega (arith, le, spent), nil))
        further (inr (inr (next, rest, e', l, f, lt, one))) =
            let less : budget - entry_tokens dumps e - sum ≡ budget - (entry_tokens dumps e + sum) =
              omega arith in
            inr (inr (next, rest, e', l, f, omega (arith, lt), one ∙ ap (cut_entries next) less))

    -- An entry that does not fit ends the selection.
    stop-Selection :
        (item : Item × ℕ) (items : List (Item × ℕ)) (budget : ℕ) (e : Entry)
        → full item ≡ some e
        → budget < entry_tokens dumps e
        → Selection (item ∷ items) budget (cut_entries item budget)
    unfolding entries_from total
    stop-Selection item items budget e h lt = record {
      taken = [];
      left = item ∷ items;
      short = cut_entries item budget;
      split = refl;
      made = refl;
      fits = omega arith;
      stops =
          inr
            (inr (item, items, e, refl, h, omega (arith, lt), ap (cut_entries item) (omega arith)));
    }

    -- An entry that takes all of the budget ends it too.
    spend-Selection :
        (item : Item × ℕ) (items : List (Item × ℕ)) (budget : ℕ) (e : Entry)
        → full item ≡ some e
        → entry_tokens dumps e ≡ budget
        → Selection (item ∷ items) budget (e ∷ [])
    unfolding entries_from total
    spend-Selection item items budget e h same = record {
      taken = item ∷ [];
      left = items;
      short = [];
      split = refl;
      made = rw (h) refl;
      fits = rw (h) (omega (arith, same));
      stops = inr (inl (rw (h) (omega (arith, same)), refl));
    }

    pub select-Selection :
        (items : List (Item × ℕ)) (budget : ℕ)
        → Selection items budget (select dumps full shortened items budget)
    unfolding select entries_from
    select-Selection [] budget = record {
      taken = [];
      left = [];
      short = [];
      split = refl;
      made = refl;
      fits = empty;
      stops = inl (refl, refl);
    }
    select-Selection (item ∷ items) budget = go (full item) refl (λ b. select-Selection items b)
      where
        kept : Entry → Bool → Bool → List Entry
        kept e fits spent =
            let rest = select dumps full shortened items (budget - entry_tokens dumps e) in
            if fits then (if spent then e ∷ [] else e ∷ rest) else cut_entries item budget

        one :
            (e : Entry) (fits spent : Bool)
            → full item ≡ some e
            → leb (entry_tokens dumps e) budget ≡ fits
            → (budget - entry_tokens dumps e == 0) ≡ spent
            → ((b : ℕ) → Selection items b (select dumps full shortened items b))
            → Selection (item ∷ items) budget (kept e fits spent)
        one e true true h le same rest =
            spend-Selection item items budget e h (ground (arith, le, same))
        one e true false h le same rest =
            take-Selection item items budget e _ h (ground (arith, le))
              (rest (budget - entry_tokens dumps e))
        one e false spent h le same rest = stop-Selection item items budget e h (ground (arith, le))

        go :
            (o : Option Entry)
            → full item ≡ o
            → ((b : ℕ) → Selection items b (select dumps full shortened items b))
            → Selection (item ∷ items) budget (elim o [
              | none ↦ select dumps full shortened items budget
              | some e ↦
                  kept e (leb (entry_tokens dumps e) budget) (budget - entry_tokens dumps e == 0)
            ])
        go none h rest = skip-Selection item items budget _ h (rest budget)
        go (some e) h rest =
            one e (leb (entry_tokens dumps e) budget) (budget - entry_tokens dumps e == 0) h refl
              refl rest
