-- ===== src/Compaction/Handoff/Stable.antt =====
-- A replacement that is stored is read back as it was written.
use mathlib.Core.Path.{subst}
use uv_agent.Common.{
  ℕ, ◌≡◌, refl, sym, Bool, true, false, Option, none, some, List, [], ◌∷◌, arith, if◌then◌else◌,
  Bool-cases, ◌⊎◌, inl, inr,
}
use uv_agent.Common.Text.{Text, lit, text_eq, starts_with, strip, lstrip, join}
use uv_agent.Compaction.Item.{Prompts, Item, occurs, message_item, message_item_text}
use uv_agent.Compaction.Judge.{is_judge_request, is_judge_response, strip_judge_history, strip_from}
use uv_agent.Compaction.Judge.Filter.{IsPlain, AllPlain, strip_judge_history-AllPlain}
use uv_agent.Compaction.Retain.{Entry}
use uv_agent.Compaction.Handoff.{
  Response, handoff_text, handoff_item, render_retained, is_handoff, first_handoff, from_source,
  normalize_replacement, replacement_input,
}

starts_with_trans :
    (s t u : Text) → starts_with s t ≡ true → starts_with t u ≡ true → starts_with s u ≡ true
unfolding starts_with
starts_with_trans s t [] h k = refl
starts_with_trans s [] (c ∷ u) h k = cc
starts_with_trans [] (d ∷ t) (c ∷ u) h k = cc
starts_with_trans (e ∷ s) (d ∷ t) (c ∷ u) h k = ground (arith, starts_with_trans s t u)

some_injective : {i j : Item} → some i ≡ some j → i ≡ j
some_injective h = cc

module _ (prompts : Prompts) (loads : Text → Option (List Text))
    (tagged : starts_with (strip prompts.judge_request) (lit "<agent_compaction_judge_request>")
      ≡ true) where
  handoff_item-IsPlain :
      (summary : Text) (entries : List Entry)
      → IsPlain prompts loads (handoff_item prompts summary entries)
        × (is_handoff prompts (handoff_item prompts summary entries) ≡ true)
  unfolding handoff_item is_judge_request is_judge_response message_item message_item_text text_eq
      join occurs starts_with lstrip
  handoff_item-IsPlain summary entries = (
    (
      elim (Bool-cases (starts_with text (strip prompts.judge_request)))
          as (λ _. starts_with text (strip prompts.judge_request) ≡ false) [
            | inl same ↦ cc (
                starts_with_trans text (strip prompts.judge_request)
                  (lit "<agent_compaction_judge_request>") same tagged)
            | inr apart ↦ apart
          ],
      refl,
    ),
    refl,
  )
    where
      text : Text
      text = handoff_text prompts (render_retained entries) summary

  normalize_replacement-one :
      (item : Item)
      → IsPlain prompts loads item
      → is_handoff prompts item ≡ true
      → normalize_replacement prompts loads (item ∷ []) ≡ item ∷ []
  unfolding normalize_replacement strip_judge_history strip_from
  normalize_replacement-one item (request, response) h = rw (request, response, h) refl

  first_handoff-IsPlain :
      (items : List Item) (item : Item)
      → AllPlain prompts loads items
      → first_handoff prompts items ≡ some item
      → IsPlain prompts loads item × (is_handoff prompts item ≡ true)
  unfolding AllPlain
  first_handoff-IsPlain [] item plain h = cc
  first_handoff-IsPlain (i ∷ items) item (p, plain) h =
      go (is_handoff prompts i) refl h (first_handoff-IsPlain items item plain)
    where
      go :
          (here : Bool)
          → is_handoff prompts i ≡ here
          → (if here then some i else first_handoff prompts items) ≡ some item
          → (first_handoff prompts items ≡ some item
              → IsPlain prompts loads item × (is_handoff prompts item ≡ true))
          → IsPlain prompts loads item × (is_handoff prompts item ≡ true)
      go true e h rest =
          subst (λ x. IsPlain prompts loads x × (is_handoff prompts x ≡ true)) (some_injective h)
            (p, e)
      go false e h rest = rest h

  from_source-normal :
      (source : List Item) (found : Option Item)
      → AllPlain prompts loads source
      → first_handoff prompts source ≡ found
      → normalize_replacement prompts loads (from_source prompts source found)
        ≡ from_source prompts source found
  unfolding normalize_replacement strip_judge_history strip_from
  from_source-normal source (some item) plain h =
      let (p, here) = first_handoff-IsPlain source item plain h in
      normalize_replacement-one item p here
  from_source-normal [] none plain h = refl
  from_source-normal (item ∷ items) none plain h =
      let (p, here) = handoff_item-IsPlain _ _ in normalize_replacement-one _ p here

  normalize_replacement-eq :
      (items : List Item)
      → normalize_replacement prompts loads items
        ≡ from_source prompts
            (strip_judge_history prompts loads items)
            (first_handoff prompts (strip_judge_history prompts loads items))
  unfolding normalize_replacement
  normalize_replacement-eq items = refl

  normalize_replacement-normal :
      (items : List Item)
      → normalize_replacement prompts loads (normalize_replacement prompts loads items)
        ≡ normalize_replacement prompts loads items
  normalize_replacement-normal items =
      let source = strip_judge_history prompts loads items in
      subst (λ r. normalize_replacement prompts loads r ≡ r) (sym (normalize_replacement-eq items))
        (from_source-normal source (first_handoff prompts source)
          (strip_judge_history-AllPlain prompts loads items).0 refl)

  -- One item, which holds a handoff.
  abbrev pub IsHandoff : List Item → Type 0
  IsHandoff items = (item : Item) × (items ≡ item ∷ []) × (is_handoff prompts item ≡ true)

  from_source-IsHandoff :
      (source : List Item) (found : Option Item)
      → AllPlain prompts loads source
      → first_handoff prompts source ≡ found
      → (source ≡ [] × from_source prompts source found ≡ [])
        ⊎ IsHandoff (from_source prompts source found)
  from_source-IsHandoff source (some item) plain h =
      inr (item, refl, (first_handoff-IsPlain source item plain h).1)
  from_source-IsHandoff [] none plain h = inl (refl, refl)
  from_source-IsHandoff (item ∷ items) none plain h = inr (_, refl, (handoff_item-IsPlain _ _).1)

  -- What a compaction makes is one handoff message, and so is what is read back of a history that is
  -- stored, unless nothing but exchanges with the judge is in it, of which nothing is left. Reading
  -- back changes nothing the second time, and does not change what a compaction makes. This needs
  -- that the request to the judge begins with its own tag.
  pub normalize_replacement-stable :
      (dumps : List Item → Text) (items : List Item) (response : Response) (k : ℕ)
      → IsHandoff (replacement_input prompts dumps items response k)
        × (normalize_replacement prompts loads (replacement_input prompts dumps items response k)
            ≡ replacement_input prompts dumps items response k)
        × ((strip_judge_history prompts loads items ≡ []
              × normalize_replacement prompts loads items ≡ [])
            ⊎ IsHandoff (normalize_replacement prompts loads items))
        × (normalize_replacement prompts loads (normalize_replacement prompts loads items)
            ≡ normalize_replacement prompts loads items)
  unfolding replacement_input normalize_replacement
  normalize_replacement-stable dumps items response k =
      let (p, here) = handoff_item-IsPlain _ _ in
      let source = strip_judge_history prompts loads items in
      (
        (_, refl, here),
        normalize_replacement-one _ p here,
        from_source-IsHandoff source (first_handoff prompts source)
            (strip_judge_history-AllPlain prompts loads items).0 refl,
        normalize_replacement-normal items,
      )
