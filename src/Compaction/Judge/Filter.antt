-- ===== src/Compaction/Judge/Filter.antt =====
-- What `strip_compaction_judge_history` leaves of a conversation.
use uv_agent.Common.{
  ◌≡◌, refl, ap, Bool, true, false, not, ◌&&◌, Option, List, [], ◌∷◌, arith, if◌then◌else◌,
}
use uv_agent.Common.Text.{Text, text_eq, text_eq_iff}
use uv_agent.Compaction.Item.{
  Prompts, Item, message, function_call, function_call_output, other, has_role, user, assistant,
}
use uv_agent.Compaction.Judge.{
  is_judge_request, is_judge_response, is_non_judge_user, strip_from, strip_judge_history,
}

roles-differ : (item : Item) → has_role assistant item ≡ true → has_role user item ≡ false
unfolding text_eq
roles-differ (message role content) h =
    ground (arith, (text_eq_iff role assistant).0 h, text_eq_iff role user)
roles-differ (function_call call_id name arguments) h = refl
roles-differ (function_call_output call_id output) h = refl
roles-differ (other kind content) h = refl

module _ (prompts : Prompts) (loads : Text → Option (List Text)) where
  -- Neither a request to the judge nor an answer of it.
  abbrev pub IsPlain : Item → Type 0
  IsPlain item =
      (is_judge_request prompts loads item ≡ false) × (is_judge_response prompts loads item ≡ false)

  unfoldable pub AllPlain : List Item → Type 0
  AllPlain [] = Unit {0}
  AllPlain (item ∷ items) = IsPlain item × AllPlain items

  -- The messages of the user, other than requests to the judge.
  unfoldable pub user_messages : List Item → List Item
  user_messages [] = []
  user_messages (item ∷ items) =
      let rest = user_messages items in
      if is_non_judge_user prompts loads item then item ∷ rest else rest

  request-user :
      (item : Item)
      → is_judge_request prompts loads item ≡ true
      → is_non_judge_user prompts loads item ≡ false
  unfolding is_non_judge_user
  request-user item h = rw h (ground arith)

  response-user :
      (item : Item)
      → is_judge_response prompts loads item ≡ true
      → is_non_judge_user prompts loads item ≡ false
  unfolding is_judge_response is_non_judge_user
  response-user item h = ground (arith, roles-differ item)

  strip_from-AllPlain :
      (skipping : Bool) (items : List Item) → AllPlain (strip_from prompts loads skipping items)
  unfolding strip_from AllPlain
  strip_from-AllPlain skipping [] = tt
  strip_from-AllPlain skipping (item ∷ items) =
      go (is_judge_request prompts loads item)
        (skipping && not (is_non_judge_user prompts loads item))
        (is_judge_response prompts loads item) refl refl (strip_from-AllPlain true items)
        (strip_from-AllPlain false items)
    where
      go :
          (request skip response : Bool)
          → is_judge_request prompts loads item ≡ request
          → is_judge_response prompts loads item ≡ response
          → AllPlain (strip_from prompts loads true items)
          → AllPlain (strip_from prompts loads false items)
          → AllPlain (
              if request
              then strip_from prompts loads true items
              else if skip
              then strip_from prompts loads true items
              else if response
              then strip_from prompts loads false items
              else item ∷ strip_from prompts loads false items)
      go true skip response a b skipped kept = skipped
      go false true response a b skipped kept = skipped
      go false false true a b skipped kept = kept
      go false false false a b skipped kept = ((a, b), kept)

  strip_from-plain :
      (items : List Item) → AllPlain items → strip_from prompts loads false items ≡ items
  unfolding strip_from AllPlain
  strip_from-plain [] h = refl
  strip_from-plain (item ∷ items) ((request, response), h) =
      rw (request, response) (ap (λ rest. item ∷ rest) (strip_from-plain items h))

  strip_from-user_messages :
      (skipping : Bool) (items : List Item)
      → user_messages (strip_from prompts loads skipping items) ≡ user_messages items
  unfolding strip_from user_messages
  strip_from-user_messages skipping [] = refl
  strip_from-user_messages skipping (item ∷ items) = ground (
    arith,
    request-user item,
    response-user item,
    strip_from-user_messages true items,
    strip_from-user_messages false items,
  )

  -- What is left of a conversation holds no request to the judge and no answer of it, has all other
  -- messages of the user in their order, and is not changed when it is stripped again.
  pub strip_judge_history-AllPlain :
      (items : List Item)
      → AllPlain (strip_judge_history prompts loads items)
        × (user_messages (strip_judge_history prompts loads items) ≡ user_messages items)
        × (strip_judge_history prompts loads (strip_judge_history prompts loads items)
            ≡ strip_judge_history prompts loads items)
  unfolding strip_judge_history
  strip_judge_history-AllPlain items = (
    strip_from-AllPlain false items,
    strip_from-user_messages false items,
    strip_from-plain (strip_from prompts loads false items) (strip_from-AllPlain false items),
  )
