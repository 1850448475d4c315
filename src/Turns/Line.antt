-- ===== src/Turns/Line.antt =====
-- The handles that wait in a thread: references in the order of allocation, each to a handle to
-- which nothing has happened yet.
use uv_agent.Common.{
  ℕ, suc, ◌+◌, ◌≤◌, ◌<◌, ◌≡◌, refl, sym, ◌∙◌, ap, false, List, [], ◌∷◌, ◌++◌, append_assoc, arith,
  none, some, Option,
}
use uv_agent.Common.Text.{Text}
use uv_agent.Turns.Handle.{queued, UserInput, Handle, mark_merged}
use uv_agent.Turns.Thread.{update, change, merge_pending, inputs_of}

abbrev pub IsFresh : Handle → Type 0
IsFresh h = (h.status ≡ queued) × (h.done ≡ false) × (h.events ≡ [])

-- The references ascend from `lo` on and stay below `hi`.
abbrev pub IsLine : (ℕ → Handle) → ℕ → List ℕ → ℕ → Type 0
IsLine store lo [] hi = lo ≤ hi
IsLine store lo (i ∷ is) hi = (lo ≤ i) × IsFresh (store i) × IsLine store (suc i) is hi

pub IsLine-lower :
    (store : ℕ → Handle) (lo low : ℕ) (is : List ℕ) (hi : ℕ)
    → low ≤ lo
    → IsLine store lo is hi
    → IsLine store low is hi
IsLine-lower store lo low [] hi le line = omega arith
IsLine-lower store lo low (i ∷ is) hi le line = (omega arith, line.1, line.2)

pub IsLine-le :
    (store : ℕ → Handle) (lo : ℕ) (is : List ℕ) (hi : ℕ) → IsLine store lo is hi → lo ≤ hi
IsLine-le store lo [] hi line = line
IsLine-le store lo (i ∷ is) hi line = omega (arith, IsLine-le store (suc i) is hi line.2)

-- What is written below the line does not touch it.
pub IsLine-update :
    (store : ℕ → Handle) (j : ℕ) (h : Handle) (lo : ℕ) (is : List ℕ) (hi : ℕ)
    → j < lo
    → IsLine store lo is hi
    → IsLine (update store j h) lo is hi
IsLine-update store j h lo [] hi lt line = line
IsLine-update store j h lo (i ∷ is) hi lt line =
    (line.0, ground arith, IsLine-update store j h (suc i) is hi (omega arith) line.2)

pub IsLine-update_above :
    (store : ℕ → Handle) (j : ℕ) (h : Handle) (lo : ℕ) (is : List ℕ) (hi : ℕ)
    → hi ≤ j
    → IsLine store lo is hi
    → IsLine (update store j h) lo is hi
IsLine-update_above store j h lo [] hi le line = line
IsLine-update_above store j h lo (i ∷ is) hi le line = (
  line.0,
  ground (arith, IsLine-le store (suc i) is hi line.2),
  IsLine-update_above store j h (suc i) is hi le line.2,
)

pub IsLine-widen :
    (store : ℕ → Handle) (lo : ℕ) (is : List ℕ) (hi high : ℕ)
    → hi ≤ high
    → IsLine store lo is hi
    → IsLine store lo is high
IsLine-widen store lo [] hi high le line = omega arith
IsLine-widen store lo (i ∷ is) hi high le line =
    (line.0, line.1, IsLine-widen store (suc i) is hi high le line.2)

pub IsLine-snoc :
    (store : ℕ → Handle) (lo : ℕ) (is : List ℕ) (hi : ℕ)
    → IsFresh (store hi)
    → IsLine store lo is hi
    → IsLine store lo (is ++ hi ∷ []) (suc hi)
IsLine-snoc store lo [] hi fresh line = (line, fresh, omega arith)
IsLine-snoc store lo (i ∷ is) hi fresh line =
    (line.0, line.1, IsLine-snoc store (suc i) is hi fresh line.2)

-- Changing other fields of the handles leaves what they say to the model.
abbrev pub SameInputs : (ℕ → Handle) → (ℕ → Handle) → Type 0
SameInputs store other = (j : ℕ) → (other j).user_inputs ≡ (store j).user_inputs

pub inputs_of-same :
    (store other : ℕ → Handle)
    → SameInputs store other
    → (is : List ℕ) → inputs_of other is ≡ inputs_of store is
unfolding inputs_of
inputs_of-same store other same [] = refl
inputs_of-same store other same (i ∷ is) = cc (same i, inputs_of-same store other same is)

pub inputs_of-append :
    (store : ℕ → Handle) (is js : List ℕ)
    → inputs_of store (is ++ js) ≡ inputs_of store is ++ inputs_of store js
unfolding inputs_of
inputs_of-append store [] js = refl
inputs_of-append store (i ∷ is) js = simp (inputs_of-append store is js, append_assoc)

pub SameInputs-change :
    (f : Handle → Handle) (store : ℕ → Handle) (i : ℕ)
    → (f (store i)).user_inputs ≡ (store i).user_inputs
    → SameInputs store (change f i store)
SameInputs-change f store i same j = ground arith

pub mark_merged-user_inputs :
    (target : Text) (h : Handle) → (mark_merged target h).user_inputs ≡ h.user_inputs
unfolding mark_merged
mark_merged-user_inputs target h = ground arith

module _ (target : Text) where
  pub merge_pending-SameInputs :
      (is : List ℕ) (store : ℕ → Handle) (inputs : List UserInput)
      → SameInputs store (merge_pending target is store inputs).0
  unfolding merge_pending
  merge_pending-SameInputs [] store inputs j = refl
  merge_pending-SameInputs (i ∷ is) store inputs j =
      merge_pending-SameInputs is (change (mark_merged target) i store) _ j
      ∙ SameInputs-change (mark_merged target) store i (mark_merged-user_inputs target (store i)) j

  -- The loop gathers the texts in the order of the queue.
  pub merge_pending-inputs :
      (is : List ℕ) (store : ℕ → Handle) (inputs : List UserInput)
      → (merge_pending target is store inputs).1 ≡ inputs ++ inputs_of store is
  unfolding merge_pending inputs_of
  merge_pending-inputs [] store inputs = simp uv_agent.Common.append-nil
  merge_pending-inputs (i ∷ is) store inputs =
      let marked = change (mark_merged target) i store in
      merge_pending-inputs is marked _
      ∙ ap (λ l. (inputs ++ (store i).user_inputs) ++ l)
          (inputs_of-same store marked
            (SameInputs-change (mark_merged target) store i
              (mark_merged-user_inputs target (store i)))
            is)
      ∙ append_assoc inputs (store i).user_inputs (inputs_of store is)

  -- The loop writes to nothing but the queued handles.
  pub merge_pending-above :
      (is : List ℕ) (store : ℕ → Handle) (inputs : List UserInput) (fresh : ℕ → Handle)
      (lo hi j : ℕ)
      → hi ≤ j
      → IsLine fresh lo is hi
      → (merge_pending target is store inputs).0 j ≡ store j
  unfolding merge_pending
  merge_pending-above [] store inputs fresh lo hi j le line = refl
  merge_pending-above (i ∷ is) store inputs fresh lo hi j le line =
      let rest =
        merge_pending-above is (change (mark_merged target) i store)
          (inputs ++ (store i).user_inputs) fresh (suc i) hi j le line.2 in
      ground (arith, rest, IsLine-le fresh (suc i) is hi line.2)

  pub merge_pending-below :
      (is : List ℕ) (store : ℕ → Handle) (inputs : List UserInput) (fresh : ℕ → Handle)
      (lo hi j : ℕ)
      → j < lo
      → IsLine fresh lo is hi
      → (merge_pending target is store inputs).0 j ≡ store j
  unfolding merge_pending
  merge_pending-below [] store inputs fresh lo hi j lt line = refl
  merge_pending-below (i ∷ is) store inputs fresh lo hi j lt line =
      let rest =
        merge_pending-below is (change (mark_merged target) i store)
          (inputs ++ (store i).user_inputs) fresh (suc i) hi j (omega (arith, line.0)) line.2 in
      ground (arith, rest, line.0)
