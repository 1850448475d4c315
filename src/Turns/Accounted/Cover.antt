-- ===== src/Turns/Accounted/Cover.antt =====
-- The handles that a thread still has to finish, and what merging does to them.
use mathlib.Core.Path.{subst}
use uv_agent.Common.{
  ℕ, ◌<◌, ◌≡◌, ◌⊎◌, inl, inr, true, Option, none, some, List, [], ◌∷◌, ◌++◌, arith, Bool-cases,
  ◌==◌,
}
use uv_agent.Turns.Handle.{Handle, UserInput, mark_merged, finish, emit}
use uv_agent.Common.Text.{Text}
use uv_agent.Turns.Thread.{
  Thread, Mode, by_guide, by_interrupt, update, change, merge_pending, signal_handle, Submitted,
  accepted, option_list,
}
use uv_agent.Turns.Invariant.{pending}

abbrev pub IsIn : ℕ → List ℕ → Type 0
IsIn j [] = ⊥
IsIn j (i ∷ is) = (i ≡ j) ⊎ IsIn j is

pub IsIn-left : (j : ℕ) (xs ys : List ℕ) → IsIn j xs → IsIn j (xs ++ ys)
IsIn-left j [] ys found = absurd found
IsIn-left j (x ∷ xs) ys (inl same) = inl same
IsIn-left j (x ∷ xs) ys (inr there) = inr (IsIn-left j xs ys there)

pub IsIn-right : (j : ℕ) (xs ys : List ℕ) → IsIn j ys → IsIn j (xs ++ ys)
IsIn-right j [] ys found = found
IsIn-right j (x ∷ xs) ys found = inr (IsIn-right j xs ys found)

pub IsIn-either : (j : ℕ) (xs ys : List ℕ) → IsIn j (xs ++ ys) → IsIn j xs ⊎ IsIn j ys
IsIn-either j [] ys found = inr found
IsIn-either j (x ∷ xs) ys (inl same) = inl (inl same)
IsIn-either j (x ∷ xs) ys (inr there) = elim (IsIn-either j xs ys there) [
  | inl left ↦ inl (inr left)
  | inr right ↦ inr right
]

-- The handles that the thread still has to finish.
abbrev pub unfinished : Thread → List ℕ
unfinished t = option_list t.active ++ pending t

-- A handle is done, or one of those listed.
abbrev pub Covered : (ℕ → Handle) → List ℕ → ℕ → Type 0
Covered store is j = ((store j).done ≡ true) ⊎ IsIn j is

abbrev pub IsAccounted : Thread → Type 0
IsAccounted t = (j : ℕ) → j < t.next → Covered t.store (unfinished t) j

pub done-update :
    (store : ℕ → Handle) (i : ℕ) (h : Handle) (j : ℕ)
    → ((store i).done ≡ true → h.done ≡ true)
    → (store j).done ≡ true
    → (update store i h j).done ≡ true
done-update store i h j keeps done = elim (Bool-cases (i == j)) [
  | inl same ↦ rw same (keeps (ground (arith, same, done)))
  | inr other ↦ rw other done
]

pub done-mark_merged : (target : Text) (h : Handle) → (mark_merged target h).done ≡ true
unfolding mark_merged finish emit
done-mark_merged target h = ground arith

pub merge_pending-keeps :
    (target : Text) (is : List ℕ) (store : ℕ → Handle) (inputs : List UserInput) (j : ℕ)
    → (store j).done ≡ true
    → ((merge_pending target is store inputs).0 j).done ≡ true
unfolding merge_pending
merge_pending-keeps target [] store inputs j done = done
merge_pending-keeps target (i ∷ is) store inputs j done =
    merge_pending-keeps target is _ _ j
      (done-update store i _ j (λ _. done-mark_merged target (store i)) done)

-- All that is merged is done.
pub merge_pending-done :
    (target : Text) (is : List ℕ) (store : ℕ → Handle) (inputs : List UserInput) (j : ℕ)
    → IsIn j is
    → ((merge_pending target is store inputs).0 j).done ≡ true
unfolding merge_pending
merge_pending-done target [] store inputs j listed = absurd listed
merge_pending-done target (i ∷ is) store inputs j (inl same) = merge_pending-keeps target is _ _ j (
    subst (λ k. (change (mark_merged target) i store k).done ≡ true) same
      (ground (arith, done-mark_merged target (store i))))
merge_pending-done target (i ∷ is) store inputs j (inr listed) =
    merge_pending-done target is _ _ j listed

-- What a submission leaves behind, if it is accepted: each handle but the new one was accounted for.
abbrev pub Kept : Submitted → ℕ → Type 0
Kept (accepted t) j = Covered t.store (unfinished t) j
Kept _ j = Unit {0}

-- A step that keeps the list.
pub Covered-update :
    (store : ℕ → Handle) (i : ℕ) (h : Handle) (is : List ℕ) (j : ℕ)
    → ((store i).done ≡ true → h.done ≡ true)
    → Covered store is j
    → Covered (update store i h) is j
Covered-update store i h is j keeps (inl done) = inl (done-update store i h j keeps done)
Covered-update store i h is j keeps (inr listed) = inr listed

pub done-signal_handle :
    (mode : Option Mode) (h : Handle) → h.done ≡ true → (signal_handle mode h).done ≡ true
done-signal_handle none h done = done
done-signal_handle (some by_guide) h done = done
done-signal_handle (some by_interrupt) h done = done
