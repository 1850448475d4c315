-- ===== src/Turns/Accounted.antt =====
-- No handle is lost: each one that a thread has accepted is done, active, or waiting.
pub mod Cover
mod Submit
mod Count
use mathlib.Core.Path.{subst}
use uv_agent.Common.{
  ℕ, zero, suc, ◌+◌, ◌<◌, ◌≡◌, refl, sym, ap, ◌∙◌, ◌⊎◌, inl, inr, Bool, true, false, Option, none,
  some, List, [], ◌∷◌, ◌++◌, append-nil, arith, is_some, Bool-cases, ◌||◌, ◌==◌, if◌then◌else◌,
}
use uv_agent.Turns.Handle.{
  Conflict, queue, reject, interrupt, guide, Handle, UserInput, Event, Outcome, begin, mark_merged,
  on_event, on_end, new_handle, finish, emit,
}
use uv_agent.Common.Text.{Text}
use uv_agent.Turns.Thread.{
  Thread, Worker, choosing, running, settling, Mode, by_guide, by_interrupt, update, change,
  merge_pending, merge_into_takeover, start_takeover, escalate, absorb_queue, signal, signal_handle,
  ensure_worker, Submitted, accepted, conflicting, broken, or_broken, signalled, submit_busy,
  submit_locked, submit, allocate, choose, engine_event, engine_end, settle, new_thread,
  option_list, busy, drop_active, is_queued, nonempty,
}
use uv_agent.Turns.Invariant.{pending, IsSound, done-on_event, done-on_end, drop_active_self}
use uv_agent.Turns.Steps.{
  Step, submits, chooses, receives, ends, settles, Reach, here, next, Reach-IsSound,
}
use uv_agent.Turns.Accounted.Cover.{
  IsIn, IsIn-left, IsIn-right, IsIn-either, unfinished, Covered, IsAccounted, Kept, done-update,
  done-mark_merged, merge_pending-keeps, merge_pending-done, Covered-update,
}
use uv_agent.Turns.Accounted.Submit.{submit-Covered}
use uv_agent.Turns.Accounted.Count.{Counts, submit-next}

submit-IsAccounted :
    (h : Handle) (t t' : Thread) → IsAccounted t → submit h t ≡ accepted t' → IsAccounted t'
submit-IsAccounted h t t' accounted e j below =
    let count : t'.next ≡ t.next + 1 = subst (Counts (t.next + 1)) e (submit-next h t) in
    subst (λ r. Kept r j) e (submit-Covered h t j accounted (omega (arith, count, below)))

-- The choice takes up a handle that was listed, and leaves the others.
choose-IsAccounted : (t : Thread) → IsAccounted t → IsAccounted (choose t)
unfolding choose begin
choose-IsAccounted t accounted = by_state t.active t.waiting t.takeover accounted
  where
    started :
        (h : ℕ) (is js : List ℕ) (j : ℕ)
        → (IsIn j is → IsIn j js)
        → Covered t.store is j
        → Covered (change begin h t.store) js j
    started h is js j moves cover =
        elim (Covered-update t.store h (begin (t.store h)) is j (λ done. done) cover) [
          | inl done ↦ inl done
          | inr listed ↦ inr (moves listed)
        ]

    over_last : (j k : ℕ) (is : List ℕ) → IsIn j (is ++ k ∷ []) → IsIn j (k ∷ (is ++ []))
    over_last j k is listed = elim (IsIn-either j is (k ∷ []) listed) [
      | inl left ↦ inr (IsIn-left j is [] left)
      | inr right ↦ elim right [ inl same ↦ inl same | inr none_there ↦ absurd none_there ]
    ]

    by_state :
        (active : Option ℕ) (waiting : List ℕ) (takeover : Option ℕ)
        → IsAccounted (record t { active = active; waiting = waiting; takeover = takeover })
        → IsAccounted
            (choose (record t { active = active; waiting = waiting; takeover = takeover }))
    by_state (some h) waiting takeover before = elim (Bool-cases (is_queued (t.store h).status)) [
      | inl e ↦ rw e (λ j below.
          started h (h ∷ (waiting ++ option_list takeover)) (h ∷ (waiting ++ option_list takeover))
            j (λ listed. listed) (before j below))
      | inr e ↦ rw e before
    ]
    by_state none waiting (some k) before = λ j below.
        started k (waiting ++ k ∷ []) (k ∷ (waiting ++ [])) j (over_last j k waiting)
          (before j below)
    by_state none [] none before = before
    by_state none (i ∷ is) none before =
        λ j below. started i ((i ∷ is) ++ []) (i ∷ (is ++ [])) j (λ listed. listed) (before j below)

settle-IsAccounted :
    (h : ℕ) (outcome : Outcome) (t : Thread)
    → t.active ≡ some h
    → (t.store h).done ≡ true
    → IsAccounted t
    → IsAccounted (settle h outcome t)
unfolding settle
settle-IsAccounted h outcome t active done accounted =
    elim (Bool-cases (nonempty t.waiting || is_some t.takeover)) [
      | inl more ↦ rw more dropped
      | inr idle ↦ rw idle dropped
    ]
  where
    dropped :
        (j : ℕ) → j < t.next → Covered t.store (option_list (drop_active h t.active) ++ pending t) j
    dropped j below = elim (accounted j below) [
      | inl is_done ↦ inl is_done
      | inr listed ↦ elim (IsIn-either j (option_list t.active) (pending t) listed) [
        | inl left ↦ elim (subst (λ o. IsIn j (option_list o)) active left) [
          | inl same ↦ inl (subst (λ k. (t.store k).done ≡ true) same done)
          | inr none_there ↦ absurd none_there
        ]
        | inr right ↦ inr (IsIn-right j (option_list (drop_active h t.active)) (pending t) right)
      ]
    ]

Step-IsAccounted : {t u : Thread} → Step t u → IsSound t → IsAccounted t → IsAccounted u
unfolding engine_event engine_end
Step-IsAccounted (submits {t = t} {t' = t'} request_id input thread_id level conflict e) s
      accounted =
    submit-IsAccounted (new_handle request_id input thread_id level conflict) t t' accounted e
Step-IsAccounted (chooses {t = t} w) s accounted = choose-IsAccounted t accounted
Step-IsAccounted (receives {t = t} h e w) s accounted = λ j below.
    Covered-update t.store h (on_event e (t.store h)) (unfinished t) j
      (λ done. done-on_event e (t.store h) ∙ done) (accounted j below)
Step-IsAccounted (ends {t = t} h outcome alive w) s accounted = λ j below.
    Covered-update t.store h (on_end outcome (t.store h)) (unfinished t) j
      (λ _. done-on_end outcome (t.store h)) (accounted j below)
Step-IsAccounted (settles {t = t} h outcome alive w) s accounted =
    let (active, done) = rw w at s.serves in settle-IsAccounted h outcome t active done accounted

new_thread-IsAccounted : IsAccounted new_thread
unfolding new_thread
new_thread-IsAccounted j below = absurd (omega (arith, below))

pub Reach-IsAccounted : {t : Thread} → Reach new_thread t → IsAccounted t
Reach-IsAccounted here = new_thread-IsAccounted
Reach-IsAccounted (next r st) = Step-IsAccounted st (Reach-IsSound r) (Reach-IsAccounted r)
