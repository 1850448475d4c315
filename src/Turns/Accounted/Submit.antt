-- ===== src/Turns/Accounted/Submit.antt =====
-- A submission loses no handle.
use mathlib.Core.Path.{subst}
use uv_agent.Common.{
  ℕ, ◌+◌, ◌<◌, ◌≡◌, ◌⊎◌, inl, inr, false, Option, none, some, List, [], ◌∷◌, ◌++◌, append-nil,
  arith, is_some, Bool-cases, ◌==◌,
}
use uv_agent.Turns.Handle.{Conflict, queue, reject, interrupt, guide, Handle, mark_merged}
use uv_agent.Turns.Thread.{
  Thread, Mode, by_guide, by_interrupt, update, change, merge_pending, merge_into_takeover,
  start_takeover, escalate, absorb_queue, signal, signal_handle, ensure_worker, accepted, or_broken,
  signalled, submit_busy, submit_locked, submit, allocate, option_list, busy,
}
use uv_agent.Turns.Invariant.{pending}
use uv_agent.Turns.Accounted.Cover.{
  IsIn, IsIn-left, IsIn-right, IsIn-either, unfinished, Covered, IsAccounted, Kept, done-update,
  done-mark_merged, done-signal_handle, merge_pending-keeps, merge_pending-done, Covered-update,
}

signal-Covered :
    (t : Thread) (j : ℕ) → Covered t.store (unfinished t) j → Kept (accepted (signal t)) j
unfolding signal
signal-Covered t j c = by_active t.active c
  where
    by_active :
        (active : Option ℕ)
        → Covered t.store (option_list active ++ pending t) j
        → Kept (accepted (signal (record t { active = active }))) j
    by_active none cover = cover
    by_active (some i) cover =
        Covered-update t.store i (signal_handle t.takeover_mode (t.store i)) (i ∷ pending t) j
          (done-signal_handle t.takeover_mode (t.store i)) cover

escalate-Covered :
    (by : Mode) (t : Thread) (j : ℕ)
    → Covered t.store (unfinished t) j
    → Kept (accepted (escalate by t)) j
unfolding escalate
escalate-Covered by_guide t j c = c
escalate-Covered by_interrupt t j c = by_takeover t.takeover c
  where
    by_takeover :
        (takeover : Option ℕ)
        → Covered t.store (option_list t.active ++ (t.waiting ++ option_list takeover)) j
        → Kept (accepted (escalate by_interrupt (record t { takeover = takeover }))) j
    by_takeover none cover = cover
    by_takeover (some k) cover =
        Covered-update t.store k (record (t.store k) { conflict = interrupt })
          (option_list t.active ++ (t.waiting ++ k ∷ [])) j (λ done. done) cover

-- The new handle `n` is covered after the merge, whatever was before; so is what was covered.
merge-Covered :
    (n : ℕ) (t : Thread) (j : ℕ)
    → Covered t.store (unfinished t) j ⊎ (n ≡ j)
    → Kept (or_broken (merge_into_takeover n t)) j
unfolding merge_into_takeover
merge-Covered n t j c = by_takeover t.takeover c
  where
    list : ℕ → List ℕ
    list k = option_list t.active ++ (t.waiting ++ k ∷ [])

    by_takeover :
        (takeover : Option ℕ)
        → Covered t.store (option_list t.active ++ (t.waiting ++ option_list takeover)) j ⊎ (n ≡ j)
        → Kept (or_broken (merge_into_takeover n (record t { takeover = takeover }))) j
    by_takeover none cover = tt
    by_takeover (some k) cover = elim (Bool-cases (n == k)) [
      | inl same ↦ rw same (elim cover [
        | inl before ↦ before
        | inr new ↦ inr (
            IsIn-right j (option_list t.active) (t.waiting ++ k ∷ [])
              (IsIn-right j t.waiting (k ∷ []) (inl (ground (arith, same, new)))))
      ])
      | inr other ↦ rw other (
          let absorb =
            λ (h : Handle). record h { user_inputs = h.user_inputs ++ (t.store n).user_inputs } in
          let grown = change absorb k t.store in
          elim cover [
            | inl before ↦
                Covered-update grown n (mark_merged (grown k).request_id (grown n)) (list k) j
                  (λ _. done-mark_merged (grown k).request_id (grown n))
                  (Covered-update t.store k (absorb (t.store k)) (list k) j (λ done. done) before)
            | inr new ↦ inl (ground (arith, new, done-mark_merged (grown k).request_id (grown n)))
          ])
    ]

start_takeover-Covered :
    (n : ℕ) (by : Mode) (t : Thread) (j : ℕ)
    → Covered t.store (option_list t.active ++ t.waiting) j ⊎ (n ≡ j)
    → Kept (accepted (start_takeover n by t)) j
unfolding start_takeover
start_takeover-Covered n by t j c = by_waiting t.waiting c
  where
    new_one : (n ≡ j) → IsIn j (option_list t.active ++ n ∷ [])
    new_one new = IsIn-right j (option_list t.active) (n ∷ []) (inl new)

    by_waiting :
        (waiting : List ℕ)
        → Covered t.store (option_list t.active ++ waiting) j ⊎ (n ≡ j)
        → Kept (accepted (start_takeover n by (record t { waiting = waiting }))) j
    by_waiting [] (inl (inl done)) = inl done
    by_waiting [] (inl (inr listed)) = elim (IsIn-either j (option_list t.active) [] listed) [
      | inl left ↦ inr (IsIn-left j (option_list t.active) (n ∷ []) left)
      | inr right ↦ absurd right
    ]
    by_waiting [] (inr new) = inr (new_one new)
    by_waiting (i ∷ is) (inl (inl done)) =
        let merged = merge_pending (t.store n).request_id (i ∷ is) t.store [] in
        inl (
          done-update merged.0 n _ j (λ kept. kept)
            (merge_pending-keeps (t.store n).request_id (i ∷ is) t.store [] j done))
    by_waiting (i ∷ is) (inl (inr listed)) =
        let merged = merge_pending (t.store n).request_id (i ∷ is) t.store [] in
        elim (IsIn-either j (option_list t.active) (i ∷ is) listed) [
          | inl left ↦ inr (IsIn-left j (option_list t.active) (n ∷ []) left)
          | inr right ↦ inl (
              done-update merged.0 n _ j (λ kept. kept)
                (merge_pending-done (t.store n).request_id (i ∷ is) t.store [] j right))
        ]
    by_waiting (i ∷ is) (inr new) = inr (new_one new)

Kept-signalled :
    (r : Option Thread) (j : ℕ) → Kept (or_broken r) j → Kept (or_broken (signalled r)) j
unfolding ensure_worker
Kept-signalled none j k = tt
Kept-signalled (some t) j k = signal-Covered t j k

Kept-escalated :
    (by : Mode) (r : Option Thread) (j : ℕ)
    → Kept (or_broken r) j
    → Kept (or_broken (elim r [ none ↦ none | some t ↦ some (escalate by t) ])) j
Kept-escalated by none j k = tt
Kept-escalated by (some t) j k = escalate-Covered by t j k

append-nil-IsIn : (j : ℕ) (xs ys : List ℕ) → IsIn j (xs ++ (ys ++ [])) → IsIn j (xs ++ ys)
append-nil-IsIn j xs ys listed = rw (← append-nil ys) listed

absorb_queue-Covered :
    (n : ℕ) (by : Mode) (t : Thread) (j : ℕ)
    → Covered t.store (unfinished t) j ⊎ (n ≡ j)
    → Kept (or_broken (absorb_queue n by t)) j
unfolding absorb_queue
absorb_queue-Covered n by t j c = by_takeover t.takeover c
  where
    by_takeover :
        (takeover : Option ℕ)
        → Covered t.store (option_list t.active ++ (t.waiting ++ option_list takeover)) j ⊎ (n ≡ j)
        → Kept (or_broken (absorb_queue n by (record t { takeover = takeover }))) j
    by_takeover none (inl (inl done)) =
        start_takeover-Covered n by (record t { takeover = none }) j (inl (inl done))
    by_takeover none (inl (inr listed)) =
        start_takeover-Covered n by (record t { takeover = none }) j
          (inl (inr (append-nil-IsIn j (option_list t.active) t.waiting listed)))
    by_takeover none (inr new) =
        start_takeover-Covered n by (record t { takeover = none }) j (inr new)
    by_takeover (some k) cover =
        Kept-escalated by (merge_into_takeover n (record t { takeover = some k })) j
          (merge-Covered n (record t { takeover = some k }) j cover)

-- Behind all that waits.
queued-Covered :
    (n : ℕ) (t : Thread) (j : ℕ)
    → t.takeover ≡ none
    → Covered t.store (unfinished t) j ⊎ (n ≡ j)
    → Covered t.store (option_list t.active ++ ((t.waiting ++ n ∷ []) ++ option_list t.takeover)) j
queued-Covered n t j free (inl (inl done)) = inl done
queued-Covered n t j free (inl (inr listed)) =
    elim (IsIn-either j (option_list t.active) (pending t) listed) [
      | inl left ↦ inr (IsIn-left j (option_list t.active) _ left)
      | inr right ↦ inr (
          IsIn-right j (option_list t.active) _ (
            IsIn-left j (t.waiting ++ n ∷ []) (option_list t.takeover)
              (elim (IsIn-either j t.waiting (option_list t.takeover) right) [
                | inl waits ↦ IsIn-left j t.waiting (n ∷ []) waits
                | inr over ↦ absurd (subst (λ o. IsIn j (option_list o)) free over)
              ])))
    ]
queued-Covered n t j free (inr new) = inr (
    IsIn-right j (option_list t.active) _ (
      IsIn-left j (t.waiting ++ n ∷ []) (option_list t.takeover)
        (IsIn-right j t.waiting (n ∷ []) (inl new))))

submit_busy-Covered :
    (n : ℕ) (conflict : Conflict) (t : Thread) (j : ℕ)
    → Covered t.store (unfinished t) j ⊎ (n ≡ j)
    → Kept (submit_busy n conflict t) j
unfolding submit_busy ensure_worker
submit_busy-Covered n queue t j c = elim (Bool-cases (is_some t.takeover)) [
  | inl e ↦ rw e (merge-Covered n t j c)
  | inr e ↦ rw e (queued-Covered n t j (ground (arith, e)) c)
]
submit_busy-Covered n reject t j c = tt
submit_busy-Covered n interrupt t j c =
    Kept-signalled (absorb_queue n by_interrupt t) j (absorb_queue-Covered n by_interrupt t j c)
submit_busy-Covered n guide t j c =
    Kept-signalled (absorb_queue n by_guide t) j (absorb_queue-Covered n by_guide t j c)

idle-Covered :
    (n : ℕ) (t : Thread) (j : ℕ)
    → busy t ≡ false
    → Covered t.store (unfinished t) j ⊎ (n ≡ j)
    → Covered t.store (n ∷ pending t) j
idle-Covered n t j idle (inl (inl done)) = inl done
idle-Covered n t j idle (inl (inr listed)) =
    elim (IsIn-either j (option_list t.active) (pending t) listed) [
      | inl left ↦
          let free : t.active ≡ none = ground (arith, idle) in
          absurd (subst (λ o. IsIn j (option_list o)) free left)
      | inr right ↦ inr (inr right)
    ]
idle-Covered n t j idle (inr new) = inr (inl new)

pub submit-Covered :
    (h : Handle) (t : Thread) (j : ℕ) → IsAccounted t → j < t.next + 1 → Kept (submit h t) j
unfolding submit submit_locked ensure_worker allocate
submit-Covered h t j accounted below =
    let cover : Covered (update t.store t.next h) (unfinished t) j ⊎ (t.next ≡ j) =
      elim (Bool-cases (t.next == j)) [
        | inl same ↦ inr (ground (arith, same))
        | inr other ↦ inl (rw other (accounted j (ground (arith, other, below))))
      ] in
    elim (Bool-cases (busy t)) [
      | inl work ↦ rw work (submit_busy-Covered t.next h.conflict (allocate h t) j cover)
      | inr idle ↦ rw idle (idle-Covered t.next (allocate h t) j idle cover)
    ]
