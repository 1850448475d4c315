-- ===== src/Turns/Accounted/Count.antt =====
-- A submission that is accepted adds one handle.
use uv_agent.Common.{
  ℕ, ◌+◌, ◌≡◌, refl, ◌∙◌, inl, inr, Option, none, some, [], ◌∷◌, is_some, Bool-cases, ◌==◌,
}
use uv_agent.Turns.Handle.{Conflict, queue, reject, interrupt, guide, Handle}
use uv_agent.Turns.Thread.{
  Thread, Mode, by_guide, by_interrupt, merge_into_takeover, start_takeover, escalate, absorb_queue,
  signal, ensure_worker, Submitted, accepted, or_broken, signalled, submit_busy, submit_locked,
  submit, allocate, busy,
}

-- The number of handles, if a submission is accepted.
abbrev pub Counts : ℕ → Submitted → Type 0
Counts n (accepted t) = t.next ≡ n
Counts n _ = Unit {0}

signal-next : (t : Thread) → (signal t).next ≡ t.next
unfolding signal
signal-next t = elim t.active as (λ a. (signal (record t { active = a })).next ≡ t.next) [
  | none ↦ refl
  | some i ↦ refl
]

escalate-next : (by : Mode) (t : Thread) → (escalate by t).next ≡ t.next
unfolding escalate
escalate-next by_guide t = refl
escalate-next by_interrupt t =
    elim t.takeover as (λ o. (escalate by_interrupt (record t { takeover = o })).next ≡ t.next) [
      | none ↦ refl
      | some k ↦ refl
    ]

merge-next : (n : ℕ) (t : Thread) → Counts t.next (or_broken (merge_into_takeover n t))
unfolding merge_into_takeover
merge-next n t =
    elim t.takeover
      as (λ o. Counts t.next (or_broken (merge_into_takeover n (record t { takeover = o })))) [
        | none ↦ tt
        | some k ↦ elim (Bool-cases (n == k)) [ inl e ↦ rw e refl | inr e ↦ rw e refl ]
      ]

start_takeover-next : (n : ℕ) (by : Mode) (t : Thread) → (start_takeover n by t).next ≡ t.next
unfolding start_takeover
start_takeover-next n by t =
    elim t.waiting as (λ w. (start_takeover n by (record t { waiting = w })).next ≡ t.next) [
      | [] ↦ refl
      | i ∷ is ↦ refl
    ]

Counts-signalled :
    (m : ℕ) (r : Option Thread) → Counts m (or_broken r) → Counts m (or_broken (signalled r))
unfolding ensure_worker
Counts-signalled m none c = tt
Counts-signalled m (some t) c = signal-next t ∙ c

Counts-escalated :
    (m : ℕ) (by : Mode) (r : Option Thread)
    → Counts m (or_broken r)
    → Counts m (or_broken (elim r [ none ↦ none | some t ↦ some (escalate by t) ]))
Counts-escalated m by none c = tt
Counts-escalated m by (some t) c = escalate-next by t ∙ c

absorb_queue-next :
    (n : ℕ) (by : Mode) (t : Thread) → Counts t.next (or_broken (absorb_queue n by t))
unfolding absorb_queue
absorb_queue-next n by t =
    elim t.takeover
      as (λ o. Counts t.next (or_broken (absorb_queue n by (record t { takeover = o })))) [
        | none ↦ start_takeover-next n by (record t { takeover = none })
        | some k ↦
            Counts-escalated t.next by (merge_into_takeover n (record t { takeover = some k }))
              (merge-next n (record t { takeover = some k }))
      ]

submit_busy-next :
    (n : ℕ) (conflict : Conflict) (t : Thread) → Counts t.next (submit_busy n conflict t)
unfolding submit_busy ensure_worker
submit_busy-next n queue t = elim (Bool-cases (is_some t.takeover)) [
  | inl e ↦ rw e (merge-next n t)
  | inr e ↦ rw e refl
]
submit_busy-next n reject t = tt
submit_busy-next n interrupt t =
    Counts-signalled t.next (absorb_queue n by_interrupt t) (absorb_queue-next n by_interrupt t)
submit_busy-next n guide t =
    Counts-signalled t.next (absorb_queue n by_guide t) (absorb_queue-next n by_guide t)

pub submit-next : (h : Handle) (t : Thread) → Counts (t.next + 1) (submit h t)
unfolding submit submit_locked ensure_worker allocate
submit-next h t = elim (Bool-cases (busy t)) [
  | inl work ↦ rw work (submit_busy-next t.next h.conflict (allocate h t))
  | inr idle ↦ rw idle refl
]
