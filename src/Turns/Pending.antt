-- ===== src/Turns/Pending.antt =====
-- No text that waits is lost or reordered by a submission.
use uv_agent.Common.{
  ℕ, suc, ◌≡◌, refl, ◌∙◌, true, false, Option, none, some, List, [], ◌∷◌, ◌++◌, arith, append-nil,
  append_assoc, ◌==◌, ==_refl,
}
use uv_agent.Turns.Handle.{Conflict, queue, reject, interrupt, guide, UserInput, Handle}
use uv_agent.Turns.Thread.{
  Thread, Worker, Mode, by_guide, by_interrupt, update, change, merge_into_takeover, start_takeover,
  escalate, absorb_queue, signal, ensure_worker, Submitted, accepted, conflicting, broken,
  or_broken, submit_busy, submit_locked, submit, allocate, option_list, signal_handle, take_over,
  busy, signalled, inputs_of, pending_inputs,
}
use uv_agent.Turns.Line.{
  IsFresh, IsLine, IsLine-le, SameInputs-change, inputs_of-same, inputs_of-append,
  merge_pending-SameInputs, merge_pending-inputs,
}
use uv_agent.Turns.Invariant.Submit.{IsReady, allocate-IsReady}
use uv_agent.Turns.Invariant.{pending, floor, IsSound, make}

-- The line without the new handle reads the same in a store that has it.
inputs_of-update_above :
    (store : ℕ → Handle) (n : ℕ) (h : Handle) (lo : ℕ) (is : List ℕ)
    → IsLine store lo is n
    → inputs_of (update store n h) is ≡ inputs_of store is
unfolding inputs_of
inputs_of-update_above store n h lo [] line = refl
inputs_of-update_above store n h lo (i ∷ is) line =
    ground (
      arith,
      inputs_of-update_above store n h (suc i) is line.2,
      IsLine-le store (suc i) is n line.2,
    )

signal_handle-user_inputs :
    (mode : Option Mode) (h : Handle) → (signal_handle mode h).user_inputs ≡ h.user_inputs
signal_handle-user_inputs none h = refl
signal_handle-user_inputs (some by_guide) h = refl
signal_handle-user_inputs (some by_interrupt) h = refl

module _ (store : ℕ → Handle) (next : ℕ) (waiting : List ℕ) (takeover : Option ℕ)
    (mode : Option Mode) (worker : Option Worker) where
  make-pending_inputs-signal :
      (active : Option ℕ)
      → pending_inputs (signal (make store next active waiting takeover mode worker))
        ≡ pending_inputs (make store next active waiting takeover mode worker)
  unfolding signal pending_inputs
  make-pending_inputs-signal none = refl
  make-pending_inputs-signal (some h) =
      inputs_of-same store (change (signal_handle mode) h store)
        (SameInputs-change (signal_handle mode) store h (signal_handle-user_inputs mode (store h)))
        (waiting ++ option_list takeover)

  make-pending_inputs-escalate :
      (by : Mode) (active : Option ℕ)
      → pending_inputs (escalate by (make store next active waiting takeover mode worker))
        ≡ pending_inputs (make store next active waiting takeover mode worker)
  unfolding escalate pending_inputs
  make-pending_inputs-escalate by_guide active = refl
  make-pending_inputs-escalate by_interrupt active =
      elim takeover
        as (λ o.
          pending_inputs (escalate by_interrupt (make store next active waiting o mode worker))
          ≡ pending_inputs (make store next active waiting o mode worker)) [
            | none ↦ refl
            | some k ↦
                inputs_of-same store (change (λ h. record h { conflict = interrupt }) k store)
                  (SameInputs-change (λ h. record h { conflict = interrupt }) store k refl)
                  (waiting ++ k ∷ [])
          ]

pending_inputs-signal : (t : Thread) → pending_inputs (signal t) ≡ pending_inputs t
pending_inputs-signal t =
    make-pending_inputs-signal t.store t.next t.waiting t.takeover t.takeover_mode t.worker t.active

pending_inputs-escalate :
    (by : Mode) (t : Thread) → pending_inputs (escalate by t) ≡ pending_inputs t
pending_inputs-escalate by t =
    make-pending_inputs-escalate t.store t.next t.waiting t.takeover t.takeover_mode t.worker by
      t.active

pending_inputs-ensure_worker : (t : Thread) → pending_inputs (ensure_worker t) ≡ pending_inputs t
unfolding ensure_worker pending_inputs
pending_inputs-ensure_worker t = refl

-- The accepted thread waits with `more` behind what `t` waits with.
abbrev Adds : List UserInput → Thread → Submitted → Type 0
Adds more t (accepted t') = pending_inputs t' ≡ pending_inputs t ++ more
Adds more t _ = Unit {0}

module _ (n : ℕ) (store : ℕ → Handle) (next : ℕ) (active : Option ℕ) (mode : Option Mode)
    (worker : Option Worker) where
  merge-Adds :
      (k : ℕ)
      → (n == k) ≡ false
      → Adds
          (store n).user_inputs
          (make store next active [] (some k) mode worker)
          (or_broken (merge_into_takeover n (make store next active [] (some k) mode worker)))
  unfolding merge_into_takeover pending_inputs inputs_of
  merge-Adds k ne = rw ne (simp (append-nil, ne, ==_refl k))

  start_takeover-Adds :
      (waiting : List ℕ) (by : Mode)
      → pending_inputs (start_takeover n by (make store next active waiting none mode worker))
        ≡ pending_inputs (make store next active waiting none mode worker) ++ (store n).user_inputs
  unfolding start_takeover pending_inputs inputs_of
  start_takeover-Adds [] by = simp append-nil
  start_takeover-Adds (i ∷ is) by =
      let target = (store n).request_id in
      let gathered = merge_pending-inputs target (i ∷ is) store [] in
      let kept = merge_pending-SameInputs target (i ∷ is) store [] n in
      simp (append-nil, ==_refl n, gathered, kept, append_assoc)

Adds-signalled :
    (more : List UserInput) (t : Thread) (r : Option Thread)
    → Adds more t (or_broken r)
    → Adds more t (or_broken (signalled r))
Adds-signalled more t none a = tt
Adds-signalled more t (some t') a =
    pending_inputs-ensure_worker (signal t') ∙ pending_inputs-signal t' ∙ a

Adds-escalated :
    (by : Mode) (more : List UserInput) (t : Thread) (r : Option Thread)
    → Adds more t (or_broken r)
    → Adds more t (or_broken (elim r [ none ↦ none | some t' ↦ some (escalate by t') ]))
Adds-escalated by more t none a = tt
Adds-escalated by more t (some t') a = pending_inputs-escalate by t' ∙ a

module _ (n : ℕ) (store : ℕ → Handle) (next : ℕ) (active : Option ℕ) (mode : Option Mode)
    (worker : Option Worker) where
  absorb_queue-Adds :
      (by : Mode) (waiting : List ℕ) (takeover : Option ℕ)
      → IsReady n (make store next active waiting takeover mode worker)
      → Adds
          (store n).user_inputs
          (make store next active waiting takeover mode worker)
          (or_broken (absorb_queue n by (make store next active waiting takeover mode worker)))
  unfolding absorb_queue
  absorb_queue-Adds by waiting none r =
      start_takeover-Adds n store next active mode worker waiting by
  absorb_queue-Adds by [] (some k) r =
      Adds-escalated by (store n).user_inputs (make store next active [] (some k) mode worker)
        (merge_into_takeover n (make store next active [] (some k) mode worker))
        (merge-Adds n store next active mode worker k (ground (arith, r.line_to)))
  absorb_queue-Adds by (i ∷ is) (some k) r = ground (arith, r.sound.exclusive refl)

  queue-Adds :
      (waiting : List ℕ) (takeover : Option ℕ)
      → IsReady n (make store next active waiting takeover mode worker)
      → Adds
          (store n).user_inputs
          (make store next active waiting takeover mode worker)
          (submit_busy n queue (make store next active waiting takeover mode worker))
  unfolding submit_busy ensure_worker pending_inputs
  queue-Adds waiting none r = simp (append-nil, inputs_of-append store waiting (n ∷ []))
  queue-Adds [] (some k) r =
      merge-Adds n store next active mode worker k (ground (arith, r.line_to))
  queue-Adds (i ∷ is) (some k) r = ground (arith, r.sound.exclusive refl)

take_over-Adds :
    (n : ℕ) (by : Mode) (t : Thread)
    → IsReady n t
    → Adds (t.store n).user_inputs t (take_over n by t)
take_over-Adds n by t r =
    Adds-signalled (t.store n).user_inputs t (absorb_queue n by t) (
      absorb_queue-Adds n t.store t.next t.active t.takeover_mode t.worker by t.waiting t.takeover
        r)

submit_busy-Adds :
    (n : ℕ) (conflict : Conflict) (t : Thread)
    → IsReady n t
    → Adds (t.store n).user_inputs t (submit_busy n conflict t)
unfolding submit_busy
submit_busy-Adds n queue t r =
    unfold submit_busy in
    queue-Adds n t.store t.next t.active t.takeover_mode t.worker t.waiting t.takeover r
submit_busy-Adds n reject t r = tt
submit_busy-Adds n interrupt t r = take_over-Adds n by_interrupt t r
submit_busy-Adds n guide t r = take_over-Adds n by_guide t r

Adds-from :
    (more : List UserInput) (t other : Thread)
    → pending_inputs other ≡ pending_inputs t
    → (r : Submitted) → Adds more other r
    → Adds more t r
Adds-from more t other e (accepted t') a = rw (← e) a
Adds-from more t other e conflicting a = tt
Adds-from more t other e broken a = tt

submit-Adds :
    (h : Handle) (t : Thread)
    → IsFresh h
    → IsSound t
    → busy t ≡ true
    → Adds h.user_inputs t (submit h t)
unfolding submit submit_locked allocate pending_inputs
submit-Adds h t fresh s work =
    let r = allocate-IsReady h t fresh s in
    let added = submit_busy-Adds t.next h.conflict (allocate h t) r in
    Adds-from h.user_inputs t (allocate h t)
      (inputs_of-update_above t.store t.next h (floor t.active) (pending t) s.line) (submit h t)
      (rw work (rw ==_refl at added))

-- A new message that a sound thread accepts while it has work is read after all that waited before
-- it, and nothing that waited is lost, repeated or reordered, whichever policy the message came
-- with.
pub submit-pending_inputs :
    (h : Handle) (t t' : Thread)
    → IsFresh h
    → IsSound t
    → busy t ≡ true
    → submit h t ≡ accepted t'
    → pending_inputs t' ≡ pending_inputs t ++ h.user_inputs
submit-pending_inputs h t t' fresh s work e = rw e at (submit-Adds h t fresh s work)
