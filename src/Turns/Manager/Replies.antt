-- ===== src/Turns/Manager/Replies.antt =====
-- How `submit_turn` of src/uv_agent/turn_manager.py answers, on every branch.
use uv_agent.Common.{
  ℕ, ◌≡◌, ◌≢◌, ◌↔◌, refl, ap, true, Option, none, some, arith, Bool-cases, inl, inr,
}
use uv_agent.Common.Text.{Text, text_eq, text_eq_iff}
use uv_agent.Turns.Handle.{
  Conflict, queue, reject, interrupt, guide, UserInput, Handle, new_handle, read_conflict,
}
use uv_agent.Turns.Thread.{
  Thread, Submitted, submit, submit_locked, submit_busy, allocate, busy, or_broken,
  merge_into_takeover,
}
use uv_agent.Turns.Invariant.{IsSound}
use uv_agent.Turns.Invariant.Submit.{Good, submit-Good}
use uv_agent.Turns.Steps.{new_handle-IsFresh}
use uv_agent.Turns.Manager.{
  Manager, Reply, taken, unsupported, conflicting, broken, reply, submit_to, submit_turn,
}

abbrev pub AllSound : Manager → Type 0
AllSound m = (name : Text) → IsSound (m.threads name)

-- An accepted request leaves every other thread as it was, and every thread sound.
abbrev pub Accepts : Option Text → Manager → Reply → Type 0
Accepts thread_id m (taken m') =
    AllSound m' × ((name : Text) → thread_id ≢ some name → m'.threads name ≡ m.threads name)
Accepts thread_id m unsupported = Unit {0}
Accepts thread_id m conflicting = Unit {0}
Accepts thread_id m broken = ⊥

reply-Accepts :
    (m : Manager) (name : Text) (r : Submitted)
    → AllSound m
    → Good r
    → Accepts (some name) m (reply m name r)
reply-Accepts m name (Submitted.accepted t) all good = (
  λ other. elim (Bool-cases (text_eq name other)) [ inl e ↦ rw e good | inr e ↦ rw e (all other) ],
  λ other ne. ground (arith, text_eq_iff name other),
)
reply-Accepts m name Submitted.conflicting all good = tt
reply-Accepts m name Submitted.broken all good = good

submit_to-Accepts :
    (request_id : Text) (input : UserInput) (thread_id level : Option Text) (conflict : Conflict)
    (m : Manager)
    → AllSound m
    → Accepts thread_id m (submit_to request_id input thread_id level conflict m)
submit_to-Accepts request_id input none level conflict m all = (all, λ name ne. refl)
submit_to-Accepts request_id input (some name) level conflict m all = reply-Accepts m name _ all (
    submit-Good (new_handle request_id input (some name) level conflict) (m.threads name)
      (new_handle-IsFresh request_id input (some name) level conflict) (all name))

-- From threads that are all sound, `submit_turn` never raises its RuntimeError; a request that it
-- accepts leaves all threads sound and changes no thread but its own.
pub submit_turn-Accepts :
    (request_id : Text) (input : UserInput) (thread_id level : Option Text) (conflict : Text)
    (m : Manager)
    → AllSound m
    → Accepts thread_id m (submit_turn request_id input thread_id level conflict m)
unfolding submit_turn
submit_turn-Accepts request_id input thread_id level conflict m all =
    elim (read_conflict conflict)
      as (λ c. Accepts thread_id m (elim c [
        | none ↦ unsupported
        | some c' ↦ submit_to request_id input thread_id level c' m
      ])) [ none ↦ tt | some c ↦ submit_to-Accepts request_id input thread_id level c m all ]

or_broken-accepts : (r : Option Thread) → or_broken r ≢ Submitted.conflicting
or_broken-accepts none e = cc
or_broken-accepts (some t) e = cc

submit_busy-conflicting :
    (h : ℕ) (c : Conflict) (t : Thread) → submit_busy h c t ≡ Submitted.conflicting → c ≡ reject
unfolding submit_busy
submit_busy-conflicting h queue t e = ground (arith, or_broken-accepts (merge_into_takeover h t))
submit_busy-conflicting h reject t e = refl
submit_busy-conflicting h interrupt t e = absurd (or_broken-accepts _ e)
submit_busy-conflicting h guide t e = absurd (or_broken-accepts _ e)

submit-conflicting :
    (h : Handle) (t : Thread)
    → (submit h t ≡ Submitted.conflicting) ↔ ((h.conflict ≡ reject) × (busy t ≡ true))
unfolding submit submit_locked allocate submit_busy
submit-conflicting h t = (
  λ e. elim (Bool-cases (busy t)) [
    | inl work ↦
        (submit_busy-conflicting t.next h.conflict (allocate h t) (rw (work, submit) at e), work)
    | inr idle ↦ absurd (cc (rw (idle, submit) at e))
  ],
  λ (c, work). rw (work, c),
)

reply-conflicting :
    (m : Manager) (name : Text) (r : Submitted)
    → (reply m name r ≡ conflicting) ↔ (r ≡ Submitted.conflicting)
reply-conflicting m name (Submitted.accepted t) = (λ e. cc, λ e. cc)
reply-conflicting m name Submitted.conflicting = (λ e. refl, λ e. refl)
reply-conflicting m name Submitted.broken = (λ e. cc, λ e. cc)

submit_to-conflicting :
    (request_id : Text) (input : UserInput) (name : Text) (level : Option Text) (c : Conflict)
    (m : Manager)
    → (submit_to request_id input (some name) level c m ≡ conflicting)
      ↔ ((some c ≡ some reject) × (busy (m.threads name) ≡ true))
unfolding new_handle
submit_to-conflicting request_id input name level c m =
    let h = new_handle request_id input (some name) level c in
    let replies = reply-conflicting m name (submit h (m.threads name)) in
    let submits = submit-conflicting h (m.threads name) in
    (
      λ e. let (is, work) = submits.0 (replies.0 e) in (ap some is, work),
      λ (is, work). replies.1 (submits.1 (cc is, work)),
    )

-- `TurnConflictError` is raised exactly where the request says "reject" and its thread has an active,
-- a waiting or a takeover handle.
submit_turn-conflicting_iff :
    (request_id : Text) (input : UserInput) (name : Text) (level : Option Text) (conflict : Text)
    (m : Manager)
    → (submit_turn request_id input (some name) level conflict m ≡ conflicting)
      ↔ ((read_conflict conflict ≡ some reject) × (busy (m.threads name) ≡ true))
unfolding submit_turn
submit_turn-conflicting_iff request_id input name level conflict m =
    elim (read_conflict conflict)
      as (λ c.
        (elim c [ none ↦ unsupported | some c' ↦ submit_to request_id input (some name) level c' m ]
          ≡ conflicting)
        ↔ ((c ≡ some reject) × (busy (m.threads name) ≡ true))) [
          | none ↦ (λ e. cc, λ (e, work). cc)
          | some c ↦ submit_to-conflicting request_id input name level c m
        ]
