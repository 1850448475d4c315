-- ===== src/Turns/Signals.antt =====
-- How a guide or an interrupt reaches the handle that runs.
use uv_agent.Common.{
  ℕ, ◌≡◌, refl, true, Bool, Option, none, some, arith, is_some, Option-cases, inl, inr, ◌∙◌, ap,
  sym,
}
use uv_agent.Turns.Handle.{Conflict, queue, reject, interrupt, guide, Handle}
use uv_agent.Turns.Thread.{
  Thread, Mode, by_guide, by_interrupt, merge_into_takeover, start_takeover, escalate, absorb_queue,
  signal, ensure_worker, accepted, take_over, submit_busy, submit_locked, submit, allocate,
}
use uv_agent.Turns.Invariant.{IsSound}

-- The event that a takeover raises on the active handle.
abbrev pub raised : Mode → Handle → Bool
raised by_interrupt h = h.cancel_event
raised by_guide h = h.guide_event

-- An interrupt wins over a guide, whichever comes first.
abbrev pub strongest : Option Mode → Mode → Mode
strongest none by = by
strongest (some by_guide) by = by
strongest (some by_interrupt) by = by_interrupt

abbrev pub mode_of : Conflict → Option Mode
mode_of interrupt = some by_interrupt
mode_of guide = some by_guide
mode_of _ = none

record Absorbed (t u : Thread) (by : Mode) : Type 0 where
  holds : u.active ≡ t.active
  mode : u.takeover_mode ≡ some (strongest t.takeover_mode by)

merge-fields :
    (n : ℕ) (t u : Thread)
    → merge_into_takeover n t ≡ some u
    → (u.active ≡ t.active) × (u.takeover_mode ≡ t.takeover_mode) × (u.takeover ≡ t.takeover)
unfolding merge_into_takeover
merge-fields n t u e = ground arith

start-fields :
    (n : ℕ) (by : Mode) (t : Thread)
    → ((start_takeover n by t).active ≡ t.active)
      × ((start_takeover n by t).takeover_mode ≡ some by)
unfolding start_takeover
start-fields n by t = ground arith

escalate-fields :
    (by m : Mode) (k : ℕ) (t : Thread)
    → t.takeover ≡ some k
    → t.takeover_mode ≡ some m
    → ((escalate by t).active ≡ t.active)
      × ((escalate by t).takeover_mode ≡ some (strongest (some m) by))
unfolding escalate
escalate-fields by_guide by_guide k t e em = (refl, em)
escalate-fields by_guide by_interrupt k t e em = (refl, em)
escalate-fields by_interrupt m k t e em = ground arith

absorb-free :
    (n : ℕ) (by : Mode) (t u : Thread)
    → t.takeover ≡ none
    → absorb_queue n by t ≡ some u
    → start_takeover n by t ≡ u
unfolding absorb_queue
absorb-free n by t u free e = ground arith

absorb-taken :
    (n : ℕ) (by : Mode) (t u : Thread) (k : ℕ)
    → t.takeover ≡ some k
    → absorb_queue n by t ≡ some u
    → (v : Thread) × (merge_into_takeover n t ≡ some v) × (escalate by v ≡ u)
unfolding absorb_queue
absorb-taken n by t u k taken e = ground arith

mode-some : (mode : Option Mode) → is_some mode ≡ true → (m : Mode) × (mode ≡ some m)
mode-some none e = cc
mode-some (some m) e = (m, refl)

absorb-Absorbed :
    (n : ℕ) (by : Mode) (t u : Thread)
    → is_some t.takeover_mode ≡ is_some t.takeover
    → absorb_queue n by t ≡ some u
    → Absorbed t u by
absorb-Absorbed n by t u same e = elim (Option-cases t.takeover) [
  | inl free ↦
      let fresh : start_takeover n by t ≡ u = absorb-free n by t u free e in
      let (a, m) = start-fields n by t in
      let unset : t.takeover_mode ≡ none = ground arith in
      rw (← fresh) (record { holds = a; mode = m ∙ ap (λ x. some (strongest x by)) (sym unset) })
  | inr (k, taken) ↦
      let (v, merged, escalated) = absorb-taken n by t u k taken e in
      let (a, m, o) = merge-fields n t v merged in
      let (mode, set) = mode-some t.takeover_mode (ground arith) in
      let (a', m') = escalate-fields by mode k v (o ∙ taken) (m ∙ set) in
      rw (← escalated) (record { holds = a' ∙ a; mode = rw set m' })
]

signal-raised :
    (t : Thread) (i : ℕ) (by : Mode)
    → t.active ≡ some i
    → t.takeover_mode ≡ some by
    → ((signal t).active ≡ some i)
      × ((signal t).takeover_mode ≡ some by)
      × (raised by ((signal t).store i) ≡ true)
unfolding signal
signal-raised t i by_guide a m = ground arith
signal-raised t i by_interrupt a m = ground arith

take_over-accepted :
    (n : ℕ) (by : Mode) (t t' : Thread)
    → take_over n by t ≡ accepted t'
    → (u : Thread) × (absorb_queue n by t ≡ some u) × (ensure_worker (signal u) ≡ t')
take_over-accepted n by t t' e = ground arith

submit_busy-takes_over :
    (n : ℕ) (conflict : Conflict) (by : Mode) (t : Thread)
    → mode_of conflict ≡ some by
    → submit_busy n conflict t ≡ take_over n by t
unfolding submit_busy
submit_busy-takes_over n queue by t e = cc
submit_busy-takes_over n reject by t e = cc
submit_busy-takes_over n interrupt by t e = ground arith
submit_busy-takes_over n guide by t e = ground arith

submit-active :
    (h : Handle) (t : Thread) (i : ℕ)
    → t.active ≡ some i
    → submit h t ≡ submit_busy t.next h.conflict (allocate h t)
unfolding submit submit_locked allocate
submit-active h t i a = rw a

-- A guide or an interrupt that a sound thread accepts while it has an active handle leaves that
-- handle active and raises the event of the strongest takeover since: the guide event, or the
-- cancel event once an interrupt has come.
pub submit-raised :
    (h : Handle) (t t' : Thread) (i : ℕ) (by : Mode)
    → IsSound t
    → t.active ≡ some i
    → mode_of h.conflict ≡ some by
    → submit h t ≡ accepted t'
    → (t'.active ≡ some i)
      × (t'.takeover_mode ≡ some (strongest t.takeover_mode by))
      × (raised (strongest t.takeover_mode by) (t'.store i) ≡ true)
unfolding ensure_worker allocate
submit-raised h t t' i by s a m e =
    let first = rw (submit-active h t i a) at e in
    let second = rw (submit_busy-takes_over t.next h.conflict by (allocate h t) m) at first in
    let (u, absorbed, last) = take_over-accepted t.next by (allocate h t) t' second in
    let o = absorb-Absorbed t.next by (allocate h t) u s.mode absorbed in
    rw (← last) (signal-raised u i (strongest t.takeover_mode by) (o.holds ∙ a) o.mode)
