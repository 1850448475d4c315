-- ===== src/Turns/Streams.antt =====
-- What a reader of `TurnHandle.events()` sees: events, and at most one end mark, after all of them.
use mathlib.Core.Path.{subst}
use uv_agent.Common.{
  ℕ, suc, ◌≡◌, true, false, Bool, Option, none, some, List, [], ◌∷◌, ◌++◌, arith, ◌==◌, is_some,
  append-nil, Bool-cases, inl, inr, ◌∙◌, sym, if◌then◌else◌,
}
use uv_agent.Common.Text.{Text}
use uv_agent.Turns.Handle.{
  Conflict, queue, reject, interrupt, guide, UserInput, Event, Outcome, Handle, mark_merged,
  on_event, begin, on_end, new_handle, returned, turn_interrupted, raised, stopped, errored,
  was_merged,
}
use uv_agent.Turns.Thread.{
  Thread, Mode, by_guide, by_interrupt, update, change, merge_pending, merge_into_takeover,
  start_takeover, escalate, absorb_queue, signal, signal_handle, ensure_worker, Submitted, accepted,
  or_broken, signalled, submit_busy, submit_locked, submit, allocate, choose, engine_event,
  engine_end, settle, new_thread, option_list, busy, is_queued,
}
use uv_agent.Turns.Line.{IsFresh, IsLine, IsLine-update}
use uv_agent.Turns.Invariant.{floor, IsSound}
use uv_agent.Turns.Invariant.Submit.{IsReady, allocate-IsReady}
use uv_agent.Turns.Steps.{
  Step, submits, chooses, receives, ends, settles, Reach, here, next, Reach-IsSound,
  new_handle-IsFresh,
}

-- No end mark, and an end mark that stands last and nowhere else.
abbrev pub IsOpen : List (Option Event) → Type 0
IsOpen [] = Unit {0}
IsOpen (none ∷ es) = ⊥
IsOpen (some e ∷ es) = IsOpen es

abbrev pub EndsOnce : List (Option Event) → Type 0
EndsOnce [] = ⊥
EndsOnce (none ∷ []) = Unit {0}
EndsOnce (none ∷ e ∷ es) = ⊥
EndsOnce (some e ∷ es) = EndsOnce es

abbrev pub Stream : Bool → List (Option Event) → Type 0
Stream true es = EndsOnce es
Stream false es = IsOpen es

abbrev pub IsStream : Handle → Type 0
IsStream h = Stream h.done h.events

IsOpen-emit : (es : List (Option Event)) (e : Event) → IsOpen es → IsOpen (es ++ some e ∷ [])
IsOpen-emit [] e o = tt
IsOpen-emit (none ∷ es) e o = o
IsOpen-emit (some f ∷ es) e o = IsOpen-emit es e o

EndsOnce-finish : (es : List (Option Event)) → IsOpen es → EndsOnce (es ++ none ∷ [])
EndsOnce-finish [] o = tt
EndsOnce-finish (none ∷ es) o = absurd o
EndsOnce-finish (some f ∷ es) o = EndsOnce-finish es o

IsStream-IsOpen : (h : Handle) → h.done ≡ false → IsStream h → IsOpen h.events
IsStream-IsOpen h d s = subst (λ b. Stream b h.events) d s

stays_open : (h : Handle) → h.done ≡ false → IsOpen h.events → IsStream h
stays_open h d o = subst (λ b. Stream b h.events) (sym d) o

closes :
    (h : Handle) (es : List (Option Event))
    → h.done ≡ true
    → h.events ≡ es ++ none ∷ []
    → IsOpen es
    → IsStream h
closes h es d e o =
    subst (λ b. Stream b h.events) (sym d) (subst EndsOnce (sym e) (EndsOnce-finish es o))

events-on_event :
    (e : Event) (h : Handle)
    → ((on_event e h).done ≡ h.done) × ((on_event e h).events ≡ h.events ++ some e ∷ [])
unfolding on_event
events-on_event e h = ground arith

on_event-IsStream : (e : Event) (h : Handle) → h.done ≡ false → IsStream h → IsStream (on_event e h)
on_event-IsStream e h d s =
    let (kept, added) = events-on_event e h in
    stays_open (on_event e h) (kept ∙ d)
      (subst IsOpen (sym added) (IsOpen-emit h.events e (IsStream-IsOpen h d s)))

mark_merged-IsStream :
    (target : Text) (h : Handle) → h.done ≡ false → IsStream h → IsStream (mark_merged target h)
unfolding mark_merged
mark_merged-IsStream target h d s =
    closes (mark_merged target h) (h.events ++ some (was_merged h.request_id target) ∷ [])
      (ground arith) (ground arith)
      (IsOpen-emit h.events (was_merged h.request_id target) (IsStream-IsOpen h d s))

on_end-IsStream :
    (outcome : Outcome) (h : Handle) → h.done ≡ false → IsStream h → IsStream (on_end outcome h)
unfolding on_end
on_end-IsStream returned h d s =
    closes (on_end returned h) h.events (ground arith) (ground arith) (IsStream-IsOpen h d s)
on_end-IsStream Outcome.was_cancelled h d s =
    closes (on_end Outcome.was_cancelled h)
      (h.events ++ some (Event.was_cancelled h.request_id) ∷ []) (ground arith) (ground arith)
      (IsOpen-emit h.events (Event.was_cancelled h.request_id) (IsStream-IsOpen h d s))
on_end-IsStream turn_interrupted h d s =
    closes (on_end turn_interrupted h) (h.events ++ some stopped ∷ []) (ground arith) (ground arith)
      (IsOpen-emit h.events stopped (IsStream-IsOpen h d s))
on_end-IsStream (raised error_type message) h d s =
    closes (on_end (raised error_type message) h) (h.events ++ some errored ∷ []) (ground arith)
      (ground arith) (IsOpen-emit h.events errored (IsStream-IsOpen h d s))

-- Every handle of the store.
abbrev pub Streams : (ℕ → Handle) → Type 0
Streams store = (i : ℕ) → IsStream (store i)

Streams-update :
    (store : ℕ → Handle) (i : ℕ) (h : Handle)
    → Streams store
    → IsStream h
    → Streams (update store i h)
Streams-update store i h ss s j = elim (Bool-cases (i == j)) [
  | inl e ↦ subst (λ b. IsStream (if b then h else store j)) (sym e) s
  | inr e ↦ subst (λ b. IsStream (if b then h else store j)) (sym e) (ss j)
]

merge_pending-Streams :
    (target : Text) (is : List ℕ) (store : ℕ → Handle) (inputs : List UserInput) (lo hi : ℕ)
    → IsLine store lo is hi
    → Streams store
    → Streams (merge_pending target is store inputs).0
unfolding merge_pending
merge_pending-Streams target [] store inputs lo hi line ss = ss
merge_pending-Streams target (i ∷ is) store inputs lo hi line ss =
    merge_pending-Streams target is (change (mark_merged target) i store) _ (suc i) hi
      (IsLine-update store i (mark_merged target (store i)) (suc i) is hi (omega arith) line.2)
      (Streams-update store i _ ss (mark_merged-IsStream target (store i) (line.1.1) (ss i)))

signal-Streams : (t : Thread) → Streams t.store → Streams (signal t).store
unfolding signal
signal-Streams t ss = elim t.active as (λ a. Streams (signal (record t { active = a })).store) [
  | none ↦ ss
  | some i ↦
      Streams-update t.store i _ ss
        (elim t.takeover_mode as (λ m. IsStream (signal_handle m (t.store i))) [
          | none ↦ ss i
          | some m ↦ elim m as (λ n. IsStream (signal_handle (some n) (t.store i))) [
            | by_guide ↦ ss i
            | by_interrupt ↦ ss i
          ]
        ])
]

escalate-Streams : (by : Mode) (t : Thread) → Streams t.store → Streams (escalate by t).store
unfolding escalate
escalate-Streams by_guide t ss = ss
escalate-Streams by_interrupt t ss =
    elim t.takeover as (λ o. Streams (escalate by_interrupt (record t { takeover = o })).store) [
      | none ↦ ss
      | some k ↦ Streams-update t.store k _ ss (ss k)
    ]

abbrev grow : List UserInput → Handle → Handle
grow inputs h = record h { user_inputs = h.user_inputs ++ inputs }

grow-done :
    (inputs : List UserInput) (k n : ℕ) (store : ℕ → Handle)
    → (store n).done ≡ false
    → (change (grow inputs) k store n).done ≡ false
grow-done inputs k n store d = ground arith

-- What a submission leaves behind, if it is accepted.
abbrev Kept : Submitted → Type 0
Kept (accepted t) = Streams t.store
Kept _ = Unit {0}

merge-Kept :
    (n : ℕ) (t : Thread)
    → (t.store n).done ≡ false
    → Streams t.store
    → Kept (or_broken (merge_into_takeover n t))
unfolding merge_into_takeover
merge-Kept n t d ss =
    elim t.takeover as (λ o. Kept (or_broken (merge_into_takeover n (record t { takeover = o })))) [
      | none ↦ tt
      | some k ↦ elim (Bool-cases (n == k)) [
        | inl e ↦ rw e ss
        | inr e ↦ rw e (
            let grown = change (grow (t.store n).user_inputs) k t.store in
            Streams-update grown n _ (Streams-update t.store k _ ss (ss k)) (
              mark_merged-IsStream (grown k).request_id (grown n)
                (grow-done (t.store n).user_inputs k n t.store d)
                (Streams-update t.store k _ ss (ss k) n)))
      ]
    ]

start_takeover-Streams :
    (n : ℕ) (by : Mode) (t : Thread) (lo hi : ℕ)
    → IsLine t.store lo t.waiting hi
    → Streams t.store
    → Streams (start_takeover n by t).store
unfolding start_takeover
start_takeover-Streams n by t lo hi line ss = go t.waiting line
  where
    go :
        (waiting : List ℕ)
        → IsLine t.store lo waiting hi
        → Streams (start_takeover n by (record t { waiting = waiting })).store
    go [] l = ss
    go (i ∷ is) l =
        let merged = merge_pending-Streams (t.store n).request_id (i ∷ is) t.store [] lo hi l ss in
        Streams-update _ n _ merged (merged n)

Kept-signalled : (r : Option Thread) → Kept (or_broken r) → Kept (or_broken (signalled r))
unfolding ensure_worker
Kept-signalled none k = tt
Kept-signalled (some t) k = signal-Streams t k

Kept-escalated :
    (by : Mode) (r : Option Thread)
    → Kept (or_broken r)
    → Kept (or_broken (elim r [ none ↦ none | some t ↦ some (escalate by t) ]))
Kept-escalated by none k = tt
Kept-escalated by (some t) k = escalate-Streams by t k

absorb_queue-Kept :
    (n : ℕ) (by : Mode) (t : Thread)
    → IsReady n t
    → Streams t.store
    → Kept (or_broken (absorb_queue n by t))
unfolding absorb_queue
absorb_queue-Kept n by t r ss = go t.takeover (r.line_to)
  where
    go :
        (takeover : Option ℕ)
        → IsLine t.store (floor t.active) (t.waiting ++ option_list takeover) n
        → Kept (or_broken (absorb_queue n by (record t { takeover = takeover })))
    go none line =
        start_takeover-Streams n by (record t { takeover = none }) (floor t.active) n
          (rw (← append-nil t.waiting) line) ss
    go (some k) line =
        Kept-escalated by (merge_into_takeover n (record t { takeover = some k }))
          (merge-Kept n (record t { takeover = some k }) r.fresh.1 ss)

submit_busy-Kept :
    (n : ℕ) (conflict : Conflict) (t : Thread)
    → IsReady n t
    → Streams t.store
    → Kept (submit_busy n conflict t)
unfolding submit_busy ensure_worker
submit_busy-Kept n queue t r ss = elim (Bool-cases (is_some t.takeover)) [
  | inl e ↦ rw e (merge-Kept n t r.fresh.1 ss)
  | inr e ↦ rw e ss
]
submit_busy-Kept n reject t r ss = tt
submit_busy-Kept n interrupt t r ss =
    Kept-signalled (absorb_queue n by_interrupt t) (absorb_queue-Kept n by_interrupt t r ss)
submit_busy-Kept n guide t r ss =
    Kept-signalled (absorb_queue n by_guide t) (absorb_queue-Kept n by_guide t r ss)

submit-Kept :
    (h : Handle) (t : Thread) → IsFresh h → IsSound t → Streams t.store → Kept (submit h t)
unfolding submit submit_locked ensure_worker allocate
submit-Kept h t fresh s ss =
    let r = allocate-IsReady h t fresh s in
    let opened : IsStream h = stays_open h fresh.1 (subst IsOpen (sym fresh.2) tt) in
    let stored = Streams-update t.store t.next h ss opened in
    elim (Bool-cases (busy t)) [
      | inl work ↦ rw work (submit_busy-Kept t.next h.conflict (allocate h t) r stored)
      | inr idle ↦ rw idle stored
    ]

run-Streams : (h : ℕ) (store : ℕ → Handle) → Streams store → Streams (change begin h store)
unfolding begin
run-Streams h store ss = Streams-update store h _ ss (ss h)

choose-Streams : (t : Thread) → Streams t.store → Streams (choose t).store
unfolding choose
choose-Streams t ss = go t.active t.takeover t.waiting
  where
    go :
        (active takeover : Option ℕ) (waiting : List ℕ)
        → Streams
            (choose (record t { active = active; takeover = takeover; waiting = waiting })).store
    go (some h) takeover waiting = elim (Bool-cases (is_queued (t.store h).status)) [
      | inl e ↦ rw e (run-Streams h t.store ss)
      | inr e ↦ rw e ss
    ]
    go none (some k) waiting = run-Streams k t.store ss
    go none none [] = ss
    go none none (i ∷ is) = run-Streams i t.store ss

settle-store : (h : ℕ) (outcome : Outcome) (t : Thread) → (settle h outcome t).store ≡ t.store
unfolding settle
settle-store h outcome t = ground arith

Step-Streams : {t u : Thread} → Step t u → IsSound t → Streams t.store → Streams u.store
unfolding engine_event engine_end
Step-Streams (submits {t = t} request_id input thread_id level conflict e) s ss = subst Kept e (
    submit-Kept (new_handle request_id input thread_id level conflict) t
      (new_handle-IsFresh request_id input thread_id level conflict) s ss)
Step-Streams (chooses {t = t} w) s ss = choose-Streams t ss
Step-Streams (receives {t = t} h e w) s ss =
    Streams-update t.store h _ ss (on_event-IsStream e (t.store h) ((rw w at s.serves).1) (ss h))
Step-Streams (ends {t = t} h outcome alive w) s ss =
    Streams-update t.store h _ ss
      (on_end-IsStream outcome (t.store h) ((rw w at s.serves).1) (ss h))
Step-Streams (settles {t = t} h outcome alive w) s ss =
    subst Streams (sym (settle-store h outcome t)) ss

new_thread-Streams : Streams new_thread.store
unfolding new_thread new_handle
new_thread-Streams i = tt

-- In every reachable thread each handle's stream of events is open while the handle is not done, and
-- once it is done the stream ends with its one end mark: nothing is emitted to a finished handle.
pub Reach-Streams : {t : Thread} → Reach new_thread t → Streams t.store
Reach-Streams here = new_thread-Streams
Reach-Streams (next r st) = Step-Streams st (Reach-IsSound r) (Reach-Streams r)
