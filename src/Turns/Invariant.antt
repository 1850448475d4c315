-- ===== src/Turns/Invariant.antt =====
-- What holds of a thread between any two steps of src/uv_agent/turn_manager.py.
pub mod Submit
use uv_agent.Common.{
  ℕ, zero, suc, ◌+◌, ◌≤◌, ◌<◌, ◌≡◌, ◌≢◌, refl, sym, ap, Bool, true, false, Option, none, some, List,
  [], ◌∷◌, ◌++◌, arith, is_some, append-nil, Bool-cases, ◌||◌, inl, inr,
}
use mathlib.Core.Path.{subst}
use uv_agent.Common.Text.{Text}
use uv_agent.Turns.Handle.{
  Status, queued, Conflict, queue, reject, interrupt, guide, Handle, UserInput, Event, Outcome,
  begin, mark_merged, on_event, on_end, returned, turn_interrupted, raised,
}
use uv_agent.Turns.Thread.{
  Thread, Worker, choosing, running, settling, ended, Mode, by_guide, by_interrupt, update, change,
  merge_pending, merge_into_takeover, start_takeover, escalate, absorb_queue, signal, ensure_worker,
  live_worker, Submitted, accepted, submit_busy, submit_locked, submit, allocate, choose,
  engine_event, engine_end, settle, new_thread, option_list, busy, nonempty, drop_active,
  next_worker, is_queued,
}
use uv_agent.Turns.Line.{
  IsFresh, IsLine, IsLine-lower, IsLine-le, IsLine-update, IsLine-update_above, IsLine-widen,
  IsLine-snoc, merge_pending-above,
}

-- The handles that no worker has taken up.
abbrev pub pending : Thread → List ℕ
pending t = t.waiting ++ option_list t.takeover

abbrev pub floor : Option ℕ → ℕ
floor none = 0
floor (some i) = suc i

-- The worker belongs to the work: with none there is no work, and one that chooses or runs stands
-- by the active handle.
abbrev pub Serves : Option Worker → Option ℕ → List ℕ → (ℕ → Handle) → Type 0
Serves none active waiting store = (active ≡ none) × (waiting ≡ [])
Serves (some choosing) none waiting store = Unit {0}
Serves (some choosing) (some h) waiting store = IsFresh (store h)
Serves (some (running h)) active waiting store = (active ≡ some h) × ((store h).done ≡ false)
Serves (some (settling h _)) active waiting store = (active ≡ some h) × ((store h).done ≡ true)
Serves (some ended) active waiting store = ⊥

pub record IsSound (t : Thread) : Type 0 where
  pub line : IsLine t.store (floor t.active) (pending t) t.next
  pub exclusive : is_some t.takeover ≡ true → t.waiting ≡ []
  pub mode : is_some t.takeover_mode ≡ is_some t.takeover
  pub serves : Serves t.worker t.active (pending t) t.store

pub new_thread-IsSound : IsSound new_thread
unfolding new_thread
new_thread-IsSound = record {
  line = omega arith;
  exclusive = λ e. refl;
  mode = refl;
  serves = (refl, refl);
}

pub done-on_event : (e : Event) (h : Handle) → (on_event e h).done ≡ h.done
unfolding on_event
done-on_event e h = ground arith

pub done-on_end : (outcome : Outcome) (h : Handle) → (on_end outcome h).done ≡ true
unfolding on_end
done-on_end outcome h = ground arith

pub engine_event-IsSound :
    (t : Thread) (h : ℕ) (e : Event)
    → t.worker ≡ some (running h)
    → IsSound t
    → IsSound (engine_event h e t)
unfolding engine_event
engine_event-IsSound t h e w s =
    let (a, d) = rw w at s.serves in
    record {
      line =
          IsLine-update t.store h _ (floor t.active) (pending t) t.next (omega (arith, ap floor a))
            s.line;
      exclusive = s.exclusive;
      mode = s.mode;
      serves = rw w (a, ground (arith, done-on_event e (t.store h)));
    }

pub engine_end-IsSound :
    (t : Thread) (h : ℕ) (outcome : Outcome)
    → t.worker ≡ some (running h)
    → IsSound t
    → IsSound (engine_end h outcome t)
unfolding engine_end
engine_end-IsSound t h outcome w s =
    let (a, d) = rw w at s.serves in
    record {
      line =
          IsLine-update t.store h _ (floor t.active) (pending t) t.next (omega (arith, ap floor a))
            s.line;
      exclusive = s.exclusive;
      mode = s.mode;
      serves = (a, ground (arith, done-on_end outcome (t.store h)));
    }

floor-drop_active : (h : ℕ) (active : Option ℕ) → floor (drop_active h active) ≤ floor active
floor-drop_active h none = omega arith
floor-drop_active h (some i) = ground arith

pub drop_active_self : (h : ℕ) (active : Option ℕ) → active ≡ some h → drop_active h active ≡ none
drop_active_self h active e = ground arith

Serves-next_worker :
    (outcome : Outcome) (waiting : List ℕ) (store : ℕ → Handle)
    → outcome ≢ Outcome.was_cancelled
    → Serves (some (next_worker outcome)) none waiting store
Serves-next_worker returned waiting store alive = tt
Serves-next_worker Outcome.was_cancelled waiting store alive = absurd (alive refl)
Serves-next_worker turn_interrupted waiting store alive = tt
Serves-next_worker (raised error_type message) waiting store alive = tt

idle-nil :
    (waiting : List ℕ) (takeover : Option ℕ)
    → (nonempty waiting || is_some takeover) ≡ false
    → waiting ++ option_list takeover ≡ []
idle-nil [] none e = refl
idle-nil [] (some i) e = cc
idle-nil (i ∷ is) takeover e = cc

pub settle-IsSound :
    (t : Thread) (h : ℕ) (outcome : Outcome)
    → outcome ≢ Outcome.was_cancelled
    → t.worker ≡ some (settling h outcome)
    → IsSound t
    → IsSound (settle h outcome t)
unfolding settle
settle-IsSound t h outcome alive w s =
    let (a, d) = rw w at s.serves in
    let free = drop_active_self h t.active a in
    let line =
      IsLine-lower t.store (floor t.active) (floor (drop_active h t.active)) (pending t) t.next
        (floor-drop_active h t.active) s.line in
    elim (Bool-cases (nonempty t.waiting || is_some t.takeover)) [
      | inl more ↦ rw more (record {
        line = line;
        exclusive = s.exclusive;
        mode = s.mode;
        serves = rw free (Serves-next_worker outcome (pending t) t.store alive);
      })
      | inr idle ↦ rw idle (record {
        line = line;
        exclusive = s.exclusive;
        mode = s.mode;
        serves = (free, idle-nil t.waiting t.takeover idle);
      })
    ]

status-begin : (h : Handle) → (begin h).done ≡ h.done
unfolding begin
status-begin h = refl

abbrev pub make :
    (ℕ → Handle) → ℕ → Option ℕ → List ℕ → Option ℕ → Option Mode → Option Worker → Thread
make store next active waiting takeover takeover_mode worker = record {
  store = store;
  next = next;
  active = active;
  waiting = waiting;
  takeover = takeover;
  takeover_mode = takeover_mode;
  worker = worker;
}

run-Serves :
    (store : ℕ → Handle) (h : ℕ) (waiting : List ℕ)
    → IsFresh (store h)
    → Serves (some (running h)) (some h) waiting (change begin h store)
unfolding begin
run-Serves store h waiting fresh = (refl, ground arith)

pub is_queued-queued : (status : Status) → status ≡ queued → is_queued status ≡ true
is_queued-queued status e = ground arith

make-choose-IsSound :
    (store : ℕ → Handle) (next : ℕ) (active : Option ℕ) (waiting : List ℕ) (takeover : Option ℕ)
    (mode : Option Mode)
    → IsSound (make store next active waiting takeover mode (some choosing))
    → IsSound (choose (make store next active waiting takeover mode (some choosing)))
unfolding choose
make-choose-IsSound store next (some h) waiting takeover mode s =
    rw (is_queued-queued (store h).status s.serves.0) (record {
      line = IsLine-update store h _ (suc h) _ next (omega arith) s.line;
      exclusive = s.exclusive;
      mode = s.mode;
      serves = run-Serves store h [] s.serves;
    })
make-choose-IsSound store next none [] (some k) mode s = record {
  line = s.line.2;
  exclusive = λ e. refl;
  mode = refl;
  serves = run-Serves store k [] s.line.1;
}
make-choose-IsSound store next none (i ∷ is) (some k) mode s = ground (arith, s.exclusive refl)
make-choose-IsSound store next none [] none mode s = record {
  line = s.line;
  exclusive = λ e. refl;
  mode = s.mode;
  serves = (refl, refl);
}
make-choose-IsSound store next none (i ∷ is) none mode s = record {
  line = IsLine-update store i _ (suc i) _ next (omega arith) s.line.2;
  exclusive = λ e. absurd (cc e);
  mode = s.mode;
  serves = run-Serves store i [] s.line.1;
}

pub choose-IsSound : (t : Thread) → t.worker ≡ some choosing → IsSound t → IsSound (choose t)
choose-IsSound t w s =
    let sound = λ (worker : Option Worker).
      make t.store t.next t.active t.waiting t.takeover t.takeover_mode worker in
    subst (λ x. IsSound (choose (sound x))) (sym w)
      (make-choose-IsSound t.store t.next t.active t.waiting t.takeover t.takeover_mode
        (subst (λ x. IsSound (sound x)) w s))
