-- ===== src/Turns/Drain.antt =====
-- What waits in a thread is run to its end: the worker's loop, with the engine's outcome for each
-- handle given beforehand, takes up every handle in turn and then stops.
use mathlib.Core.Path.{subst}
use uv_agent.Common.{
  ℕ, zero, suc, ◌<◌, ◌≡◌, ◌≢◌, refl, sym, true, Option, none, some, List, [], ◌∷◌, ◌++◌, arith,
  length, ◌⊎◌, inl, inr,
}
use uv_agent.Turns.Handle.{Outcome, Handle, begin, on_end}
use uv_agent.Turns.Thread.{
  Thread, Worker, choosing, running, Mode, change, choose, engine_end, settle, option_list,
  new_thread,
}
use uv_agent.Turns.Invariant.Submit.{Serves-nil}
use uv_agent.Turns.Steps.{Reach, Reach-IsSound}
use uv_agent.Turns.Accounted.{Reach-IsAccounted}
use uv_agent.Turns.Accounted.Cover.{unfinished, IsIn}
use uv_agent.Turns.Invariant.{
  pending, IsSound, make, choose-IsSound, engine_end-IsSound, settle-IsSound, done-on_end,
  is_queued-queued,
}

-- One turn of the loop of `_thread_worker`.
abbrev after_choice : (ℕ → Outcome) → Thread → Option Worker → Thread
after_choice outcomes t (some (running h)) = settle h (outcomes h) (engine_end h (outcomes h) t)
after_choice outcomes t _ = t

pub round : (ℕ → Outcome) → Thread → Thread
round outcomes t = after_choice outcomes (choose t) (choose t).worker

-- The loop, until the worker has returned.
abbrev go_on : (Thread → Thread) → Thread → Option Worker → Thread
go_on again t (some choosing) = again t
go_on again t _ = t

pub drain : ℕ → (ℕ → Outcome) → Thread → Thread
unfolding round
drain zero outcomes t = t
drain (suc fuel) outcomes t = go_on (λ u. drain fuel outcomes (round outcomes u)) t t.worker

abbrev AllDone : (ℕ → Handle) → List ℕ → Type 0
AllDone store [] = Unit {0}
AllDone store (i ∷ is) = ((store i).done ≡ true) × AllDone store is

abbrev Monotone : (ℕ → Handle) → (ℕ → Handle) → Type 0
Monotone store other = (i : ℕ) → (store i).done ≡ true → (other i).done ≡ true

-- The choice takes up the first of the unfinished handles and leaves the others as they wait.
record Chosen (t u : Thread) (h : ℕ) (rest : List ℕ) : Type 0 where
  runs : u.worker ≡ some (running h)
  holds : u.active ≡ some h
  left : pending u ≡ rest
  keeps : Monotone t.store u.store

Monotone-begin : (h : ℕ) (store : ℕ → Handle) → Monotone store (change begin h store)
unfolding begin
Monotone-begin h store i d = ground arith

make-choose :
    (store : ℕ → Handle) (next : ℕ) (active : Option ℕ) (waiting : List ℕ) (takeover : Option ℕ)
    (mode : Option Mode) (h : ℕ) (rest : List ℕ)
    → IsSound (make store next active waiting takeover mode (some choosing))
    → option_list active ++ (waiting ++ option_list takeover) ≡ h ∷ rest
    → Chosen
        (make store next active waiting takeover mode (some choosing))
        (choose (make store next active waiting takeover mode (some choosing)))
        h
        rest
unfolding choose
make-choose store next (some i) waiting takeover mode h rest s e =
    rw (is_queued-queued (store i).status s.serves.0)
      (record { runs = cc; holds = cc; left = cc; keeps = Monotone-begin i store })
make-choose store next none [] (some i) mode h rest s e = record {
  runs = cc;
  holds = cc;
  left = cc;
  keeps = Monotone-begin i store;
}
make-choose store next none (j ∷ js) (some i) mode h rest s e = ground (arith, s.exclusive refl)
make-choose store next none [] none mode h rest s e = cc
make-choose store next none (i ∷ is) none mode h rest s e = record {
  runs = cc;
  holds = cc;
  left = cc;
  keeps = Monotone-begin i store;
}

choose-Chosen :
    (t : Thread) (h : ℕ) (rest : List ℕ)
    → IsSound t
    → t.worker ≡ some choosing
    → unfinished t ≡ h ∷ rest
    → Chosen t (choose t) h rest
choose-Chosen t h rest s w e =
    let at = λ (worker : Option Worker).
      make t.store t.next t.active t.waiting t.takeover t.takeover_mode worker in
    subst (λ x. Chosen (at x) (choose (at x)) h rest) (sym w)
      (make-choose t.store t.next t.active t.waiting t.takeover t.takeover_mode h rest
        (subst (λ x. IsSound (at x)) w s) e)

make-choose-nil :
    (store : ℕ → Handle) (next : ℕ) (active : Option ℕ) (waiting : List ℕ) (takeover : Option ℕ)
    (mode : Option Mode) (worker : Option Worker)
    → option_list active ++ (waiting ++ option_list takeover) ≡ []
    → ((choose (make store next active waiting takeover mode worker)).worker ≡ none)
      × (unfinished (choose (make store next active waiting takeover mode worker)) ≡ [])
      × ((choose (make store next active waiting takeover mode worker)).store ≡ store)
unfolding choose
make-choose-nil store next (some i) waiting takeover mode worker e = cc
make-choose-nil store next none [] (some i) mode worker e = cc
make-choose-nil store next none [] none mode worker e = (refl, refl, refl)
make-choose-nil store next none (i ∷ is) takeover mode worker e = cc

go_on-choosing :
    (again : Thread → Thread) (t : Thread) (worker : Option Worker)
    → worker ≡ some choosing
    → go_on again t worker ≡ again t
go_on-choosing again t worker e = ground arith

-- The section that settles gives up the handle and changes nothing else.
module _ (h : ℕ) (outcome : Outcome) (t : Thread) where
  settle-fields :
      t.active ≡ some h
      → ((settle h outcome t).store ≡ t.store)
        × ((settle h outcome t).active ≡ none)
        × (pending (settle h outcome t) ≡ pending t)
  unfolding settle
  settle-fields a = ground arith

  settle-worker :
      outcome ≢ Outcome.was_cancelled
      → ((settle h outcome t).worker ≡ some choosing) ⊎ ((settle h outcome t).worker ≡ none)
  unfolding settle
  settle-worker alive = ground arith

ends-done :
    (h : ℕ) (outcome : Outcome) (store : ℕ → Handle)
    → (change (on_end outcome) h store h).done ≡ true
ends-done h outcome store = ground (arith, done-on_end outcome (store h))

ends-Monotone :
    (h : ℕ) (outcome : Outcome) (store : ℕ → Handle)
    → Monotone store (change (on_end outcome) h store)
ends-Monotone h outcome store i d = ground (arith, done-on_end outcome (store h))

-- A round finishes the first of the unfinished handles.
record Progress (t u : Thread) (h : ℕ) (rest : List ℕ) : Type 0 where
  left : unfinished u ≡ rest
  keeps : Monotone t.store u.store
  finished : (u.store h).done ≡ true
  sound : IsSound u
  worker : (u.worker ≡ some choosing) ⊎ (u.worker ≡ none)

module _ (outcomes : ℕ → Outcome) (alive : (i : ℕ) → outcomes i ≢ Outcome.was_cancelled) where
  round-Progress :
      (t : Thread) (h : ℕ) (rest : List ℕ)
      → IsSound t
      → t.worker ≡ some choosing
      → unfinished t ≡ h ∷ rest
      → Progress t (round outcomes t) h rest
  unfolding round engine_end
  round-Progress t h rest s w e =
      let c = choose-Chosen t h rest s w e in
      let outcome = outcomes h in
      let ran = engine_end h outcome (choose t) in
      let (stored, freed, waits) = settle-fields h outcome ran c.holds in
      rw c.runs (record {
        left = cc (freed, waits, c.left);
        keeps = λ i d. rw stored (ends-Monotone h outcome (choose t).store i (c.keeps i d));
        finished = rw stored (ends-done h outcome (choose t).store);
        sound =
            settle-IsSound ran h outcome (alive h) refl
              (engine_end-IsSound (choose t) h outcome c.runs (choose-IsSound t w s));
        worker = settle-worker h outcome ran (alive h);
      })

  round-idle :
      (t : Thread)
      → unfinished t ≡ []
      → t.worker ≡ some choosing
      → ((round outcomes t).worker ≡ none)
        × (unfinished (round outcomes t) ≡ [])
        × ((round outcomes t).store ≡ t.store)
  unfolding round choose
  round-idle t e w =
      let (stops, nil, stored) =
        make-choose-nil t.store t.next t.active t.waiting t.takeover t.takeover_mode t.worker e in
      rw stops (stops, nil, stored)

  drain-idle : (fuel : ℕ) (t : Thread) → t.worker ≡ none → drain fuel outcomes t ≡ t
  unfolding drain
  drain-idle zero t w = refl
  drain-idle (suc fuel) t w = ground arith

  drain-choosing :
      (fuel : ℕ) (t : Thread)
      → t.worker ≡ some choosing
      → drain (suc fuel) outcomes t ≡ drain fuel outcomes (round outcomes t)
  unfolding drain
  drain-choosing fuel t w =
      go_on-choosing (λ u. drain fuel outcomes (round outcomes u)) t t.worker w

  -- What `drain` leaves behind.
  record Drained (t u : Thread) (handles : List ℕ) : Type 0 where
    stops : u.worker ≡ none
    clears : unfinished u ≡ []
    finishes : AllDone u.store handles
    keeps : Monotone t.store u.store

  drain-Drained :
      (fuel : ℕ) (t : Thread) (handles : List ℕ)
      → IsSound t
      → (t.worker ≡ some choosing) ⊎ (t.worker ≡ none)
      → unfinished t ≡ handles
      → length handles < fuel
      → Drained t (drain fuel outcomes t) handles
  drain-Drained zero t handles s w e lt = absurd (omega arith)
  drain-Drained (suc fuel) t [] s (inr w) e lt =
      rw (drain-idle (suc fuel) t w)
        (record { stops = w; clears = e; finishes = tt; keeps = λ i done. done })
  drain-Drained (suc fuel) t (h ∷ rest) s (inr w) e lt =
      ground (arith, Serves-nil t.worker t.active (pending t) t.store s.serves w)
  drain-Drained (suc fuel) t [] s (inl w) e lt =
      let (stops, nil, stored) = round-idle t e w in
      rw (drain-choosing fuel t w, drain-idle fuel (round outcomes t) stops)
        (record { stops = stops; clears = nil; finishes = tt; keeps = λ i done. rw stored done })
  drain-Drained (suc fuel) t (h ∷ rest) s (inl w) e lt =
      let p = round-Progress t h rest s w e in
      let d = drain-Drained fuel (round outcomes t) rest p.sound p.worker p.left (omega arith) in
      rw (drain-choosing fuel t w) (record {
        stops = d.stops;
        clears = d.clears;
        finishes = (d.keeps h p.finished, d.finishes);
        keeps = λ i done. d.keeps i (p.keeps i done);
      })

AllDone-IsIn :
    (store : ℕ → Handle) (is : List ℕ) (j : ℕ)
    → AllDone store is
    → IsIn j is
    → (store j).done ≡ true
AllDone-IsIn store [] j all listed = absurd listed
AllDone-IsIn store (i ∷ is) j all (inl same) = subst (λ k. (store k).done ≡ true) same all.0
AllDone-IsIn store (i ∷ is) j all (inr listed) = AllDone-IsIn store is j all.1 listed

-- Once no more messages come and no task is cancelled, every handle that a reachable thread has
-- accepted is finished, those that were merged into another too: if the worker is about to choose, then
-- the loop, given fuel above the number of the active and waiting handles, ends by its own return, with
-- nothing left to run, and each handle of the thread is done.
pub drain-finishes :
    (t : Thread) (outcomes : ℕ → Outcome) (fuel : ℕ)
    → Reach new_thread t
    → t.worker ≡ some choosing
    → ((i : ℕ) → outcomes i ≢ Outcome.was_cancelled)
    → length (unfinished t) < fuel
    → ((drain fuel outcomes t).worker ≡ none)
      × (unfinished (drain fuel outcomes t) ≡ [])
      × ((j : ℕ) → j < t.next → ((drain fuel outcomes t).store j).done ≡ true)
drain-finishes t outcomes fuel r w alive lt =
    let d = drain-Drained outcomes alive fuel t (unfinished t) (Reach-IsSound r) (inl w) refl lt in
    (
      d.stops,
      d.clears,
      λ j below. elim (Reach-IsAccounted r j below) [
        | inl done ↦ d.keeps j done
        | inr listed ↦ AllDone-IsIn (drain fuel outcomes t).store (unfinished t) j d.finishes listed
      ],
    )
