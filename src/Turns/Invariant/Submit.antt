-- ===== src/Turns/Invariant/Submit.antt =====
-- A submission keeps the invariant, on every branch of `submit_turn`.
use uv_agent.Common.{
  ℕ, suc, ◌+◌, ◌<◌, ◌≡◌, ◌≢◌, refl, true, Option, none, some, List, [], ◌∷◌, ◌++◌, arith,
  append-nil, Bool-cases, inl, inr, ◌==◌, false,
}
use uv_agent.Turns.Handle.{Conflict, queue, reject, interrupt, guide, Handle, mark_merged}
use uv_agent.Turns.Thread.{
  Thread, Worker, choosing, running, settling, ended, Mode, by_guide, by_interrupt, update, change,
  merge_into_takeover, start_takeover, escalate, absorb_queue, signal, ensure_worker, live_worker,
  Submitted, accepted, conflicting, broken, submit_busy, submit_locked, submit, allocate,
  option_list, signal_handle, take_over, busy,
}
use uv_agent.Turns.Line.{
  IsFresh, IsLine, IsLine-le, IsLine-update, IsLine-update_above, IsLine-widen, IsLine-snoc,
  merge_pending-above, merge_pending-below,
}
use uv_agent.Turns.Invariant.{pending, floor, Serves, IsSound, make}

-- What a worker stands by is the active handle, below the line.
Serves-same :
    (worker : Option Worker) (active : Option ℕ) (waiting : List ℕ) (store other : ℕ → Handle)
    → ((j : ℕ) → j < floor active → other j ≡ store j)
    → Serves worker active waiting store
    → (later : List ℕ) → (worker ≡ none → later ≡ [])
    → Serves worker active later other
Serves-same none active waiting store other same s later nil = (s.0, nil refl)
Serves-same (some choosing) none waiting store other same s later nil = tt
Serves-same (some choosing) (some h) waiting store other same s later nil =
    ground (arith, same h (omega arith))
Serves-same (some (running h)) none waiting store other same s later nil = ground arith
Serves-same (some (running h)) (some i) waiting store other same s later nil =
    ground (arith, same i (omega arith))
Serves-same (some (settling h o)) none waiting store other same s later nil = ground arith
Serves-same (some (settling h o)) (some i) waiting store other same s later nil =
    ground (arith, same i (omega arith))
Serves-same (some ended) active waiting store other same s later nil = s

pub Serves-nil :
    (worker : Option Worker) (active : Option ℕ) (waiting : List ℕ) (store : ℕ → Handle)
    → Serves worker active waiting store
    → worker ≡ none
    → (active ≡ none) × (waiting ≡ [])
Serves-nil none active waiting store s e = s
Serves-nil (some w) active waiting store s e = cc

Serves-live_worker :
    (worker : Option Worker) (active : Option ℕ) (waiting : List ℕ) (store : ℕ → Handle)
    → Serves worker active waiting store
    → (later : List ℕ) → Serves (live_worker worker) active later store
Serves-live_worker none none waiting store s later = tt
Serves-live_worker none (some h) waiting store s later = ground arith
Serves-live_worker (some choosing) none waiting store s later = tt
Serves-live_worker (some choosing) (some h) waiting store s later = s
Serves-live_worker (some (running h)) active waiting store s later = s
Serves-live_worker (some (settling h o)) active waiting store s later = s
Serves-live_worker (some ended) active waiting store s later = absurd s

signal_handle-keeps :
    (mode : Option Mode) (h : Handle)
    → ((signal_handle mode h).status ≡ h.status)
      × ((signal_handle mode h).done ≡ h.done)
      × ((signal_handle mode h).events ≡ h.events)
signal_handle-keeps none h = (refl, refl, refl)
signal_handle-keeps (some by_guide) h = (refl, refl, refl)
signal_handle-keeps (some by_interrupt) h = (refl, refl, refl)

signal-Serves :
    (worker : Option Worker) (h : ℕ) (mode : Option Mode) (waiting : List ℕ) (store : ℕ → Handle)
    → Serves worker (some h) waiting store
    → Serves worker (some h) waiting (change (signal_handle mode) h store)
signal-Serves none h mode waiting store s = ground arith
signal-Serves (some choosing) h mode waiting store s =
    ground (arith, signal_handle-keeps mode (store h))
signal-Serves (some (running i)) h mode waiting store s =
    ground (arith, signal_handle-keeps mode (store h))
signal-Serves (some (settling i o)) h mode waiting store s =
    ground (arith, signal_handle-keeps mode (store h))
signal-Serves (some ended) h mode waiting store s = s

make-signal-IsSound :
    (store : ℕ → Handle) (next : ℕ) (active : Option ℕ) (waiting : List ℕ) (takeover : Option ℕ)
    (mode : Option Mode) (worker : Option Worker)
    → IsSound (make store next active waiting takeover mode worker)
    → IsSound (signal (make store next active waiting takeover mode worker))
unfolding signal
make-signal-IsSound store next none waiting takeover mode worker s = s
make-signal-IsSound store next (some h) waiting takeover mode worker s = record {
  line = IsLine-update store h _ (suc h) _ next (omega arith) s.line;
  exclusive = s.exclusive;
  mode = s.mode;
  serves = signal-Serves worker h mode (waiting ++ option_list takeover) store s.serves;
}

signal-IsSound : (t : Thread) → IsSound t → IsSound (signal t)
signal-IsSound t s =
    make-signal-IsSound t.store t.next t.active t.waiting t.takeover t.takeover_mode t.worker s

ensure_worker-IsSound : (t : Thread) → IsSound t → IsSound (ensure_worker t)
unfolding ensure_worker
ensure_worker-IsSound t s = record {
  line = s.line;
  exclusive = s.exclusive;
  mode = s.mode;
  serves = Serves-live_worker t.worker t.active (pending t) t.store s.serves (pending t);
}

-- The thread once the new handle is allocated under the reference `n`.
pub record IsReady (n : ℕ) (t : Thread) : Type 0 where
  pub sound : IsSound t
  pub line_to : IsLine t.store (floor t.active) (pending t) n
  pub last : t.next ≡ suc n
  pub fresh : IsFresh (t.store n)

pub allocate-IsReady :
    (h : Handle) (t : Thread) → IsFresh h → IsSound t → IsReady t.next (allocate h t)
unfolding allocate
allocate-IsReady h t fresh s =
    let line =
      IsLine-update_above t.store t.next h (floor t.active) (pending t) t.next (omega arith)
        s.line in
    record {
      sound = record {
        line =
            IsLine-widen (update t.store t.next h) (floor t.active) (pending t) t.next (t.next + 1)
              (omega arith) line;
        exclusive = s.exclusive;
        mode = s.mode;
        serves =
            Serves-same t.worker t.active (pending t) t.store (update t.store t.next h)
              (λ j lt.
                let below = IsLine-le t.store (floor t.active) (pending t) t.next s.line in
                ground arith)
              s.serves (pending t)
              (λ e. (Serves-nil t.worker t.active (pending t) t.store s.serves e).1);
      };
      line_to = line;
      last = omega arith;
      fresh = ground arith;
    }

module _ (n : ℕ) (store : ℕ → Handle) (next : ℕ) (active : Option ℕ) (mode : Option Mode)
    (worker : Option Worker) (awake : worker ≢ none) where
  merge-IsSound :
      (waiting : List ℕ) (k : ℕ)
      → IsReady n (make store next active waiting (some k) mode worker)
      → (t : Thread) × (merge_into_takeover n (make store next active waiting (some k) mode worker)
          ≡ some t)
        × IsSound t
  unfolding merge_into_takeover
  merge-IsSound [] k r =
      let (low, kept, high) = r.line_to in
      let ne : (n == k) ≡ false = ground arith in
      let absorb =
        λ (h : Handle). record h { user_inputs = h.user_inputs ++ (store n).user_inputs } in
      let grown = change absorb k store in
      let store' = change (mark_merged (grown k).request_id) n grown in
      rw ne (
        make store' next active [] (some k) mode worker,
        refl,
        record {
          line = (low, ground arith, omega (arith, r.last));
          exclusive = λ e. refl;
          mode = r.sound.mode;
          serves =
              Serves-same worker active (k ∷ []) store store' (λ j lt. ground arith) r.sound.serves
                (k ∷ []) (λ e. absurd (awake e));
        },
      )
  merge-IsSound (i ∷ is) k r = ground (arith, r.sound.exclusive refl)

  start_takeover-IsSound :
      (waiting : List ℕ) (by : Mode)
      → IsReady n (make store next active waiting none mode worker)
      → IsSound (start_takeover n by (make store next active waiting none mode worker))
  unfolding start_takeover
  start_takeover-IsSound [] by r = record {
    line = (r.line_to, r.fresh, omega (arith, r.last));
    exclusive = λ e. refl;
    mode = refl;
    serves =
        Serves-same worker active [] store store (λ j lt. refl) r.sound.serves (n ∷ [])
          (λ e. absurd (awake e));
  }
  start_takeover-IsSound (i ∷ is) by r =
      let line : IsLine store (floor active) (i ∷ is) n = rw (← append-nil is) (r.line_to) in
      let target = (store n).request_id in
      record {
        line = (
          IsLine-le store (floor active) (i ∷ is) n line,
          ground (
            arith,
            merge_pending-above target (i ∷ is) store [] store (floor active) n n (omega arith)
                line,
            r.fresh,
          ),
          omega (arith, r.last),
        );
        exclusive = λ e. refl;
        mode = refl;
        serves =
            Serves-same worker active ((i ∷ is) ++ []) store _
              (λ j lt. ground (
                arith,
                merge_pending-below target (i ∷ is) store [] store (floor active) n j lt line,
                IsLine-le store (floor active) (i ∷ is) n line,
              ))
              r.sound.serves (n ∷ []) (λ e. absurd (awake e));
      }

make-escalate-IsSound :
    (by : Mode) (store : ℕ → Handle) (next : ℕ) (active : Option ℕ) (waiting : List ℕ)
    (takeover : Option ℕ) (mode : Option Mode) (worker : Option Worker)
    → IsSound (make store next active waiting takeover mode worker)
    → IsSound (escalate by (make store next active waiting takeover mode worker))
unfolding escalate
make-escalate-IsSound by_guide store next active waiting takeover mode worker s = s
make-escalate-IsSound by_interrupt store next active waiting none mode worker s = s
make-escalate-IsSound by_interrupt store next active (i ∷ is) (some k) mode worker s =
    ground (arith, s.exclusive refl)
make-escalate-IsSound by_interrupt store next active [] (some k) mode worker s = record {
  line = (s.line.0, ground arith, s.line.2);
  exclusive = λ e. refl;
  mode = refl;
  serves =
      Serves-same worker active (k ∷ []) store _ (λ j lt. ground (arith, s.line.0)) s.serves
        (k ∷ []) (λ e. (Serves-nil worker active (k ∷ []) store s.serves e).1);
}

absorb_queue-IsSound :
    (n : ℕ) (by : Mode) (store : ℕ → Handle) (next : ℕ) (active : Option ℕ) (waiting : List ℕ)
    (takeover : Option ℕ) (mode : Option Mode) (worker : Option Worker)
    → worker ≢ none
    → IsReady n (make store next active waiting takeover mode worker)
    → (t : Thread) × (absorb_queue n by (make store next active waiting takeover mode worker)
        ≡ some t)
      × IsSound t
unfolding absorb_queue
absorb_queue-IsSound n by store next active waiting none mode worker awake r = (
  start_takeover n by (make store next active waiting none mode worker),
  refl,
  start_takeover-IsSound n store next active mode worker awake waiting by r,
)
absorb_queue-IsSound n by store next active waiting (some k) mode worker awake r =
    let (t, e, s) = merge-IsSound n store next active mode worker awake waiting k r in
    (
      escalate by t,
      rw (e, absorb_queue),
      make-escalate-IsSound by t.store t.next t.active t.waiting t.takeover t.takeover_mode t.worker
          s,
    )

-- A submission is accepted into a sound thread or refused; the `RuntimeError` is never raised.
abbrev pub Good : Submitted → Type 0
Good (accepted t) = IsSound t
Good conflicting = Unit {0}
Good broken = ⊥

take_over-Good :
    (n : ℕ) (by : Mode) (t : Thread) → t.worker ≢ none → IsReady n t → Good (take_over n by t)
take_over-Good n by t awake r =
    let (t', e, s) =
      absorb_queue-IsSound n by t.store t.next t.active t.waiting t.takeover t.takeover_mode
        t.worker awake r in
    rw e (ensure_worker-IsSound (signal t') (signal-IsSound t' s))

queue-Good :
    (n : ℕ) (store : ℕ → Handle) (next : ℕ) (active : Option ℕ) (waiting : List ℕ)
    (takeover : Option ℕ) (mode : Option Mode) (worker : Option Worker)
    → worker ≢ none
    → IsReady n (make store next active waiting takeover mode worker)
    → Good (submit_busy n queue (make store next active waiting takeover mode worker))
unfolding submit_busy
queue-Good n store next active waiting (some k) mode worker awake r =
    let (t, e, s) = merge-IsSound n store next active mode worker awake waiting k r in rw e s
queue-Good n store next active waiting none mode worker awake r = ensure_worker-IsSound _ (record {
  line = rw append-nil (
      rw (r.last) (
        IsLine-snoc store (floor active) waiting n r.fresh
          (rw (← append-nil waiting) (r.line_to))));
  exclusive = λ e. absurd (cc e);
  mode = r.sound.mode;
  serves =
      Serves-same worker active (waiting ++ []) store store (λ j lt. refl) r.sound.serves
        ((waiting ++ n ∷ []) ++ []) (λ e. absurd (awake e));
})

submit_busy-Good :
    (n : ℕ) (conflict : Conflict) (t : Thread)
    → t.worker ≢ none
    → IsReady n t
    → Good (submit_busy n conflict t)
unfolding submit_busy
submit_busy-Good n queue t awake r =
    queue-Good n t.store t.next t.active t.waiting t.takeover t.takeover_mode t.worker awake r
submit_busy-Good n reject t awake r = tt
submit_busy-Good n interrupt t awake r = take_over-Good n by_interrupt t awake r
submit_busy-Good n guide t awake r = take_over-Good n by_guide t awake r

awake_of_busy : (t : Thread) → IsSound t → busy t ≡ true → t.worker ≢ none
awake_of_busy t s b e = ground (arith, Serves-nil t.worker t.active (pending t) t.store s.serves e)

Serves-first :
    (n : ℕ) (worker : Option Worker) (store : ℕ → Handle)
    → IsFresh (store n)
    → Serves worker none [] store
    → Serves (live_worker worker) (some n) [] store
Serves-first n none store fresh s = fresh
Serves-first n (some choosing) store fresh s = fresh
Serves-first n (some (running h)) store fresh s = ground arith
Serves-first n (some (settling h o)) store fresh s = ground arith
Serves-first n (some ended) store fresh s = absurd s

first-Good :
    (n : ℕ) (conflict : Conflict) (store : ℕ → Handle) (next : ℕ) (active : Option ℕ)
    (waiting : List ℕ) (takeover : Option ℕ) (mode : Option Mode) (worker : Option Worker)
    → IsReady n (make store next active waiting takeover mode worker)
    → busy (make store next active waiting takeover mode worker) ≡ false
    → IsSound (
        ensure_worker
          (record (make store next active waiting takeover mode worker) { active = some n }))
unfolding ensure_worker
first-Good n conflict store next none [] none mode worker r e = record {
  line = omega (arith, r.last);
  exclusive = λ e. refl;
  mode = r.sound.mode;
  serves = Serves-first n worker store r.fresh r.sound.serves;
}
first-Good n conflict store next (some h) waiting takeover mode worker r e = cc
first-Good n conflict store next none (i ∷ is) takeover mode worker r e = cc
first-Good n conflict store next none [] (some k) mode worker r e = cc

submit_locked-Good :
    (n : ℕ) (conflict : Conflict) (t : Thread) → IsReady n t → Good (submit_locked n conflict t)
unfolding submit_locked
submit_locked-Good n conflict t r = elim (Bool-cases (busy t)) [
  | inl work ↦ rw work (submit_busy-Good n conflict t (awake_of_busy t r.sound work) r)
  | inr idle ↦ rw idle (
      first-Good n conflict t.store t.next t.active t.waiting t.takeover t.takeover_mode t.worker r
        idle)
]

pub submit-Good : (h : Handle) (t : Thread) → IsFresh h → IsSound t → Good (submit h t)
unfolding submit
submit-Good h t fresh s =
    submit_locked-Good t.next h.conflict (allocate h t) (allocate-IsReady h t fresh s)
