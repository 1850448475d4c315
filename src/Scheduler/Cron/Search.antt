-- ===== src/Scheduler/Cron/Search.antt =====
-- What the loop of `_next_cron` finds.
use mathlib.Core.Path.{subst}
use uv_agent.Common.{
  Bool-cases, ℕ, zero, suc, ◌+◌, ◌<◌, ◌≡◌, refl, ◌⊎◌, inl, inr, Bool, true, false, Option, List,
  length, arith, ◌==◌,
}
use uv_agent.Common.Text.{Text}
use uv_agent.Common.Outcome.{Outcome, raised, returned, >>=-eq-returned}
use uv_agent.Scheduler.Error.{Error, cron_never}
use uv_agent.Scheduler.Cron.{
  Zone, Calendar, split, cron_matches, zone_of, search_minute, minutes_tried, next_cron,
}

outcome_cases :
    (outcome : Outcome Error Bool)
    → ((error : Error) × (outcome ≡ raised error))
      ⊎ ((outcome ≡ returned true) ⊎ (outcome ≡ returned false))
outcome_cases (raised error) = inl (error, refl)
outcome_cases (returned true) = inr (inl refl)
outcome_cases (returned false) = inr (inr refl)

module _ (calendar : Calendar) (zone : Zone) (parts : List Text) where
  abbrev pub matches_at : ℕ → Outcome Error Bool
  matches_at minute = cron_matches parts (calendar.fields minute)

  -- None of the next `n` minutes matches.
  abbrev pub NoneOf : ℕ → ℕ → Type 0
  NoneOf n current = (k : ℕ) → k < n → matches_at (current + k) ≡ returned false

  -- The first of `n` minutes that matches, if nothing raises before it.
  pub data FirstOf (n current : ℕ) : Outcome Error ℕ → Type 0 where
    found :
        {result : Outcome Error ℕ} (k : ℕ)
        → k < n
        → NoneOf k current
        → matches_at (current + k) ≡ returned true
        → result ≡ returned (calendar.instant zone (current + k))
        → FirstOf n current result
    never :
        {result : Outcome Error ℕ}
        → NoneOf n current
        → result ≡ raised cron_never
        → FirstOf n current result
    broken :
        {result : Outcome Error ℕ} (k : ℕ) (error : Error)
        → k < n
        → NoneOf k current
        → matches_at (current + k) ≡ raised error
        → result ≡ raised error
        → FirstOf n current result

  NoneOf-zero : (current : ℕ) → NoneOf 0 current
  NoneOf-zero current k below = absurd (omega arith)

  NoneOf-suc :
      (n current : ℕ)
      → matches_at current ≡ returned false
      → NoneOf n (current + 1)
      → NoneOf (suc n) current
  NoneOf-suc n current here later zero below =
      let same : current + 0 ≡ current = omega arith in rw same here
  NoneOf-suc n current here later (suc k) below =
      let same : current + suc k ≡ current + 1 + k = omega arith in rw same (later k (omega arith))

  FirstOf-suc :
      (n current : ℕ) {result : Outcome Error ℕ}
      → matches_at current ≡ returned false
      → FirstOf n (current + 1) result
      → FirstOf (suc n) current result
  FirstOf-suc n current here (found k below before matches same) =
      let next : current + suc k ≡ current + 1 + k = omega arith in
      found (suc k) (omega arith) (NoneOf-suc k current here before) (rw next matches)
        (rw next same)
  FirstOf-suc n current here (never before same) = never (NoneOf-suc n current here before) same
  FirstOf-suc n current here (broken k error below before raises same) =
      let next : current + suc k ≡ current + 1 + k = omega arith in
      broken (suc k) error (omega arith) (NoneOf-suc k current here before) (rw next raises) same

  here_suc : (current : ℕ) → current + 0 ≡ current
  here_suc current = omega arith

  pub search_minute-FirstOf :
      (n current : ℕ) → FirstOf n current (search_minute n calendar zone parts current)
  unfolding search_minute
  search_minute-FirstOf zero current = never (NoneOf-zero current) refl
  search_minute-FirstOf (suc n) current = elim (outcome_cases (matches_at current)) [
    | inl (error, raises) ↦
        broken 0 error (omega arith) (NoneOf-zero current) (rw (here_suc current) raises)
          (rw raises)
    | inr (inl matches) ↦
        found 0 (omega arith) (NoneOf-zero current) (rw (here_suc current) matches)
          (rw (here_suc current, matches))
    | inr (inr fails) ↦
        FirstOf-suc n current fails (rw fails (search_minute-FirstOf n (current + 1)))
  ]

-- For an expression of five fields in a known zone, `_next_cron` returns the instant of the first
-- minute behind the one of `base` that matches; it raises "no next run" only if none of the 366 * 24 *
-- 60 minutes behind it matches; and it raises something else only if the test of a minute raises that
-- before one has matched.
pub next_cron-FirstOf :
    (calendar : Calendar) (zone : Zone) (expr : Text) (base : ℕ) (timezone : Option Text)
    → length (split expr) ≡ 5
    → zone_of calendar timezone ≡ returned zone
    → FirstOf calendar zone
        (split expr)
        minutes_tried
        (calendar.wall_minute zone base + 1)
        (next_cron calendar expr base timezone)
unfolding next_cron
next_cron-FirstOf calendar zone expr base timezone five known =
    rw (five, known)
      (search_minute-FirstOf calendar zone (split expr) minutes_tried
        (calendar.wall_minute zone base + 1))

-- The clocks of the zone are never put back: what they show later comes later.
abbrev pub IsSteady : Calendar → Zone → Type 0
IsSteady calendar zone =
    (time minute : ℕ)
    → calendar.wall_minute zone time < minute
    → time < calendar.instant zone minute

FirstOf-later :
    (calendar : Calendar) (zone : Zone) (parts : List Text) (n base : ℕ) {result : Outcome Error ℕ}
    {next : ℕ}
    → FirstOf calendar zone parts n (calendar.wall_minute zone base + 1) result
    → result ≡ returned next
    → IsSteady calendar zone
    → base < next
FirstOf-later calendar zone parts n base {next} (found k below before matches same) made steady =
    let same_instant : calendar.instant zone (calendar.wall_minute zone base + 1 + k) ≡ next = cc in
    subst (λ t. base < t) same_instant
      (steady base (calendar.wall_minute zone base + 1 + k) (omega arith))
FirstOf-later calendar zone parts n base (never before same) made steady = cc
FirstOf-later calendar zone parts n base (broken k error below before raises same) made steady = cc

next_cron-returned :
    (calendar : Calendar) (expr : Text) (base : ℕ) (timezone : Option Text) {next : ℕ}
    → next_cron calendar expr base timezone ≡ returned next
    → (length (split expr) ≡ 5) × (zone : Zone) × (zone_of calendar timezone ≡ returned zone)
unfolding next_cron
next_cron-returned calendar expr base timezone same = elim (Bool-cases (length (split expr) == 5)) [
  | inl five ↦
      let (zone, known, _) = >>=-eq-returned (zone_of calendar timezone) _ (rw five at same) in
      (ground (arith, five), zone, known)
  | inr other ↦ cc (rw other at same)
]

-- In a zone whose clocks are never put back, what `_next_cron` returns is later than `base`.
pub next_cron_later :
    (calendar : Calendar) (expr : Text) (base : ℕ) (timezone : Option Text) {next : ℕ}
    → ((zone : Zone) → zone_of calendar timezone ≡ returned zone → IsSteady calendar zone)
    → next_cron calendar expr base timezone ≡ returned next
    → base < next
next_cron_later calendar expr base timezone steady made =
    let (five, zone, known) = next_cron-returned calendar expr base timezone made in
    FirstOf-later calendar zone (split expr) minutes_tried base
      (next_cron-FirstOf calendar zone expr base timezone five known) made (steady zone known)
