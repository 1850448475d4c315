-- ===== src/Scheduler/Cron.antt =====
-- Cron expressions: `_next_cron`, `_cron_matches` and `_cron_field_matches` of
-- src/uv_agent/builtin/scheduler/service.py, with the string methods that they call; digits are those
-- of ASCII. `datetime` and `zoneinfo` are a parameter, the calendar.
pub mod Search
pub mod Items
use uv_agent.Common.{
  ℕ, zero, suc, ◌+◌, ◌-◌, ◌*◌, ◌%◌, Bool, true, false, not, ◌&&◌, ◌||◌, Option, none, some, List,
  [], ◌∷◌, length, drop, leb, ltb, ◌==◌, if◌then◌else◌,
}
use uv_agent.Common.Text.{Text, lit, text_eq, starts_with, is_space, strip}
use uv_agent.Common.Outcome.{Outcome, raised, returned, ◌>>=◌}
use uv_agent.Scheduler.Error.{Error, cron_fields, cron_never, cron_zip, invalid_int, unknown_zone}

pub data Zone : Type 0 where
  utc : Zone
  named : ℕ → Zone

-- The fields of a `datetime`; `weekday` counts from Monday.
pub record Fields : Type 0 where
  pub minute : ℕ
  pub hour : ℕ
  pub day : ℕ
  pub month : ℕ
  pub weekday : ℕ

-- What is asked of `datetime` and `zoneinfo`. An instant is a number of microseconds in UTC; the time
-- that clocks of a zone show is a number of minutes.
pub record Calendar : Type 0 where
  -- `ZoneInfo(name)`
  pub zone_info : Text → Option ℕ
  -- `base.astimezone(tz).replace(second=0, microsecond=0)`
  pub wall_minute : Zone → ℕ → ℕ
  -- `current.astimezone(UTC)`
  pub instant : Zone → ℕ → ℕ
  pub fields : ℕ → Fields

abbrev pub is_digit : ℕ → Bool
is_digit c = leb b'0' c && leb c b'9'

unfoldable pub all_digits : Text → Bool
all_digits [] = true
all_digits (c ∷ s) = is_digit c && all_digits s

-- `str.isdigit`
abbrev pub isdigit : Text → Bool
isdigit [] = false
isdigit (c ∷ s) = all_digits (c ∷ s)

-- The number that digits spell behind `n`.
unfoldable pub decimal : ℕ → Text → ℕ
decimal n [] = n
decimal n (c ∷ s) = decimal (n * 10 + (c - b'0')) s

-- Digits, with single underscores between them.
unfoldable pub underscored : ℕ → Bool → Text → Option ℕ
underscored n after_digit [] = if after_digit then some n else none
underscored n after_digit (c ∷ s) =
    let next = underscored (n * 10 + (c - b'0')) true s in
    let skipped = underscored n false s in
    if is_digit c then next else if c == b'_' && after_digit then skipped else none

abbrev pub at_most_zero : Option ℕ → Option ℕ
at_most_zero none = none
at_most_zero (some n) = some 0

unfoldable pub signed : Text → Option ℕ
unfolding underscored
signed [] = none
signed (c ∷ s) =
    if c == b'-'
    then at_most_zero (underscored 0 false s)
    else underscored 0 false (if c == b'+' then s else c ∷ s)

-- `int(text)`. A negative number is 0 here: a step that is not above 0 matches nothing.
unfoldable pub int : Text → Option ℕ
unfolding signed
int text = signed (strip text)

abbrev pub push_char : ℕ → List Text → List Text
push_char c [] = (c ∷ []) ∷ []
push_char c (part ∷ parts) = (c ∷ part) ∷ parts

-- The pieces of a text between the characters that a test finds.
unfoldable pub split_at : (ℕ → Bool) → Text → List Text
split_at test [] = [] ∷ []
split_at test (c ∷ s) =
    let parts = split_at test s in if test c then [] ∷ parts else push_char c parts

-- `str.split(separator)`
abbrev pub split_on : ℕ → Text → List Text
split_on separator = split_at λ c. c == separator

unfoldable pub nonempty : List Text → List Text
nonempty [] = []
nonempty ([] ∷ parts) = nonempty parts
nonempty ((c ∷ s) ∷ parts) = (c ∷ s) ∷ nonempty parts

-- `str.split()`
unfoldable pub split : Text → List Text
unfolding split_at nonempty
split text = nonempty (split_at is_space text)

abbrev pub step_matches : Text → Option ℕ → ℕ → ℕ → Outcome Error Bool
step_matches item none value low = raised (invalid_int item)
step_matches item (some step) value low = returned (ltb 0 step && (value - low) % step == 0)

-- One item of a field. A value is not below `low`, so that the difference is the source's.
unfoldable pub item_matches : Text → ℕ → ℕ → ℕ → Outcome Error Bool
unfolding int decimal
item_matches item value low high =
    if text_eq item (lit "*")
    then returned true
    else if starts_with item (lit "*/")
    then step_matches item (int (drop 2 item)) value low
    else returned (
        isdigit item
        && (leb low (decimal 0 item) && leb (decimal 0 item) high)
        && value == decimal 0 item)

-- The loop of `_cron_field_matches`
unfoldable pub items_match : List Text → ℕ → ℕ → ℕ → Outcome Error Bool
items_match [] value low high = returned false
items_match (item ∷ items) value low high =
    let rest = items_match items value low high in
    item_matches (strip item) value low high >>= λ matches. if matches then returned true else rest

-- `_cron_field_matches`
unfoldable pub field_matches : Text → ℕ → ℕ → ℕ → Outcome Error Bool
unfolding split_at items_match
field_matches part value low high = items_match (split_on b',' part) value low high

-- The fields of a time, each with its value and limits.
abbrev pub limits : Fields → List (ℕ × ℕ × ℕ)
limits time =
    (time.minute, 0, 59)
    ∷ (time.hour, 0, 23)
    ∷ (time.day, 1, 31)
    ∷ (time.month, 1, 12)
    ∷ ((time.weekday + 1) % 7, 0, 6)
    ∷ []

-- `all(...)` over the strict `zip`
unfoldable pub all_match : List Text → List (ℕ × ℕ × ℕ) → Outcome Error Bool
all_match [] [] = returned true
all_match [] (bounds ∷ rest) = raised cron_zip
all_match (part ∷ parts) [] = raised cron_zip
all_match (part ∷ parts) ((value, low, high) ∷ bounds) =
    let rest = all_match parts bounds in
    field_matches part value low high >>= λ matches. if matches then rest else returned false

-- `_cron_matches`
unfoldable pub cron_matches : List Text → Fields → Outcome Error Bool
unfolding all_match
cron_matches parts time = all_match parts (limits time)

-- The zone of `_next_cron`; no name, the empty one and "local" stand for UTC.
unfoldable pub zone_of : Calendar → Option Text → Outcome Error Zone
zone_of calendar none = returned utc
zone_of calendar (some name) =
    if text_eq name [] || text_eq name (lit "local")
    then returned utc
    else elim (calendar.zone_info name) [
      | none ↦ raised (unknown_zone name)
      | some zone ↦ returned (named zone)
    ]

-- The loop of `_next_cron`: as many minutes as the first argument says are tried.
unfoldable pub search_minute : ℕ → Calendar → Zone → List Text → ℕ → Outcome Error ℕ
search_minute zero calendar zone parts current = raised cron_never
search_minute (suc n) calendar zone parts current =
    let rest = search_minute n calendar zone parts (current + 1) in
    cron_matches parts (calendar.fields current) >>= λ matches.
    if matches then returned (calendar.instant zone current) else rest

abbrev pub minutes_tried : ℕ
minutes_tried = 366 * 24 * 60

-- `_next_cron`; a missing expression is an empty one.
unfoldable pub next_cron : Calendar → Text → ℕ → Option Text → Outcome Error ℕ
next_cron calendar expr base timezone =
    if not (length (split expr) == 5) then raised cron_fields else do
      zone ← zone_of calendar timezone
      search_minute minutes_tried calendar zone (split expr) (calendar.wall_minute zone base + 1)
