-- ===== src/Scheduler/Cron/Items.antt =====
-- Fields of cron expressions as they are written, and what `_cron_field_matches` reads in them.
use uv_agent.Common.{
  ℕ, ◌+◌, ◌-◌, ◌/◌, ◌%◌, ◌<◌, ◌≡◌, ◌∙◌, refl, ap, ◌≢◌, inl, inr, Bool, true, false, ◌&&◌, ◌||◌,
  some, List, [], ◌∷◌, ◌++◌, map, leb, ltb, ◌==◌, if◌then◌else◌, Bool-cases, All, arith,
}
use uv_agent.Common.Text.{Text, lit, text_eq, starts_with, strip, join}
use uv_agent.Common.Outcome.{Outcome, returned}
use uv_agent.Scheduler.Error.{Error}
use uv_agent.Scheduler.Cron.{
  isdigit, all_digits, decimal, underscored, signed, int, split_at, item_matches, items_match,
  field_matches,
}

pub data Item : Type 0 where
  every : Item
  step single : (n : ℕ) → Item

-- A number below 100.
unfoldable pub numeral : ℕ → Text
numeral n = if ltb n 10 then (b'0' + n) ∷ [] else (b'0' + n / 10) ∷ (b'0' + n % 10) ∷ []

unfoldable pub render : Item → Text
render every = lit "*"
render (step n) = b'*' ∷ b'/' ∷ numeral n
render (single n) = numeral n

unfoldable pub render_field : List Item → Text
render_field items = join (lit ",") (map render items)

-- What an item means.
unfoldable pub admits : ℕ → ℕ → ℕ → Item → Bool
admits value low high every = true
admits value low high (step n) = ltb 0 n && (value - low) % n == 0
admits value low high (single n) = (leb low n && leb n high) && value == n

unfoldable pub any_admits : ℕ → ℕ → ℕ → List Item → Bool
any_admits value low high [] = false
any_admits value low high (item ∷ items) =
    admits value low high item || any_admits value low high items

abbrev pub IsItem : Item → Type 0
IsItem every = Unit {0}
IsItem (step n) = n < 100
IsItem (single n) = n < 100

if_lem :
    (b c : Bool)
    → ◌≡◌ {A = Outcome Error Bool} (if b then returned true else returned c) (returned (b || c))
if_lem true c = refl
if_lem false c = refl

decimal-numeral : (n : ℕ) → n < 100 → decimal 0 (numeral n) ≡ n
unfolding decimal numeral
decimal-numeral n small = ground arith

isdigit-numeral : (n : ℕ) → n < 100 → isdigit (numeral n) ≡ true
unfolding all_digits numeral
isdigit-numeral n small = ground arith

signed-numeral : (n : ℕ) → n < 100 → signed (numeral n) ≡ some n
unfolding signed underscored numeral
signed-numeral n small = ground arith

strip-numeral : (n : ℕ) → n < 100 → strip (numeral n) ≡ numeral n
unfolding strip numeral
strip-numeral n small = ground arith

strip-render : (item : Item) → IsItem item → strip (render item) ≡ render item
unfolding strip render numeral
strip-render every p = refl
strip-render (step n) p = ground arith
strip-render (single n) p = ground arith

int-numeral : (n : ℕ) → n < 100 → int (numeral n) ≡ some n
unfolding int
int-numeral n small = rw (strip-numeral n small) (signed-numeral n small)

numeral-ne-star : (n : ℕ) → n < 100 → text_eq (numeral n) (lit "*") ≡ false
unfolding text_eq numeral
numeral-ne-star n small = ground arith

starts_with-numeral : (n : ℕ) → n < 100 → starts_with (numeral n) (lit "*/") ≡ false
unfolding starts_with numeral
starts_with-numeral n small = ground arith

item_matches-render :
    (item : Item) (value low high : ℕ)
    → IsItem item
    → item_matches (render item) value low high ≡ returned (admits value low high item)
unfolding render admits item_matches
item_matches-render every value low high p = unfold text_eq in refl
item_matches-render (step n) value low high p =
    unfold text_eq in unfold starts_with in rw (int-numeral n p)
item_matches-render (single n) value low high p =
    rw (numeral-ne-star n p, starts_with-numeral n p, isdigit-numeral n p, decimal-numeral n p)

items_match-render :
    (items : List Item) (value low high : ℕ)
    → All IsItem items
    → items_match (map render items) value low high ≡ returned (any_admits value low high items)
unfolding items_match any_admits
items_match-render [] value low high p = refl
items_match-render (item ∷ items) value low high p =
    let here = item_matches-render item value low high p.0 in
    let later = items_match-render items value low high p.1 in
    rw (strip-render item p.0, here, later) (if_lem (admits value low high item) _)

abbrev NoComma : ℕ → Type 0
NoComma c = (c == b',') ≡ false

numeral-NoComma : (n : ℕ) → n < 100 → All NoComma (numeral n)
unfolding numeral
numeral-NoComma n small = elim (Bool-cases (ltb n 10)) [
  | inl short ↦ rw short (ground arith, tt)
  | inr long ↦ rw long (ground arith, (ground arith, tt))
]

render-NoComma : (item : Item) → IsItem item → All NoComma (render item)
unfolding render
render-NoComma every p = (refl, tt)
render-NoComma (step n) p = (refl, (refl, numeral-NoComma n p))
render-NoComma (single n) p = numeral-NoComma n p

split_comma : Text → List Text
unfolding split_at
split_comma = split_at λ c. c == b','

split-plain : (part : Text) → All NoComma part → split_comma part ≡ part ∷ []
unfolding split_comma
split-plain [] p = refl
split-plain (c ∷ part) p = rw (p.0, split-plain part p.1)

split-comma :
    (part rest : Text)
    → All NoComma part
    → split_comma (part ++ (b',' ∷ rest)) ≡ part ∷ split_comma rest
unfolding split_comma
split-comma [] rest p = refl
split-comma (c ∷ part) rest p = rw (p.0, split-comma part rest p.1)

split-render_field :
    (item : Item) (items : List Item)
    → All IsItem (item ∷ items)
    → split_comma (render_field (item ∷ items)) ≡ map render (item ∷ items)
unfolding render_field join
split-render_field item [] p = split-plain (render item) (render-NoComma item p.0)
split-render_field item (next ∷ items) p =
    split-comma (render item) (render_field (next ∷ items)) (render-NoComma item p.0)
    ∙ ap (λ parts. render item ∷ parts) (split-render_field next items p.1)

-- A field that lists items, each "*", "*/n" or "n" with n below 100, matches exactly the values that
-- one of the items admits: "*" all, "*/n" those at a multiple of n above the lower limit, where n is
-- not 0, and "n" the value n if it is within the limits. Its test never raises.
pub field_matches-render_field :
    (items : List Item) (value low high : ℕ)
    → items ≢ []
    → All IsItem items
    → field_matches (render_field items) value low high ≡ returned (any_admits value low high items)
unfolding field_matches split_comma
field_matches-render_field [] value low high some_item p = absurd (some_item refl)
field_matches-render_field (item ∷ items) value low high some_item p =
    rw (split-render_field item items p) (items_match-render (item ∷ items) value low high p)
