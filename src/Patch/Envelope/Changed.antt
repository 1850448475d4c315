-- ===== src/Patch/Envelope/Changed.antt =====
-- The changed files that a patch reports.
use uv_agent.Common.{
  ◌≡◌, refl, sym, ap, ◌∙◌, Bool, true, false, Option, none, some, List, [], ◌∷◌, ◌||◌, arith,
  if◌then◌else◌, Bool-cases, inl, inr,
}
use uv_agent.Common.Text.{Text, text_eq, text_eq_iff}
use uv_agent.Patch.Parse.{FileOp, add_file, delete_file, update_file}
use uv_agent.Patch.Envelope.{contains, add, add_op, changed_files_of, text_leb, insert, sorted}

abbrev is_target : Text → Option Text → Bool
is_target path none = false
is_target path (some move_to) = text_eq move_to path

abbrev names : Text → FileOp → Bool
names path (add_file name lines) = text_eq name path
names path (delete_file name) = text_eq name path
names path (update_file name hunks move_to) = text_eq name path || is_target path move_to

-- Whether an operation of a patch names a path.
unfoldable pub is_named : Text → List FileOp → Bool
is_named path [] = false
is_named path (op ∷ ops) = names path op || is_named path ops

contains-add :
    (path name : Text) (changed : List Text)
    → contains path (add name changed) ≡ (text_eq name path || contains path changed)
unfolding add
contains-add path name changed = go (contains name changed) refl
  where
    go :
        (known : Bool)
        → contains name changed ≡ known
        → contains path (if known then changed else name ∷ changed)
          ≡ (text_eq name path || contains path changed)
    go false h = refl
    go true h =
        elim (Bool-cases (text_eq name path))
          as (λ c. contains path changed ≡ (text_eq name path || contains path changed)) [
            | inl same ↦
                rw (same) (ap (λ p. contains p changed) (sym ((text_eq_iff name path).0 same)) ∙ h)
            | inr other ↦ rw (other) refl
          ]

contains-add_op :
    (path : Text) (op : FileOp) (changed : List Text)
    → contains path (add_op op changed) ≡ (names path op || contains path changed)
contains-add_op path (add_file name lines) changed = contains-add path name changed
contains-add_op path (delete_file name) changed = contains-add path name changed
contains-add_op path (update_file name hunks none) changed =
    ground (arith, contains-add path name changed)
contains-add_op path (update_file name hunks (some move_to)) changed =
    ground (arith, contains-add path move_to (add name changed), contains-add path name changed)

contains-changed_files_of :
    (path : Text) (ops : List FileOp) (changed : List Text)
    → contains path (changed_files_of ops changed) ≡ (is_named path ops || contains path changed)
unfolding changed_files_of is_named
contains-changed_files_of path [] changed = refl
contains-changed_files_of path (op ∷ ops) changed =
    ground (
      arith,
      contains-changed_files_of path ops (add_op op changed),
      contains-add_op path op changed,
    )

contains-insert :
    (path t : Text) (ts : List Text)
    → contains path (insert t ts) ≡ (text_eq t path || contains path ts)
unfolding insert
contains-insert path t [] = refl
contains-insert path t (u ∷ us) = ground (arith, contains-insert path t us)

contains-sorted : (path : Text) (ts : List Text) → contains path (sorted ts) ≡ contains path ts
unfolding sorted
contains-sorted path [] = refl
contains-sorted path (t ∷ ts) =
    ground (arith, contains-insert path t (sorted ts), contains-sorted path ts)

text_leb_total : (a b : Text) → text_leb a b ≡ false → text_leb b a ≡ true
unfolding text_leb
text_leb_total [] b h = cc
text_leb_total (x ∷ a) [] h = refl
text_leb_total (x ∷ a) (y ∷ b) h = ground (arith, text_leb_total a b)

abbrev Before : Text → List Text → Type 0
Before t [] = Unit {0}
Before t (u ∷ us) = (text_leb t u ≡ true) × (text_eq t u ≡ false)

-- Each text comes strictly before the next.
unfoldable pub IsAscending : List Text → Type 0
IsAscending [] = Unit {0}
IsAscending (t ∷ ts) = Before t ts × IsAscending ts

-- No text stands twice.
IsDistinct : List Text → Type 0
IsDistinct [] = Unit {0}
IsDistinct (t ∷ ts) = (contains t ts ≡ false) × IsDistinct ts

insert-IsAscending :
    (t : Text) (ts : List Text) → contains t ts ≡ false → IsAscending ts → IsAscending (insert t ts)
unfolding insert IsAscending
insert-IsAscending t [] new asc = (tt, tt)
insert-IsAscending t (u ∷ us) new (before, asc) =
    go (text_leb t u) refl (insert-IsAscending t us (ground (arith, new)) asc)
  where
    other : text_eq t u ≡ false
    other = ground (arith, text_eq_iff t u, text_eq_iff u t, new)

    behind : (us : List Text) → Before u us → text_leb u t ≡ true → Before u (insert t us)
    behind [] b le = (le, ground (arith, text_eq_iff t u, text_eq_iff u t, other))
    behind (v ∷ vs) b le =
        elim (text_leb t v) as (λ c. Before u (if c then t ∷ v ∷ vs else v ∷ insert t vs)) [
          | true ↦ (le, ground (arith, text_eq_iff t u, text_eq_iff u t, other))
          | false ↦ b
        ]

    go :
        (first : Bool)
        → text_leb t u ≡ first
        → IsAscending (insert t us)
        → IsAscending (if first then t ∷ u ∷ us else u ∷ insert t us)
    go true h rest = ((h, other), (before, asc))
    go false h rest = (behind us before (text_leb_total t u h), rest)

sorted-IsAscending : (ts : List Text) → IsDistinct ts → IsAscending (sorted ts)
unfolding sorted IsAscending IsDistinct
sorted-IsAscending [] d = tt
sorted-IsAscending (t ∷ ts) (new, d) =
    insert-IsAscending t (sorted ts) (contains-sorted t ts ∙ new) (sorted-IsAscending ts d)

add-IsDistinct :
    (path : Text) (changed : List Text) → IsDistinct changed → IsDistinct (add path changed)
unfolding add IsDistinct
add-IsDistinct path changed d = go (contains path changed) refl
  where
    go :
        (known : Bool)
        → contains path changed ≡ known
        → IsDistinct (if known then changed else path ∷ changed)
    go true h = d
    go false h = (h, d)

changed_files_of-IsDistinct :
    (ops : List FileOp) (changed : List Text)
    → IsDistinct changed
    → IsDistinct (changed_files_of ops changed)
unfolding changed_files_of
changed_files_of-IsDistinct [] changed d = d
changed_files_of-IsDistinct (op ∷ ops) changed d =
    changed_files_of-IsDistinct ops (add_op op changed) (go op)
  where
    go : (op : FileOp) → IsDistinct (add_op op changed)
    go (add_file name lines) = add-IsDistinct name changed d
    go (delete_file name) = add-IsDistinct name changed d
    go (update_file name hunks none) = add-IsDistinct name changed d
    go (update_file name hunks (some move_to)) =
        add-IsDistinct move_to (add name changed) (add-IsDistinct name changed d)

-- The files that a patch reports as changed are in strictly ascending order, and are those that an
-- operation names, as its path or as the target of a move.
pub sorted-changed_files_of :
    (ops : List FileOp)
    → IsAscending (sorted (changed_files_of ops []))
      × ((path : Text) → contains path (sorted (changed_files_of ops [])) ≡ is_named path ops)
unfolding IsDistinct
sorted-changed_files_of ops = (
  sorted-IsAscending (changed_files_of ops []) (changed_files_of-IsDistinct ops [] tt),
  λ path.
      contains-sorted path (changed_files_of ops [])
      ∙ contains-changed_files_of path ops []
      ∙ or_false (is_named path ops),
)
  where
    or_false : (b : Bool) → (b || false) ≡ b
    or_false true = refl
    or_false false = refl
