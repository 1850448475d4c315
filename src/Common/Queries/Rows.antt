-- ===== src/Common/Queries/Rows.antt =====
-- What the statements on tables keep of their rows.
use mathlib.Core.Path.{◌≡◌, refl}
use mathlib.Core.Logic.{inl, inr}
use mathlib.Core.Bool.{Bool, true, false}
use mathlib.Core.List.{List, [], ◌∷◌}
use uv_agent.Common.Tests.{Bool-cases}
use uv_agent.Common.Lists.{All}
use uv_agent.Common.Queries.{filter, update_where, insert_by, order_by}

module _ {A : Type 0} where
  pub All-imp : (P Q : A → Type 0) (xs : List A) → ((x : A) → P x → Q x) → All P xs → All Q xs
  All-imp P Q [] imp p = tt
  All-imp P Q (x ∷ xs) imp p = (imp x p.0, All-imp P Q xs imp p.1)

  pub All-update_where :
      (P Q : A → Type 0) (test : A → Bool) (change : A → A) (xs : List A)
      → ((x : A) → P x → test x ≡ true → Q (change x))
      → ((x : A) → P x → test x ≡ false → Q x)
      → All P xs
      → All Q (update_where test change xs)
  unfolding update_where
  All-update_where P Q test change [] changed kept p = tt
  All-update_where P Q test change (x ∷ xs) changed kept p =
      let rest = All-update_where P Q test change xs changed kept p.1 in
      elim (Bool-cases (test x)) [
        | inl yes_it_is ↦ (rw yes_it_is (changed x p.0 yes_it_is), rest)
        | inr no_it_is ↦ (rw no_it_is (kept x p.0 no_it_is), rest)
      ]

  pub All-filter :
      (P Q : A → Type 0) (test : A → Bool) (xs : List A)
      → ((x : A) → P x → test x ≡ true → Q x)
      → All P xs
      → All Q (filter test xs)
  unfolding filter
  All-filter P Q test [] kept p = tt
  All-filter P Q test (x ∷ xs) kept p =
      let rest = All-filter P Q test xs kept p.1 in
      elim (Bool-cases (test x)) [
        | inl here ↦ rw here (kept x p.0 here, rest)
        | inr dropped ↦ rw dropped rest
      ]

  pub All-insert_by :
      (P : A → Type 0) (before : A → A → Bool) (x : A) (xs : List A)
      → P x
      → All P xs
      → All P (insert_by before x xs)
  unfolding insert_by
  All-insert_by P before x [] px p = (px, tt)
  All-insert_by P before x (y ∷ ys) px p =
      let rest = All-insert_by P before x ys px p.1 in
      elim (Bool-cases (before x y)) [
        | inl first ↦ rw first (px, p)
        | inr later ↦ rw later (p.0, rest)
      ]

  pub All-order_by :
      (P : A → Type 0) (before : A → A → Bool) (xs : List A) → All P xs → All P (order_by before xs)
  unfolding order_by
  All-order_by P before [] p = tt
  All-order_by P before (x ∷ xs) p =
      All-insert_by P before x (order_by before xs) p.0 (All-order_by P before xs p.1)

  pub filter-kept :
      (test : A → Bool) (x : A) (xs : List A)
      → test x ≡ true
      → filter test (x ∷ xs) ≡ x ∷ filter test xs
  unfolding filter
  filter-kept test x xs kept = rw kept

  pub filter-dropped :
      (test : A → Bool) (x : A) (xs : List A)
      → test x ≡ false
      → filter test (x ∷ xs) ≡ filter test xs
  unfolding filter
  filter-dropped test x xs dropped = rw dropped

  pub filter-cong :
      (test test' : A → Bool) (xs : List A)
      → All (λ x. test x ≡ test' x) xs
      → filter test xs ≡ filter test' xs
  unfolding filter
  filter-cong test test' [] same = refl
  filter-cong test test' (x ∷ xs) same = rw (same.0, filter-cong test test' xs same.1)
