-- ===== src/Goal/Reset.antt =====
-- What `reset_thread_goal` leaves.
use mathlib.Core.Path.{subst}
use uv_agent.Common.{
  ℕ, zero, suc, ◌≤◌, ◌≡◌, refl, sym, ap, ◌∙◌, Bool, true, false, not, ◌||◌, some, List, [], ◌∷◌,
  map, length, take, All, Bool-cases, inl, inr, arith,
}
use uv_agent.Common.Text.{Text, text_eq_refl, strip}
use uv_agent.Common.Queries.{insert_by, order_by}
use uv_agent.Common.Queries.Rows.{All-imp, All-filter}
use uv_agent.Storage
use uv_agent.Storage.{Doc, Collection, is_doc, newer}
use uv_agent.Goal.{Task, Thread, empty_state, body_of, state_of, delete_all, reset_thread_goal}

-- The documents to delete hold the identifier of `d`.
abbrev listed : List (Doc Task) → Doc Task → Bool
listed [] d = false
listed (doc ∷ docs) d = is_doc doc.doc_id d || listed docs d

none_left : (docs : List (Doc Task)) → All (λ d. listed [] d ≡ true) docs → docs ≡ []
none_left [] all = refl
none_left (d ∷ docs) all = absurd (cc (all.0))

delete_all-empty :
    (docs : List (Doc Task)) (c : Collection Task)
    → All (λ d. listed docs d ≡ true) c.documents
    → (delete_all docs c).documents ≡ []
unfolding delete_all Storage.delete
delete_all-empty [] c all = none_left c.documents all
delete_all-empty (doc ∷ docs) c all = delete_all-empty docs (Storage.delete doc.doc_id c).0 (
    All-filter (λ d. listed (doc ∷ docs) d ≡ true) (λ d. listed docs d ≡ true)
      (λ d. not (is_doc doc.doc_id d)) c.documents (λ d before other. ground (arith, before, other))
      all)

swap : (a b c : Bool) → (a || (b || c)) ≡ (b || (a || c))
swap true true c = refl
swap true false c = refl
swap false b c = refl

or-true : (b : Bool) → (b || true) ≡ true
or-true true = refl
or-true false = refl

listed-insert_by :
    (x d : Doc Task) (ys : List (Doc Task))
    → listed (insert_by newer x ys) d ≡ (is_doc x.doc_id d || listed ys d)
unfolding insert_by
listed-insert_by x d [] = refl
listed-insert_by x d (y ∷ ys) = elim (Bool-cases (newer x y)) [
  | inl first ↦ rw first
  | inr later ↦ rw later (
      ap (λ b. is_doc y.doc_id d || b) (listed-insert_by x d ys)
      ∙ swap (is_doc y.doc_id d) (is_doc x.doc_id d) (listed ys d))
]

listed-order_by : (docs : List (Doc Task)) → All (λ d. listed (order_by newer docs) d ≡ true) docs
unfolding order_by
listed-order_by [] = tt
listed-order_by (x ∷ docs) = (
  listed-insert_by x x (order_by newer docs)
      ∙ ap (λ b. b || listed (order_by newer docs) x) (text_eq_refl x.doc_id),
  All-imp (λ d. listed (order_by newer docs) d ≡ true)
      (λ d. listed (insert_by newer x (order_by newer docs)) d ≡ true) docs
      (λ d before.
        listed-insert_by x d (order_by newer docs)
        ∙ (ap (λ b. is_doc x.doc_id d || b) before ∙ or-true (is_doc x.doc_id d)))
      (listed-order_by docs),
)

length-insert_by :
    (x : Doc Task) (ys : List (Doc Task)) → length (insert_by newer x ys) ≡ suc (length ys)
unfolding insert_by
length-insert_by x [] = refl
length-insert_by x (y ∷ ys) = elim (Bool-cases (newer x y)) [
  | inl first ↦ rw first
  | inr later ↦ rw later (ap suc (length-insert_by x ys))
]

length-order_by : (docs : List (Doc Task)) → length (order_by newer docs) ≡ length docs
unfolding order_by
length-order_by [] = refl
length-order_by (x ∷ docs) =
    length-insert_by x (order_by newer docs) ∙ ap suc (length-order_by docs)

take-all : (n : ℕ) (docs : List (Doc Task)) → length docs ≤ n → take n docs ≡ docs
take-all zero [] fits = refl
take-all zero (d ∷ docs) fits = absurd (omega arith)
take-all (suc n) [] fits = refl
take-all (suc n) (d ∷ docs) fits = ap (λ l. d ∷ l) (take-all n docs (omega arith))

list_docs-all :
    (c : Collection Task)
    → length c.documents ≤ 500
    → Storage.list_docs 500 0 c ≡ order_by newer c.documents
unfolding Storage.list_docs
list_docs-all c fits =
    let same = length-order_by c.documents in
    take-all 500 (order_by newer c.documents) (rw same fits)

list_docs-empty : (c : Collection Task) → c.documents ≡ [] → Storage.list_docs 500 0 c ≡ []
unfolding Storage.list_docs order_by
list_docs-empty c empty = rw (empty)

-- If a thread has at most 500 tasks, then after `reset_thread_goal` its goal is disabled and has the new
-- objective, with no white space around it, no phase, no notes and no tasks, whatever it was before.
pub state_of-reset :
    (now : ℕ) (objective : Text) (thread : Thread)
    → length thread.tasks.documents ≤ 500
    → state_of (reset_thread_goal now objective thread) ≡ record {
      stored = record empty_state {
        objective = strip objective;
        created_at = some now;
        updated_at = some now;
      };
      tasks = [];
    }
unfolding state_of reset_thread_goal
state_of-reset now objective thread fits =
    let docs = Storage.list_docs 500 0 thread.tasks in
    let all = list_docs-all thread.tasks fits in
    let gone = delete_all-empty docs thread.tasks (
      subst (λ l. All (λ d. listed l d ≡ true) thread.tasks.documents) (sym all)
        (listed-order_by thread.tasks.documents)) in
    ap
      (λ l. record {
        stored = record empty_state {
          objective = strip objective;
          created_at = some now;
          updated_at = some now;
        };
        tasks = map body_of l;
      })
      (list_docs-empty (delete_all docs thread.tasks) gone)
