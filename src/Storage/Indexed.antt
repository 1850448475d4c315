-- ===== src/Storage/Indexed.antt =====
-- The table of indexes says of each document what stands in its body.
use mathlib.Core.Path.{subst}
use uv_agent.Common.{
  ℕ, ◌≡◌, refl, sym, ap, ◌∙◌, Bool, true, false, not, ◌&&◌, ◌||◌, Option, none, some, List, [], ◌∷◌,
  ◌++◌, take, All, All-append, Bool-cases, Option-cases, inl, inr, arith,
}
use uv_agent.Common.Text.{Text, text_eq, text_eq_iff, text_eq_refl}
use uv_agent.Common.Queries.{filter, order_by}
use uv_agent.Common.Queries.Rows.{All-imp, All-update_where, All-filter, filter-cong}
use uv_agent.Storage.{
  Doc, Entry, Collection, at_least_one, has_entry, is_doc, newer, find_doc, upsert, drop_entries,
  delete, query_index, new_entries, put,
}

has_entry-append :
    (f v id : Text) (xs ys : List Entry)
    → has_entry f v id (xs ++ ys) ≡ (has_entry f v id xs || has_entry f v id ys)
unfolding has_entry
has_entry-append f v id [] ys = refl
has_entry-append f v id (x ∷ xs) ys = ground (arith, has_entry-append f v id xs ys)

has_entry-drop_own :
    (f v id : Text) (es : List Entry) → has_entry f v id (drop_entries id es) ≡ false
unfolding has_entry drop_entries filter
has_entry-drop_own f v id [] = refl
has_entry-drop_own f v id (e ∷ es) = elim (Bool-cases (text_eq e.doc_id id)) [
  | inl own ↦ rw own (has_entry-drop_own f v id es)
  | inr other ↦ rw (other) (rw other (has_entry-drop_own f v id es))
]

other_id : (a id id' : Text) → text_eq id' id ≡ false → text_eq a id ≡ true → text_eq a id' ≡ false
other_id a id id' differ own = elim (Bool-cases (text_eq a id')) [
  | inl same ↦
      let one = (text_eq_iff a id).0 own in
      let two = (text_eq_iff a id').0 same in absurd (cc ((text_eq_iff id' id).1 (sym two ∙ one)))
  | inr no_match ↦ no_match
]

has_entry-drop_other :
    (f v id id' : Text) (es : List Entry)
    → text_eq id' id ≡ false
    → has_entry f v id' (drop_entries id es) ≡ has_entry f v id' es
unfolding has_entry drop_entries filter
has_entry-drop_other f v id id' [] differ = refl
has_entry-drop_other f v id id' (e ∷ es) differ = elim (Bool-cases (text_eq e.doc_id id)) [
  | inl own ↦
      rw (own, other_id e.doc_id id id' differ own) (has_entry-drop_other f v id id' es differ)
  | inr other ↦ rw other (
      ap (λ b. (text_eq e.doc_id id' && (text_eq e.field f && text_eq e.value v)) || b)
        (has_entry-drop_other f v id id' es differ))
]

abbrev pub is_value : Option Text → Text → Bool
is_value none v = false
is_value (some found) v = text_eq found v

abbrev pub has_field : Text → List Text → Bool
has_field f [] = false
has_field f (field ∷ fields) = text_eq field f || has_field f fields

other_way : (id id' : Text) → text_eq id' id ≡ false → text_eq id id' ≡ false
other_way id id' differ = elim (Bool-cases (text_eq id id')) [
  | inl same ↦ absurd (cc ((text_eq_iff id' id).1 (sym ((text_eq_iff id id').0 same))))
  | inr no_match ↦ no_match
]

or-false : (b : Bool) → (b || false) ≡ b
or-false true = refl
or-false false = refl

and-false : (b : Bool) → (b && false) ≡ false
and-false true = refl
and-false false = refl

not-true : (b : Bool) → not b ≡ true → b ≡ false
not-true b same = ground arith

here_lem : (h t : Bool) → ((true && (true && t)) || (h && t)) ≡ ((true || h) && t)
here_lem true true = refl
here_lem true false = refl
here_lem false true = refl
here_lem false false = refl

module _ {B : Type 0} (extract : Text → B → Option Text) where
  -- A document has the value `v` at the field `f`.
  abbrev pub indexed : Text → Text → B → Bool
  indexed f v body = is_value (extract f body) v

  has_entry-new_other :
      (f v id id' : Text) (body : B) (fs : List Text)
      → text_eq id' id ≡ false
      → has_entry f v id' (new_entries extract fs id body) ≡ false
  unfolding has_entry new_entries
  has_entry-new_other f v id id' body [] differ = refl
  has_entry-new_other f v id id' body (field ∷ fs) differ =
      let rest = has_entry-new_other f v id id' body fs differ in
      elim (Option-cases (extract field body)) [
        | inl absent ↦ rw absent rest
        | inr (value, found) ↦ rw (found, other_way id id' differ) rest
      ]

  own_field :
      (f v id : Text) (body : B) (fs : List Text)
      → has_entry f v id (new_entries extract fs id body) ≡ (has_field f fs && indexed f v body)
      → has_entry f v id (new_entries extract (f ∷ fs) id body)
        ≡ ((text_eq f f || has_field f fs) && indexed f v body)
  unfolding has_entry new_entries
  own_field f v id body fs rest = elim (Option-cases (extract f body)) [
    | inl absent ↦ rw (absent, text_eq_refl f) (rw absent at rest ∙ and-false (has_field f fs))
    | inr (value, found) ↦
        rw (found, text_eq_refl f, text_eq_refl id)
          (ap (λ b. (true && (true && text_eq value v)) || b) (rw found at rest)
            ∙ here_lem (has_field f fs) (text_eq value v))
  ]

  has_entry-new_own :
      (f v id : Text) (body : B) (fs : List Text)
      → has_entry f v id (new_entries extract fs id body) ≡ (has_field f fs && indexed f v body)
  unfolding has_entry new_entries
  has_entry-new_own f v id body [] = refl
  has_entry-new_own f v id body (field ∷ fs) =
      let rest = has_entry-new_own f v id body fs in
      elim (Bool-cases (text_eq field f)) [
        | inl same ↦
            subst
              (λ g.
                has_entry f v id (new_entries extract (g ∷ fs) id body)
                ≡ ((text_eq g f || has_field f fs) && indexed f v body))
              (sym ((text_eq_iff field f).0 same)) (own_field f v id body fs rest)
        | inr other ↦ elim (Option-cases (extract field body)) [
          | inl absent ↦ rw (absent, other) rest
          | inr (value, found) ↦ rw (found, other, text_eq_refl id) rest
        ]
      ]

  -- The documents and their entries agree.
  abbrev pub Agrees : List Text → List Entry → Doc B → Type 0
  Agrees fields entries doc =
      (f v : Text)
      → has_field f fields ≡ true
      → has_entry f v doc.doc_id entries ≡ indexed f v doc.body

  abbrev pub Mirrors : List Text → Collection B → Type 0
  Mirrors fields c = All (Agrees fields c.entries) c.documents

  put_entries-own :
      (f v id : Text) (body : B) (fs : List Text) (es : List Entry)
      → has_field f fs ≡ true
      → has_entry f v id (drop_entries id es ++ new_entries extract fs id body) ≡ indexed f v body
  put_entries-own f v id body fs es has = rw (
    has_entry-append f v id (drop_entries id es) (new_entries extract fs id body),
    has_entry-drop_own f v id es,
    has_entry-new_own f v id body fs,
    has,
  )

  put_entries-other :
      (f v id id' : Text) (body : B) (fs : List Text) (es : List Entry)
      → text_eq id' id ≡ false
      → has_entry f v id' (drop_entries id es ++ new_entries extract fs id body)
        ≡ has_entry f v id' es
  put_entries-other f v id id' body fs es differ =
      rw
        (
          has_entry-append f v id' (drop_entries id es) (new_entries extract fs id body),
          has_entry-new_other f v id id' body fs differ,
        )
        (or-false (has_entry f v id' (drop_entries id es))
          ∙ has_entry-drop_other f v id id' es differ)

  All-absent :
      (P Q : Doc B → Type 0) (id : Text) (docs : List (Doc B))
      → find_doc id docs ≡ none
      → ((d : Doc B) → P d → is_doc id d ≡ false → Q d)
      → All P docs
      → All Q docs
  unfolding find_doc
  All-absent P Q id [] absent kept all = tt
  All-absent P Q id (d ∷ docs) absent kept all = elim (Bool-cases (is_doc id d)) [
    | inl here ↦ absurd (cc (rw (here, find_doc) at absent))
    | inr there ↦
        (kept d all.0 there, All-absent P Q id docs (rw (there, find_doc) at absent) kept all.1)
  ]

  put-Mirrors :
      (fields : List Text) (now : ℕ) (id : Text) (body : B) (c : Collection B)
      → Mirrors fields c
      → Mirrors fields (put extract fields now id body c)
  unfolding put upsert
  put-Mirrors fields now id body c old =
      let doc : Doc B = record { doc_id = id; body = body; updated_at = now } in
      let entries = drop_entries id c.entries ++ new_entries extract fields id body in
      let new : Agrees fields entries doc =
        λ f v has. put_entries-own f v id body fields c.entries has in
      let kept : (d : Doc B)
          → Agrees fields c.entries d
          → is_doc id d ≡ false
          → Agrees fields entries d =
        λ d agrees differ f v has.
          put_entries-other f v id d.doc_id body fields c.entries differ ∙ agrees f v has in
      elim (Option-cases (find_doc id c.documents)) [
        | inl absent ↦ rw absent (
            All-append (Agrees fields entries) c.documents (doc ∷ [])
              (All-absent (Agrees fields c.entries) (Agrees fields entries) id c.documents absent
                kept old)
              (new, tt))
        | inr (found, at_id) ↦ rw at_id (
            All-update_where (Agrees fields c.entries) (Agrees fields entries) (is_doc id)
              (λ other. doc) c.documents (λ d _ _. new) kept old)
      ]

  delete-Mirrors :
      (fields : List Text) (id : Text) (c : Collection B)
      → Mirrors fields c
      → Mirrors fields (delete id c).0
  unfolding delete
  delete-Mirrors fields id c old =
      All-filter (Agrees fields c.entries) (Agrees fields (drop_entries id c.entries))
        (λ d. not (is_doc id d)) c.documents
        (λ d agrees differ f v has.
          has_entry-drop_other f v id d.doc_id c.entries (not-true (is_doc id d) differ)
          ∙ agrees f v has)
        old

  -- A `put` or a `delete`.
  pub data Call : Type 0 where
    putting : (now : ℕ) (id : Text) (body : B) → Call
    deleting : (id : Text) → Call

  abbrev pub after : List Text → List Call → Collection B → Collection B
  after fields [] c = c
  after fields (putting now id body ∷ calls) c =
      after fields calls (put extract fields now id body c)
  after fields (deleting id ∷ calls) c = after fields calls (delete id c).0

  after-Mirrors :
      (fields : List Text) (calls : List Call) (c : Collection B)
      → Mirrors fields c
      → Mirrors fields (after fields calls c)
  after-Mirrors fields [] c old = old
  after-Mirrors fields (putting now id body ∷ calls) c old =
      after-Mirrors fields calls (put extract fields now id body c)
        (put-Mirrors fields now id body c old)
  after-Mirrors fields (deleting id ∷ calls) c old =
      after-Mirrors fields calls (delete id c).0 (delete-Mirrors fields id c old)

  -- After any sequence of `put` and `delete` on an empty collection, a query by a field that has an
  -- index returns what a search through the documents for the value in their bodies would: those that
  -- have it, the newest first, and not more than the limit, which is at least one.
  pub query_index-searches :
      (fields : List Text) (calls : List Call) (f v : Text) (limit : ℕ)
      → has_field f fields ≡ true
      → query_index f (some v) limit (after fields calls (record { documents = []; entries = [] }))
        ≡ take (at_least_one limit) (
            order_by newer (
              filter
                (λ doc. indexed f v doc.body)
                (after fields calls (record { documents = []; entries = [] })).documents))
  unfolding query_index
  query_index-searches fields calls f v limit has =
      let c : Collection B = after fields calls (record { documents = []; entries = [] }) in
      let agree =
        All-imp (Agrees fields c.entries)
          (λ doc. has_entry f v doc.doc_id c.entries ≡ indexed f v doc.body) c.documents
          (λ doc agrees. agrees f v has)
          (after-Mirrors fields calls (record { documents = []; entries = [] }) tt) in
      ap (λ docs. take (at_least_one limit) (order_by newer docs))
        (filter-cong (λ doc. has_entry f v doc.doc_id c.entries) (λ doc. indexed f v doc.body)
          c.documents agree)
