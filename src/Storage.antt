-- ===== src/Storage.antt =====
-- `PluginCollection` of src/uv_agent/plugins/storage.py: the documents of one collection, with the table
-- of their indexes. The body of a document is of any type; what `_extract_index_value` finds in it is a
-- parameter, since bodies are JSON.
pub mod Indexed
mod Examples
use uv_agent.Common.{
  ℕ, Bool, true, false, not, ◌&&◌, ◌||◌, Option, none, some, List, [], ◌∷◌, ◌++◌, map, take, drop,
  ltb, leb, ◌==◌, if◌then◌else◌,
}
use uv_agent.Common.Text.{Text, text_eq}
use uv_agent.Common.Queries.{filter, update_where, order_by, insert_by}

-- A row of `plugin_documents`.
pub record Doc (B : Type 0) : Type 0 where
  pub doc_id : Text
  pub body : B
  pub updated_at : ℕ

-- A row of `plugin_document_indexes`.
pub record Entry : Type 0 where
  pub field : Text
  pub value : Text
  pub doc_id : Text

pub record Collection (B : Type 0) : Type 0 where
  pub documents : List (Doc B)
  pub entries : List Entry

-- The order of SQLite on texts.
unfoldable pub text_le : Text → Text → Bool
text_le [] t = true
text_le (c ∷ s) [] = false
text_le (c ∷ s) (d ∷ t) = ltb c d || c == d && text_le s t

-- `max(1, limit)`
abbrev pub at_least_one : ℕ → ℕ
at_least_one n = if leb 1 n then n else 1

unfoldable pub has_entry : Text → Text → Text → List Entry → Bool
has_entry field value id [] = false
has_entry field value id (e ∷ es) =
    (text_eq e.doc_id id && (text_eq e.field field && text_eq e.value value))
    || has_entry field value id es

-- `DELETE FROM plugin_document_indexes` for a document
unfoldable pub drop_entries : Text → List Entry → List Entry
drop_entries id = filter λ e. not (text_eq e.doc_id id)

module _ {B : Type 0} where
  abbrev pub is_doc : Text → Doc B → Bool
  is_doc id doc = text_eq doc.doc_id id

  -- `ORDER BY updated_at DESC, doc_id ASC`
  abbrev pub newer : Doc B → Doc B → Bool
  newer x y =
      ltb y.updated_at x.updated_at || x.updated_at == y.updated_at && text_le x.doc_id y.doc_id

  unfoldable pub find_doc : Text → List (Doc B) → Option (Doc B)
  find_doc id [] = none
  find_doc id (doc ∷ docs) = let rest = find_doc id docs in if is_doc id doc then some doc else rest

  abbrev put_doc : Doc B → List (Doc B) → Option (Doc B) → List (Doc B)
  put_doc doc docs none = docs ++ doc ∷ []
  put_doc doc docs (some old) = update_where (is_doc doc.doc_id) (λ other. doc) docs

  -- `INSERT ... ON CONFLICT ... DO UPDATE`
  unfoldable pub upsert : Doc B → List (Doc B) → List (Doc B)
  unfolding find_doc
  upsert doc docs = put_doc doc docs (find_doc doc.doc_id docs)

  -- `get`
  unfoldable pub get : Text → Collection B → Option B
  unfolding find_doc
  get id c = elim (find_doc id c.documents) [ none ↦ none | some doc ↦ some doc.body ]

  -- `delete`, and whether a row was deleted
  unfoldable pub delete : Text → Collection B → Collection B × Bool
  unfolding find_doc drop_entries
  delete id c = (
    record {
      documents = filter (λ doc. not (is_doc id doc)) c.documents;
      entries = drop_entries id c.entries;
    },
    elim (find_doc id c.documents) [ none ↦ false | some doc ↦ true ],
  )

  -- `list`
  unfoldable pub list_docs : (limit offset : ℕ) → Collection B → List (Doc B)
  unfolding order_by
  list_docs limit offset c = take (at_least_one limit) (drop offset (order_by newer c.documents))

  -- `query_index`; `none` is a value that is no scalar. The key of the table of indexes holds all its
  -- columns, so that a document meets one row of it at most.
  unfoldable pub query_index : Text → Option Text → (limit : ℕ) → Collection B → List (Doc B)
  unfolding order_by filter has_entry
  query_index field none limit c = []
  query_index field (some value) limit c =
      take (at_least_one limit)
        (order_by newer (filter (λ doc. has_entry field value doc.doc_id c.entries) c.documents))

  -- `_extract_index_value`
  module _ (extract : Text → B → Option Text) where
    abbrev entry_for : Text → Text → Option Text → List Entry → List Entry
    entry_for field id none rest = rest
    entry_for field id (some value) rest =
        (record { field = field; value = value; doc_id = id }) ∷ rest

    -- The loop of `put` over its indexes.
    unfoldable pub new_entries : List Text → Text → B → List Entry
    new_entries [] id body = []
    new_entries (field ∷ rest) id body =
        entry_for field id (extract field body) (new_entries rest id body)

    -- `put`, with the fields that have an index
    unfoldable pub put : (fields : List Text) (now : ℕ) → Text → B → Collection B → Collection B
    unfolding upsert drop_entries new_entries
    put fields now id body c = record {
      documents = upsert (record { doc_id = id; body = body; updated_at = now }) c.documents;
      entries = drop_entries id c.entries ++ new_entries fields id body;
    }
