-- ===== src/Storage/Examples.antt =====
-- Documents that are texts, with an index by the text itself, and the theorem about queries at them.
use uv_agent.Common.{◌≡◌, refl, true, Option, some, List, [], ◌∷◌, take}
use uv_agent.Common.Text.{Text, lit, text_eq}
use uv_agent.Common.Queries.{filter, order_by}
use uv_agent.Storage.{at_least_one, newer, query_index}
use uv_agent.Storage.Indexed.{
  indexed, has_field, Call, putting, deleting, after, query_index-searches,
}

abbrev extract : Text → Text → Option Text
extract field body = some body

abbrev fields : List Text
fields = lit "status" ∷ []

abbrev calls : List (Call extract)
calls =
    putting 1 (lit "a") (lit "todo")
    ∷ putting 2 (lit "b") (lit "done")
    ∷ putting 3 (lit "a") (lit "done")
    ∷ deleting (lit "b")
    ∷ []

status_has : has_field (lit "status") fields ≡ true
unfolding text_eq
status_has = refl

query_index-searches_example :
    query_index
      (lit "status")
      (some (lit "done"))
      5
      (after extract fields calls (record { documents = []; entries = [] }))
    ≡ take (at_least_one 5) (
        order_by newer (
          filter
            (λ doc. indexed extract (lit "status") (lit "done") doc.body)
            (after extract fields calls (record { documents = []; entries = [] })).documents))
query_index-searches_example =
    query_index-searches extract fields calls (lit "status") (lit "done") 5 status_has
