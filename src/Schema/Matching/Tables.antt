-- ===== src/Schema/Matching/Tables.antt =====
-- Each entity against its table, name by name.
use order_outbox_lab.Common.{
  ℕ, ◌≡◌, refl, true, List, [], ◌∷◌, ◌++◌, some, Text, text_eq, codes, ℕ_discrete, Memᴰ,
}
use order_outbox_lab.Schema.{Value, Schema, find_table, run_all}
use order_outbox_lab.Schema.Migrations.{
  audit_up, orders_table, outbox_table, outbox_index, stage_events_table, stage_retries_table,
}
use order_outbox_lab.Schema.Reverting.{audited, init_schema, audited_table, audit-up}
use order_outbox_lab.Schema.Entities.{
  base_entity, order_entity, outbox_entity, order_stage_event_entity, stage_retry_entity, entities,
}
use order_outbox_lab.Stages.Handlers.{upper_first}
use order_outbox_lab.Schema.Reordering.{take_out, reorders, reorders-Permᴰ}
use order_outbox_lab.Schema.Matching.{
  is_lower, is_word, NamingStrategy, Described-discrete, Matches, AreMatched,
}

unfoldable matching : Unit {0}
unfolding entities base_entity order_entity outbox_entity order_stage_event_entity
    stage_retry_entity find_table text_eq reorders take_out Described-discrete ℕ_discrete is_lower
matching = tt

module _ (naming : NamingStrategy) where
  -- The names of the properties, in SQL.
  abbrev Renames : Text → Text → Type 0
  Renames from to = naming.column_name from ≡ to

  one_word : (word : Text) → is_word word ≡ true → Renames word word
  one_word word h = naming.snake_case word [] (h, tt)

  two_words :
      (first second : Text)
      → is_word first ≡ true
      → is_word second ≡ true
      → Renames (first ++ upper_first second) (first ++ (codes "_" ++ second))
  two_words first second h k = naming.snake_case first (second ∷ []) (h, (k, tt))

  id_name : Renames (codes "id") (codes "id")
  unfolding is_lower
  id_name = one_word _ refl

  created_name : Renames (codes "createdAt") (codes "created_at")
  unfolding is_lower
  created_name = two_words (codes "created") (codes "at") refl refl

  order_id_name : Renames (codes "orderId") (codes "order_id")
  unfolding is_lower
  order_id_name = two_words (codes "order") (codes "id") refl refl

  stage_name : Renames (codes "stage") (codes "stage")
  unfolding is_lower
  stage_name = one_word _ refl

  status_name : Renames (codes "status") (codes "status")
  unfolding is_lower
  status_name = one_word _ refl

  updated_name : Renames (codes "updatedAt") (codes "updated_at")
  unfolding is_lower
  updated_name = two_words (codes "updated") (codes "at") refl refl

  deleted_name : Renames (codes "deletedAt") (codes "deleted_at")
  unfolding is_lower
  deleted_name = two_words (codes "deleted") (codes "at") refl refl

  order-Matches :
      (rows : List (List Value))
      → Matches naming
          (outbox_index ∷ [])
          order_entity
          (audited_table (record orders_table { rows = rows }))
  unfolding matching
  order-Matches rows =
      let customer : Renames (codes "customerName") (codes "customer_name") =
        two_words (codes "customer") (codes "name") refl refl in
      let amount : Renames (codes "amount") (codes "amount") = one_word _ refl in
      record {
        columns =
            rw (id_name, created_name, updated_name, deleted_name, customer, amount, status_name)
              (reorders-Permᴰ Described-discrete _ _ refl);
        key = rw id_name refl;
        uniques = refl;
        relations = tt;
        plain = refl;
      }

  outbox-Matches :
      (rows : List (List Value))
      → Matches naming
          (outbox_index ∷ [])
          outbox_entity
          (audited_table (record outbox_table { rows = rows }))
  unfolding matching
  outbox-Matches rows =
      let payload : Renames (codes "payload") (codes "payload") = one_word _ refl in
      let processed : Renames (codes "processed") (codes "processed") = one_word _ refl in
      let available : Renames (codes "availableAt") (codes "available_at") =
        two_words (codes "available") (codes "at") refl refl in
      let processed_at : Renames (codes "processedAt") (codes "processed_at") =
        two_words (codes "processed") (codes "at") refl refl in
      record {
        columns =
            rw
              (
                id_name, created_name, updated_name, deleted_name, order_id_name, payload,
                stage_name, processed, available, processed_at,
              )
              (reorders-Permᴰ Described-discrete _ _ refl);
        key = rw id_name refl;
        uniques = refl;
        relations = (Memᴰ.head refl, tt);
        plain = rw (processed, available) refl;
      }

  event-Matches :
      (rows : List (List Value))
      → Matches naming
          (outbox_index ∷ [])
          order_stage_event_entity
          (record stage_events_table { rows = rows })
  unfolding matching
  event-Matches rows =
      let attempt : Renames (codes "attempt") (codes "attempt") = one_word _ refl in
      let detail : Renames (codes "detail") (codes "detail") = one_word _ refl in
      record {
        columns =
            rw (id_name, order_id_name, stage_name, status_name, attempt, detail, created_name)
              (reorders-Permᴰ Described-discrete _ _ refl);
        key = rw id_name refl;
        uniques = rw (order_id_name, stage_name, attempt, status_name) refl;
        relations = tt;
        plain = refl;
      }

  retry-Matches :
      (rows : List (List Value))
      → Matches naming
          (outbox_index ∷ [])
          stage_retry_entity
          (record stage_retries_table { rows = rows })
  unfolding matching
  retry-Matches rows =
      let count : Renames (codes "retryCount") (codes "retry_count") =
        two_words (codes "retry") (codes "count") refl refl in
      let error : Renames (codes "lastError") (codes "last_error") =
        two_words (codes "last") (codes "error") refl refl in
      record {
        columns =
            rw (order_id_name, stage_name, count, status_name, error)
              (reorders-Permᴰ Described-discrete _ _ refl);
        key = rw (order_id_name, stage_name) refl;
        uniques = refl;
        relations = tt;
        plain = refl;
      }

-- Whatever rows the tables hold and whenever the migrations run, AddAuditColumns leaves for each of
-- the four entities a table of its name with one column for each property and no other, which has the
-- name that the naming strategy gives the property, and its type, nullability and default, where the
-- key that a decorator generates has a column that generates one; the primary keys are the same, the
-- unique constraints are on the columns of the unique indexes of the entity, the other indexes on
-- those of the other ones, and each relation of the entity is a foreign key of the table with ON DELETE
-- CASCADE, from the column of its @JoinColumn to the key of the table of its target. The naming strategy is any that
-- writes camelCase names of lower-case words in snake_case. The names of indexes, and the foreign keys
-- for which an entity declares no relation, are not compared.
pub entities-AreMatched :
    (naming : NamingStrategy) (at : ℕ) (orders outbox events retries : List (List Value))
    → (s : Schema) × (run_all at audit_up (init_schema orders outbox events retries) ≡ some s)
      × AreMatched naming s
unfolding matching
entities-AreMatched naming at orders outbox events retries = (
  audited orders outbox events retries,
  audit-up at orders outbox events retries,
  (
    (_, refl, order-Matches naming orders),
    (
      (_, refl, outbox-Matches naming outbox),
      ((_, refl, event-Matches naming events), ((_, refl, retry-Matches naming retries), tt)),
    ),
  ),
)
