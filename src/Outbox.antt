-- ===== src/Outbox.antt =====
-- src/modules/outbox but for its relay: the constants, the entry types, `enqueueOutbox` and the two
-- statements of the relay's transaction.
pub mod Relay
pub mod Claiming
use order_outbox_lab.Common.{
  ℕ, Bool, true, false, not, ◌&&◌, ◌||◌, List, [], ◌∷◌, map, Option, none, some, leb, ltb, ◌==◌,
  if◌then◌else◌, take, keep, contains, ite, ℕ_discrete,
}
use order_outbox_lab.Pipeline.{StageName}
use order_outbox_lab.Database.{OutboxPayload, OutboxEntity, Store, Stamp, new_base, has_order}
use order_outbox_lab.Database.Query.{Sorter, is_none}
use order_outbox_lab.Effects.{M, query}

abbrev pub outbox_batch_size : ℕ
outbox_batch_size = 50

abbrev pub outbox_poll_interval_ms : ℕ
outbox_poll_interval_ms = 2000

pub record OutboxEntry : Type 0 where
  pub order_id : ℕ
  pub stage : Option StageName
  pub attempt : ℕ
  pub available_at : Option ℕ

-- The column's default is `now()`.
abbrev pub or_now : ℕ → Option ℕ → ℕ
or_now now none = now
or_now now (some at) = at

abbrev pub outbox_row : OutboxEntry → Stamp → OutboxEntity
outbox_row entry t = record {
  base = new_base t;
  order_id = entry.order_id;
  payload = record { order_id = entry.order_id; stage = entry.stage; attempt = entry.attempt };
  stage = entry.stage;
  processed = false;
  available_at = or_now t.now entry.available_at;
  processed_at = none;
}

-- Does the primary key hold the id?
unfoldable pub has_row : ℕ → List OutboxEntity → Bool
has_row id [] = false
has_row id (row ∷ rows) = ite (ℕ_discrete row.id id) true (has_row id rows)

-- `none`: the foreign key or the primary key is violated.
unfoldable pub insert_outbox : OutboxEntry → Stamp → Store → Option (Unit {0} × Store)
insert_outbox entry t s =
    if has_order entry.order_id s.orders && not (has_row t.id s.outbox)
    then some (tt, record s { outbox = outbox_row entry t ∷ s.outbox })
    else none

unfoldable pub enqueue_outbox : OutboxEntry → M (Unit {0})
enqueue_outbox entry = query (insert_outbox entry)

-- The WHERE clause, with SKIP LOCKED: `locked` are the rows that other transactions hold.
unfoldable pub claimable : ℕ → (ℕ → Bool) → OutboxEntity → Bool
claimable now locked row =
    not row.processed && leb row.available_at now && is_none row.deleted_at && not (locked row.id)

-- ORDER BY created_at, id
unfoldable pub claimed_before : OutboxEntity → OutboxEntity → Bool
claimed_before a b =
    ltb a.created_at b.created_at || (a.created_at == b.created_at && leb a.id b.id)

unfoldable pub claim_rows : Sorter → (ℕ → Bool) → ℕ → List OutboxEntity → List OutboxEntity
claim_rows sorter locked now rows =
    take outbox_batch_size (sorter.order_by claimed_before (keep (claimable now locked) rows))

unfoldable pub select_claimable :
    Sorter → (ℕ → Bool) → Stamp → Store → Option (List OutboxEntity × Store)
select_claimable sorter locked t s = some (claim_rows sorter locked t.now s.outbox, s)

abbrev pub processed_row : ℕ → ℕ → OutboxEntity → OutboxEntity
processed_row at now row = record row {
  base = record row.base { updated_at = now };
  processed = true;
  processed_at = some at;
}

unfoldable pub mark_rows : List ℕ → ℕ → ℕ → List OutboxEntity → List OutboxEntity
mark_rows ids at now [] = []
mark_rows ids at now (row ∷ rows) =
    (if contains ℕ_discrete row.id ids then processed_row at now row else row)
    ∷ mark_rows ids at now rows

-- `manager.update(OutboxEntity, { id: In(ids) }, { processed: true, processedAt: at })`
unfoldable pub mark_processed : List ℕ → ℕ → Stamp → Store → Option (Unit {0} × Store)
mark_processed ids at t s = some (tt, record s { outbox = mark_rows ids at t.now s.outbox })
