-- ===== src/System/Owed.antt =====
-- What the outbox owes to the stages: the attempts that are due, and where each of them stands
-- between the transaction that causes it and the handler that is called for it.
pub mod Marking
pub mod Steps
pub mod Failing
pub mod Opening
pub mod Kept
use Prim.Native.Nat.{suc}
use order_outbox_lab.Common.{
  ℕ, ◌≡◌, ◌≤◌, ◌⊎◌, Bool, true, false, not, ◌&&◌, ◌||◌, List, [], ◌∷◌, contains,
}
use order_outbox_lab.Database.{OutboxEntity, Store, RetryKey, has_order}
use order_outbox_lab.Database.Query.{is_none}
use order_outbox_lab.Frames.{Attempt, Attempt-discrete}
use order_outbox_lab.Outbox.{has_row}
use order_outbox_lab.Outbox.Relay.{intended}
use order_outbox_lab.Stages.{max_retries}
use order_outbox_lab.Stages.Statements.{retry_count}
use order_outbox_lab.System.Facts.{failures}

-- Is the call of `a` among those that the row is meant to cause?
abbrev pub causes : Attempt → OutboxEntity → Bool
causes a row = contains Attempt-discrete a (intended row.stage row.payload)

-- A row that a relay may still claim.
abbrev pub is_open : OutboxEntity → Bool
is_open row = not row.processed && is_none row.deleted_at

-- Does some open row cause the call of `a`?
unfoldable pub queued : Attempt → List OutboxEntity → Bool
queued a [] = false
queued a (row ∷ rows) = (is_open row && causes a row) || queued a rows

-- In an open row of the outbox, or handed to its handler.
abbrev pub Covered : List OutboxEntity → List Attempt → Attempt → Type 0
Covered rows delivered a = (queued a rows ≡ true) ⊎ (contains Attempt-discrete a delivered ≡ true)

-- The attempts that the failures of the pair have reached.
abbrev pub IsReached : Store → Attempt → Type 0
IsReached s a =
    (has_order a.order_id s.orders ≡ true)
    × (1 ≤ a.attempt)
    × (a.attempt ≤ suc (failures s a))
    × (a.attempt ≤ max_retries)

-- The primary key of `outbox`.
abbrev pub UniqueRows : List OutboxEntity → Type 0
UniqueRows [] = Unit
UniqueRows (row ∷ rows) = (has_row row.id rows ≡ false) × UniqueRows rows

pub record Owed (s : Store) (delivered : List Attempt) : Type 0 where
  -- The foreign key of `stage_retries`.
  pub known :
      (k : RetryKey) → has_order k.order_id s.orders ≡ false → retry_count k s.stage_retries ≡ 0
  pub unique_rows : UniqueRows s.outbox
  pub covered : (a : Attempt) → IsReached s a → Covered s.outbox delivered a
