-- ===== src/System/Facts.antt =====
-- What holds of the tables, of the deliveries made and of the attempts in progress between any two
-- steps of the system.
use Prim.Native.Nat.{suc}
use order_outbox_lab.Common.{ℕ, ◌≡◌, ◌≤◌, Bool, true, false, List, All, contains, leb}
use order_outbox_lab.Pipeline.{StageStatus}
use order_outbox_lab.Database.{OutboxEntity, Store, RetryKey}
use order_outbox_lab.Frames.{Attempt, Attempt-discrete}
use order_outbox_lab.Outbox.Relay.{intended}
use order_outbox_lab.Stages.{max_retries}
use order_outbox_lab.Stages.Statements.{has_event, retry_count}
use order_outbox_lab.Stages.Statements.Counters.{retry_dead, UniquePairs}
use order_outbox_lab.Stages.Statements.Events.{UniqueEvents}
use order_outbox_lab.Stages.Runner.{key_of, pair_of}

-- The failures that the store counts for the (order, stage) of an attempt.
abbrev pub failures : Store → Attempt → ℕ
failures s a = retry_count (pair_of a) s.stage_retries

abbrev pub logged : Store → Attempt → StageStatus → Bool
logged s a status = has_event (key_of a status) s.stage_events

-- An attempt that may be delivered: at most one past the recorded failures, and within the cap.
abbrev pub IsDue : Store → Attempt → Type 0
IsDue s a = (1 ≤ a.attempt) × (a.attempt ≤ suc (failures s a)) × (a.attempt ≤ max_retries)

-- An attempt in progress: the next after the recorded failures, started and not completed.
pub record IsRunning (s : Store) (a : Attempt) : Type 0 where
  pub next : a.attempt ≡ suc (failures s a)
  pub within : a.attempt ≤ max_retries
  pub started : logged s a StageStatus.started ≡ true
  pub open_end : logged s a StageStatus.completed ≡ false

abbrev pub RowsDue : Store → List OutboxEntity → Type 0
RowsDue s rows = All (λ row. All (IsDue s) (intended row.stage row.payload)) rows

pub record Inv (s : Store) (delivered running : List Attempt) : Type 0 where
  pub started_due : (a : Attempt) → logged s a StageStatus.started ≡ true → IsDue s a
  pub failed_counted :
      (a : Attempt)
      → logged s a StageStatus.failed ≡ true
      → (1 ≤ a.attempt) × (a.attempt ≤ failures s a)
  pub completed_last :
      (a : Attempt)
      → logged s a StageStatus.completed ≡ true
      → (a.attempt ≡ suc (failures s a))
        × (a.attempt ≤ max_retries)
        × (logged s a StageStatus.started ≡ true)
  pub counted_logged :
      (a : Attempt)
      → 1 ≤ a.attempt
      → a.attempt ≤ failures s a
      → (logged s a StageStatus.started ≡ true) × (logged s a StageStatus.failed ≡ true)
  pub capped : (k : RetryKey) → retry_count k s.stage_retries ≤ max_retries
  pub dead :
      (k : RetryKey)
      → retry_dead k s.stage_retries ≡ leb max_retries (retry_count k s.stage_retries)
  pub in_progress : (a : Attempt) → contains Attempt-discrete a running ≡ true → IsRunning s a
  pub delivered_due : (a : Attempt) → contains Attempt-discrete a delivered ≡ true → IsDue s a
  pub rows_due : RowsDue s s.outbox
  pub unique_events : UniqueEvents s.stage_events
  pub unique_pairs : UniquePairs s.stage_retries
