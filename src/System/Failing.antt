-- ===== src/System/Failing.antt =====
-- The facts over the transaction of a failure.
use Prim.Native.Nat.{suc}
use order_outbox_lab.Common.{
  ◌≡◌, true, List, contains, without, contains-without, arith, ite, leb, All, All-map,
}
use order_outbox_lab.Pipeline.{StageStatus}
use order_outbox_lab.Database.{OutboxEntity, Store, RetryKey, EventKey-discrete, RetryKey-discrete}
use order_outbox_lab.Frames.{Attempt, Attempt-discrete}
use order_outbox_lab.Outbox.Relay.{intended}
use order_outbox_lab.Stages.{max_retries}
use order_outbox_lab.Stages.Statements.{retry_count}
use order_outbox_lab.Stages.Statements.Counters.{retry_dead, UniquePairs}
use order_outbox_lab.Stages.Statements.Events.{UniqueEvents}
use order_outbox_lab.Stages.Runner.{key_of, pair_of}
use order_outbox_lab.System.Facts.{Inv, IsDue, RowsDue, logged}

-- What the failure of `a` does to the log and the counters.
pub record Failed (a : Attempt) (s s' : Store) : Type 0 where
  pub log :
      (b : Attempt) (y : StageStatus)
      → logged s' b y
        ≡ ite (EventKey-discrete (key_of a StageStatus.failed) (key_of b y)) true (logged s b y)
  pub count :
      (k : RetryKey)
      → retry_count k s'.stage_retries
        ≡ ite
            (RetryKey-discrete (pair_of a) k)
            (suc (retry_count k s.stage_retries))
            (retry_count k s.stage_retries)
  pub flag :
      (k : RetryKey)
      → retry_dead k s'.stage_retries
        ≡ ite
            (RetryKey-discrete (pair_of a) k)
            (leb max_retries (suc (retry_count k s.stage_retries)))
            (retry_dead k s.stage_retries)
  pub unique_events : UniqueEvents s'.stage_events
  pub unique_pairs : UniquePairs s'.stage_retries

module _ {a : Attempt} {s s' : Store} (f : Failed a s s') where
  -- What was due stays due, since counters only grow.
  pub IsDue-failed : (b : Attempt) → IsDue s b → IsDue s' b
  IsDue-failed b d = ground (arith, f.count (pair_of b))

  pub RowsDue-failed : (rows : List OutboxEntity) → RowsDue s rows → RowsDue s' rows
  RowsDue-failed rows =
      All-map (λ row. All (IsDue s) (intended row.stage row.payload)) _
        (λ row. All-map (IsDue s) (IsDue s') IsDue-failed (intended row.stage row.payload)) rows

  module _ {delivered running : List Attempt} (inv : Inv s delivered running)
      (held : contains Attempt-discrete a running ≡ true) (rows : RowsDue s' s'.outbox) where
    pub failed-Inv : Inv s' delivered (without Attempt-discrete a running)
    failed-Inv = record {
      started_due = λ b h.
          ground (arith, f.log b StageStatus.started, f.count (pair_of b), inv.started_due b);
      failed_counted = λ b h. ground (
        arith,
        f.log b StageStatus.failed,
        f.count (pair_of b),
        inv.failed_counted b,
        inv.in_progress a,
      );
      completed_last = λ b h. ground (
        arith,
        f.log b StageStatus.started,
        f.log b StageStatus.completed,
        f.count (pair_of b),
        inv.completed_last b,
        inv.in_progress a,
      );
      counted_logged = λ b h k. ground (
        arith,
        f.log b StageStatus.started,
        f.log b StageStatus.failed,
        f.count (pair_of b),
        inv.counted_logged b,
        inv.in_progress a,
      );
      capped = λ k. ground (arith, f.count k, inv.capped k, inv.in_progress a);
      dead = λ k. ground (arith, f.count k, f.flag k, inv.dead k);
      in_progress = λ b h. ground (
        arith,
        f.log b StageStatus.started,
        f.log b StageStatus.completed,
        f.count (pair_of b),
        contains-without Attempt-discrete a b running,
        inv.in_progress b,
        inv.in_progress a,
      );
      delivered_due = λ b h. IsDue-failed b (inv.delivered_due b h);
      rows_due = rows;
      unique_events = f.unique_events;
      unique_pairs = f.unique_pairs;
    }
