-- ===== src/System/Claiming.antt =====
-- The facts over a claim and over a completion.
use Prim.Native.Nat.{suc}
use order_outbox_lab.Common.{
  ◌≡◌, true, false, List, ◌∷◌, contains, without, contains-without, arith, ite, Option, Text,
}
use order_outbox_lab.Pipeline.{StageStatus}
use order_outbox_lab.Database.{Store, Stamp, EventKey-discrete}
use order_outbox_lab.Frames.{Attempt, Attempt-discrete}
use order_outbox_lab.Stages.Statements.Events.{log_event, has_event-cons}
use order_outbox_lab.Stages.Runner.{key_of}
use order_outbox_lab.System.Facts.{Inv, IsDue, IsRunning, logged, failures}

-- What the log says after one more event.
pub logged-log_event :
    (a : Attempt) (x : StageStatus) (detail : Option Text) (t : Stamp) (s : Store) (b : Attempt)
    (y : StageStatus)
    → logged (log_event (key_of a x) detail t s) b y
      ≡ ite (EventKey-discrete (key_of a x) (key_of b y)) true (logged s b y)
logged-log_event a x detail t s b y =
    has_event-cons (key_of b y) (key_of a x) detail t s.stage_events

pub Inv-fewer :
    {s : Store} {delivered running : List Attempt} (running' : List Attempt)
    → ((b : Attempt)
        → contains Attempt-discrete b running' ≡ true
        → contains Attempt-discrete b running ≡ true)
    → Inv s delivered running
    → Inv s delivered running'
Inv-fewer running' sub inv = record {
  started_due = inv.started_due;
  failed_counted = inv.failed_counted;
  completed_last = inv.completed_last;
  counted_logged = inv.counted_logged;
  capped = inv.capped;
  dead = inv.dead;
  in_progress = λ b h. inv.in_progress b (sub b h);
  delivered_due = inv.delivered_due;
  rows_due = inv.rows_due;
  unique_events = inv.unique_events;
  unique_pairs = inv.unique_pairs;
}

module _ {s : Store} {delivered running : List Attempt} (inv : Inv s delivered running)
    (a : Attempt) (detail : Option Text) (t : Stamp) where
  module _ (due : IsDue s a) (free : logged s a StageStatus.started ≡ false) where
    abbrev claimed : Store
    claimed = log_event (key_of a StageStatus.started) detail t s

    abbrev ClaimedLog : (b : Attempt) (y : StageStatus) → Type 0
    ClaimedLog b y =
        logged claimed b y
        ≡ ite (EventKey-discrete (key_of a StageStatus.started) (key_of b y)) true (logged s b y)

    log : (b : Attempt) (y : StageStatus) → ClaimedLog b y
    log = logged-log_event a StageStatus.started detail t s

    claimed_next : a.attempt ≡ suc (failures s a)
    claimed_next = ground (arith, inv.counted_logged a)

    claimed_in_progress :
        (b : Attempt) → contains Attempt-discrete b (a ∷ running) ≡ true → IsRunning claimed b
    unfolding contains
    claimed_in_progress b h = ground (
      arith,
      log b StageStatus.started,
      log b StageStatus.completed,
      inv.in_progress b,
      claimed_next,
      inv.completed_last a,
    )

    pub claimed-Inv : Inv claimed delivered (a ∷ running)
    claimed-Inv = record {
      started_due = λ b h. ground (arith, log b StageStatus.started, inv.started_due b);
      failed_counted = λ b h. ground (arith, log b StageStatus.failed, inv.failed_counted b);
      completed_last = λ b h.
          ground
            (arith, log b StageStatus.started, log b StageStatus.completed, inv.completed_last b);
      counted_logged = λ b h k.
          ground (arith, log b StageStatus.started, log b StageStatus.failed, inv.counted_logged b);
      capped = inv.capped;
      dead = inv.dead;
      in_progress = claimed_in_progress;
      delivered_due = inv.delivered_due;
      rows_due = inv.rows_due;
      unique_events = (free, inv.unique_events);
      unique_pairs = inv.unique_pairs;
    }

  module _ (held : contains Attempt-discrete a running ≡ true) where
    abbrev finished : Store
    finished = log_event (key_of a StageStatus.completed) detail t s

    finished_log :
        (b : Attempt) (y : StageStatus)
        → logged finished b y
          ≡ ite
              (EventKey-discrete (key_of a StageStatus.completed) (key_of b y))
              true
              (logged s b y)
    finished_log = logged-log_event a StageStatus.completed detail t s

    finished_free : logged s a StageStatus.completed ≡ false
    finished_free = (inv.in_progress a held).open_end

    pub finished-Inv : Inv finished delivered (without Attempt-discrete a running)
    finished-Inv = record {
      started_due = λ b h. ground (arith, finished_log b StageStatus.started, inv.started_due b);
      failed_counted =
          λ b h. ground (arith, finished_log b StageStatus.failed, inv.failed_counted b);
      completed_last = λ b h. ground (
        arith,
        finished_log b StageStatus.started,
        finished_log b StageStatus.completed,
        inv.completed_last b,
        inv.in_progress a,
      );
      counted_logged = λ b h k. ground (
        arith,
        finished_log b StageStatus.started,
        finished_log b StageStatus.failed,
        inv.counted_logged b,
      );
      capped = inv.capped;
      dead = inv.dead;
      in_progress = λ b h. ground (
        arith,
        finished_log b StageStatus.started,
        finished_log b StageStatus.completed,
        contains-without Attempt-discrete a b running,
        inv.in_progress b,
      );
      delivered_due = inv.delivered_due;
      rows_due = inv.rows_due;
      unique_events = (finished_free, inv.unique_events);
      unique_pairs = inv.unique_pairs;
    }
