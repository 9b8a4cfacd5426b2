-- ===== src/System/Phases.antt =====
-- The lifecycle of one stage of one order, as the state diagram of docs/data-flow.md draws it, read
-- off the log and the counters.
pub mod Moves
use Prim.Native.Nat.{suc}
use order_outbox_lab.Common.{ℕ, ◌≤◌, ◌≡◌, Bool, leb, if◌then◌else◌, ℕ_discrete}
use order_outbox_lab.Pipeline.{StageStatus}
use order_outbox_lab.Database.{Store, RetryKey}
use order_outbox_lab.Frames.{Attempt}
use order_outbox_lab.Stages.{max_retries}
use order_outbox_lab.Stages.Statements.{has_event, retry_count}
use order_outbox_lab.Stages.Runner.{key_of}

-- `waiting n`: attempt n has not been claimed; `active n`: it has no outcome yet.
pub data Phase : Type 0 where
  waiting : ℕ → Phase
  active : ℕ → Phase
  done : ℕ → Phase
  dead_lettered : Phase

unfoldable pub Phase-discrete : Discrete Phase
unfolding ℕ_discrete
Phase-discrete = hlevel ℕ_discrete

-- The next attempt of the pair.
abbrev pub next_attempt : Store → RetryKey → Attempt
next_attempt s k = record {
  order_id = k.order_id;
  stage = k.stage;
  attempt = suc (retry_count k s.stage_retries);
}

unfoldable pub phase_of : Store → RetryKey → Phase
phase_of s k =
    let a = next_attempt s k in
    if leb max_retries (retry_count k s.stage_retries)
    then dead_lettered
    else (if has_event (key_of a StageStatus.completed) s.stage_events
        then done a.attempt
        else (if has_event (key_of a StageStatus.started) s.stage_events
            then active a.attempt
            else waiting a.attempt))

pub data Move : Phase → Phase → Type 0 where
  stay : (p : Phase) → Move p p
  begin : (n : ℕ) → n ≤ max_retries → Move (waiting n) (active n)
  finish : (n : ℕ) → n ≤ max_retries → Move (active n) (done n)
  retry : (n : ℕ) → suc n ≤ max_retries → Move (active n) (waiting (suc n))
  give_up : Move (active max_retries) dead_lettered
