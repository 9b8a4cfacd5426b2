-- ===== src/Samples/History.antt =====
-- One order: it is created, relayed, and its payment stage is claimed, completed, or failed.
use order_outbox_lab.Common.{ℕ, ◌+◌, ◌*◌, ◌≡◌, refl, true, false, codes, contains, without}
use order_outbox_lab.Pipeline.{StageName}
use order_outbox_lab.Frames.{Attempt}
use order_outbox_lab.Effects.{Env, Outcome}
use order_outbox_lab.Orders.Validation.{JsValue, CreateOrderBody}
use order_outbox_lab.System.{
  System, initial, Reach, start, later, creates, polls, claims, completes, fails, recomputes,
  joined,
}
use order_outbox_lab.Common.{take, keep, ℕ_discrete, text_eq}
use order_outbox_lab.Pipeline.{
  stage_event, order_event_text, StageName-discrete, StageStatus-discrete,
}
use order_outbox_lab.Database.{has_order, EventKey-discrete, RetryKey-discrete}
use order_outbox_lab.Frames.{Attempt-discrete}
use order_outbox_lab.Effects.{query, transaction, emit_all, publish_frame, catching}
use order_outbox_lab.Orders.Validation.{parse_create_order, trim, trim_start, is_space}
use order_outbox_lab.Orders.{create, create_body, insert_order}
use order_outbox_lab.Outbox.{
  enqueue_outbox, insert_outbox, has_row, select_claimable, claim_rows, claimable, claimed_before,
  mark_processed, mark_rows,
}
use order_outbox_lab.Outbox.Relay.{claim_body, emissions, relay_event}
use order_outbox_lab.Stages.{next_action_after_failure, backoff_ms}
use order_outbox_lab.Stages.Handlers.{emit}
use order_outbox_lab.Stages.Statements.{
  insert_event, has_event, upsert_retry, upsert_rows, has_retry, retry_count, dead_letter,
  dead_letter_rows,
}
use order_outbox_lab.Stages.Statements.Counters.{retry_dead}
use order_outbox_lab.Status.Settling.{status_of}
use order_outbox_lab.Stages.Runner.{record_event, publish, fail_body}
use order_outbox_lab.Status.{
  recompute, fulfil_order, fail_order, settle_rows, all_completed, completed_stages, count_distinct,
  has_dead_letter,
}
use order_outbox_lab.Outbox.Relay.{claim_and_emit}
use order_outbox_lab.Stages.Runner.{claim, complete, fail}
use order_outbox_lab.Samples.Sorting.{sample_sorter}
use order_outbox_lab.Samples.Numbers.{sample_js}

-- Call n gets the id n + 1 and the time 1000 * n.
abbrev pub calm : Env
calm = record {
  outcome = λ n. Outcome.done;
  stamp = λ n. record { id = n + 1; now = 1000 * n };
  clock = λ n. 1000 * n;
}

abbrev pub sample_body : CreateOrderBody sample_js
sample_body = record {
  customer_name = JsValue.string (codes " Ada ");
  amount = JsValue.string (codes "42");
}

abbrev pub after_create : System → System
after_create s = record s { world = (create sample_js sample_body calm s.world).1 }

abbrev pub after_poll : System → System
after_poll s = record s { world = (claim_and_emit sample_sorter (λ id. false) calm s.world).1 }

abbrev pub after_claim : Attempt → System → System
after_claim a s = joined a s.running (claim a calm s.world)

abbrev pub after_complete : Attempt → System → System
after_complete a s = record {
  world = (complete a (codes "7ms") calm s.world).1;
  running = without Attempt-discrete a s.running;
}

abbrev pub after_fail : Attempt → System → System
after_fail a s = record {
  world = (fail a (codes "down") calm s.world).1;
  running = without Attempt-discrete a s.running;
}

abbrev pub payment : ℕ → Attempt
payment n = record { order_id = 1; stage = StageName.payment; attempt = n }

-- The order is created and its row relayed.
abbrev pub relayed : System
relayed = after_poll (after_create initial)

abbrev pub claimed : System
claimed = after_claim (payment 1) relayed

abbrev pub completed : System
completed = after_complete (payment 1) claimed

abbrev pub failed_once : System
failed_once = after_fail (payment 1) claimed

-- The payment fails three times.
abbrev pub dead : System
dead = after_fail (payment 3) (
    after_claim (payment 3)
      (after_poll (after_fail (payment 2) (after_claim (payment 2) (after_poll failed_once)))))

unfoldable pub program : Unit {0}
unfolding create parse_create_order trim trim_start is_space create_body insert_order has_order
    enqueue_outbox insert_outbox has_row query transaction claim_and_emit claim_body
    select_claimable claim_rows claimable claimed_before sample_sorter sample_js take keep contains
    emissions emit relay_event stage_event order_event_text emit_all mark_processed mark_rows claim
    record_event insert_event has_event publish publish_frame catching complete fail fail_body
    upsert_retry upsert_rows has_retry retry_count dead_letter dead_letter_rows
    next_action_after_failure backoff_ms EventKey-discrete RetryKey-discrete StageName-discrete
    StageStatus-discrete Attempt-discrete ℕ_discrete retry_dead text_eq recompute fulfil_order
    fail_order settle_rows all_completed completed_stages count_distinct has_dead_letter status_of
program = tt

abbrev pub Reached : System → Type 0
Reached = Reach sample_sorter sample_js

pub relayed-Reached : Reached relayed
relayed-Reached =
    later (later start (creates initial calm sample_body))
      (polls (after_create initial) calm (λ id. false))

pub claimed-Reached : Reached claimed
unfolding program
claimed-Reached = later relayed-Reached (claims relayed calm (payment 1) refl)

pub completed-Reached : Reached completed
unfolding program
completed-Reached = later claimed-Reached (completes claimed calm (payment 1) _ refl)

pub failed_once-Reached : Reached failed_once
unfolding program
failed_once-Reached = later claimed-Reached (fails claimed calm (payment 1) _ refl)

-- One more round: the retry is relayed, claimed, and fails.
another_failure :
    (a : Attempt) (s : System)
    → Reached s
    → contains Attempt-discrete a (after_poll s).world.delivered ≡ true
    → contains Attempt-discrete a (after_claim a (after_poll s)).running ≡ true
    → Reached (after_fail a (after_claim a (after_poll s)))
another_failure a s r d held =
    later (later (later r (polls s calm (λ id. false))) (claims (after_poll s) calm a d))
      (fails (after_claim a (after_poll s)) calm a _ held)

pub dead-Reached : Reached dead
unfolding program
dead-Reached =
    another_failure (payment 3) _
      (another_failure (payment 2) failed_once failed_once-Reached refl refl) refl refl

abbrev pub first : StageName → Attempt
first stage = record { order_id = 1; stage = stage; attempt = 1 }

abbrev pub after_recompute : System → System
after_recompute s = record s { world = (recompute 1 calm s.world).1 }

abbrev pub done_stage : StageName → System → System
done_stage stage s = after_complete (first stage) (after_claim (first stage) s)

-- The three stages complete, and the watcher looks.
abbrev pub all_done : System
all_done =
    done_stage StageName.email
      (done_stage StageName.inventory (done_stage StageName.payment relayed))

abbrev pub fulfilled : System
fulfilled = after_recompute all_done

done_stage-Reached :
    (stage : StageName) (s : System)
    → Reached s
    → contains Attempt-discrete (first stage) s.world.delivered ≡ true
    → contains Attempt-discrete (first stage) (after_claim (first stage) s).running ≡ true
    → Reached (done_stage stage s)
done_stage-Reached stage s r d held =
    later (later r (claims s calm (first stage) d))
      (completes (after_claim (first stage) s) calm (first stage) _ held)

pub all_done-Reached : Reached all_done
unfolding program
all_done-Reached =
    done_stage-Reached StageName.email _
      (done_stage-Reached StageName.inventory _
        (done_stage-Reached StageName.payment relayed relayed-Reached refl refl) refl refl)
      refl refl

pub fulfilled-Reached : Reached fulfilled
fulfilled-Reached = later all_done-Reached (recomputes all_done calm 1)
