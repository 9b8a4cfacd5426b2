-- ===== src/System/Invariant.antt =====
-- The facts over the runs of the system.
use order_outbox_lab.Common.{refl, contains, arith}
use order_outbox_lab.Database.Query.{Sorter}
use order_outbox_lab.Orders.Validation.{JsNumber}
use order_outbox_lab.Stages.Statements.{has_event, retry_count}
use order_outbox_lab.Stages.Statements.Counters.{retry_dead}
use order_outbox_lab.Stages.Runner.{claim}
use order_outbox_lab.Stages.Runner.Claims.{claim-Recorded}
use order_outbox_lab.System.{
  System, initial, Step, creates, polls, claims, completes, fails, recomputes, resumes, crashes,
  Reach, start, later,
}
use order_outbox_lab.System.Facts.{Inv}
use order_outbox_lab.System.Calls.{
  fewer, create-After, poll-After, joined-After, complete-After, fail-After, recompute-After,
  resume-After,
}

abbrev pub Holds : System → Type 0
Holds s = Inv s.world.store s.world.delivered s.running

pub initial-Holds : Holds initial
unfolding has_event contains retry_count retry_dead
initial-Holds = record {
  started_due = λ a h. cc;
  failed_counted = λ a h. cc;
  completed_last = λ a h. cc;
  counted_logged = λ a h k. absurd (omega arith);
  capped = λ k. omega arith;
  dead = λ k. refl;
  in_progress = λ a h. cc;
  delivered_due = λ a h. cc;
  rows_due = tt;
  unique_events = tt;
  unique_pairs = tt;
}

module _ {sorter : Sorter} {js : JsNumber} where
  pub Step-Holds : {s t : System} → Step sorter js s t → Holds s → Holds t
  Step-Holds (creates s env body) h = create-After s.world h js body env
  Step-Holds (polls s env locked) h = poll-After s.world h sorter locked env
  Step-Holds (claims s env a d) h =
      joined-After s.world h a (claim a env s.world) (h.delivered_due a d)
        (claim-Recorded a env s.world)
  Step-Holds (completes s env a detail held) h = complete-After s.world h a detail env held
  Step-Holds (fails s env a error held) h = fail-After s.world h a error env held
  Step-Holds (recomputes s env id) h = recompute-After s.world h id env
  Step-Holds (resumes s env id) h = resume-After s.world h id env
  Step-Holds (crashes s a) h = fewer s.world h a

  pub Reach-Holds : {s : System} → Reach sorter js s → Holds s
  Reach-Holds start = initial-Holds
  Reach-Holds (later r st) = Step-Holds st (Reach-Holds r)
