-- ===== src/System/Working.antt =====
-- How often the simulated work of an attempt is started on a run: a delivery starts it when its
-- `claim` reports that it added the `started` row.
use order_outbox_lab.Common.{
  ℕ, ◌+◌, ◌≡◌, ◌≤◌, refl, inl, inr, Bool, true, false, List, arith, ite, ◌&&◌, ◌==◌, if◌then◌else◌,
}
use order_outbox_lab.Pipeline.{StageStatus}
use order_outbox_lab.Database.{Store, RetryKey, EventKey-discrete, RetryKey-discrete}
use order_outbox_lab.Database.Query.{Sorter}
use order_outbox_lab.Frames.{Attempt, Attempt-discrete}
use order_outbox_lab.Effects.{World, Result, ok, err}
use order_outbox_lab.Orders.Validation.{JsNumber}
use order_outbox_lab.Stages.{max_retries}
use order_outbox_lab.Stages.Runner.{key_of, pair_of, claim}
use order_outbox_lab.Stages.Runner.Claims.{Recorded, claim-Recorded}
use order_outbox_lab.Stages.Statements.Events.{Logged}
use order_outbox_lab.System.{
  System, Step, creates, polls, claims, completes, fails, recomputes, resumes, crashes, Reach,
  start, later, joined,
}
use order_outbox_lab.System.Facts.{Inv, logged}
use order_outbox_lab.System.Claiming.{logged-log_event}
use order_outbox_lab.System.Changes.{Change, unchanged, started, completed, failed, Step-Change}
use order_outbox_lab.System.Invariant.{Reach-Holds}

-- The attempts of a pair, or one attempt.
abbrev pub one_if : Bool → ℕ
one_if true = 1
one_if false = 0

-- Does the answer of `claim` let the work start?
abbrev pub lets_work : Result Bool × World → Bool
lets_work (ok true, w) = true
lets_work (ok false, w) = false
lets_work (err e, w) = false

logged-Logged :
    (s s' : Store) (a b : Attempt) (x y : StageStatus)
    → Logged (key_of b x) s s'
    → logged s' a y ≡ ite (EventKey-discrete (key_of b x) (key_of a y)) true (logged s a y)
logged-Logged s s' a b x y l = rw l.after (logged-log_event b x l.detail l.stamp s a y)

logged-Change :
    (s s' : Store) (running : List Attempt) (a : Attempt) (x : StageStatus)
    → Change s s' running
    → logged s a x ≡ true
    → logged s' a x ≡ true
logged-Change s s' running a x (unchanged e r) h = rw e h
logged-Change s s' running a x (started b due l) h =
    ground (arith, logged-Logged s s' a b StageStatus.started x l)
logged-Change s s' running a x (completed b held l) h =
    ground (arith, logged-Logged s s' a b StageStatus.completed x l)
logged-Change s s' running a x (failed b held f) h = ground (arith, f.log a x)

-- The work that one claim starts for the attempts that `counts` picks.
abbrev pub work_of : (Attempt → Bool) → Attempt → Result Bool × World → ℕ
work_of counts b r = if lets_work r then one_if (counts b) else 0

module _ {sorter : Sorter} {js : JsNumber} where
  abbrev pub step_work : (Attempt → Bool) → {s t : System} → Step sorter js s t → ℕ
  step_work counts (claims s env b d) = work_of counts b (claim b env s.world)
  step_work counts (creates s env body) = 0
  step_work counts (polls s env locked) = 0
  step_work counts (completes s env b detail held) = 0
  step_work counts (fails s env b error held) = 0
  step_work counts (recomputes s env id) = 0
  step_work counts (resumes s env id) = 0
  step_work counts (crashes s b) = 0

  -- How often the work of such an attempt was started on the run.
  abbrev pub works : (Attempt → Bool) → {s : System} → Reach sorter js s → ℕ
  works counts start = 0
  works counts (later r st) = step_work counts st + works counts r

abbrev pub is_attempt : Attempt → Attempt → Bool
is_attempt a b = ite (Attempt-discrete b a) true false

abbrev pub is_of : RetryKey → Attempt → Bool
is_of k b = ite (RetryKey-discrete (pair_of b) k) true false

-- What a claim that lets the work start has found and done.
claimed-once :
    (w : World) (a b : Attempt) (running : List Attempt) (r : Result Bool × World)
    → Recorded (key_of b StageStatus.started) w r
    → work_of (is_attempt a) b r + one_if (logged w.store a StageStatus.started)
      ≤ one_if (logged (joined b running r).world.store a StageStatus.started)
claimed-once w a b running (ok true, u) (_, t, _, _) =
    let l = t refl in
    ground
      (arith, l.free, logged-Logged w.store u.store a b StageStatus.started StageStatus.started l)
claimed-once w a b running (ok false, u) (_, _, f, _) =
    let (same, _) = f refl in ground (arith, same)
claimed-once w a b running (err e, u) (inl same, _, _, _) = ground (arith, same)
claimed-once w a b running (err e, u) (inr l, _, _, _) =
    ground (arith, logged-Logged w.store u.store a b StageStatus.started StageStatus.started l)

-- The n-th attempt of the pair.
abbrev nth : RetryKey → ℕ → Attempt
nth k n = record { order_id = k.order_id; stage = k.stage; attempt = n }

is_attempt-eq :
    (k : RetryKey) (n : ℕ) (b : Attempt)
    → is_attempt (record { order_id = k.order_id; stage = k.stage; attempt = n }) b
      ≡ (is_of k b && b.attempt == n)
is_attempt-eq k n b = ground arith

-- An attempt within the cap is one of three.
one_of_three :
    (k : RetryKey) (b : Attempt)
    → 1 ≤ b.attempt
    → b.attempt ≤ max_retries
    → one_if (is_of k b)
      ≡ one_if (is_attempt (nth k 1) b)
        + one_if (is_attempt (nth k 2) b)
        + one_if (is_attempt (nth k 3) b)
one_of_three k b lo hi =
    ground (arith, is_attempt-eq k 1 b, is_attempt-eq k 2 b, is_attempt-eq k 3 b)

work_of-three :
    (k : RetryKey) (b : Attempt) (r : Result Bool × World)
    → 1 ≤ b.attempt
    → b.attempt ≤ max_retries
    → work_of (is_of k) b r
      ≡ work_of (is_attempt (nth k 1)) b r
        + work_of (is_attempt (nth k 2)) b r
        + work_of (is_attempt (nth k 3)) b r
work_of-three k b (ok true, w) lo hi = one_of_three k b lo hi
work_of-three k b (ok false, w) lo hi = refl
work_of-three k b (err e, w) lo hi = refl

module _ {sorter : Sorter} {js : JsNumber} where
  step-once :
      {s t : System} (a : Attempt) (st : Step sorter js s t)
      → Change s.world.store t.world.store s.running
      → step_work (is_attempt a) st + one_if (logged s.world.store a StageStatus.started)
        ≤ one_if (logged t.world.store a StageStatus.started)
  step-once a (claims s env b d) c =
      claimed-once s.world a b s.running (claim b env s.world) (claim-Recorded b env s.world)
  step-once {t} a (creates s env body) c =
      ground (arith, logged-Change s.world.store t.world.store s.running a StageStatus.started c)
  step-once {t} a (polls s env locked) c =
      ground (arith, logged-Change s.world.store t.world.store s.running a StageStatus.started c)
  step-once {t} a (completes s env b detail held) c =
      ground (arith, logged-Change s.world.store t.world.store s.running a StageStatus.started c)
  step-once {t} a (fails s env b error held) c =
      ground (arith, logged-Change s.world.store t.world.store s.running a StageStatus.started c)
  step-once {t} a (recomputes s env id) c =
      ground (arith, logged-Change s.world.store t.world.store s.running a StageStatus.started c)
  step-once {t} a (resumes s env id) c =
      ground (arith, logged-Change s.world.store t.world.store s.running a StageStatus.started c)
  step-once a (crashes s b) c = omega arith

  works-started :
      {s : System} (r : Reach sorter js s) (a : Attempt)
      → works (is_attempt a) r ≤ one_if (logged s.world.store a StageStatus.started)
  works-started start a = omega arith
  works-started (later {s} {t} r st) a =
      omega (arith, works-started r a, step-once a st (Step-Change st (Reach-Holds r)))

  step-three :
      {s t : System} (k : RetryKey) (st : Step sorter js s t)
      → Inv s.world.store s.world.delivered s.running
      → step_work (is_of k) st
        ≡ step_work (is_attempt (nth k 1)) st
          + step_work (is_attempt (nth k 2)) st
          + step_work (is_attempt (nth k 3)) st
  step-three k (claims s env b d) h =
      let (lo, _, within) = h.delivered_due b d in work_of-three k b (claim b env s.world) lo within
  step-three k (creates s env body) h = refl
  step-three k (polls s env locked) h = refl
  step-three k (completes s env b detail held) h = refl
  step-three k (fails s env b error held) h = refl
  step-three k (recomputes s env id) h = refl
  step-three k (resumes s env id) h = refl
  step-three k (crashes s b) h = refl

  works-three :
      {s : System} (r : Reach sorter js s) (k : RetryKey)
      → works (is_of k) r
        ≡ works (is_attempt (nth k 1)) r
          + works (is_attempt (nth k 2)) r
          + works (is_attempt (nth k 3)) r
  works-three start k = refl
  works-three (later r st) k = omega (arith, works-three r k, step-three k st (Reach-Holds r))

  -- On every run, however often an attempt is delivered and whatever fails, its work is started at
  -- most once over all instances, and the work of a stage of an order at most `MAX_RETRIES` times.
  pub works_once :
      {s : System} (r : Reach sorter js s) (a : Attempt)
      → (works (is_attempt a) r ≤ 1) × (works (is_of (pair_of a)) r ≤ max_retries)
  works_once {s} r a =
      let k = pair_of a in
      (
        ground (arith, works-started r a),
        ground (
          arith,
          works-three r k,
          works-started r (nth k 1),
          works-started r (nth k 2),
          works-started r (nth k 3),
        ),
      )
