-- ===== src/System/Phases/Moves.antt =====
-- The moves of the lifecycle over the steps of the system.

use order_outbox_lab.Common.{
  ℕ, ◌≡◌, ◌+◌, ◌*◌, ◌≤◌, ◌∙◌, ◌-◌, suc, inl, inr, ite, ◌≢◌, if◌then◌else◌, refl, subst, ap,
  Bool-cases, true, List, contains, arith, leb,
}
use order_outbox_lab.Pipeline.{StageStatus}
use order_outbox_lab.Database.{Store, RetryKey, RetryKey-discrete}
use order_outbox_lab.Database.Query.{Sorter}
use order_outbox_lab.Frames.{Attempt, Attempt-discrete}
use order_outbox_lab.Orders.Validation.{JsNumber}
use order_outbox_lab.Stages.{max_retries}
use order_outbox_lab.Stages.Statements.{has_event, retry_count}
use order_outbox_lab.Stages.Statements.Events.{Logged}
use order_outbox_lab.Stages.Runner.{key_of, pair_of}
use order_outbox_lab.System.{System, Step, Reach, start, later}
use order_outbox_lab.System.Facts.{Inv, IsDue}
use order_outbox_lab.System.Failing.{Failed}
use order_outbox_lab.System.Claiming.{logged-log_event}
use order_outbox_lab.System.Changes.{Change, unchanged, started, completed, failed, Step-Change}
use order_outbox_lab.System.Invariant.{Reach-Holds}
use order_outbox_lab.System.Phases.{
  Phase, waiting, active, done, dead_lettered, Phase-discrete, next_attempt, phase_of, Move, stay,
  begin, finish, retry, give_up,
}

pub phase_of-same :
    (k : RetryKey) (s s' : Store)
    → s'.stage_events ≡ s.stage_events
    → s'.stage_retries ≡ s.stage_retries
    → phase_of s' k ≡ phase_of s k
unfolding phase_of
phase_of-same k s s' e r = rw (e, r) refl

module _ {s : Store} {delivered running : List Attempt} (inv : Inv s delivered running) where
  module _ (a : Attempt) (s' : Store) where
    -- What a pair is in while an attempt of it runs.
    pub running_phase :
        contains Attempt-discrete a running ≡ true → phase_of s (pair_of a) ≡ active a.attempt
    unfolding phase_of
    running_phase held = ground (arith, inv.in_progress a held)

    pub started_phase :
        IsDue s a
        → Logged (key_of a StageStatus.started) s s'
        → (phase_of s (pair_of a) ≡ waiting a.attempt)
          × (phase_of s' (pair_of a) ≡ active a.attempt)
    unfolding phase_of
    started_phase due l = ground (
      arith,
      l.free,
      l.after,
      inv.counted_logged a,
      inv.completed_last a,
      logged-log_event a StageStatus.started l.detail l.stamp s a StageStatus.started,
      logged-log_event a StageStatus.started l.detail l.stamp s a StageStatus.completed,
    )

    pub completed_phase :
        contains Attempt-discrete a running ≡ true
        → Logged (key_of a StageStatus.completed) s s'
        → phase_of s' (pair_of a) ≡ done a.attempt
    unfolding phase_of
    completed_phase held l = ground (
      arith,
      l.after,
      inv.in_progress a held,
      logged-log_event a StageStatus.completed l.detail l.stamp s a StageStatus.completed,
    )

    phase_after_failure :
        contains Attempt-discrete a running ≡ true
        → Failed a s s'
        → phase_of s' (pair_of a)
          ≡ (if leb max_retries a.attempt then dead_lettered else waiting (suc a.attempt))
    unfolding phase_of
    phase_after_failure held f =
        let next : Attempt = record a { attempt = suc a.attempt } in
        ground (
          arith,
          inv.in_progress a held,
          inv.started_due next,
          inv.completed_last next,
          f.count (pair_of a),
          f.log next StageStatus.started,
          f.log next StageStatus.completed,
        )

    -- A change in the rows of one pair leaves the phase of the others.
    pub phase_elsewhere_log :
        (x : StageStatus) (k : RetryKey)
        → pair_of a ≢ k
        → Logged (key_of a x) s s'
        → phase_of s' k ≡ phase_of s k
    unfolding phase_of
    phase_elsewhere_log x k apart l =
        let b = next_attempt s k in
        ground (
          arith,
          l.after,
          logged-log_event a x l.detail l.stamp s b StageStatus.started,
          logged-log_event a x l.detail l.stamp s b StageStatus.completed,
        )

    pub phase_elsewhere_failure :
        (k : RetryKey) → pair_of a ≢ k → Failed a s s' → phase_of s' k ≡ phase_of s k
    unfolding phase_of
    phase_elsewhere_failure k apart f =
        let b = next_attempt s k in
        ground (arith, f.count k, f.log b StageStatus.started, f.log b StageStatus.completed)

  moved_by :
      (s' : Store) (k : RetryKey) {p q : Phase}
      → phase_of s k ≡ p
      → phase_of s' k ≡ q
      → Move p q
      → Move (phase_of s k) (phase_of s' k)
  moved_by s' k e e' m = rw (e, e') m

  stays_put :
      (s' : Store) (k : RetryKey)
      → phase_of s' k ≡ phase_of s k
      → Move (phase_of s k) (phase_of s' k)
  stays_put s' k e = rw e (stay (phase_of s k))

  Move-failure :
      (a : Attempt) (s' : Store)
      → contains Attempt-discrete a running ≡ true
      → Failed a s s'
      → Move (phase_of s (pair_of a)) (phase_of s' (pair_of a))
  Move-failure a s' held f = elim (Bool-cases (leb max_retries a.attempt)) [
    | inl last ↦
        moved_by s' (pair_of a)
          (running_phase a s' held ∙ ap active (ground (arith, last, inv.in_progress a held)))
          (ground (arith, phase_after_failure a s' held f, last)) give_up
    | inr more ↦
        moved_by s' (pair_of a) (running_phase a s' held)
          (ground (arith, phase_after_failure a s' held f, more))
          (retry a.attempt (ground (arith, more)))
  ]

  pub Change-Move :
      (s' : Store) (k : RetryKey) → Change s s' running → Move (phase_of s k) (phase_of s' k)
  Change-Move s' k (unchanged e r) = stays_put s' k (phase_of-same k s s' e r)
  Change-Move s' k (started a due l) = elim (RetryKey-discrete (pair_of a) k) [
    | yes p ↦
        let (e, e') = started_phase a s' due l in
        subst (λ k. Move (phase_of s k) (phase_of s' k)) p
          (moved_by s' (pair_of a) e e' (begin a.attempt due.2))
    | no n ↦ stays_put s' k (phase_elsewhere_log a s' StageStatus.started k n l)
  ]
  Change-Move s' k (completed a held l) = elim (RetryKey-discrete (pair_of a) k) [
    | yes p ↦
        subst (λ k. Move (phase_of s k) (phase_of s' k)) p
          (moved_by s' (pair_of a) (running_phase a s' held) (completed_phase a s' held l)
            (finish a.attempt (inv.in_progress a held).within))
    | no n ↦ stays_put s' k (phase_elsewhere_log a s' StageStatus.completed k n l)
  ]
  Change-Move s' k (failed a held f) = elim (RetryKey-discrete (pair_of a) k) [
    | yes p ↦ subst (λ k. Move (phase_of s k) (phase_of s' k)) p (Move-failure a s' held f)
    | no n ↦ stays_put s' k (phase_elsewhere_failure a s' k n f)
  ]

-- The moves that are left at most.
abbrev pub moves_left : Phase → ℕ
moves_left (waiting n) = 2 * (suc max_retries - n)
moves_left (active n) = suc (2 * (max_retries - n))
moves_left (done n) = 0
moves_left dead_lettered = 0

-- 1 if the phase changes.
abbrev pub step_count : Phase → Phase → ℕ
step_count p q = ite (Phase-discrete p q) 0 1

moves_left-Move : (p q : Phase) → Move p q → step_count p q + moves_left q ≤ moves_left p
moves_left-Move p q (stay r) = ground arith
moves_left-Move p q (begin n h) = ground arith
moves_left-Move p q (finish n h) = ground arith
moves_left-Move p q (retry n h) = ground arith
moves_left-Move p q give_up = ground arith

module _ {sorter : Sorter} {js : JsNumber} where
  -- How often the pair changes its phase on a run.
  abbrev pub changes : (k : RetryKey) {s : System} → Reach sorter js s → ℕ
  changes k start = 0
  changes k (later {s} {t} r st) =
      step_count (phase_of s.world.store k) (phase_of t.world.store k) + changes k r

  -- From a reachable state, whatever fails in a step and however the instances interleave, each stage
  -- of each order stays in its phase or makes one move of the lifecycle: the attempt that waits is
  -- claimed; the active attempt completes; the active attempt fails and the next one waits, within
  -- `MAX_RETRIES`; or the attempt `MAX_RETRIES` fails and the stage is dead-lettered.
  pub lifecycle_moves :
      {s t : System}
      → Reach sorter js s
      → Step sorter js s t
      → (k : RetryKey) → Move (phase_of s.world.store k) (phase_of t.world.store k)
  lifecycle_moves {t} r st k =
      Change-Move (Reach-Holds r) t.world.store k (Step-Change st (Reach-Holds r))

  -- On every run, however many deliveries come again, a stage of an order changes its phase at most
  -- `2 * MAX_RETRIES` times, less the moves that its phase still has before it.
  pub lifecycle_ends :
      {s : System}
      → (r : Reach sorter js s) (k : RetryKey)
      → changes k r + moves_left (phase_of s.world.store k) ≤ 2 * max_retries
  unfolding phase_of has_event retry_count contains
  lifecycle_ends start k = omega arith
  lifecycle_ends (later {s} {t} r st) k = ground (
    arith,
    lifecycle_ends r k,
    moves_left-Move (phase_of s.world.store k) (phase_of t.world.store k) (lifecycle_moves r st k),
  )
