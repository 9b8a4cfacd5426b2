-- ===== src/System/Finishing/Lost.antt =====
-- Attempts that were claimed and that no process works on.
use order_outbox_lab.Common.{
  ℕ, ◌≡◌, ◌≢◌, refl, sym, ap, ◌∙◌, Bool, true, false, List, contains, without, contains-without,
  arith,
}
use order_outbox_lab.Pipeline.{StageStatus}
use order_outbox_lab.Database.{Store, RetryKey, RetryKey-discrete}
use order_outbox_lab.Database.Query.{Sorter}
use order_outbox_lab.Effects.{World, Result, ok, err}
use order_outbox_lab.Frames.{Attempt, Attempt-discrete}
use order_outbox_lab.Orders.Validation.{JsNumber}
use order_outbox_lab.Stages.Runner.{key_of, pair_of, claim}
use order_outbox_lab.Stages.Runner.Claims.{Recorded, claim-Recorded}
use order_outbox_lab.System.{
  System, Step, creates, polls, claims, completes, fails, recomputes, resumes, crashes, Reach,
  joined,
}
use order_outbox_lab.System.Facts.{Inv, logged}
use order_outbox_lab.System.Changes.{Change, unchanged, started, completed, failed, Step-Change}
use order_outbox_lab.System.Invariant.{Reach-Holds}
use order_outbox_lab.System.Phases.{waiting, active, phase_of}
use order_outbox_lab.System.Phases.Moves.{
  phase_of-same, running_phase, started_phase, phase_elsewhere_log, phase_elsewhere_failure,
}
use order_outbox_lab.System.Finishing.{attempt_of}

-- Active, and in no process.
abbrev pub IsLost : Store → List Attempt → RetryKey → ℕ → Type 0
IsLost s running k n =
    (phase_of s k ≡ active n) × (contains Attempt-discrete (attempt_of k n) running ≡ false)

module _ {s : Store} {delivered running : List Attempt} (inv : Inv s delivered running)
    (k : RetryKey) (n : ℕ) (lost : IsLost s running k n) where
  -- No attempt of the pair is in progress.
  apart_running : (a : Attempt) → contains Attempt-discrete a running ≡ true → pair_of a ≢ k
  apart_running a held p =
      let e : active a.attempt ≡ active n =
        sym (running_phase inv a s held) ∙ (ap (phase_of s) p ∙ lost.0) in
      ground (arith, e, p, held, lost.1)

  lost_phase : (s' : Store) → Change s s' running → phase_of s' k ≡ active n
  lost_phase s' (unchanged e r) = phase_of-same k s s' e r ∙ lost.0
  lost_phase s' (completed a held l) =
      phase_elsewhere_log inv a s' StageStatus.completed k (apart_running a held) l ∙ lost.0
  lost_phase s' (failed a held f) =
      phase_elsewhere_failure inv a s' k (apart_running a held) f ∙ lost.0
  lost_phase s' (started a due l) = elim (RetryKey-discrete (pair_of a) k) [
    | no apart ↦ phase_elsewhere_log inv a s' StageStatus.started k apart l ∙ lost.0
    | yes p ↦
        let e : waiting a.attempt ≡ active n =
          sym (started_phase inv a s' due l).0 ∙ (ap (phase_of s) p ∙ lost.0) in
        cc e
  ]

  logged_started : logged s (attempt_of k n) StageStatus.started ≡ true
  unfolding phase_of
  logged_started = ground (arith, lost.0)

-- A claim of it is refused.
joined_lost :
    (w : World) (a b : Attempt) (running : List Attempt) (r : Result Bool × World)
    → Recorded (key_of a StageStatus.started) w r
    → logged w.store b StageStatus.started ≡ true
    → contains Attempt-discrete b running ≡ false
    → contains Attempt-discrete b (joined a running r).running ≡ false
unfolding contains
joined_lost w a b running (ok true, u) (_, t, _, _) taken out =
    ground (arith, (t refl).free, taken, out)
joined_lost w a b running (ok false, u) c taken out = out
joined_lost w a b running (err e, u) c taken out = out

without_lost :
    (a b : Attempt) (running : List Attempt)
    → contains Attempt-discrete b running ≡ false
    → contains Attempt-discrete b (without Attempt-discrete a running) ≡ false
without_lost a b running out = ground (arith, contains-without Attempt-discrete a b running)

module _ {sorter : Sorter} {js : JsNumber} where
  lost_running :
      {s t : System} (b : Attempt)
      → Step sorter js s t
      → logged s.world.store b StageStatus.started ≡ true
      → contains Attempt-discrete b s.running ≡ false
      → contains Attempt-discrete b t.running ≡ false
  lost_running b (creates s env body) taken out = out
  lost_running b (polls s env locked) taken out = out
  lost_running b (claims s env a d) taken out =
      joined_lost s.world a b s.running (claim a env s.world) (claim-Recorded a env s.world) taken
        out
  lost_running b (completes s env a detail held) taken out = without_lost a b s.running out
  lost_running b (fails s env a error held) taken out = without_lost a b s.running out
  lost_running b (recomputes s env id) taken out = out
  lost_running b (resumes s env id) taken out = out
  lost_running b (crashes s a) taken out = without_lost a b s.running out

  -- From a reachable state, an attempt that was claimed, has no outcome and is in progress in no
  -- process stays so, whatever any instance does: no later delivery takes it up, and its stage neither
  -- completes nor is retried nor is dead-lettered.
  pub IsLost-Step :
      {s t : System}
      → Reach sorter js s
      → Step sorter js s t
      → (k : RetryKey) (n : ℕ) → IsLost s.world.store s.running k n
      → IsLost t.world.store t.running k n
  IsLost-Step {t} r st k n lost = (
    lost_phase (Reach-Holds r) k n lost t.world.store (Step-Change st (Reach-Holds r)),
    lost_running (attempt_of k n) st (logged_started (Reach-Holds r) k n lost) lost.1,
  )
