-- ===== src/Samples/Wire.antt =====
-- A codec of frames for the tests, with a number for each field.
use order_outbox_lab.Common.{ℕ, zero, suc, ◌≡◌, refl, [], ◌∷◌, Option, none, some, Text}
use order_outbox_lab.Pipeline.{StageName, StageStatus}
use order_outbox_lab.Frames.{StageEventFrame}

abbrev stage_code : StageName → ℕ
stage_code StageName.payment = 0
stage_code StageName.inventory = 1
stage_code StageName.email = 2

abbrev stage_at : ℕ → StageName
stage_at zero = StageName.payment
stage_at (suc zero) = StageName.inventory
stage_at (suc (suc _)) = StageName.email

abbrev status_code : StageStatus → ℕ
status_code StageStatus.started = 0
status_code StageStatus.completed = 1
status_code StageStatus.failed = 2

abbrev status_at : ℕ → StageStatus
status_at zero = StageStatus.started
status_at (suc zero) = StageStatus.completed
status_at (suc (suc _)) = StageStatus.failed

abbrev detail_code : Option Text → Text
detail_code none = []
detail_code (some t) = 1 ∷ t

abbrev detail_at : Text → Option Text
detail_at [] = none
detail_at (_ ∷ t) = some t

abbrev pub sample_stringify : StageEventFrame → Text
sample_stringify f =
    f.order_id
    ∷ stage_code f.stage
    ∷ status_code f.status
    ∷ f.attempt
    ∷ f.created_at
    ∷ detail_code f.detail

unfoldable pub sample_parse : Text → Option StageEventFrame
sample_parse (id ∷ stage ∷ status ∷ attempt ∷ at ∷ detail) = some (record {
  order_id = id;
  stage = stage_at stage;
  status = status_at status;
  attempt = attempt;
  detail = detail_at detail;
  created_at = at;
})
sample_parse _ = none

stage_at-stage_code : (stage : StageName) → stage_at (stage_code stage) ≡ stage
stage_at-stage_code StageName.payment = refl
stage_at-stage_code StageName.inventory = refl
stage_at-stage_code StageName.email = refl

status_at-status_code : (status : StageStatus) → status_at (status_code status) ≡ status
status_at-status_code StageStatus.started = refl
status_at-status_code StageStatus.completed = refl
status_at-status_code StageStatus.failed = refl

detail_at-detail_code : (detail : Option Text) → detail_at (detail_code detail) ≡ detail
detail_at-detail_code none = refl
detail_at-detail_code (some t) = refl

pub sample_parse-sample_stringify :
    (f : StageEventFrame) → sample_parse (sample_stringify f) ≡ some f
unfolding sample_parse
sample_parse-sample_stringify f =
    rw (stage_at-stage_code f.stage, status_at-status_code f.status, detail_at-detail_code f.detail)
      refl
