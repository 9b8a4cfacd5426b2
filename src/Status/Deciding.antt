-- ===== src/Status/Deciding.antt =====
-- What the two conditions of the status watcher's UPDATEs say of the tables.
use order_outbox_lab.Common.{
  ℕ, ◌+◌, ◌≡◌, ◌↔◌, refl, Bool, Bool-cases, true, false, List, [], ◌∷◌, inl, inr, ◌==◌, ◌&&◌,
  contains-cons, keep, contains, arith,
}
use order_outbox_lab.Pipeline.{StageName, StageStatus, stage_count, StageName-discrete, is_dead}
use order_outbox_lab.Database.{
  OrderStageEventEntity, StageRetryEntity, EventKey, RetryKey, EventKey-discrete, event_key,
}
use order_outbox_lab.Stages.Statements.{has_event, has_retry}
use order_outbox_lab.Stages.Statements.Counters.{retry_dead, UniquePairs}
use order_outbox_lab.Status.{
  count_distinct, completed_stages, all_completed, has_dead_letter, completes,
}

abbrev bit : Bool → ℕ
bit true = 1
bit false = 0

abbrev has_stage : StageName → List StageName → Bool
has_stage = contains StageName-discrete

-- `count(DISTINCT stage)` counts each of the three stages at most once.
count_distinct-eq :
    (ss : List StageName)
    → count_distinct ss
      ≡ bit (has_stage StageName.payment ss)
        + bit (has_stage StageName.inventory ss)
        + bit (has_stage StageName.email ss)
unfolding count_distinct contains
count_distinct-eq [] = refl
count_distinct-eq (StageName.payment ∷ ss) = ground (arith, count_distinct-eq ss)
count_distinct-eq (StageName.inventory ∷ ss) = ground (arith, count_distinct-eq ss)
count_distinct-eq (StageName.email ∷ ss) = ground (arith, count_distinct-eq ss)

count_distinct-full :
    (ss : List StageName)
    → (count_distinct ss == stage_count) ≡ true
    → (stage : StageName) → has_stage stage ss ≡ true
count_distinct-full ss h StageName.payment = ground (arith, count_distinct-eq ss)
count_distinct-full ss h StageName.inventory = ground (arith, count_distinct-eq ss)
count_distinct-full ss h StageName.email = ground (arith, count_distinct-eq ss)

abbrev pub completed_key : ℕ → StageName → ℕ → EventKey
completed_key id stage n = record {
  order_id = id;
  stage = stage;
  attempt = n;
  status = StageStatus.completed;
}

abbrev pub pair_key : ℕ → StageName → RetryKey
pair_key id stage = record { order_id = id; stage = stage }

-- Some attempt of the stage has a `completed` row.
abbrev pub CompletedIn : List OrderStageEventEntity → ℕ → StageName → Type 0
CompletedIn events id stage = (n : ℕ) × (has_event (completed_key id stage n) events ≡ true)

abbrev pub DeadIn : List StageRetryEntity → ℕ → Type 0
DeadIn rows id = (stage : StageName) × (retry_dead (pair_key id stage) rows ≡ true)

CompletedIn-of_stage :
    (id : ℕ) (stage : StageName) (events : List OrderStageEventEntity)
    → has_stage stage (completed_stages id events) ≡ true
    → CompletedIn events id stage
unfolding completed_stages keep contains has_event
CompletedIn-of_stage id stage [] h = cc
CompletedIn-of_stage id stage (e ∷ es) h = elim (Bool-cases (completes id e)) [
  | inl hit ↦ elim (StageName-discrete e.stage stage) [
    | yes p ↦ (e.attempt, ground arith)
    | no n ↦ later (CompletedIn-of_stage id stage es (ground arith))
  ]
  | inr miss ↦ later (CompletedIn-of_stage id stage es (ground arith))
]
  where
    later : CompletedIn es id stage → CompletedIn (e ∷ es) id stage
    later (n, q) = (n, contains-cons EventKey-discrete (completed_key id stage n) (event_key e) _ q)

stage_of_event :
    (id : ℕ) (stage : StageName) (n : ℕ) (events : List OrderStageEventEntity)
    → has_event (completed_key id stage n) events ≡ true
    → has_stage stage (completed_stages id events) ≡ true
unfolding completed_stages keep contains has_event
stage_of_event id stage n [] h = cc
stage_of_event id stage n (e ∷ es) h = ground (arith, stage_of_event id stage n es)

has_retry_of_retry_dead :
    (k : RetryKey) (rows : List StageRetryEntity)
    → retry_dead k rows ≡ true
    → has_retry k rows ≡ true
unfolding retry_dead has_retry
has_retry_of_retry_dead k [] h = cc
has_retry_of_retry_dead k (r ∷ rs) h = ground (arith, has_retry_of_retry_dead k rs)

DeadIn-of_has_dead_letter :
    (id : ℕ) (rows : List StageRetryEntity)
    → UniquePairs rows
    → has_dead_letter id rows ≡ true
    → DeadIn rows id
unfolding has_dead_letter retry_dead has_retry
DeadIn-of_has_dead_letter id [] u h = cc
DeadIn-of_has_dead_letter id (r ∷ rs) (fresh, u) h =
    elim (Bool-cases (r.order_id == id && is_dead r.status)) [
      | inl hit ↦ (r.stage, ground arith)
      | inr miss ↦
          let (stage, q) = DeadIn-of_has_dead_letter id rs u (ground arith) in
          (stage, ground (arith, has_retry_of_retry_dead (pair_key id stage) rs))
    ]

has_dead_letter_of_retry_dead :
    (id : ℕ) (stage : StageName) (rows : List StageRetryEntity)
    → retry_dead (pair_key id stage) rows ≡ true
    → has_dead_letter id rows ≡ true
unfolding has_dead_letter retry_dead
has_dead_letter_of_retry_dead id stage [] h = cc
has_dead_letter_of_retry_dead id stage (r ∷ rs) h =
    ground (arith, has_dead_letter_of_retry_dead id stage rs)

-- The condition of the first UPDATE: each of the three stages has a `completed` row.
pub all_completed_iff :
    (id : ℕ) (events : List OrderStageEventEntity)
    → (all_completed id events ≡ true) ↔ ((stage : StageName) → CompletedIn events id stage)
unfolding all_completed
all_completed_iff id events = (
  (λ h stage.
      CompletedIn-of_stage id stage events
        (count_distinct-full (completed_stages id events) h stage)),
  (λ h. full (λ stage. stage_of_event id stage (h stage).0 events (h stage).1)),
)
  where
    full :
        ((stage : StageName) → has_stage stage (completed_stages id events) ≡ true)
        → (count_distinct (completed_stages id events) == stage_count) ≡ true
    full h = ground (
      arith,
      count_distinct-eq (completed_stages id events),
      h StageName.payment,
      h StageName.inventory,
      h StageName.email,
    )

-- In a table with at most one row for each pair, the condition of the second UPDATE holds exactly when
-- the row of some stage of the order is dead-lettered.
pub has_dead_letter_iff :
    (id : ℕ) (rows : List StageRetryEntity)
    → UniquePairs rows
    → (has_dead_letter id rows ≡ true) ↔ DeadIn rows id
has_dead_letter_iff id rows u =
    (DeadIn-of_has_dead_letter id rows u, (λ d. has_dead_letter_of_retry_dead id d.0 rows d.1))
