-- ===== src/System/Hydration.antt =====
-- The number of stage events of an order.
pub mod Whole
use order_outbox_lab.Common.{
  ℕ, suc, ◌≡◌, ◌≤◌, refl, sym, subst, Bool, true, false, List, [], ◌∷◌, ◌++◌, map, contains,
  without, contains-without, contains-append_left, contains-append_right, keep, length, All,
  All-map, ite, arith, ◌==◌, ◌⊎◌, inl, inr,
}
use order_outbox_lab.Pipeline.{StageName, StageStatus}
use order_outbox_lab.Database.{Store, OrderStageEventEntity, EventKey, EventKey-discrete, event_key}
use order_outbox_lab.Frames.{Attempt}
use order_outbox_lab.Stages.{max_retries}
use order_outbox_lab.Stages.Statements.{has_event}
use order_outbox_lab.Stages.Statements.Events.{UniqueEvents}
use order_outbox_lab.Stages.Runner.{key_of, pair_of}
use order_outbox_lab.StageEvents.{event_wanted}
use order_outbox_lab.System.Facts.{Inv}

module _ {A : Type 0} (dec : Discrete A) where
  -- No entry stands twice.
  abbrev pub IsUnique : List A → Type 0
  IsUnique [] = Unit
  IsUnique (x ∷ xs) = (contains dec x xs ≡ false) × IsUnique xs

  length-without : (a : A) (xs : List A) → length (without dec a xs) ≤ length xs
  unfolding without
  length-without a [] = omega arith
  length-without a (x ∷ xs) = ground (arith, length-without a xs)

  length-without_held :
      (a : A) (xs : List A) → contains dec a xs ≡ true → suc (length (without dec a xs)) ≤ length xs
  unfolding without contains
  length-without_held a [] h = cc
  length-without_held a (x ∷ xs) h = ground (arith, length-without a xs, length-without_held a xs)

  still_held :
      (x : A) (xs ys : List A)
      → contains dec x xs ≡ false
      → All (λ y. contains dec y ys ≡ true) xs
      → All (λ y. contains dec y (without dec x ys) ≡ true) xs
  unfolding contains
  still_held x [] ys fresh h = tt
  still_held x (y ∷ xs) ys fresh (h, hs) =
      ground (arith, contains-without dec x y ys, still_held x xs ys)

  -- The pigeonhole principle.
  pub length-IsUnique :
      (xs ys : List A)
      → IsUnique xs
      → All (λ x. contains dec x ys ≡ true) xs
      → length xs ≤ length ys
  length-IsUnique [] ys u h = omega arith
  length-IsUnique (x ∷ xs) ys (fresh, u) (h, hs) = omega (
    arith,
    length-without_held x ys h,
    length-IsUnique xs (without dec x ys) u (still_held x xs ys fresh hs),
  )

abbrev key : ℕ → ℕ → StageName → StageStatus → EventKey
key id n stage status = record { order_id = id; stage = stage; attempt = n; status = status }

abbrev stage_keys : ℕ → ℕ → StageName → List EventKey
stage_keys id n stage =
    key id n stage StageStatus.started
    ∷ key id n stage StageStatus.completed
    ∷ key id n stage StageStatus.failed
    ∷ []

-- The keys of the attempt `n` of each stage.
abbrev attempt_keys : ℕ → ℕ → List EventKey
attempt_keys id n =
    stage_keys id n StageName.payment
    ++ (stage_keys id n StageName.inventory ++ stage_keys id n StageName.email)

abbrev all_keys : ℕ → List EventKey
all_keys id = attempt_keys id 1 ++ (attempt_keys id 2 ++ attempt_keys id 3)

contains-stage_keys :
    (id n : ℕ) (stage : StageName) (status : StageStatus)
    → contains EventKey-discrete (key id n stage status) (stage_keys id n stage) ≡ true
unfolding contains
contains-stage_keys id n stage StageStatus.started = ground arith
contains-stage_keys id n stage StageStatus.completed = ground arith
contains-stage_keys id n stage StageStatus.failed = ground arith

contains-attempt_keys :
    (id n : ℕ) (stage : StageName) (status : StageStatus)
    → contains EventKey-discrete (key id n stage status) (attempt_keys id n) ≡ true
contains-attempt_keys id n StageName.payment status =
    contains-append_left EventKey-discrete _ (stage_keys id n StageName.payment) _
      (contains-stage_keys id n StageName.payment status)
contains-attempt_keys id n StageName.inventory status =
    contains-append_right EventKey-discrete _ (stage_keys id n StageName.payment) _ (
      contains-append_left EventKey-discrete _ (stage_keys id n StageName.inventory) _
        (contains-stage_keys id n StageName.inventory status))
contains-attempt_keys id n StageName.email status =
    contains-append_right EventKey-discrete _ (stage_keys id n StageName.payment) _ (
      contains-append_right EventKey-discrete _ (stage_keys id n StageName.inventory) _
        (contains-stage_keys id n StageName.email status))

contains-all_keys :
    (id n : ℕ) (stage : StageName) (status : StageStatus)
    → 1 ≤ n
    → n ≤ max_retries
    → contains EventKey-discrete (key id n stage status) (all_keys id) ≡ true
contains-all_keys id n stage status lo hi =
    let k = contains-attempt_keys id n stage status in
    elim (n_cases n lo hi) [
      | inl first ↦
          contains-append_left EventKey-discrete (key id n stage status) (attempt_keys id 1)
            (attempt_keys id 2 ++ attempt_keys id 3)
            (subst
              (λ m. contains EventKey-discrete (key id n stage status) (attempt_keys id m) ≡ true)
              first k)
      | inr (inl second) ↦
          contains-append_right EventKey-discrete (key id n stage status) (attempt_keys id 1)
            (attempt_keys id 2 ++ attempt_keys id 3)
            (contains-append_left EventKey-discrete (key id n stage status) (attempt_keys id 2)
              (attempt_keys id 3)
              (subst
                (λ m. contains EventKey-discrete (key id n stage status) (attempt_keys id m) ≡ true)
                second k))
      | inr (inr third) ↦
          contains-append_right EventKey-discrete (key id n stage status) (attempt_keys id 1)
            (attempt_keys id 2 ++ attempt_keys id 3)
            (contains-append_right EventKey-discrete (key id n stage status) (attempt_keys id 2)
              (attempt_keys id 3)
              (subst
                (λ m. contains EventKey-discrete (key id n stage status) (attempt_keys id m) ≡ true)
                third k))
    ]
  where
    n_cases : (n : ℕ) → 1 ≤ n → n ≤ max_retries → (n ≡ 1) ⊎ ((n ≡ 2) ⊎ (n ≡ 3))
    n_cases n lo hi = ground arith

keep_fresh :
    (p : OrderStageEventEntity → Bool) (k : EventKey) (events : List OrderStageEventEntity)
    → has_event k events ≡ false
    → contains EventKey-discrete k (map event_key (keep p events)) ≡ false
unfolding keep contains has_event
keep_fresh p k [] h = refl
keep_fresh p k (e ∷ es) h = ground (arith, keep_fresh p k es)

keep-IsUnique :
    (p : OrderStageEventEntity → Bool) (events : List OrderStageEventEntity)
    → UniqueEvents events
    → IsUnique EventKey-discrete (map event_key (keep p events))
unfolding keep
keep-IsUnique p [] u = tt
keep-IsUnique p (e ∷ es) (fresh, u) =
    ground (arith, keep-IsUnique p es u, keep_fresh p (event_key e) es fresh)

-- What holds of the keys of all events holds of each event.
each_key :
    (P : EventKey → Type 0) (events : List OrderStageEventEntity)
    → ((k : EventKey) → has_event k events ≡ true → P k)
    → All (λ e. P (event_key e)) events
unfolding has_event contains
each_key P [] h = tt
each_key P (e ∷ es) h =
    (h (event_key e) (ground arith), each_key P es (λ k c. h k (ground (arith, c))))

module _ {s : Store} {delivered running : List Attempt} (inv : Inv s delivered running) where
  abbrev Numbered : EventKey → Type 0
  Numbered k = (1 ≤ k.attempt) × (k.attempt ≤ max_retries)

  logged-Numbered : (k : EventKey) → has_event k s.stage_events ≡ true → Numbered k
  logged-Numbered k h = by_status k.status (attempt_of k) h
    where
      attempt_of : EventKey → Attempt
      attempt_of k = record { order_id = k.order_id; stage = k.stage; attempt = k.attempt }

      by_status :
          (status : StageStatus) (a : Attempt)
          → has_event (key_of a status) s.stage_events ≡ true
          → (1 ≤ a.attempt) × (a.attempt ≤ max_retries)
      by_status StageStatus.started a h = ground (arith, inv.started_due a h)
      by_status StageStatus.completed a h = ground (arith, inv.completed_last a h)
      by_status StageStatus.failed a h =
          ground (arith, inv.failed_counted a h, inv.capped (pair_of a))

  wanted_keys :
      (id : ℕ) (events : List OrderStageEventEntity)
      → All (λ e. Numbered (event_key e)) events
      → All
          (λ k. contains EventKey-discrete k (all_keys id) ≡ true)
          (map event_key (keep (event_wanted id) events))
  unfolding keep
  wanted_keys id [] h = tt
  wanted_keys id (e ∷ es) ((lo, hi), hs) =
      ground
        (arith, wanted_keys id es hs, contains-all_keys e.order_id e.attempt e.stage e.status lo hi)

  pub few_events : (id : ℕ) → length (keep (event_wanted id) s.stage_events) ≤ 27
  few_events id = omega (
    arith,
    length-IsUnique EventKey-discrete (map event_key (keep (event_wanted id) s.stage_events))
        (all_keys id) (keep-IsUnique (event_wanted id) s.stage_events inv.unique_events)
        (wanted_keys id s.stage_events (each_key Numbered s.stage_events logged-Numbered)),
    length-map (keep (event_wanted id) s.stage_events),
  )
    where
      length-map : (es : List OrderStageEventEntity) → length (map event_key es) ≡ length es
      length-map [] = refl
      length-map (e ∷ es) = omega (arith, length-map es)
