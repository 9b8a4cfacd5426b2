-- ===== src/System/Overlap/Batches.antt =====
-- The batches of open ticks, beside the table.
use order_outbox_lab.Common.{
  ℕ, ◌≡◌, inl, inr, Bool-cases, true, false, List, [], ◌∷◌, some, contains, arith, ℕ_discrete,
  if_pos, if_neg, All,
}
use order_outbox_lab.Database.{OutboxEntity}
use order_outbox_lab.Frames.{Attempt, Attempt-discrete}
use order_outbox_lab.Outbox.{has_row}
use order_outbox_lab.Outbox.Relay.Delivery.{ids}
use order_outbox_lab.System.Owed.{causes}
use order_outbox_lab.System.Overlap.{OpenTick, batch_of, without_tick, holds}

-- A row that some tick holds is unprocessed, and the calls that it causes have been made.
abbrev pub IsSent : List OpenTick → List Attempt → OutboxEntity → Type 0
IsSent ticks delivered row =
    holds ticks row.id ≡ true
    → (row.processed ≡ false)
      × ((a : Attempt) → causes a row ≡ true → contains Attempt-discrete a delivered ≡ true)

-- No tick holds a row of a later one.
abbrev pub Apart : List OpenTick → Type 0
Apart [] = Unit
Apart (t ∷ ts) =
    ((id : ℕ) → contains ℕ_discrete id (ids t.rows) ≡ true → holds ts id ≡ false) × Apart ts

pub record Batches (rows : List OutboxEntity) (delivered : List Attempt) (ticks : List OpenTick)
    : Type 0 where
  pub present : (id : ℕ) → holds ticks id ≡ true → has_row id rows ≡ true
  pub sent : All (IsSent ticks delivered) rows
  pub apart : Apart ticks

pub holds-without_tick :
    (i id : ℕ) (ticks : List OpenTick)
    → holds (without_tick i ticks) id ≡ true
    → holds ticks id ≡ true
unfolding holds without_tick
holds-without_tick i id [] h = h
holds-without_tick i id (t ∷ ts) h = ground (arith, holds-without_tick i id ts)

pub Apart-without_tick :
    (i : ℕ) (ticks : List OpenTick) → Apart ticks → Apart (without_tick i ticks)
unfolding without_tick
Apart-without_tick i [] h = tt
Apart-without_tick i (t ∷ ts) (h, hs) = elim (ℕ_discrete t.instance_id i) [
  | yes p ↦ rw (if_pos _ p) (Apart-without_tick i ts hs)
  | no n ↦ rw (if_neg _ n) (
    (λ id c. elim (Bool-cases (holds (without_tick i ts) id)) [
      | inl held ↦ ground (arith, h id c, holds-without_tick i id ts held)
      | inr free ↦ free
    ]),
    Apart-without_tick i ts hs,
  )
]

pub holds-batch_of :
    (i id : ℕ) (ticks : List OpenTick) {rows : List OutboxEntity}
    → batch_of i ticks ≡ some rows
    → contains ℕ_discrete id (ids rows) ≡ true
    → holds ticks id ≡ true
unfolding holds batch_of
holds-batch_of i id [] e c = cc
holds-batch_of i id (t ∷ ts) {rows} e c = elim (ℕ_discrete t.instance_id i) [
  | yes p ↦ ground (arith)
  | no n ↦ ground (arith, holds-batch_of i id ts {rows = rows})
]

-- The other ticks hold none of the rows of one.
pub batch_of-Apart :
    (i id : ℕ) (ticks : List OpenTick) {rows : List OutboxEntity}
    → Apart ticks
    → batch_of i ticks ≡ some rows
    → contains ℕ_discrete id (ids rows) ≡ true
    → holds (without_tick i ticks) id ≡ false
unfolding holds batch_of without_tick
batch_of-Apart i id [] h e c = cc
batch_of-Apart i id (t ∷ ts) {rows} (h, hs) e c = elim (ℕ_discrete t.instance_id i) [
  | yes p ↦ elim (Bool-cases (holds (without_tick i ts) id)) [
    | inl held ↦ ground (arith, h id, holds-without_tick i id ts held)
    | inr free ↦ ground (arith)
  ]
  | no n ↦
      ground
        (arith, h id, holds-batch_of i id ts {rows = rows}, batch_of-Apart i id ts {rows = rows} hs)
]
