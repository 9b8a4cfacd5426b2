-- ===== src/Outbox/Claiming.antt =====
-- The rows that the SELECT of a tick takes.
use order_outbox_lab.Common.{
  ℕ, ◌≡◌, Bool, true, false, ◌||◌, List, map, contains, ℕ_discrete, All, All-map, arith,
}
use order_outbox_lab.Database.{OutboxEntity}
use order_outbox_lab.Database.Query.{IsLinear, Sorter, find}
use order_outbox_lab.Outbox.{outbox_batch_size, claimable, claimed_before, claim_rows}
use order_outbox_lab.Queries.Pages.{Page, find-Page}

claimed_before-IsLinear : IsLinear claimed_before
unfolding claimed_before
claimed_before-IsLinear = record { total = λ a b. ground arith; trans = λ a b c h k. ground arith }

abbrev pub row_ids : List OutboxEntity → List ℕ
row_ids = map (λ row. row.id)

pub Page-claim_rows :
    (sorter : Sorter) (locked : ℕ → Bool) (now : ℕ) (rows : List OutboxEntity)
    → Page
        (claimable now locked)
        claimed_before
        outbox_batch_size
        rows
        (claim_rows sorter locked now rows)
unfolding claim_rows find
Page-claim_rows sorter locked now rows =
    find-Page claimed_before sorter (claimable now locked) outbox_batch_size rows
      claimed_before-IsLinear

-- The locks that a tick meets while another holds the rows `ids`.
abbrev pub with_held : List ℕ → (ℕ → Bool) → ℕ → Bool
with_held ids locked id = contains ℕ_discrete id ids || locked id

not_held :
    (ids : List ℕ) (locked : ℕ → Bool) (now : ℕ) (row : OutboxEntity)
    → claimable now (with_held ids locked) row ≡ true
    → contains ℕ_discrete row.id ids ≡ false
unfolding claimable
not_held ids locked now row h = ground arith

-- A tick takes a page of the rows that are unprocessed, due, undeleted and not locked: at most 50,
-- oldest first by `created_at` and then by id; those left out sort after them, and none is left out
-- unless there are 50. A tick of another instance that meets its locks takes none of its rows.
pub claim_rows-Page :
    (sorter : Sorter) (locked : ℕ → Bool) (now later : ℕ) (rows : List OutboxEntity)
    → let batch = claim_rows sorter locked now rows in
      let other = claim_rows sorter (with_held (row_ids batch) locked) later rows in
      Page (claimable now locked) claimed_before outbox_batch_size rows batch
      × All (λ row. contains ℕ_discrete row.id (row_ids batch) ≡ false) other
claim_rows-Page sorter locked now later rows =
    let batch = claim_rows sorter locked now rows in
    let held = with_held (row_ids batch) locked in
    let other = claim_rows sorter held later rows in
    (
      Page-claim_rows sorter locked now rows,
      All-map (λ row. claimable later held row ≡ true)
          (λ row. contains ℕ_discrete row.id (row_ids batch) ≡ false)
          (not_held (row_ids batch) locked later) other
          (Page-claim_rows sorter held later rows).all_wanted,
    )
