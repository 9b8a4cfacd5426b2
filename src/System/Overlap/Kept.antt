-- ===== src/System/Overlap/Kept.antt =====
-- The batches of open ticks over each move.
use order_outbox_lab.Common.{
  ℕ, ◌≡◌, sym, subst, ap, ◌∙◌, inl, inr, Bool, Bool-cases, true, false, List, [], ◌∷◌, ◌++◌, some,
  contains, arith, ℕ_discrete, All, All-map, contains-append_left, contains-append_right,
}
use order_outbox_lab.Database.{OutboxEntity}
use order_outbox_lab.Database.Query.{Sorter}
use order_outbox_lab.Frames.{Attempt, Attempt-discrete}
use order_outbox_lab.Outbox.{has_row, claim_rows, claimable, mark_rows}
use order_outbox_lab.Outbox.Claiming.{Page-claim_rows}
use order_outbox_lab.Outbox.Relay.{emissions}
use order_outbox_lab.Outbox.Relay.Delivery.{ids}
use order_outbox_lab.System.Owed.{UniqueRows}
use order_outbox_lab.System.Owed.Marking.{
  SameAs, claimed-All, claimed-Same, causes-emissions, has_row-mark_rows,
}
use order_outbox_lab.System.Overlap.{OpenTick, batch_of, without_tick, holds, skipped}
use order_outbox_lab.System.Overlap.Rows.{Grown}
use order_outbox_lab.System.Overlap.Batches.{
  IsSent, Apart, Batches, holds-without_tick, Apart-without_tick, batch_of-Apart,
}

ids-All :
    (P : ℕ → Type 0) (id : ℕ) (rows : List OutboxEntity)
    → All (λ row. P row.id) rows
    → contains ℕ_discrete id (ids rows) ≡ true
    → P id
unfolding contains
ids-All P id [] h c = cc
ids-All P id (row ∷ rows) (h, hs) c = elim (ℕ_discrete row.id id) [
  | yes e ↦ subst P e h
  | no n ↦ ids-All P id rows hs (ground arith)
]

has_row_self : (rows : List OutboxEntity) → All (λ row. has_row row.id rows ≡ true) rows
unfolding has_row
has_row_self [] = tt
has_row_self (row ∷ rows) = (
  ground arith,
  All-map (λ r. has_row r.id rows ≡ true) (λ r. has_row r.id (row ∷ rows) ≡ true)
      (λ r h. ground arith) rows (has_row_self rows),
)

module _ {rows : List OutboxEntity} {delivered : List Attempt} {ticks : List OpenTick}
    (b : Batches rows delivered ticks) where
  -- Another transaction commits a new row.
  pub Batches-Grown : {rows' : List OutboxEntity} → Grown rows rows' → Batches rows' delivered ticks
  unfolding has_row
  Batches-Grown (inl same) = rw same b
  Batches-Grown (inr (row, fresh, open_row, e)) = rw e (record {
    present = λ id h. ground (arith, b.present id);
    sent = ((λ h. ground (arith, b.present row.id)), b.sent);
    apart = b.apart;
  })

  -- A tick ends without its marks.
  pub Batches-without_tick : (i : ℕ) → Batches rows delivered (without_tick i ticks)
  Batches-without_tick i = record {
    present = λ id h. b.present id (holds-without_tick i id ticks h);
    sent =
        All-map (IsSent ticks delivered) (IsSent (without_tick i ticks) delivered)
          (λ row h held. h (holds-without_tick i row.id ticks held)) rows b.sent;
    apart = Apart-without_tick i ticks b.apart;
  }

module _ (ticks : List OpenTick) (delivered : List Attempt) (i : ℕ) (batch : List OutboxEntity)
    (apart : Apart ticks) (e : batch_of i ticks ≡ some batch) where
  -- Marking the batch touches no row that another tick holds.
  IsSent-marked :
      (at now : ℕ) (rows : List OutboxEntity)
      → All (IsSent ticks delivered) rows
      → All (IsSent (without_tick i ticks) delivered) (mark_rows (ids batch) at now rows)
  unfolding mark_rows
  IsSent-marked at now [] h = tt
  IsSent-marked at now (row ∷ rows) (h, hs) =
      elim (Bool-cases (contains ℕ_discrete row.id (ids batch))) [
        | inl hit ↦ rw hit (
          (λ held. let free = batch_of-Apart i row.id ticks apart e hit in ground arith),
          IsSent-marked at now rows hs,
        )
        | inr miss ↦
            rw miss
              ((λ held. h (holds-without_tick i row.id ticks held)), IsSent-marked at now rows hs)
      ]

pub Batches-marked :
    {rows : List OutboxEntity} {delivered : List Attempt} {ticks : List OpenTick}
    → Batches rows delivered ticks
    → (i : ℕ) (batch : List OutboxEntity) (at now : ℕ) → batch_of i ticks ≡ some batch
    → Batches (mark_rows (ids batch) at now rows) delivered (without_tick i ticks)
Batches-marked {rows} {delivered} {ticks} b i batch at now e = record {
  present = λ id h. ground (
    arith,
    has_row-mark_rows id (ids batch) at now rows,
    b.present id (holds-without_tick i id ticks h),
  );
  sent = IsSent-marked ticks delivered i batch b.apart e at now rows b.sent;
  apart = Apart-without_tick i ticks b.apart;
}

module _ (sorter : Sorter) (locked : ℕ → Bool) (now i : ℕ) (rows : List OutboxEntity)
    (ticks : List OpenTick) where
  abbrev batch : List OutboxEntity
  batch = claim_rows sorter (skipped ticks locked) now rows

  -- A claimed row is unprocessed, and no open tick holds it.
  batch-free : All (λ row. (row.processed ≡ false) × (holds ticks row.id ≡ false)) batch
  unfolding claimable
  batch-free =
      All-map (λ row. claimable now (skipped ticks locked) row ≡ true)
        (λ row. (row.processed ≡ false) × (holds ticks row.id ≡ false)) (λ row h. ground arith)
        batch (Page-claim_rows sorter (skipped ticks locked) now rows).all_wanted

  abbrev ticking : List OpenTick
  ticking = record { instance_id = i; rows = batch } ∷ ticks

  IsUnprocessed-claimed :
      (row : OutboxEntity) (claimed : List OutboxEntity)
      → All (λ c. SameAs c row) claimed
      → All (λ c. (c.processed ≡ false) × (holds ticks c.id ≡ false)) claimed
      → contains ℕ_discrete row.id (ids claimed) ≡ true
      → row.processed ≡ false
  unfolding contains
  IsUnprocessed-claimed row [] h f c = cc
  IsUnprocessed-claimed row (x ∷ xs) (h, hs) (f, fs) c = elim (ℕ_discrete x.id row.id) [
    | yes e ↦ ap (λ r. r.processed) (h (sym e)) ∙ f.0
    | no n ↦ IsUnprocessed-claimed row xs hs fs (ground arith)
  ]

  IsSent-claimed :
      (delivered : List Attempt) (row : OutboxEntity)
      → All (λ c. SameAs c row) batch
      → IsSent ticks delivered row
      → IsSent ticking (emissions batch ++ delivered) row
  unfolding holds
  IsSent-claimed delivered row same h held =
      elim (Bool-cases (contains ℕ_discrete row.id (ids batch))) [
        | inl hit ↦ (
          IsUnprocessed-claimed row batch same batch-free hit,
          (λ a c.
              contains-append_left Attempt-discrete a (emissions batch) delivered
                (causes-emissions a row batch same hit c)),
        )
        | inr miss ↦
            let (open_row, made) = h (ground arith) in
            (
              open_row,
              (λ a c.
                  contains-append_right Attempt-discrete a (emissions batch) delivered (made a c)),
            )
      ]

  IsSent-all :
      (delivered : List Attempt) (table : List OutboxEntity)
      → All (λ row. All (λ c. SameAs c row) batch) table
      → All (IsSent ticks delivered) table
      → All (IsSent ticking (emissions batch ++ delivered)) table
  IsSent-all delivered [] same h = tt
  IsSent-all delivered (row ∷ table) (s, ss) (h, hs) =
      (IsSent-claimed delivered row s h, IsSent-all delivered table ss hs)

  -- A tick opens: its SELECT skips the rows that others hold, and it emits what it got.
  pub Batches-opened :
      {delivered : List Attempt}
      → UniqueRows rows
      → Batches rows delivered ticks
      → Batches rows (emissions batch ++ delivered) ticking
  unfolding holds
  Batches-opened {delivered} u b = record {
    present = λ id h. elim (Bool-cases (contains ℕ_discrete id (ids batch))) [
      | inl hit ↦
          ids-All (λ x. has_row x rows ≡ true) id batch
            (claimed-All (λ row. has_row row.id rows ≡ true) sorter (skipped ticks locked) now rows
              (has_row_self rows))
            hit
      | inr miss ↦ b.present id (ground arith)
    ];
    sent = IsSent-all delivered rows (claimed-Same sorter (skipped ticks locked) now rows u) b.sent;
    apart = (
      (λ id c.
          ids-All (λ x. holds ticks x ≡ false) id batch
            (All-map (λ row. (row.processed ≡ false) × (holds ticks row.id ≡ false))
              (λ row. holds ticks row.id ≡ false) (λ row f. f.1) batch batch-free)
            c),
      b.apart,
    );
  }
