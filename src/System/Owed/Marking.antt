-- ===== src/System/Owed/Marking.antt =====
-- What the outbox owes when the rows of a batch are marked.
use order_outbox_lab.Common.{
  ℕ, ◌≡◌, ◌≢◌, refl, sym, subst, ◌⊎◌, Bool, true, false, List, [], ◌∷◌, contains, arith, ℕ_discrete,
  All, All-take, All-keep, All-perm, All-swap, contains-append_left, contains-append_right,
}
use order_outbox_lab.Database.{OutboxEntity}
use order_outbox_lab.Database.Query.{Sorter}
use order_outbox_lab.Frames.{Attempt, Attempt-discrete}
use order_outbox_lab.Outbox.{has_row, claim_rows, claimable, claimed_before, mark_rows}
use order_outbox_lab.Outbox.Relay.{emissions, intended, emit-intended}
use order_outbox_lab.Outbox.Relay.Delivery.{ids}
use order_outbox_lab.System.Owed.{causes, queued, UniqueRows}

-- No row of the table but `row` has the id of `row`.
abbrev pub Same : List OutboxEntity → OutboxEntity → Type 0
Same table row = All (λ r. r.id ≡ row.id → r ≡ row) table

has_row-All :
    (id : ℕ) (rows : List OutboxEntity) → has_row id rows ≡ false → All (λ r. r.id ≢ id) rows
unfolding has_row
has_row-All id [] h = tt
has_row-All id (r ∷ rs) h = ground (arith, has_row-All id rs)

Same-cons :
    (row : OutboxEntity) (table rows : List OutboxEntity)
    → All (λ r. r.id ≢ row.id) rows
    → All (Same table) rows
    → All (Same (row ∷ table)) rows
Same-cons row table [] h k = tt
Same-cons row table (r ∷ rs) (n, ns) (k, ks) =
    (((λ e. absurd (n (sym e))), k), Same-cons row table rs ns ks)

fresh-Same :
    (row : OutboxEntity) (rows : List OutboxEntity) → All (λ r. r.id ≢ row.id) rows → Same rows row
fresh-Same row [] h = tt
fresh-Same row (r ∷ rs) (n, ns) = ((λ e. absurd (n e)), fresh-Same row rs ns)

pub UniqueRows-Same : (rows : List OutboxEntity) → UniqueRows rows → All (Same rows) rows
UniqueRows-Same [] u = tt
UniqueRows-Same (r ∷ rs) (fresh, u) =
    let apart = has_row-All r.id rs fresh in
    (((λ e. refl), fresh-Same r rs apart), Same-cons r rs rs apart (UniqueRows-Same rs u))

-- A row with the id of `c` is `c`.
abbrev pub SameAs : OutboxEntity → OutboxEntity → Type 0
SameAs c r = r.id ≡ c.id → r ≡ c

-- A row whose id is among those of the batch causes calls that the batch makes.
pub causes-emissions :
    (a : Attempt) (row : OutboxEntity) (batch : List OutboxEntity)
    → All (λ c. SameAs c row) batch
    → contains ℕ_discrete row.id (ids batch) ≡ true
    → causes a row ≡ true
    → contains Attempt-discrete a (emissions batch) ≡ true
unfolding emissions contains
causes-emissions a row [] h c k = cc
causes-emissions a row (b ∷ batch) (h, hs) c k =
    rw (emit-intended b.stage b.payload) (elim (ℕ_discrete b.id row.id) [
      | yes p ↦
          contains-append_left Attempt-discrete a (intended b.stage b.payload) (emissions batch)
            (subst (λ r. causes a r ≡ true) (h (sym p)) k)
      | no n ↦
          contains-append_right Attempt-discrete a (intended b.stage b.payload) (emissions batch)
            (causes-emissions a row batch hs (ground arith) k)
    ])

queued-mark_rows :
    (a : Attempt) (batch : List OutboxEntity) (at now : ℕ) (rows : List OutboxEntity)
    → All (λ row. All (λ c. SameAs c row) batch) rows
    → queued a rows ≡ true
    → (queued a (mark_rows (ids batch) at now rows) ≡ true)
      ⊎ (contains Attempt-discrete a (emissions batch) ≡ true)
unfolding queued mark_rows
queued-mark_rows a batch at now [] h q = cc
queued-mark_rows a batch at now (row ∷ rows) (h, hs) q =
    ground (arith, causes-emissions a row batch h, queued-mark_rows a batch at now rows hs)

-- What the relay claims is in the table.
pub claimed-All :
    (P : OutboxEntity → Type 0) (sorter : Sorter) (locked : ℕ → Bool) (now : ℕ)
    (rows : List OutboxEntity)
    → All P rows
    → All P (claim_rows sorter locked now rows)
unfolding claim_rows
claimed-All P sorter locked now rows h =
    All-take P _ _
      (All-perm P (sorter.same_rows claimed_before _) (All-keep P (claimable now locked) rows h))

pub has_row-mark_rows :
    (id : ℕ) (ids : List ℕ) (at now : ℕ) (rows : List OutboxEntity)
    → has_row id (mark_rows ids at now rows) ≡ has_row id rows
unfolding has_row mark_rows
has_row-mark_rows id ids at now [] = refl
has_row-mark_rows id ids at now (row ∷ rows) = ground (arith, has_row-mark_rows id ids at now rows)

pub UniqueRows-mark_rows :
    (ids : List ℕ) (at now : ℕ) (rows : List OutboxEntity)
    → UniqueRows rows
    → UniqueRows (mark_rows ids at now rows)
unfolding mark_rows
UniqueRows-mark_rows ids at now [] u = tt
UniqueRows-mark_rows ids at now (row ∷ rows) (h, u) =
    ground (arith, has_row-mark_rows row.id ids at now rows, UniqueRows-mark_rows ids at now rows u)

-- A row of the table with the id of a claimed row is that row.
pub claimed-Same :
    (sorter : Sorter) (locked : ℕ → Bool) (now : ℕ) (rows : List OutboxEntity)
    → UniqueRows rows
    → All (λ row. All (λ c. SameAs c row) (claim_rows sorter locked now rows)) rows
claimed-Same sorter locked now rows u =
    All-swap SameAs (claim_rows sorter locked now rows) rows
      (claimed-All (λ c. All (SameAs c) rows) sorter locked now rows (UniqueRows-Same rows u))

-- A tick that marks its batch closes no row whose calls it has not made.
pub queued-claimed :
    (sorter : Sorter) (locked : ℕ → Bool) (now at now' : ℕ) (rows : List OutboxEntity)
    → UniqueRows rows
    → let batch = claim_rows sorter locked now rows in
      (a : Attempt)
      → queued a rows ≡ true
      → (queued a (mark_rows (ids batch) at now' rows) ≡ true)
        ⊎ (contains Attempt-discrete a (emissions batch) ≡ true)
queued-claimed sorter locked now at now' rows u a =
    queued-mark_rows a (claim_rows sorter locked now rows) at now' rows
      (claimed-Same sorter locked now rows u)
