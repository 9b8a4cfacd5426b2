-- ===== src/System/Owed/Opening.antt =====
-- What the outbox owes when an order is new: its untagged row is for the first attempt of each
-- stage.
use order_outbox_lab.Common.{
  ℕ, ◌≡◌, sym, subst, inl, true, false, List, ◌∷◌, [], contains, arith, ℕ_discrete,
}
use order_outbox_lab.Pipeline.{StageName}
use order_outbox_lab.Database.{Store, Stamp, has_order}
use order_outbox_lab.Frames.{Attempt, Attempt-discrete}
use order_outbox_lab.Outbox.{outbox_row, has_row}
use order_outbox_lab.Orders.Validation.{CreateOrderInput}
use order_outbox_lab.Orders.{CreatedOrder, order_row, first_attempt, first_entry}
use order_outbox_lab.Orders.Creation.{OrderCreated}
use order_outbox_lab.Stages.Runner.{pair_of}
use order_outbox_lab.System.Facts.{failures}
use order_outbox_lab.System.Owed.{causes, queued, Covered, IsReached, Owed}

contains-stages :
    (id n : ℕ) (stage : StageName)
    → contains Attempt-discrete
        (record { order_id = id; stage = stage; attempt = n })
        (record { order_id = id; stage = StageName.payment; attempt = n }
          ∷ record { order_id = id; stage = StageName.inventory; attempt = n }
          ∷ record { order_id = id; stage = StageName.email; attempt = n }
          ∷ [])
      ≡ true
unfolding contains
contains-stages id n StageName.payment = ground arith
contains-stages id n StageName.inventory = ground arith
contains-stages id n StageName.email = ground arith

causes-first :
    (a : Attempt) (t : Stamp)
    → a.attempt ≡ first_attempt
    → causes a (outbox_row (first_entry a.order_id) t) ≡ true
causes-first a t e = rw (← e) (contains-stages a.order_id a.attempt a.stage)

module _ (input : CreateOrderInput) (t t' : Stamp) (s : Store) (delivered : List Attempt)
    (new_id : has_order t.id s.orders ≡ false) (new_row : has_row t'.id s.outbox ≡ false)
    (o : Owed s delivered) where
  abbrev opened : Store
  opened = record s {
    orders = order_row input t ∷ s.orders;
    outbox = outbox_row (first_entry t.id) t' ∷ s.outbox;
  }

  rows_opened : (a : Attempt) → IsReached opened a → Covered opened.outbox delivered a
  unfolding queued has_order
  rows_opened a (h, lo, hi, within) = elim (ℕ_discrete t.id a.order_id) [
    | yes p ↦
        let none_yet : failures s a ≡ 0 =
          o.known (pair_of a) (subst (λ x. has_order x s.orders ≡ false) p new_id) in
        let c = causes-first a t' (omega arith) in
        inl (ground (arith, subst (λ x. causes a (outbox_row (first_entry x) t') ≡ true) (sym p) c))
    | no n ↦ ground (arith, o.covered a)
  ]

  Owed-opened : Owed opened delivered
  unfolding has_order
  Owed-opened = record {
    known = λ k h. ground (arith, o.known k);
    unique_rows = (new_row, o.unique_rows);
    covered = rows_opened;
  }

pub Owed-OrderCreated :
    {input : CreateOrderInput} {c : CreatedOrder} {s s' : Store} {delivered : List Attempt}
    → OrderCreated input c s s'
    → Owed s delivered
    → Owed s' delivered
Owed-OrderCreated {input} {s} {delivered} n o =
    subst (λ x. Owed x delivered) (sym n.after)
      (Owed-opened input n.saved_at n.queued_at s delivered n.new_id n.new_row o)
