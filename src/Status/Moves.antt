-- ===== src/Status/Moves.antt =====
-- How one `recompute` moves the status of an order, under any environment.
use order_outbox_lab.Common.{
  ◌≡◌, refl, sym, subst, ◌∙◌, ◌⊎◌, inl, inr, ℕ, Bool, true, false, Option, none, some, ◌==◌, ==_iff,
  Bool-cases, arith,
}
use order_outbox_lab.Pipeline.{OrderStatus}
use order_outbox_lab.Database.{Store}
use order_outbox_lab.Effects.{Env, World, Result, ok, err, then_run, query}
use order_outbox_lab.Effects.Laws.{query-store}
use order_outbox_lab.Status.{
  all_completed, has_dead_letter, settle_rows, fulfil_order, fail_order, recompute,
}
use order_outbox_lab.Status.Settling.{status_of, settle_status, status_of-settle_rows, fulfil-Kept}

-- A guarded UPDATE leaves a status, or moves it from pending where its condition holds.
abbrev Settles : Bool → OrderStatus → Option OrderStatus → Option OrderStatus → Type 0
Settles holds to before after =
    (after ≡ before) ⊎ ((before ≡ some OrderStatus.pending) × (holds ≡ true) × (after ≡ some to))

settle_status-Settles :
    (holds : Bool) (to : OrderStatus) (before : Option OrderStatus)
    → Settles holds to before (settle_status holds to before)
settle_status-Settles false to before = inl refl
settle_status-Settles true to none = inl refl
settle_status-Settles true to (some OrderStatus.pending) = inr (refl, refl, refl)
settle_status-Settles true to (some OrderStatus.fulfilled) = inl refl
settle_status-Settles true to (some OrderStatus.failed) = inl refl

module _ (id j : ℕ) where
  -- The UPDATE for `id`, seen from the order `j`; `holds j` is its condition.
  settle_rows-Settles :
      (holds : ℕ → Bool) (to : OrderStatus) (now : ℕ) (s : Store)
      → Settles
          (holds j)
          to
          (status_of j s.orders)
          (status_of j (settle_rows id (holds id) to now s.orders))
  settle_rows-Settles holds to now s =
      let e = status_of-settle_rows id j (holds id) to now s.orders in
      let c = settle_status-Settles (holds id) to (status_of j s.orders) in
      elim (Bool-cases (id == j)) [
        | inl hit ↦ ground (arith, e, c, ==_iff id j)
        | inr miss ↦ ground (arith, e)
      ]

  fulfil-Settles :
      (env : Env) (w : World)
      → Settles
          (all_completed j w.store.stage_events)
          OrderStatus.fulfilled
          (status_of j w.store.orders)
          (status_of j (query (fulfil_order id) env w).1.store.orders)
  unfolding fulfil_order
  fulfil-Settles env w = elim (query-store (fulfil_order id) env w).0 [
    | inl e ↦ inl (rw e refl)
    | inr (x, e) ↦ ground (
      arith,
      e,
      settle_rows-Settles (λ i. all_completed i w.store.stage_events) OrderStatus.fulfilled
          (env.stamp w.calls).now w.store,
    )
  ]

  fail-Settles :
      (env : Env) (w : World)
      → Settles
          (has_dead_letter j w.store.stage_retries)
          OrderStatus.failed
          (status_of j w.store.orders)
          (status_of j (query (fail_order id) env w).1.store.orders)
  unfolding fail_order
  fail-Settles env w = elim (query-store (fail_order id) env w).0 [
    | inl e ↦ inl (rw e refl)
    | inr (x, e) ↦ ground (
      arith,
      e,
      settle_rows-Settles (λ i. has_dead_letter i w.store.stage_retries) OrderStatus.failed
          (env.stamp w.calls).now w.store,
    )
  ]

  then-Settles :
      (env : Env) (r : Result (Unit {0}) × World)
      → Settles
          (has_dead_letter j r.1.store.stage_retries)
          OrderStatus.failed
          (status_of j r.1.store.orders)
          (status_of j (then_run env (λ _. query (fail_order id)) r).1.store.orders)
  then-Settles env (ok x, v) = fail-Settles env v
  then-Settles env (err e, v) = inl refl

-- A status that two tables and the status before it justify.
pub data StatusMove (j : ℕ) (s : Store) : Option OrderStatus → Option OrderStatus → Type 0 where
  stays : {x y : Option OrderStatus} → y ≡ x → StatusMove j s x y
  opens : {x y : Option OrderStatus} → x ≡ none → y ≡ some OrderStatus.pending → StatusMove j s x y
  fulfils :
      {x y : Option OrderStatus}
      → x ≡ some OrderStatus.pending
      → all_completed j s.stage_events ≡ true
      → y ≡ some OrderStatus.fulfilled
      → StatusMove j s x y
  gives_up :
      {x y : Option OrderStatus}
      → x ≡ some OrderStatus.pending
      → has_dead_letter j s.stage_retries ≡ true
      → y ≡ some OrderStatus.failed
      → StatusMove j s x y

two-Settles :
    (j : ℕ) (s : Store) (x y z : Option OrderStatus)
    → Settles (all_completed j s.stage_events) OrderStatus.fulfilled x y
    → Settles (has_dead_letter j s.stage_retries) OrderStatus.failed y z
    → StatusMove j s x z
two-Settles j s x y z (inl e) (inl e') = stays (e' ∙ e)
two-Settles j s x y z (inl e) (inr (p, h, q)) = gives_up (sym e ∙ p) h q
two-Settles j s x y z (inr (p, h, q)) (inl e) = fulfils p h (e ∙ q)
two-Settles j s x y z (inr (p, h, q)) (inr (p', h', q')) = cc

pub recompute-StatusMove :
    (id j : ℕ) (env : Env) (w : World)
    → StatusMove j w.store
        (status_of j w.store.orders)
        (status_of j (recompute id env w).1.store.orders)
unfolding recompute
recompute-StatusMove id j env w =
    let r = query (fulfil_order id) env w in
    let (_, _, retries, _) = fulfil-Kept id env w in
    two-Settles j w.store _ (status_of j r.1.store.orders) _ (fulfil-Settles id j env w) (
      subst
        (λ rows.
          Settles (has_dead_letter j rows) OrderStatus.failed (status_of j r.1.store.orders)
            (status_of j (then_run env (λ _. query (fail_order id)) r).1.store.orders))
        retries (then-Settles id j env r))

gives_up-StatusMove :
    (j : ℕ) (s : Store) (x y : Option OrderStatus)
    → Settles (has_dead_letter j s.stage_retries) OrderStatus.failed x y
    → StatusMove j s x y
gives_up-StatusMove j s x y (inl e) = stays e
gives_up-StatusMove j s x y (inr (p, h, q)) = gives_up p h q

pub fail_order-StatusMove :
    (id j : ℕ) (env : Env) (w : World)
    → StatusMove j w.store
        (status_of j w.store.orders)
        (status_of j (query (fail_order id) env w).1.store.orders)
fail_order-StatusMove id j env w = gives_up-StatusMove j w.store _ _ (fail-Settles id j env w)
