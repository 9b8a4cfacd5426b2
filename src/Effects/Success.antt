-- ===== src/Effects/Success.antt =====
-- How calls that succeed compose.
use order_outbox_lab.Common.{◌≡◌, ap, ◌∙◌, Option, some}
use order_outbox_lab.Database.{Store, Stamp}
use order_outbox_lab.Effects.{
  Outcome, Env, World, ok, M, ◌>>=◌, query, transaction, then_run, tick, settle, end_transaction,
  commit,
}

pub query-done :
    {A : Type 0} (f : Stamp → Store → Option (A × Store)) (env : Env) (w : World) (a : A)
    (s : Store)
    → env.outcome w.calls ≡ Outcome.done
    → f (env.stamp w.calls) w.store ≡ some (a, s)
    → query f env w ≡ (ok a, record (tick w) { store = s })
unfolding query
query-done f env w a s h e =
    ap (λ o. settle o (tick w) (f (env.stamp w.calls) w.store)) h
    ∙ ap (settle Outcome.done (tick w)) e

pub >>=-ok :
    {A B : Type 0} (m : M A) (f : A → M B) (env : Env) (w : World) {a : A} {v : World}
    → m env w ≡ (ok a, v)
    → (m >>= f) env w ≡ f a env v
>>=-ok m f env w e = ap (then_run env f) e

pub transaction-done :
    {A : Type 0} (m : M A) (env : Env) (w : World) {a : A} {v : World}
    → m env w ≡ (ok a, v)
    → env.outcome v.calls ≡ Outcome.done
    → transaction m env w ≡ (ok a, tick v)
unfolding transaction
transaction-done m env w {a} {v} e h =
    ap (end_transaction env w.store) e ∙ ap (λ o. commit o w.store a (tick v)) h
