-- ===== src/Effects/Quiet.antt =====
-- Calls that publish no frame.
use order_outbox_lab.Common.{◌≡◌, refl, ◌∙◌, Option, none, some, arith}
use order_outbox_lab.Database.{Store, Stamp}
use order_outbox_lab.Effects.{
  Outcome, Env, World, Result, ok, err, M, ◌>>=◌, query, transaction, then_run, settle,
  end_transaction,
}

abbrev pub Quiet : {A : Type 0} → M A → Type 0
Quiet m = (env : Env) (w : World) → (m env w).1.published ≡ w.published

settle-Quiet :
    {A : Type 0} (o : Outcome) (w : World) (r : Option (A × Store))
    → (settle o w r).1.published ≡ w.published
settle-Quiet Outcome.rejected w r = refl
settle-Quiet Outcome.done w none = refl
settle-Quiet Outcome.done w (some (a, s)) = refl
settle-Quiet Outcome.lost w none = refl
settle-Quiet Outcome.lost w (some (a, s)) = refl

pub query-Quiet : {A : Type 0} (f : Stamp → Store → Option (A × Store)) → Quiet (query f)
unfolding query
query-Quiet f env w = settle-Quiet (env.outcome w.calls) _ (f (env.stamp w.calls) w.store)

then_run-Quiet :
    {A B : Type 0} (env : Env) (f : A → M B) (r : Result A × World)
    → ((a : A) → Quiet (f a))
    → (then_run env f r).1.published ≡ r.1.published
then_run-Quiet env f (ok a, v) h = h a env v
then_run-Quiet env f (err e, v) h = refl

pub >>=-Quiet :
    {A B : Type 0} (m : M A) (f : A → M B) → Quiet m → ((a : A) → Quiet (f a)) → Quiet (m >>= f)
>>=-Quiet m f h k env w = then_run-Quiet env f (m env w) k ∙ h env w

end_transaction-Quiet :
    {A : Type 0} (env : Env) (old : Store) (r : Result A × World)
    → (end_transaction env old r).1.published ≡ r.1.published
end_transaction-Quiet env old (ok a, w) = ground arith
end_transaction-Quiet env old (err e, w) = refl

pub transaction-Quiet : {A : Type 0} (m : M A) → Quiet m → Quiet (transaction m)
unfolding transaction
transaction-Quiet m h env w = end_transaction-Quiet env w.store (m env w) ∙ h env w
