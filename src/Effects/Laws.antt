-- ===== src/Effects/Laws.antt =====
-- What the effects can do to the store, and what a call that succeeded has done.
use order_outbox_lab.Common.{◌≡◌, refl, Option, none, some, arith, ◌∙◌, ◌⊎◌, inl, inr}
use order_outbox_lab.Database.{Store, Stamp}
use order_outbox_lab.Effects.{
  Outcome, Env, World, Result, ok, err, M, ◌>>=◌, query, transaction, then_run, tick, settle,
  end_transaction,
}

then_run-eq-ok :
    {A B : Type 0} (env : Env) (f : A → M B) (r : Result A × World) {b : B} {u : World}
    → then_run env f r ≡ (ok b, u)
    → (a : A) × (v : World) × (r ≡ (ok a, v)) × (f a env v ≡ (ok b, u))
then_run-eq-ok env f (ok a, v) h = (a, v, refl, h)
then_run-eq-ok env f (err x, v) h = cc

-- A bind that succeeds has two parts that succeed.
pub >>=-eq-ok :
    {A B : Type 0} (m : M A) (f : A → M B) (env : Env) (w : World) {b : B} {u : World}
    → (m >>= f) env w ≡ (ok b, u)
    → (a : A) × (v : World) × (m env w ≡ (ok a, v)) × (f a env v ≡ (ok b, u))
>>=-eq-ok m f env w h = then_run-eq-ok env f (m env w) h

-- A statement that succeeds has computed its new store.
pub query-eq-ok :
    {A : Type 0} (f : Stamp → Store → Option (A × Store)) (env : Env) (w : World) {a : A}
    {u : World}
    → query f env w ≡ (ok a, u)
    → (f (env.stamp w.calls) w.store ≡ some (a, u.store)) × (u.delivered ≡ w.delivered)
unfolding query
query-eq-ok f env w h = ground arith

settle-store :
    {A : Type 0} (o : Outcome) (w : World) (r : Option (A × Store))
    → (((settle o w r).1.store ≡ w.store) ⊎ ((a : A) × (r ≡ some (a, (settle o w r).1.store))))
      × ((settle o w r).1.delivered ≡ w.delivered)
settle-store Outcome.rejected w r = (inl refl, refl)
settle-store Outcome.done w none = (inl refl, refl)
settle-store Outcome.done w (some (a, s)) = (inr (a, refl), refl)
settle-store Outcome.lost w none = (inl refl, refl)
settle-store Outcome.lost w (some (a, s)) = (inr (a, refl), refl)

-- A statement leaves the store, or puts the one that it computes in its place.
pub query-store :
    {A : Type 0} (f : Stamp → Store → Option (A × Store)) (env : Env) (w : World)
    → (((query f env w).1.store ≡ w.store)
        ⊎ ((a : A) × (f (env.stamp w.calls) w.store ≡ some (a, (query f env w).1.store))))
      × ((query f env w).1.delivered ≡ w.delivered)
unfolding query
query-store f env w = settle-store (env.outcome w.calls) (tick w) (f (env.stamp w.calls) w.store)

end_transaction-store :
    {A : Type 0} (env : Env) (old : Store) (r : Result A × World)
    → let u = (end_transaction env old r).1 in
      ((u.store ≡ old) ⊎ ((a : A) × (r.0 ≡ ok a) × (u.store ≡ r.1.store)))
      × (u.delivered ≡ r.1.delivered)
end_transaction-store env old (ok a, w) = ground arith
end_transaction-store env old (err e, w) = (inl refl, refl)

-- A transaction leaves the store as it was, or its body succeeded and made the new one.
pub transaction-store :
    {A : Type 0} (body : M A) (env : Env) (w : World)
    → let u = (transaction body env w).1 in
      ((u.store ≡ w.store) ⊎ ((a : A) × ((body env w).0 ≡ ok a) × (u.store ≡ (body env w).1.store)))
      × (u.delivered ≡ (body env w).1.delivered)
unfolding transaction
transaction-store body env w = end_transaction-store env w.store (body env w)

end_transaction-eq-ok :
    {A : Type 0} (env : Env) (old : Store) (r : Result A × World) {a : A}
    → (end_transaction env old r).0 ≡ ok a
    → (r.0 ≡ ok a) × ((end_transaction env old r).1.store ≡ r.1.store)
end_transaction-eq-ok env old (ok b, w) h = ground arith
end_transaction-eq-ok env old (err e, w) h = cc

-- A transaction that resolves has committed what its body wrote.
pub transaction-eq-ok :
    {A : Type 0} (body : M A) (env : Env) (w : World) {a : A}
    → (transaction body env w).0 ≡ ok a
    → ((body env w).0 ≡ ok a) × ((transaction body env w).1.store ≡ (body env w).1.store)
unfolding transaction
transaction-eq-ok body env w h = end_transaction-eq-ok env w.store (body env w) h

-- The call makes no deliveries.
abbrev pub Silent : {A : Type 0} → M A → Type 0
Silent m = (env : Env) (w : World) → (m env w).1.delivered ≡ w.delivered

then_run-Silent :
    {A B : Type 0} (env : Env) (f : A → M B) (r : Result A × World)
    → ((a : A) → Silent (f a))
    → (then_run env f r).1.delivered ≡ r.1.delivered
then_run-Silent env f (ok a, v) h = h a env v
then_run-Silent env f (err e, v) h = refl

pub >>=-Silent :
    {A B : Type 0} (m : M A) (f : A → M B) → Silent m → ((a : A) → Silent (f a)) → Silent (m >>= f)
>>=-Silent m f h k env w = then_run-Silent env f (m env w) k ∙ h env w

pub query-Silent : {A : Type 0} (f : Stamp → Store → Option (A × Store)) → Silent (query f)
query-Silent f env w = (query-store f env w).1

pub transaction-Silent : {A : Type 0} (m : M A) → Silent m → Silent (transaction m)
transaction-Silent m h env w = (transaction-store m env w).1 ∙ h env w
