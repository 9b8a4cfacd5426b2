-- ===== src/Effects.antt =====
-- Asynchronous code as state passing. A call of the database or of the bus is numbered, and an
-- environment, which every theorem leaves open, says how each one ends and what clocks read.
pub mod Laws
pub mod Quiet
pub mod Success
use order_outbox_lab.Common.{ℕ, suc, List, [], ◌∷◌, ◌++◌, Option, none, some, Text}
use order_outbox_lab.Database.{Store, Stamp}
use order_outbox_lab.Frames.{StageEventFrame, Attempt}

-- `lost`: the call took effect, but its reply never came and the promise rejects.
pub data Outcome : Type 0 where
  done rejected lost : Outcome

pub record Env : Type 0 where
  pub outcome : ℕ → Outcome
  pub stamp : ℕ → Stamp
  -- `Date.now()` of the process, before call n.
  pub clock : ℕ → ℕ

-- The store, the number of the next call, the handler calls that the emitter has made, and the
-- frames that reached the bus, newest first.
pub record World : Type 0 where
  pub store : Store
  pub calls : ℕ
  pub delivered : List Attempt
  pub published : List StageEventFrame

pub data Error : Type 0 where
  unavailable : Error
  bad_request : Text → Error

pub data Result {ℓ} (A : Type ℓ) : Type ℓ where
  ok : A → Result A
  err : Error → Result A

abbrev pub M : Type 0 → Type 0
M A = Env → World → Result A × World

abbrev pub then_run : {A B : Type 0} → Env → (A → M B) → Result A × World → Result B × World
then_run env f (ok a, w) = f a env w
then_run env f (err e, w) = (err e, w)

infixl 5 ◌>>=◌ ◌>>◌
abbrev pub ◌>>=◌ : {A B : Type 0} → M A → (A → M B) → M B
◌>>=◌ m f env w = then_run env f (m env w)

abbrev pub ◌>>◌ : {A B : Type 0} → M A → M B → M B
◌>>◌ m k = m >>= λ _. k

abbrev pub pure : {A : Type 0} → A → M A
pure a env w = (ok a, w)

abbrev pub throw : {A : Type 0} → Error → M A
throw e env w = (err e, w)

abbrev pub tick : World → World
tick w = record w { calls = suc w.calls }

-- `Date.now()`
abbrev pub date_now : M ℕ
date_now env w = (ok (env.clock w.calls), w)

-- `await new Promise((resolve) => setTimeout(resolve, delay))`: the clock of the next call may
-- read anything.
abbrev pub wait : ℕ → M (Unit {0})
wait delay env w = (ok tt, tick w)

-- How a statement ends that computes `r`; `none` is a violated constraint.
abbrev pub settle : {A : Type 0} → Outcome → World → Option (A × Store) → Result A × World
settle Outcome.rejected w r = (err Error.unavailable, w)
settle Outcome.done w none = (err Error.unavailable, w)
settle Outcome.done w (some (a, s)) = (ok a, record w { store = s })
settle Outcome.lost w none = (err Error.unavailable, w)
settle Outcome.lost w (some (a, s)) = (err Error.unavailable, record w { store = s })

-- One SQL statement.
unfoldable pub query : {A : Type 0} → (Stamp → Store → Option (A × Store)) → M A
query f env w = settle (env.outcome w.calls) (tick w) (f (env.stamp w.calls) w.store)

abbrev pub commit : {A : Type 0} → Outcome → Store → A → World → Result A × World
commit Outcome.done old a w = (ok a, w)
commit Outcome.rejected old a w = (err Error.unavailable, record w { store = old })
commit Outcome.lost old a w = (err Error.unavailable, w)

abbrev pub end_transaction : {A : Type 0} → Env → Store → Result A × World → Result A × World
end_transaction env old (ok a, w) = commit (env.outcome w.calls) old a (tick w)
end_transaction env old (err e, w) = (err e, record w { store = old })

-- `dataSource.transaction(body)`: COMMIT if `body` resolves, ROLLBACK if it throws.
unfoldable pub transaction : {A : Type 0} → M A → M A
transaction body env w = end_transaction env w.store (body env w)

-- `events.emit`, which calls its listeners at once and waits for none of them.
unfoldable pub emit_all : List Attempt → M (Unit {0})
emit_all calls env w = (ok tt, record w { delivered = calls ++ w.delivered })

abbrev broadcast : Outcome → StageEventFrame → World → Result (Unit {0}) × World
broadcast Outcome.done f w = (ok tt, record w { published = f ∷ w.published })
broadcast Outcome.rejected f w = (err Error.unavailable, w)
broadcast Outcome.lost f w = (err Error.unavailable, record w { published = f ∷ w.published })

-- `bus.publish`
unfoldable pub publish_frame : StageEventFrame → M (Unit {0})
publish_frame f env w = broadcast (env.outcome w.calls) f (tick w)

abbrev pub handled : {A : Type 0} → A → Result A × World → Result A × World
handled a (ok b, w) = (ok b, w)
handled a (err e, w) = (ok a, w)

-- `.catch(() => a)`
unfoldable pub catching : {A : Type 0} → A → M A → M A
catching a m env w = handled a (m env w)
