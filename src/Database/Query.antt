-- ===== src/Database/Query.antt =====
-- What the list queries and the relay's SELECT ask of Postgres: ORDER BY is the database's, with
-- its documented promise as laws; WHERE and LIMIT are written out. TypeORM's `find` and its query
-- builder leave out soft-deleted rows of a table that has `deleted_at`.
use order_outbox_lab.Common.{
  ℕ, ◌≡◌, ◌⊎◌, Bool, true, false, Option, none, some, List, [], ◌∷◌, Permᴰ, All, take, keep,
}
use order_outbox_lab.Pipeline.{Order}

module _ {A : Type 0} (le : A → A → Bool) where
  pub record IsLinear : Type 0 where
    pub total : (a b : A) → (le a b ≡ true) ⊎ (le b a ≡ true)
    pub trans : (a b c : A) → le a b ≡ true → le b c ≡ true → le a c ≡ true

  abbrev pub IsOrdered : List A → Type 0
  IsOrdered [] = Unit
  IsOrdered (x ∷ xs) = All (λ y. le x y ≡ true) xs × IsOrdered xs

-- ORDER BY: the same rows, in an order that the key allows. Rows with equal keys come in any order.
pub record Sorter : Type 1 where
  pub order_by : {A : Type 0} → (A → A → Bool) → List A → List A
  pub same_rows :
      {A : Type 0} (le : A → A → Bool) (rows : List A) → Permᴰ rows (order_by {A = A} le rows)
  pub ordered :
      {A : Type 0} (le : A → A → Bool) (rows : List A)
      → IsLinear le
      → IsOrdered le (order_by {A = A} le rows)

abbrev pub is_none {ℓ} : {A : Type ℓ} → Option A → Bool
is_none none = true
is_none (some a) = false

abbrev pub directed {ℓ} : {A : Type ℓ} → Order → (A → A → Bool) → A → A → Bool
directed Order.asc le a b = le a b
directed Order.desc le a b = le b a

-- `repository.find({ where, order, take })`
unfoldable pub find : Sorter → {A : Type 0} → (A → Bool) → (A → A → Bool) → ℕ → List A → List A
find sorter wanted le limit rows = take limit (sorter.order_by le (keep wanted rows))
