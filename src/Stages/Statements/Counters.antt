-- ===== src/Stages/Statements/Counters.antt =====
-- The statements on `stage_retries`, seen through the counter and the dead-letter flag of a key.
use Prim.Native.Nat.{suc}
use order_outbox_lab.Common.{
  ◌≡◌, refl, subst, if_pos, if_neg, Bool, true, false, List, [], ◌∷◌, Text, ite, arith,
}
use order_outbox_lab.Pipeline.{is_dead}
use order_outbox_lab.Database.{StageRetryEntity, RetryKey, RetryKey-discrete, retry_key}
use order_outbox_lab.Stages.Statements.{upsert_rows, has_retry, retry_count, dead_letter_rows}

-- Is the pair of the key dead-lettered?
unfoldable pub retry_dead : RetryKey → List StageRetryEntity → Bool
retry_dead k [] = false
retry_dead k (r ∷ rs) = ite (RetryKey-discrete (retry_key r) k) (is_dead r.status) (retry_dead k rs)

module _ (j k : RetryKey) where
  pub retry_count-upsert_rows :
      (error : Text) (rows : List StageRetryEntity)
      → retry_count j (upsert_rows k error rows)
        ≡ ite (RetryKey-discrete k j) (suc (retry_count j rows)) (retry_count j rows)
  unfolding retry_count upsert_rows
  retry_count-upsert_rows error [] = ground arith
  retry_count-upsert_rows error (r ∷ rs) = ground (arith, retry_count-upsert_rows error rs)

  pub retry_dead-upsert_rows :
      (error : Text) (rows : List StageRetryEntity)
      → retry_dead j (upsert_rows k error rows) ≡ retry_dead j rows
  unfolding retry_dead upsert_rows
  retry_dead-upsert_rows error [] = ground arith
  retry_dead-upsert_rows error (r ∷ rs) = ground (arith, retry_dead-upsert_rows error rs)

  pub retry_count-dead_letter_rows :
      (rows : List StageRetryEntity) → retry_count j (dead_letter_rows k rows) ≡ retry_count j rows
  unfolding retry_count dead_letter_rows
  retry_count-dead_letter_rows [] = refl
  retry_count-dead_letter_rows (r ∷ rs) = ground (arith, retry_count-dead_letter_rows rs)

  pub retry_dead-dead_letter_rows :
      (rows : List StageRetryEntity)
      → retry_dead j (dead_letter_rows k rows)
        ≡ ite (RetryKey-discrete k j) (has_retry j rows) (retry_dead j rows)
  unfolding retry_dead dead_letter_rows has_retry
  retry_dead-dead_letter_rows [] = ground arith
  retry_dead-dead_letter_rows (r ∷ rs) = ground (arith, retry_dead-dead_letter_rows rs)

pub has_retry-upsert_rows :
    (k : RetryKey) (error : Text) (rows : List StageRetryEntity)
    → has_retry k (upsert_rows k error rows) ≡ true
unfolding has_retry upsert_rows
has_retry-upsert_rows k error [] = ground arith
has_retry-upsert_rows k error (r ∷ rs) = ground (arith, has_retry-upsert_rows k error rs)

-- The primary key of `stage_retries`.
abbrev pub UniquePairs : List StageRetryEntity → Type 0
UniquePairs [] = Unit
UniquePairs (r ∷ rs) = (has_retry (retry_key r) rs ≡ false) × UniquePairs rs

has_retry-upsert_rows_any :
    (j k : RetryKey) (error : Text) (rows : List StageRetryEntity)
    → has_retry j (upsert_rows k error rows) ≡ ite (RetryKey-discrete k j) true (has_retry j rows)
unfolding has_retry upsert_rows
has_retry-upsert_rows_any j k error [] = refl
has_retry-upsert_rows_any j k error (r ∷ rs) = elim (RetryKey-discrete (retry_key r) k) [
  | yes p ↦ rw (if_pos _ p) (
      subst
        (λ q.
          ite (RetryKey-discrete (retry_key r) j) true (has_retry j rs)
          ≡ ite (RetryKey-discrete q j) true
              (ite (RetryKey-discrete (retry_key r) j) true (has_retry j rs)))
        p (ground arith))
  | no n ↦ rw (if_neg _ n) (ground (arith, has_retry-upsert_rows_any j k error rs))
]

has_retry-dead_letter_rows :
    (j k : RetryKey) (rows : List StageRetryEntity)
    → has_retry j (dead_letter_rows k rows) ≡ has_retry j rows
unfolding has_retry dead_letter_rows
has_retry-dead_letter_rows j k [] = refl
has_retry-dead_letter_rows j k (r ∷ rs) = ground (arith, has_retry-dead_letter_rows j k rs)

pub UniquePairs-upsert_rows :
    (k : RetryKey) (error : Text) (rows : List StageRetryEntity)
    → UniquePairs rows
    → UniquePairs (upsert_rows k error rows)
unfolding upsert_rows has_retry
UniquePairs-upsert_rows k error [] u = (refl, tt)
UniquePairs-upsert_rows k error (r ∷ rs) (h, u) = ground (
  arith,
  UniquePairs-upsert_rows k error rs u,
  has_retry-upsert_rows_any (retry_key r) k error rs,
)

pub UniquePairs-dead_letter_rows :
    (k : RetryKey) (rows : List StageRetryEntity)
    → UniquePairs rows
    → UniquePairs (dead_letter_rows k rows)
unfolding dead_letter_rows
UniquePairs-dead_letter_rows k [] u = tt
UniquePairs-dead_letter_rows k (r ∷ rs) (h, u) =
    ground
      (arith, UniquePairs-dead_letter_rows k rs u, has_retry-dead_letter_rows (retry_key r) k rs)
