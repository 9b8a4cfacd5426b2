-- ===== src/LoadGenerator/Batches.antt =====
-- How many requests a burst sends.
use order_outbox_lab.Common.{ℕ, zero, suc, ◌-◌, ◌*◌, ◌≡◌, ◌≤◌, refl, ◌∙◌, All, arith}
use order_outbox_lab.LoadGenerator.{burst_from, burst_sizes, steady_sizes, sum}

burst_from-sum :
    (fuel left num : ℕ) → 1 ≤ num → left ≤ fuel → sum (burst_from fuel left num 1) ≡ left
unfolding burst_from sum
burst_from-sum zero left num h k = omega arith
burst_from-sum (suc fuel) left num h k =
    ground (arith, burst_from-sum fuel (left - num) num h (omega (arith, h, k)))

burst_from-bound : (fuel left num : ℕ) → All (λ n. n ≤ num) (burst_from fuel left num 1)
unfolding burst_from
burst_from-bound zero left num = tt
burst_from-bound (suc fuel) left num = ground (arith, burst_from-bound fuel (left - num) num)

-- With a whole concurrency, a burst sends exactly `count` requests, in batches of at most that many.
pub burst_sizes-whole :
    (count concurrency : ℕ)
    → 1 ≤ concurrency
    → (sum (burst_sizes count concurrency 1) ≡ count)
      × All (λ n. n ≤ concurrency) (burst_sizes count concurrency 1)
unfolding burst_sizes
burst_sizes-whole count concurrency h = (
  burst_from-sum count (count * 1) concurrency h (omega arith) ∙ omega arith,
  burst_from-bound count (count * 1) concurrency,
)

-- With any concurrency from 1 up, one round for each order that is left is enough: more fuel changes
-- nothing.
pub burst_from-enough :
    (fuel left num den : ℕ)
    → den ≤ num
    → left ≤ fuel * den
    → burst_from (suc fuel) left num den ≡ burst_from fuel left num den
unfolding burst_from
burst_from-enough zero left num den h k = ground arith
burst_from-enough (suc fuel) left num den h k =
    ground (arith, burst_from-enough fuel (left - num) num den h (less fuel left num den h k))
  where
    less : (fuel left num den : ℕ) → den ≤ num → left ≤ suc fuel * den → left - num ≤ fuel * den
    less fuel left num den h k = grind arith

pub steady_sizes-sum : (count : ℕ) → sum (steady_sizes count) ≡ count
unfolding steady_sizes sum
steady_sizes-sum zero = refl
steady_sizes-sum (suc count) = omega (arith, steady_sizes-sum count)
