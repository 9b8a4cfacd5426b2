-- ===== src/Stages/Runner/Decimal.antt =====
-- The decimal text of a number, as `${durationMs}` prints it.
use order_outbox_lab.Common.{
  ℕ, zero, suc, ◌+◌, ◌-◌, ◌*◌, ◌/◌, ◌%◌, ◌≡◌, ◌<◌, sym, ap, ◌∙◌, [], ◌∷◌, Text, ltb, Bool-cases,
  arith, inl, inr,
}
use order_outbox_lab.Stages.Runner.{decimal_from, decimal}

-- The number that a text of decimal digits denotes, after the digits of `n`.
unfoldable pub read_digits : ℕ → Text → ℕ
read_digits n [] = n
read_digits n (c ∷ s) = read_digits (n * 10 + (c - b'0')) s

read_digits-last :
    (n : ℕ) (acc : Text) → read_digits (n / 10) ((b'0' + n % 10) ∷ acc) ≡ read_digits n acc
unfolding read_digits
read_digits-last n acc = ap (λ m. read_digits m acc) (omega arith)

read_digits-decimal_from :
    (fuel n : ℕ) (acc : Text)
    → n < fuel
    → read_digits 0 (decimal_from fuel n acc) ≡ read_digits n acc
unfolding decimal_from
read_digits-decimal_from zero n acc h = omega (arith, h)
read_digits-decimal_from (suc fuel) n acc h = elim (Bool-cases (ltb n 10)) [
  | inl small ↦
      let top : n / 10 ≡ 0 = ground arith in
      rw small (ap (λ m. read_digits m ((b'0' + n % 10) ∷ acc)) (sym top) ∙ read_digits-last n acc)
  | inr large ↦ rw large (
      read_digits-decimal_from fuel (n / 10) ((b'0' + n % 10) ∷ acc) (ground arith)
      ∙ read_digits-last n acc)
]

-- Reading the digits that a number is printed with gives the number.
pub read_digits-decimal : (n : ℕ) → read_digits 0 (decimal n) ≡ n
unfolding decimal read_digits
read_digits-decimal n = read_digits-decimal_from (suc n) n [] (omega arith)
