-- ===== src/Orders/Validation.antt =====
-- src/modules/orders/helpers/parse-create-order.helper.ts and the body's types. A JavaScript number
-- is a parameter: there are no floats here.
use order_outbox_lab.Common.{
  ℕ, Bool, true, false, not, ◌&&◌, ◌||◌, [], ◌∷◌, Option, none, some, Text, codes, leb, ◌==◌,
  if◌then◌else◌,
}
use mathlib.Core.List.{reverse}
use order_outbox_lab.Effects.{Error, Result, ok, err}

-- The IEEE doubles and the functions of the standard library that the program applies to them.
pub record JsNumber : Type 1 where
  pub Float : Type 0
  -- `Number(text)`
  pub of_text : Text → Float
  -- `String(x)`
  pub to_text : Float → Text
  pub is_finite : Float → Bool
  -- `x < 0`
  pub is_negative : Float → Bool
  -- `x < 1`
  pub is_below_one : Float → Bool
  -- The value where it is an integer and not negative: `Number.isInteger(x) && x >= 0`.
  pub natural : Float → Option ℕ
  -- `x.toFixed(2)`
  pub to_fixed2 : Float → Text

-- An `unknown` value of a parsed JSON body.
pub data JsValue (Float : Type 0) : Type 0 where
  undefined null object : JsValue Float
  boolean : Bool → JsValue Float
  number : Float → JsValue Float
  string : Text → JsValue Float

-- White space and line terminators of ECMAScript, which `trim` removes.
unfoldable pub is_space : ℕ → Bool
is_space c =
    (leb 9 c && leb c 13)
    || c == 32
    || c == 160
    || c == 0x1680
    || (leb 0x2000 c && leb c 0x200a)
    || c == 0x2028
    || c == 0x2029
    || c == 0x202f
    || c == 0x205f
    || c == 0x3000
    || c == 0xfeff

unfoldable pub trim_start : Text → Text
trim_start [] = []
trim_start (c ∷ s) = if is_space c then trim_start s else c ∷ s

unfoldable pub trim : Text → Text
trim s = reverse (trim_start (reverse (trim_start s)))

abbrev pub is_empty : Text → Bool
is_empty [] = true
is_empty (_ ∷ _) = false

pub record CreateOrderInput : Type 0 where
  pub customer_name : Text
  pub amount : Text

abbrev pub name_required : Error
name_required = Error.bad_request (codes "customerName is required")

abbrev pub amount_not_number : Error
amount_not_number = Error.bad_request (codes "amount must be a number")

abbrev pub amount_negative : Error
amount_negative = Error.bad_request (codes "amount must be a non-negative number")

module _ (js : JsNumber) where
  open js use {Float, of_text, to_text, is_finite, is_negative, to_fixed2}

  pub record CreateOrderBody : Type 0 where
    pub customer_name : JsValue Float
    pub amount : JsValue Float

  abbrev pub name_of : JsValue Float → Text
  name_of (JsValue.string s) = trim s
  name_of _ = []

  -- `String(input.amount)` of a number or a string; `none` for any other type.
  abbrev pub amount_text : JsValue Float → Option Text
  amount_text (JsValue.number x) = some (to_text x)
  amount_text (JsValue.string s) = some s
  amount_text _ = none

  abbrev pub parse_amount : Text → Option Text → Result CreateOrderInput
  parse_amount name none = err amount_not_number
  parse_amount name (some raw) =
      let text = trim raw in
      let amount = of_text text in
      if is_empty text || not (is_finite amount) || is_negative amount
      then err amount_negative
      else ok (record { customer_name = name; amount = to_fixed2 amount })

  unfoldable pub parse_create_order : CreateOrderBody → Result CreateOrderInput
  parse_create_order body =
      let name = name_of body.customer_name in
      if is_empty name then err name_required else parse_amount name (amount_text body.amount)
