-- ===== src/Orders/Trimming.antt =====
-- `trim`, and the bodies that `parseCreateOrder` accepts.
use order_outbox_lab.Common.{
  ◌≡◌, refl, sym, ap, ◌∙◌, subst, ◌↔◌, inl, inr, true, false, [], ◌∷◌, ◌++◌, All, Option, none,
  some, Text, All-append, Bool-cases, arith,
}
use mathlib.Core.List.{reverse, reverse-cons, reverse-append, reverse-reverse}
use order_outbox_lab.Effects.{ok}
use order_outbox_lab.Orders.Validation.{
  JsNumber, JsValue, CreateOrderBody, CreateOrderInput, is_space, trim_start, trim, is_empty,
  name_of, amount_text, parse_amount, parse_create_order,
}

abbrev pub Spaces : Text → Type 0
Spaces = All (λ c. is_space c ≡ true)

-- The text does not begin with a space.
abbrev pub NoLead : Text → Type 0
NoLead [] = Unit
NoLead (c ∷ s) = is_space c ≡ false

trim_start-split :
    (s : Text) → (lead : Text) × (s ≡ lead ++ trim_start s) × Spaces lead × NoLead (trim_start s)
unfolding trim_start
trim_start-split [] = ([], refl, tt, tt)
trim_start-split (c ∷ s) = elim (Bool-cases (is_space c)) [
  | inl space ↦
      let (lead, e, h, n) = trim_start-split s in rw space (c ∷ lead, ap (◌∷◌ c) e, (space, h), n)
  | inr other ↦ rw other ([], refl, tt, other)
]

NoLead-prefix : (s t : Text) → NoLead (s ++ t) → NoLead s
NoLead-prefix [] t h = tt
NoLead-prefix (c ∷ s) t h = h

Spaces-reverse : (s : Text) → Spaces s → Spaces (reverse s)
Spaces-reverse [] h = tt
Spaces-reverse (c ∷ s) (h, hs) =
    rw (reverse-cons c s) (All-append _ (reverse s) (c ∷ []) (Spaces-reverse s hs) (h, tt))

-- `t` is `s` without the spaces at its ends.
pub record Trimmed (s t : Text) : Type 0 where
  pub lead : Text
  pub tail : Text
  pub whole : s ≡ lead ++ (t ++ tail)
  pub lead_spaces : Spaces lead
  pub tail_spaces : Spaces tail
  pub no_lead : NoLead t
  pub no_tail : NoLead (reverse t)

-- `trim` takes spaces off both ends, all of them, and nothing else.
pub trim-Trimmed : (s : Text) → Trimmed s (trim s)
unfolding trim
trim-Trimmed s =
    let (lead, e, h, n) = trim_start-split s in
    let (back, f, k, p) = trim_start-split (reverse (trim_start s)) in
    let kept = trim_start (reverse (trim_start s)) in
    let middle : trim_start s ≡ reverse kept ++ reverse back =
      sym (reverse-reverse (trim_start s)) ∙ (ap reverse f ∙ reverse-append back kept) in
    record {
      lead = lead;
      tail = reverse back;
      whole = e ∙ ap (λ m. lead ++ m) middle;
      lead_spaces = h;
      tail_spaces = Spaces-reverse back k;
      no_lead = NoLead-prefix (reverse kept) (reverse back) (subst NoLead middle n);
      no_tail = subst NoLead (sym (reverse-reverse kept)) p;
    }

module _ (js : JsNumber) where
  open js use {Float, of_text, to_text, is_finite, is_negative, to_fixed2}

  -- A body that may become an order.
  pub record Accepted (body : CreateOrderBody js) (input : CreateOrderInput) : Type 0 where
    pub name : Text
    pub raw : Text
    pub name_string : body.customer_name ≡ JsValue.string name
    pub amount_string : amount_text js body.amount ≡ some raw
    pub name_trimmed : input.customer_name ≡ trim name
    pub name_there : is_empty input.customer_name ≡ false
    pub amount_there : is_empty (trim raw) ≡ false
    pub finite : is_finite (of_text (trim raw)) ≡ true
    pub not_negative : is_negative (of_text (trim raw)) ≡ false
    pub two_places : input.amount ≡ to_fixed2 (of_text (trim raw))

  parsed_amount :
      (name : Text) (raw : Option Text) (input : CreateOrderInput)
      → parse_amount js name raw ≡ ok input
      → (text : Text) × (raw ≡ some text)
        × (input.customer_name ≡ name)
        × (is_empty (trim text) ≡ false)
        × (is_finite (of_text (trim text)) ≡ true)
        × (is_negative (of_text (trim text)) ≡ false)
        × (input.amount ≡ to_fixed2 (of_text (trim text)))
  parsed_amount name none input h = cc
  parsed_amount name (some text) input h =
      (text, refl, ground arith, ground arith, ground arith, ground arith, ground arith)

  name_string_of :
      (v : JsValue Float) → is_empty (name_of js v) ≡ false → (s : Text) × (v ≡ JsValue.string s)
  name_string_of (JsValue.string s) h = (s, refl)
  name_string_of JsValue.undefined h = cc
  name_string_of JsValue.null h = cc
  name_string_of JsValue.object h = cc
  name_string_of (JsValue.boolean b) h = cc
  name_string_of (JsValue.number x) h = cc

  accepted :
      (body : CreateOrderBody js) (input : CreateOrderInput)
      → is_empty (name_of js body.customer_name) ≡ false
      → parse_amount js (name_of js body.customer_name) (amount_text js body.amount) ≡ ok input
      → Accepted body input
  accepted body input there h =
      let (name, e) = name_string_of body.customer_name there in
      let (raw, f, same, full, finite, positive, amount) =
        parsed_amount (name_of js body.customer_name) (amount_text js body.amount) input h in
      let trimmed : input.customer_name ≡ trim name = same ∙ ap (name_of js) e in
      record {
        name = name;
        raw = raw;
        name_string = e;
        amount_string = f;
        name_trimmed = trimmed;
        name_there = ap is_empty same ∙ there;
        amount_there = full;
        finite = finite;
        not_negative = positive;
        two_places = amount;
      }

  parse-Accepted :
      (body : CreateOrderBody js) (input : CreateOrderInput)
      → parse_create_order js body ≡ ok input
      → Accepted body input
  unfolding parse_create_order
  parse-Accepted body input h = elim (Bool-cases (is_empty (name_of js body.customer_name))) [
    | inl empty ↦ cc
    | inr there ↦ accepted body input there (rw there at h)
  ]

  Accepted-parse :
      (body : CreateOrderBody js) (input : CreateOrderInput)
      → Accepted body input
      → parse_create_order js body ≡ ok input
  unfolding parse_create_order
  Accepted-parse body input a = ground (
    arith, a.name_string, a.amount_string, a.name_trimmed, a.name_there, a.amount_there, a.finite,
    a.not_negative, a.two_places,
  )

  -- A body parses exactly when its name is a string with more than spaces, and its amount a string or
  -- a number whose text is a finite number that is not negative; the order then has the trimmed name
  -- and the amount with two decimal places.
  pub parse_create_order_iff :
      (body : CreateOrderBody js) (input : CreateOrderInput)
      → (parse_create_order js body ≡ ok input) ↔ Accepted body input
  parse_create_order_iff body input = (parse-Accepted body input, Accepted-parse body input)
