-- ===== src/Queries.antt =====
-- src/base/base-query.dto.ts and the three DTOs that extend it: the parameters of a list endpoint. A
-- parameter is absent or a text; `none` for the whole is the 400 of the validation pipe.
pub mod Pages
pub mod Bounds
use order_outbox_lab.Common.{
  ℕ, ◌-◌, Bool, true, false, ◌&&◌, List, [], ◌∷◌, map, Option, none, some, Text, codes, leb, ◌==◌,
  text_eq, if◌then◌else◌,
}
use order_outbox_lab.Pipeline.{StageName, OrderStatus, Order, stage_text, stages}
use order_outbox_lab.Orders.Validation.{JsNumber}

abbrev pub default_query_limit : ℕ
default_query_limit = 50

abbrev pub max_query_limit : ℕ
max_query_limit = 200

pub record BaseQuery : Type 0 where
  pub limit : ℕ
  pub order : Order

pub record OrdersQuery : Type 0 where
  pub base : BaseQuery
  pub open base use *
  pub status : Option OrderStatus

pub record DeadLettersQuery : Type 0 where
  pub base : BaseQuery
  pub open base use *
  pub stage : Option StageName

-- `toUpperCase`, as far as it can spell `ASC` or `DESC`: ASCII, and the long s.
abbrev upper_char : ℕ → ℕ
upper_char c = if leb b'a' c && leb c b'z' then c - 32 else (if c == 0x17f then b'S' else c)

abbrev pub order_text : Order → Text
order_text Order.asc = codes "ASC"
order_text Order.desc = codes "DESC"

abbrev pub order_status_text : OrderStatus → Text
order_status_text OrderStatus.pending = codes "pending"
order_status_text OrderStatus.fulfilled = codes "fulfilled"
order_status_text OrderStatus.failed = codes "failed"

-- `@IsEnum`: the member with this value.
unfoldable pub member : {E : Type 0} → (E → Text) → List E → Text → Option E
member value [] text = none
member value (e ∷ es) text = if text_eq (value e) text then some e else member value es text

-- `@IsOptional`: an absent parameter is `absent`.
abbrev pub optional {ℓ κ} : {P : Type κ} {A : Type ℓ} → A → (P → Option A) → Option P → Option A
optional absent check none = some absent
optional absent check (some text) = check text

abbrev pub present {ℓ} : {A : Type ℓ} → Option A → Option (Option A)
present none = none
present (some a) = some (some a)

abbrev pub in_range : Option ℕ → Option ℕ
in_range none = none
in_range (some n) = if leb 1 n && leb n max_query_limit then some n else none

unfoldable pub order_of : Text → Option Order
unfolding member text_eq
order_of text = member order_text (Order.asc ∷ Order.desc ∷ []) (map upper_char text)

unfoldable pub status_of_text : Text → Option OrderStatus
unfolding member text_eq
status_of_text =
    member order_status_text (OrderStatus.pending ∷ OrderStatus.fulfilled ∷ OrderStatus.failed ∷ [])

unfoldable pub stage_of_text : Text → Option StageName
unfolding member text_eq stage_text
stage_of_text = member stage_text stages

abbrev pub both {ℓ κ μ} :
    {A : Type ℓ} {B : Type κ} {C : Type μ} → (A → B → C) → Option A → Option B → Option C
both f (some a) (some b) = some (f a b)
both f (some a) none = none
both f none b = none

module _ (js : JsNumber) where
  open js use {of_text, natural}

  -- `@Type(() => Number) @IsInt() @Min(1) @Max(MAX_QUERY_LIMIT)`
  unfoldable pub limit_of : Text → Option ℕ
  limit_of text = in_range (natural (of_text text))

  -- `standard` is the default direction of the DTO.
  unfoldable pub base_query : Order → Option Text → Option Text → Option BaseQuery
  base_query standard limit order =
      both (λ n o. record { limit = n; order = o }) (optional default_query_limit limit_of limit)
        (optional standard order_of order)

  unfoldable pub orders_query : Option Text → Option Text → Option Text → Option OrdersQuery
  orders_query limit order status =
      both (λ b s. record { base = b; status = s }) (base_query Order.desc limit order)
        (optional none (λ text. present (status_of_text text)) status)

  unfoldable pub dead_letters_query :
      Option Text → Option Text → Option Text → Option DeadLettersQuery
  dead_letters_query limit order stage =
      both (λ b s. record { base = b; stage = s }) (base_query Order.desc limit order)
        (optional none (λ text. present (stage_of_text text)) stage)

  -- `ListStageEventsQueryDto` redeclares the direction and nothing else.
  unfoldable pub stage_events_query : Option Text → Option Text → Option BaseQuery
  stage_events_query limit order = base_query Order.asc limit order
