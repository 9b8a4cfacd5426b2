-- ===== src/Dashboard/Sidebar/Keys.antt =====
-- The keys that public/js/sidebar.js gives its lists, split at the separators.
use order_outbox_lab.Common.{
  ℕ, zero, suc, ltb, ◌+◌, ◌/◌, ◌%◌, ◌<◌, Bool-cases, inl, inr, ◌≡◌, refl, ap, ◌∙◌, false, List, [],
  ◌∷◌, ◌++◌, Text, ◌==◌, if◌then◌else◌, All, All-append, arith,
}
use order_outbox_lab.Pipeline.{StageName, OrderStatus, stage_text}
use order_outbox_lab.Queries.{order_status_text}
use order_outbox_lab.Stages.Runner.{decimal, decimal_from}
use order_outbox_lab.Dashboard.Sidebar.{join, OrderItem, DeadItem, item_key, dead_item_key}

abbrev pub Without : ℕ → Text → Type 0
Without c t = All (λ d. (d == c) ≡ false) t

-- A letter before the first part.
unfoldable pub prepend : ℕ → List Text → List Text
prepend d [] = (d ∷ []) ∷ []
prepend d (w ∷ ws) = (d ∷ w) ∷ ws

unfoldable pub split : ℕ → Text → List Text
split c [] = [] ∷ []
split c (d ∷ t) = if d == c then [] ∷ split c t else prepend d (split c t)

pub split-last : (c : ℕ) (w : Text) → Without c w → split c w ≡ w ∷ []
unfolding split prepend
split-last c [] h = refl
split-last c (d ∷ w) (h, hs) = rw (h, split-last c w hs) refl

pub split-append : (c : ℕ) (w t : Text) → Without c w → split c (w ++ (c ∷ t)) ≡ w ∷ split c t
unfolding split prepend
split-append c [] t h = ground arith
split-append c (d ∷ w) t (h, hs) = rw (h, split-append c w t hs) refl

pub split-join :
    (c : ℕ) (w : Text) (ws : List Text)
    → Without c w
    → All (Without c) ws
    → split c (join c (w ∷ ws)) ≡ w ∷ ws
unfolding join
split-join c w [] h hs = split-last c w h
split-join c w (v ∷ vs) h (k, ks) =
    split-append c w (join c (v ∷ vs)) h ∙ ap (λ r. w ∷ r) (split-join c v vs k ks)

pub Without-append : (c : ℕ) (s t : Text) → Without c s → Without c t → Without c (s ++ t)
Without-append c s t = All-append (λ d. (d == c) ≡ false) s t

-- Neither of the two separators of the sidebar.
abbrev pub Plain : Text → Type 0
Plain t = Without b'|' t × Without b':' t

pub status-Plain : (status : OrderStatus) → Plain (order_status_text status)
status-Plain OrderStatus.pending = ground arith
status-Plain OrderStatus.fulfilled = ground arith
status-Plain OrderStatus.failed = ground arith

pub stage-Plain : (stage : StageName) → Plain (stage_text stage)
unfolding stage_text
stage-Plain StageName.payment = ground arith
stage-Plain StageName.inventory = ground arith
stage-Plain StageName.email = ground arith

digits-Without :
    (c fuel n : ℕ) (acc : Text) → b'9' < c → Without c acc → Without c (decimal_from fuel n acc)
unfolding decimal_from
digits-Without c zero n acc big h = h
digits-Without c (suc fuel) n acc big h = elim (Bool-cases (ltb n 10)) [
  | inl small ↦ rw small (ground arith, h)
  | inr large ↦
      rw large (digits-Without c fuel (n / 10) ((b'0' + n % 10) ∷ acc) big (ground arith, h))
]

pub decimal-Plain : (n : ℕ) → Plain (decimal n)
unfolding decimal
decimal-Plain n = (
  digits-Without b'|' (suc n) n [] (omega arith) tt,
  digits-Without b':' (suc n) n [] (omega arith) tt,
)

-- The key of an order names the order and its status.
pub split-item_key :
    (o : OrderItem)
    → Without b':' o.id
    → split b':' (item_key o) ≡ o.id ∷ order_status_text o.status ∷ []
split-item_key o h =
    split-append b':' o.id (order_status_text o.status) h
    ∙ ap (λ r. o.id ∷ r) (split-last b':' (order_status_text o.status) (status-Plain o.status).1)

pub split-dead_item_key :
    (r : DeadItem)
    → Without b':' r.order_id
    → split b':' (dead_item_key r) ≡ r.order_id ∷ stage_text r.stage ∷ decimal r.retry_count ∷ []
split-dead_item_key r h =
    split-append b':' r.order_id _ h
    ∙ ap (λ rest. r.order_id ∷ rest)
        (split-append b':' (stage_text r.stage) (decimal r.retry_count) (stage-Plain r.stage).1
          ∙ ap (λ rest. stage_text r.stage ∷ rest)
              (split-last b':' (decimal r.retry_count) (decimal-Plain r.retry_count).1))
