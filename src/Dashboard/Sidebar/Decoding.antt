-- ===== src/Dashboard/Sidebar/Decoding.antt =====
-- The lists of public/js/sidebar.js, read off their keys.
use order_outbox_lab.Common.{
  ◌≡◌, ◌≢◌, refl, ◌∙◌, List, [], ◌∷◌, ◌++◌, map, Option, none, some, Text, codes, text_eq,
  if◌then◌else◌, All, arith,
}
use order_outbox_lab.Pipeline.{stage_text}
use order_outbox_lab.Dashboard.Dom.{Node, el, parent, badge, short_id}
use order_outbox_lab.Dashboard.Sidebar.{
  OrderItem, DeadItem, join, or_empty, item_key, orders_key_of, is_selected, order_node,
  dead_item_key, dead_key_of, dead_node, dead_nodes, nothing_dead,
}
use order_outbox_lab.Dashboard.Sidebar.Keys.{
  Without, stage-Plain, status-Plain, decimal-Plain, split, split-join, split-item_key,
  split-dead_item_key, Without-append,
}

-- An id without the separators of the keys, as a uuid is.
abbrev pub IsId : Text → Type 0
IsId id = (id ≢ []) × Without b'|' id × Without b':' id

abbrev pub IsSelection : Option Text → Type 0
IsSelection none = Unit
IsSelection (some id) = IsId id

-- The parts of the keys, as elements. `name` gives the customer of an order.
module _ (name : Text → Text) where
  abbrev pub node_from : Text → List Text → Node
  node_from selected (id ∷ status ∷ []) =
      parent (codes "li") (if text_eq id selected then codes "active" else []) (some id) (
        el (codes "span") (codes "id") (short_id id)
        ∷ el (codes "span") (codes "name") (name id)
        ∷ badge status
        ∷ [])
  node_from selected _ = el [] [] []

  abbrev pub orders_from : List Text → List Node
  orders_from [] = []
  orders_from (selected ∷ items) = map (λ item. node_from selected (split b':' item)) items

  -- An order as the server lists it: it has an id, and its customer does not change.
  abbrev pub IsListed : OrderItem → Type 0
  IsListed o = IsId o.id × (o.customer_name ≡ name o.id)

  active_lem :
      (selected : Option Text) (id : Text)
      → id ≢ []
      → text_eq id (or_empty selected) ≡ is_selected selected id
  unfolding text_eq
  active_lem none [] h = absurd (h refl)
  active_lem none (c ∷ cs) h = refl
  active_lem (some s) id h = refl

  node_from-item_key :
      (selected : Option Text) (o : OrderItem)
      → IsListed o
      → node_from (or_empty selected) (split b':' (item_key o)) ≡ order_node selected o
  node_from-item_key selected o ((some_id, _, plain), named) =
      rw (split-item_key o plain, active_lem selected o.id some_id, named) refl

  map-node_from :
      (selected : Option Text) (orders : List OrderItem)
      → All IsListed orders
      → map (λ item. node_from (or_empty selected) (split b':' item)) (map item_key orders)
        ≡ map (order_node selected) orders
  map-node_from selected [] h = refl
  map-node_from selected (o ∷ os) (h, hs) =
      rw (node_from-item_key selected o h, map-node_from selected os hs) refl

  item_keys-Without :
      (orders : List OrderItem) → All IsListed orders → All (Without b'|') (map item_key orders)
  item_keys-Without [] h = tt
  item_keys-Without (o ∷ os) (((_, bar, _), _), hs) = (
    Without-append b'|' o.id _ bar (ground arith, (status-Plain o.status).0),
    item_keys-Without os hs,
  )

  selection-Without :
      (selected : Option Text) → IsSelection selected → Without b'|' (or_empty selected)
  selection-Without none h = tt
  selection-Without (some id) (_, bar, _) = bar

  pub orders_from-key :
      (selected : Option Text) (orders : List OrderItem)
      → IsSelection selected
      → All IsListed orders
      → orders_from (split b'|' (orders_key_of selected orders)) ≡ map (order_node selected) orders
  orders_from-key selected orders h hs =
      rw
        (split-join b'|' (or_empty selected) (map item_key orders) (selection-Without selected h)
          (item_keys-Without orders hs))
        (map-node_from selected orders hs)

-- A dead letter as the server lists it.
abbrev pub IsDeadRow : DeadItem → Type 0
IsDeadRow r = IsId r.order_id

abbrev pub dead_node_from : List Text → Node
dead_node_from (id ∷ stage ∷ count ∷ []) =
    el (codes "li") []
      (stage ++ (codes " — " ++ (short_id id ++ (codes " after " ++ (count ++ codes " attempts")))))
dead_node_from _ = el [] [] []

abbrev pub dead_from : List Text → List Node
dead_from [] = []
dead_from ([] ∷ rest) = nothing_dead
dead_from ((c ∷ cs) ∷ rest) = map (λ item. dead_node_from (split b':' item)) ((c ∷ cs) ∷ rest)

dead_keys-Without :
    (rows : List DeadItem) → All IsDeadRow rows → All (Without b'|') (map dead_item_key rows)
dead_keys-Without [] h = tt
dead_keys-Without (r ∷ rs) ((_, bar, _), hs) = (
  Without-append b'|' r.order_id _ bar (
    ground arith,
    Without-append b'|' (stage_text r.stage) _ (stage-Plain r.stage).0
        (ground arith, (decimal-Plain r.retry_count).0),
  ),
  dead_keys-Without rs hs,
)

map-dead_node_from :
    (rows : List DeadItem)
    → All IsDeadRow rows
    → map (λ item. dead_node_from (split b':' item)) (map dead_item_key rows) ≡ map dead_node rows
map-dead_node_from [] h = refl
map-dead_node_from (r ∷ rs) ((_, _, plain), hs) =
    rw (split-dead_item_key r plain, map-dead_node_from rs hs) refl

-- A key that is not empty has a first part that is not.
dead_from-cons :
    (id rest : Text) (keys : List Text)
    → id ≢ []
    → dead_from ((id ++ rest) ∷ keys)
      ≡ map (λ item. dead_node_from (split b':' item)) ((id ++ rest) ∷ keys)
dead_from-cons [] rest keys h = absurd (h refl)
dead_from-cons (c ∷ cs) rest keys h = refl

pub dead_from-key :
    (rows : List DeadItem)
    → All IsDeadRow rows
    → dead_from (split b'|' (dead_key_of rows)) ≡ dead_nodes rows
unfolding join split
dead_from-key [] h = refl
dead_from-key (r ∷ rs) (h, hs) =
    let (bar, bars) = dead_keys-Without (r ∷ rs) (h, hs) in
    rw (split-join b'|' (dead_item_key r) (map dead_item_key rs) bar bars)
      (dead_from-cons r.order_id _ (map dead_item_key rs) h.0 ∙ map-dead_node_from (r ∷ rs) (h, hs))
