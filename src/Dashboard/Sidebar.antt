-- ===== src/Dashboard/Sidebar.antt =====
-- public/js/sidebar.js: the two lists, rebuilt only when their key has changed.
pub mod Keys
pub mod Decoding
pub mod Refreshing
use order_outbox_lab.Common.{
  ℕ, Bool, true, false, List, [], ◌∷◌, ◌++◌, map, Option, none, some, Text, codes, text_eq,
  if◌then◌else◌,
}
use order_outbox_lab.Pipeline.{StageName, OrderStatus, stage_text}
use order_outbox_lab.Queries.{order_status_text}
use order_outbox_lab.Stages.Runner.{decimal}
use order_outbox_lab.Dashboard.Dom.{Node, el, parent, badge, short_id}
use order_outbox_lab.Dashboard.Fetch.{Response, Settled, resolved, rejected, get_json, promise_all}

-- What `GET /orders` and `GET /dead-letters` say of a row, as far as the sidebar reads it.
pub record OrderItem : Type 0 where
  pub id : Text
  pub customer_name : Text
  pub status : OrderStatus

pub record DeadItem : Type 0 where
  pub order_id : Text
  pub stage : StageName
  pub retry_count : ℕ

-- The keys, and the parts of the page that the sidebar writes.
pub record Sidebar : Type 0 where
  pub orders_key : Text
  pub dead_key : Text
  pub orders : List Node
  pub dead : List Node
  pub notice_hidden : Bool
  pub notice : Text

abbrev pub sidebar_limit : ℕ
sidebar_limit = 50

-- `parts.join(separator)`, with a character for separator.
unfoldable pub join : ℕ → List Text → Text
join c [] = []
join c (w ∷ []) = w
join c (w ∷ v ∷ vs) = w ++ (c ∷ join c (v ∷ vs))

-- `null` joins as the empty text.
abbrev pub or_empty : Option Text → Text
or_empty none = []
or_empty (some t) = t

abbrev pub item_key : OrderItem → Text
item_key o = o.id ++ (codes ":" ++ order_status_text o.status)

abbrev pub orders_key_of : Option Text → List OrderItem → Text
orders_key_of selected orders = join b'|' (or_empty selected ∷ map item_key orders)

-- `id === selected`
abbrev pub is_selected : Option Text → Text → Bool
is_selected none id = false
is_selected (some s) id = text_eq id s

abbrev pub order_node : Option Text → OrderItem → Node
order_node selected o =
    parent (codes "li") (if is_selected selected o.id then codes "active" else []) (some o.id) (
      el (codes "span") (codes "id") (short_id o.id)
      ∷ el (codes "span") (codes "name") o.customer_name
      ∷ badge (order_status_text o.status)
      ∷ [])

unfoldable pub render_orders : List OrderItem → Option Text → Sidebar → Sidebar
render_orders orders selected s =
    let key = orders_key_of selected orders in
    if text_eq key s.orders_key
    then s
    else record s { orders_key = key; orders = map (order_node selected) orders }

abbrev pub dead_item_key : DeadItem → Text
dead_item_key r =
    r.order_id ++ (codes ":" ++ (stage_text r.stage ++ (codes ":" ++ decimal r.retry_count)))

abbrev pub dead_key_of : List DeadItem → Text
dead_key_of rows = join b'|' (map dead_item_key rows)

abbrev pub dead_node : DeadItem → Node
dead_node r = el (codes "li") [] (
    stage_text r.stage
    ++ (codes " — "
        ++ (short_id r.order_id
            ++ (codes " after " ++ (decimal r.retry_count ++ codes " attempts")))))

abbrev pub nothing_dead : List Node
nothing_dead = el (codes "li") (codes "none") (codes "none") ∷ []

abbrev pub dead_nodes : List DeadItem → List Node
dead_nodes [] = nothing_dead
dead_nodes (r ∷ rs) = map dead_node (r ∷ rs)

unfoldable pub render_dead_letters : List DeadItem → Sidebar → Sidebar
render_dead_letters rows s =
    let key = dead_key_of rows in
    if text_eq key s.dead_key then s else record s { dead_key = key; dead = dead_nodes rows }

-- One call of `refreshSidebar`: the selection that it was called with, and how its two requests end.
pub record Poll : Type 0 where
  pub selected : Option Text
  pub orders : Response (List OrderItem)
  pub dead : Response (List DeadItem)
  pub dead_first : Bool

abbrev pub polled : Poll → Settled (List OrderItem × List DeadItem)
polled p =
    promise_all p.dead_first (get_json (codes "/orders?limit=" ++ decimal sidebar_limit) p.orders)
      (get_json (codes "/dead-letters") p.dead)

abbrev pub show_poll : Option Text → Settled (List OrderItem × List DeadItem) → Sidebar → Sidebar
show_poll selected (resolved (orders, dead)) s =
    render_dead_letters dead (render_orders orders selected (record s { notice_hidden = true }))
show_poll selected (rejected message) s = record s { notice_hidden = false; notice = message }

unfoldable pub refresh_sidebar : Poll → Sidebar → Sidebar
refresh_sidebar p s = show_poll p.selected (polled p) s

-- The page before the first refresh, from public/index.html.
abbrev pub first_sidebar : Sidebar
first_sidebar = record {
  orders_key = [];
  dead_key = [];
  orders = [];
  dead = nothing_dead;
  notice_hidden = true;
  notice = [];
}
