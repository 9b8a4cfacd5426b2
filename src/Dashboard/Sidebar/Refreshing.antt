-- ===== src/Dashboard/Sidebar/Refreshing.antt =====
-- The key tests of public/js/sidebar.js over a sequence of refreshes, beside a rebuild on each of
-- them.
use order_outbox_lab.Common.{
  ◌≡◌, refl, sym, ap, ◌∙◌, Bool, Bool-cases, true, false, inl, inr, List, [], ◌∷◌, map, Option,
  Text, text_eq, text_eq_iff, All,
}
use order_outbox_lab.Dashboard.Dom.{Node}
use order_outbox_lab.Dashboard.Fetch.{Settled, resolved, rejected}
use order_outbox_lab.Dashboard.Sidebar.{
  OrderItem, DeadItem, Sidebar, orders_key_of, order_node, render_orders, dead_key_of, dead_nodes,
  render_dead_letters, Poll, polled, show_poll, refresh_sidebar, first_sidebar,
}
use order_outbox_lab.Dashboard.Sidebar.Keys.{split}
use order_outbox_lab.Dashboard.Sidebar.Decoding.{
  IsSelection, IsListed, IsDeadRow, orders_from, dead_from, orders_from-key, dead_from-key,
}

-- What the sidebar shows.
pub record View : Type 0 where
  pub orders : List Node
  pub dead : List Node
  pub notice_hidden : Bool
  pub notice : Text

abbrev pub view_of : Sidebar → View
view_of s = record {
  orders = s.orders;
  dead = s.dead;
  notice_hidden = s.notice_hidden;
  notice = s.notice;
}

-- A refresh that rebuilds both lists.
abbrev pub show_all : Option Text → Settled (List OrderItem × List DeadItem) → View → View
show_all selected (resolved (orders, dead)) v = record v {
  orders = map (order_node selected) orders;
  dead = dead_nodes dead;
  notice_hidden = true;
}
show_all selected (rejected message) v = record v { notice_hidden = false; notice = message }

abbrev pub rebuild : Poll → View → View
rebuild p v = show_all p.selected (polled p) v

unfoldable pub refreshes : List Poll → Sidebar → Sidebar
refreshes [] s = s
refreshes (p ∷ ps) s = refreshes ps (refresh_sidebar p s)

unfoldable pub rebuilds : List Poll → View → View
rebuilds [] v = v
rebuilds (p ∷ ps) v = rebuilds ps (rebuild p v)

module _ (name : Text → Text) where
  abbrev pub IsAnswer : Settled (List OrderItem × List DeadItem) → Type 0
  IsAnswer (resolved (orders, dead)) = All (IsListed name) orders × All IsDeadRow dead
  IsAnswer (rejected message) = Unit

  -- A poll whose ids are ids and whose customers are those of `name`.
  abbrev pub IsPoll : Poll → Type 0
  IsPoll p = IsSelection p.selected × IsAnswer (polled p)

  -- The lists are those of the keys.
  record InSync (s : Sidebar) : Type 0 where
    by_orders_key : s.orders ≡ orders_from name (split b'|' s.orders_key)
    by_dead_key : s.dead ≡ dead_from (split b'|' s.dead_key)

  orders-InSync :
      (orders : List OrderItem) (selected : Option Text) (s : Sidebar)
      → IsSelection selected
      → All (IsListed name) orders
      → InSync s
      → InSync (render_orders orders selected s)
        × (view_of (render_orders orders selected s)
            ≡ record (view_of s) { orders = map (order_node selected) orders })
  unfolding render_orders
  orders-InSync orders selected s h hs i =
      let same = orders_from-key name selected orders h hs in
      elim (Bool-cases (text_eq (orders_key_of selected orders) s.orders_key)) [
        | inl hit ↦
            let e = (text_eq_iff (orders_key_of selected orders) s.orders_key).0 hit in
            let shown : map (order_node selected) orders ≡ s.orders =
              sym same ∙ ap (λ k. orders_from name (split b'|' k)) e ∙ sym i.by_orders_key in
            rw (hit, shown) (i, refl)
        | inr miss ↦
            rw miss (record { by_orders_key = sym same; by_dead_key = i.by_dead_key }, refl)
      ]

  dead-InSync :
      (rows : List DeadItem) (s : Sidebar)
      → All IsDeadRow rows
      → InSync s
      → InSync (render_dead_letters rows s)
        × (view_of (render_dead_letters rows s) ≡ record (view_of s) { dead = dead_nodes rows })
  unfolding render_dead_letters
  dead-InSync rows s hs i =
      let same = dead_from-key rows hs in
      elim (Bool-cases (text_eq (dead_key_of rows) s.dead_key)) [
        | inl hit ↦
            let e = (text_eq_iff (dead_key_of rows) s.dead_key).0 hit in
            let shown : dead_nodes rows ≡ s.dead =
              sym same ∙ ap (λ k. dead_from (split b'|' k)) e ∙ sym i.by_dead_key in
            rw (hit, shown) (i, refl)
        | inr miss ↦
            rw miss (record { by_orders_key = i.by_orders_key; by_dead_key = sym same }, refl)
      ]

  show-InSync :
      (selected : Option Text) (answer : Settled (List OrderItem × List DeadItem)) (s : Sidebar)
      → IsSelection selected
      → IsAnswer answer
      → InSync s
      → InSync (show_poll selected answer s)
        × (view_of (show_poll selected answer s) ≡ show_all selected answer (view_of s))
  show-InSync selected (rejected message) s h a i =
      (record { by_orders_key = i.by_orders_key; by_dead_key = i.by_dead_key }, refl)
  show-InSync selected (resolved (orders, dead)) s h (hs, ds) i =
      let shown = record s { notice_hidden = true } in
      let (j, e) =
        orders-InSync orders selected shown h hs
          (record { by_orders_key = i.by_orders_key; by_dead_key = i.by_dead_key }) in
      let (k, e') = dead-InSync dead (render_orders orders selected shown) ds j in
      (k, e' ∙ ap {A = View} (λ v. record v { dead = dead_nodes dead }) e)

  refreshes-InSync :
      (polls : List Poll) (s : Sidebar)
      → All IsPoll polls
      → InSync s
      → view_of (refreshes polls s) ≡ rebuilds polls (view_of s)
  unfolding refreshes rebuilds refresh_sidebar
  refreshes-InSync [] s h i = refl
  refreshes-InSync (p ∷ ps) s ((sel, a), hs) i =
      let (j, e) = show-InSync p.selected (polled p) s sel a i in
      refreshes-InSync ps (show_poll p.selected (polled p) s) hs j ∙ ap (rebuilds ps) e

  first-InSync : InSync first_sidebar
  unfolding split
  first-InSync = record { by_orders_key = refl; by_dead_key = refl }

  -- From the first page on, after any refreshes, with any of their requests failing and whatever
  -- order was selected at each, the sidebar shows what it would show if every refresh that got both
  -- answers rebuilt both lists, although it skips a list whose key is unchanged. The ids are not
  -- empty and hold no `|` and no `:`, and the customer of an order does not change.
  pub refreshes-rebuilds :
      (polls : List Poll)
      → All IsPoll polls
      → view_of (refreshes polls first_sidebar) ≡ rebuilds polls (view_of first_sidebar)
  refreshes-rebuilds polls h = refreshes-InSync polls first_sidebar h first-InSync
