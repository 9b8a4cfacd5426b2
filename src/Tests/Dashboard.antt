-- ===== src/Tests/Dashboard.antt =====
-- The page at short sequences of refreshes and clicks.
use order_outbox_lab.Common.{
  ◌≡◌, ◌≤◌, refl, false, List, [], ◌∷◌, ◌++◌, map, Option, none, some, Text, codes, All, length,
  arith, keep,
}
use order_outbox_lab.Common.{text_eq}
use order_outbox_lab.Pipeline.{StageName, StageStatus, OrderStatus}
use order_outbox_lab.Dashboard.Fetch.{response, unreachable, get_json, promise_all}
use order_outbox_lab.Dashboard.Sidebar.{
  OrderItem, Poll, first_sidebar, refresh_sidebar, render_orders, render_dead_letters, join,
  order_node,
}
use order_outbox_lab.Dashboard.Sidebar.Decoding.{IsId, IsListed}
use order_outbox_lab.Dashboard.Sidebar.Refreshing.{
  view_of, IsPoll, refreshes, rebuilds, refreshes-rebuilds,
}
use order_outbox_lab.Dashboard.Timeline.{StageItem, add_rows, item_row}
use order_outbox_lab.Dashboard.App.{App, Stream, first_app, select, hydrated, on_stage}
use order_outbox_lab.Dashboard.App.Selecting.{
  Reach, start, later, clicks, hydrates, receives, arrived, ShowsSelected,
}
use order_outbox_lab.Dashboard.App.Waiting.{shows_selected}

abbrev ada_name : Text → Text
ada_name id = codes "Ada"

abbrev item : OrderStatus → OrderItem
item status = record { id = codes "a-1"; customer_name = codes "Ada"; status = status }

abbrev poll : Option Text → OrderStatus → Poll
poll selected status = record {
  selected = selected;
  orders = response 200 (item status ∷ []);
  dead = response 200 [];
  dead_first = false;
}

-- The order is listed, is clicked, a request fails, and the order fails.
abbrev polls : List Poll
polls =
    poll none OrderStatus.pending
    ∷ poll none OrderStatus.pending
    ∷ poll (some (codes "a-1")) OrderStatus.pending
    ∷ record (poll none OrderStatus.pending) { dead = unreachable (codes "down") }
    ∷ poll (some (codes "a-1")) OrderStatus.failed
    ∷ []

a-1-IsId : IsId (codes "a-1")
a-1-IsId = ((λ e. cc), ground arith, ground arith)

polls-IsPoll : All (IsPoll ada_name) polls
unfolding get_json promise_all
polls-IsPoll =
    ((tt, listed), ((tt, listed), ((a-1-IsId, listed), ((tt, tt), ((a-1-IsId, listed), tt)))))
  where
    listed : All (IsListed ada_name) (item OrderStatus.pending ∷ []) × Unit {0}
    listed = (((a-1-IsId, refl), tt), tt)

refreshes-rebuilds_example :
    view_of (refreshes polls first_sidebar) ≡ rebuilds polls (view_of first_sidebar)
refreshes-rebuilds_example = refreshes-rebuilds ada_name polls polls-IsPoll

-- What is on the page at the end.
shown_at_end :
    (view_of (refreshes polls first_sidebar)).orders
    ≡ order_node (some (codes "a-1")) (item OrderStatus.failed) ∷ []
unfolding refreshes refresh_sidebar render_orders render_dead_letters join get_json promise_all
    text_eq
shown_at_end = refl

abbrev no_time : Text → Option Text
no_time iso = none

abbrev event : Text → StageName → StageItem
event id stage = record {
  order_id = id;
  stage = stage;
  attempt = 1;
  status = StageStatus.started;
  detail = none;
  created_at = [];
}

-- An order is clicked, hydrated with one row, and receives one frame.
abbrev opened : App
opened =
    hydrated no_time (codes "a") (response 200 (event (codes "a") StageName.payment ∷ [])) []
      (select (codes "a") first_app)

abbrev framed : App
framed = on_stage no_time (event (codes "a") StageName.email) opened

framed-Reached : Reach no_time framed
unfolding select hydrated get_json
framed-Reached =
    later
      (later (later start (clicks first_app (codes "a") refl)) (
        hydrates (select (codes "a") first_app) (codes "a")
          (response 200 (event (codes "a") StageName.payment ∷ [])) [] refl (refl, tt)))
      (receives opened (record { key = 0; order_id = codes "a" }) [] []
        (event (codes "a") StageName.email) refl refl)

shows_selected_example :
    ShowsSelected no_time framed (arrived no_time framed-Reached)
    × (length framed.streams ≤ 1)
    × ((s : Stream) (before after : List Stream)
        → framed.streams ≡ before ++ (s ∷ after)
        → framed.selected ≡ some s.order_id)
shows_selected_example = shows_selected no_time framed-Reached

-- Two clicks before the first hydration answers: the rows of the first order show under the second,
-- and the stream of the first stays open.
abbrev hasty : App
hasty = hydrated no_time (codes "b") (response 200 []) [] (
    hydrated no_time (codes "a") (response 200 (event (codes "a") StageName.payment ∷ []))
      (codes "b" ∷ []) (select (codes "b") (select (codes "a") first_app)))

hasty_page :
    (hasty.selected ≡ some (codes "b"))
    × (hasty.timeline.rows ≡ item_row no_time (event (codes "a") StageName.payment) ∷ [])
    × (map (λ s. s.order_id) hasty.streams ≡ codes "b" ∷ codes "a" ∷ [])
    × (map (λ s. s.order_id) (select (codes "c") hasty).streams ≡ codes "a" ∷ [])
unfolding select hydrated get_json add_rows keep
hasty_page = (refl, refl, refl, refl)
