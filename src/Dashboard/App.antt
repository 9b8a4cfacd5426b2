-- ===== src/Dashboard/App.antt =====
-- public/js/app.js: the selection of an order, in two parts, since it awaits the hydration, and what
-- happens on the page in between.
pub mod Selecting
pub mod Waiting
use order_outbox_lab.Common.{
  ℕ, suc, Bool, true, false, List, [], ◌∷◌, ◌++◌, Option, none, some, Text, codes, ◌==◌, not, keep,
}
use order_outbox_lab.Dashboard.Fetch.{Response, Settled, resolved, rejected, get_json}
use order_outbox_lab.Dashboard.Timeline.{StageItem, Timeline, add_row, add_rows, clear_timeline}

-- An `EventSource` that is open; `key` tells it from the others.
pub record Stream : Type 0 where
  pub key : ℕ
  pub order_id : Text

-- `state`, the elements that `select` writes, and what is under way: the streams that are open, the
-- hydrations that are awaited, and the selections with which the sidebar is being refreshed.
pub record App : Type 0 where
  pub selected : Option Text
  pub source : Option ℕ
  pub heading : Text
  pub timeline : Timeline
  pub streams : List Stream
  pub next_stream : ℕ
  pub hydrating : List Text
  pub refreshing : List (Option Text)

abbrev pub refresh_ms : ℕ
refresh_ms = 2000

-- A page that has loaded has asked for its first refresh.
abbrev pub first_app : App
first_app = record {
  selected = none;
  source = none;
  heading = codes "pick an order";
  timeline = record { rows = []; empty_hidden = false; table_hidden = true };
  streams = [];
  next_stream = 0;
  hydrating = [];
  refreshing = none ∷ [];
}

-- `state.source?.close()`
abbrev pub close : Option ℕ → List Stream → List Stream
close none streams = streams
close (some k) streams = keep (λ s. not (s.key == k)) streams

abbrev pub refresh : App → App
refresh a = record a { refreshing = a.selected ∷ a.refreshing }

-- `select` up to its `await`.
unfoldable pub select : Text → App → App
select id a = refresh (record a {
  streams = close a.source a.streams;
  selected = some id;
  heading = id;
  timeline = clear_timeline a.timeline;
  hydrating = id ∷ a.hydrating;
})

-- The rest of `select(id)`: the rows or the failure, and the stream.
abbrev pub open_stream : Text → App → App
open_stream id a = record a {
  source = some a.next_stream;
  streams = record { key = a.next_stream; order_id = id } ∷ a.streams;
  next_stream = suc a.next_stream;
}

module _ (utc : Text → Option Text) where
  abbrev pub hydrate : Text → Settled (List StageItem) → App → App
  hydrate id (resolved items) a = record a { timeline = add_rows utc items a.timeline }
  hydrate id (rejected message) a = record a {
    heading = id ++ (codes " — hydration failed: " ++ message);
  }

  -- `hydrating` are the hydrations that are still awaited after this one.
  unfoldable pub hydrated : Text → Response (List StageItem) → List Text → App → App
  hydrated id answer hydrating a = open_stream id (
      hydrate id (get_json (codes "/orders/" ++ (id ++ codes "/stages")) answer)
        (record a { hydrating = hydrating }))

  -- A `stage` message of a stream.
  unfoldable pub on_stage : StageItem → App → App
  on_stage e a = record a { timeline = add_row utc e a.timeline }

-- `onerror` of a stream.
unfoldable pub on_error : Stream → App → App
on_error s a = record a { heading = s.order_id ++ codes " (stream closed — browser will retry)" }
