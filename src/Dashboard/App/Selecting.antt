-- ===== src/Dashboard/App/Selecting.antt =====
-- public/js/app.js: the steps of a page whose user waits for each hydration before the next click.
use order_outbox_lab.Common.{
  ◌≡◌, sym, ap, ◌∙◌, List, [], ◌∷◌, ◌++◌, map, Option, none, some, Text, codes, All, All-append,
}
use mathlib.Core.List.{append-nil, append_assoc, map-append}
use order_outbox_lab.Dashboard.Fetch.{Response, Settled, resolved, rejected, get_json}
use order_outbox_lab.Dashboard.Timeline.{StageItem, Timeline, item_row, add_row, add_rows}
use order_outbox_lab.Dashboard.App.{
  Stream, App, first_app, refresh, select, hydrated, on_stage, on_error,
}

-- The answer to a hydration of the order, as the server gives it.
abbrev pub IsOf : Text → StageItem → Type 0
IsOf id e = e.order_id ≡ id

abbrev pub Answers : Text → Settled (List StageItem) → Type 0
Answers id (resolved items) = All (IsOf id) items
Answers id (rejected message) = Unit

abbrev pub items_of : Settled (List StageItem) → List StageItem
items_of (resolved items) = items
items_of (rejected message) = []

module _ (utc : Text → Option Text) where
  -- What may happen on the page of a user who clicks only when no hydration is awaited.
  pub data Step : App → App → Type 0 where
    clicks : (a : App) (id : Text) → a.hydrating ≡ [] → Step a (select id a)
    hydrates :
        (a : App) (id : Text) (answer : Response (List StageItem)) (rest : List Text)
        → a.hydrating ≡ id ∷ rest
        → Answers id (get_json (codes "/orders/" ++ (id ++ codes "/stages")) answer)
        → Step a (hydrated utc id answer rest a)
    receives :
        (a : App) (s : Stream) (before after : List Stream) (e : StageItem)
        → a.streams ≡ before ++ (s ∷ after)
        → IsOf s.order_id e
        → Step a (on_stage utc e a)
    breaks :
        (a : App) (s : Stream) (before after : List Stream)
        → a.streams ≡ before ++ (s ∷ after)
        → Step a (on_error s a)
    ticks : (a : App) → Step a (refresh a)

  pub data Reach : App → Type 0 where
    start : Reach first_app
    later : {a b : App} → Reach a → Step a b → Reach b

  -- The events that have come to the page since the last click, in their order: those of the answers
  -- to the hydrations, and those of the streams.
  unfoldable pub arrived : {a : App} → Reach a → List StageItem
  arrived start = []
  arrived (later r (clicks a id h)) = []
  arrived (later r (hydrates a id answer rest h ok)) =
      arrived r ++ items_of (get_json (codes "/orders/" ++ (id ++ codes "/stages")) answer)
  arrived (later r (receives a s before after e at of)) = arrived r ++ (e ∷ [])
  arrived (later r (breaks a s before after at)) = arrived r
  arrived (later r (ticks a)) = arrived r

  abbrev pub Selected : Option Text → StageItem → Type 0
  Selected selected e = some e.order_id ≡ selected

  -- The timeline has one row for each of these events, in their order, and all are of the order that
  -- is selected.
  pub record ShowsSelected (a : App) (items : List StageItem) : Type 0 where
    pub rows : a.timeline.rows ≡ map (item_row utc) items
    pub orders : All (Selected a.selected) items

  -- The three situations of the page.
  pub data Situation (a : App) : Type 0 where
    untouched : a.hydrating ≡ [] → a.streams ≡ [] → a.source ≡ none → Situation a
    loading :
        (id : Text) → a.hydrating ≡ id ∷ [] → a.streams ≡ [] → a.selected ≡ some id → Situation a
    live :
        (s : Stream)
        → a.hydrating ≡ []
        → a.streams ≡ s ∷ []
        → a.source ≡ some s.key
        → a.selected ≡ some s.order_id
        → Situation a

  pub add_rows-map :
      (items : List StageItem) (t : Timeline)
      → (add_rows utc items t).rows ≡ t.rows ++ map (item_row utc) items
  unfolding add_rows
  add_rows-map [] t = sym (append-nil t.rows)
  add_rows-map (e ∷ es) t =
      add_rows-map es (add_row utc e t)
      ∙ append_assoc t.rows (item_row utc e ∷ []) (map (item_row utc) es)

  -- More events of the selected order.
  pub shows_more :
      (a b : App) (old items : List StageItem)
      → b.timeline.rows ≡ a.timeline.rows ++ map (item_row utc) items
      → b.selected ≡ a.selected
      → All (Selected a.selected) items
      → ShowsSelected a old
      → ShowsSelected b (old ++ items)
  shows_more a b old items e same h shows = record {
    rows =
        e
        ∙ ap (λ r. r ++ map (item_row utc) items) shows.rows
        ∙ sym (map-append (item_row utc) old items);
    orders = rw same (All-append (Selected a.selected) old items shows.orders h);
  }

  pub one_of-single :
      (streams before after : List Stream) (s t : Stream)
      → streams ≡ t ∷ []
      → streams ≡ before ++ (s ∷ after)
      → s ≡ t
  one_of-single streams [] after s t e e' = cc
  one_of-single streams (x ∷ xs) after s t e e' = absurd (cons_cons xs after s x t (sym e ∙ e'))
    where
      cons_cons : (xs after : List Stream) (s x t : Stream) → t ∷ [] ≡ (x ∷ xs) ++ (s ∷ after) → ⊥
      cons_cons [] after s x t h = cc
      cons_cons (y ∷ ys) after s x t h = cc

  pub none_of-nil :
      (streams before after : List Stream) (s : Stream)
      → streams ≡ []
      → streams ≡ before ++ (s ∷ after)
      → ⊥
  none_of-nil streams [] after s e e' = cc
  none_of-nil streams (x ∷ xs) after s e e' = cc
