-- ===== src/Dashboard/App/Waiting.antt =====
-- public/js/app.js: the selected order and the timeline of such a page.
use order_outbox_lab.Common.{
  ◌≡◌, ◌≤◌, refl, sym, ap, ◌∙◌, List, [], ◌∷◌, ◌++◌, Option, some, Text, codes, keep, length,
  All-map, arith,
}
use mathlib.Core.List.{append-nil}
use order_outbox_lab.Dashboard.Fetch.{Settled, resolved, rejected, get_json}
use order_outbox_lab.Dashboard.Timeline.{StageItem, add_rows}
use order_outbox_lab.Dashboard.App.{
  Stream, App, close, refresh, select, open_stream, hydrate, hydrated, on_stage, on_error,
}
use order_outbox_lab.Dashboard.App.Selecting.{
  IsOf, Answers, items_of, arrived, Step, clicks, hydrates, receives, breaks, ticks, Reach, start,
  later, Selected, ShowsSelected, Situation, untouched, loading, live, add_rows-map, shows_more,
  one_of-single, none_of-nil,
}

module _ (utc : Text → Option Text) where
  abbrev nothing_shown : (a : App) → a.timeline.rows ≡ [] → ShowsSelected utc a []
  nothing_shown a e = record { rows = e; orders = tt }

  closed_lem : (a : App) → a.hydrating ≡ [] → Situation utc a → close a.source a.streams ≡ []
  unfolding keep
  closed_lem a h (untouched _ streams source) = rw (streams, source) refl
  closed_lem a h (loading id hydrating _ _) = cc
  closed_lem a h (live s _ streams source _) = rw (streams, source) (ground arith)

  select-shows : (a : App) (id : Text) → ShowsSelected utc (select id a) []
  unfolding select
  select-shows a id = nothing_shown (select id a) refl

  select-Situation :
      (a : App) (id : Text) → a.hydrating ≡ [] → Situation utc a → Situation utc (select id a)
  unfolding select
  select-Situation a id h s = loading id (ap (λ hs. id ∷ hs) h) (closed_lem a h s) refl

  abbrev ended : Text → Settled (List StageItem) → List Text → App → App
  ended id answer rest a = open_stream id (hydrate utc id answer (record a { hydrating = rest }))

  hydrate-shows :
      (a : App) (id : Text) (answer : Settled (List StageItem)) (rest : List Text)
      (old : List StageItem)
      → a.selected ≡ some id
      → Answers id answer
      → ShowsSelected utc a old
      → ShowsSelected utc (ended id answer rest a) (old ++ items_of answer)
  hydrate-shows a id (resolved items) rest old sel ok shows =
      shows_more utc a (ended id (resolved items) rest a) old items
        (add_rows-map utc items a.timeline) refl
        (All-map (IsOf id) (Selected utc a.selected) (λ e h. rw (h, sel) refl) items ok) shows
  hydrate-shows a id (rejected message) rest old sel ok shows =
      shows_more utc a (ended id (rejected message) rest a) old [] (sym (append-nil _)) refl tt
        shows

  abbrev fresh : App → Text → Stream
  fresh a id = record { key = a.next_stream; order_id = id }

  hydrate-live :
      (a : App) (id : Text) (answer : Settled (List StageItem))
      → a.selected ≡ some id
      → a.streams ≡ []
      → Situation utc (ended id answer [] a)
  hydrate-live a id (resolved items) sel streams =
      live (fresh a id) refl (ap (λ ss. fresh a id ∷ ss) streams) refl sel
  hydrate-live a id (rejected message) sel streams =
      live (fresh a id) refl (ap (λ ss. fresh a id ∷ ss) streams) refl sel

  same-Situation :
      (a b : App)
      → b.hydrating ≡ a.hydrating
      → b.streams ≡ a.streams
      → b.source ≡ a.source
      → b.selected ≡ a.selected
      → Situation utc a
      → Situation utc b
  same-Situation a b h t o e (untouched x y z) = untouched (h ∙ x) (t ∙ y) (o ∙ z)
  same-Situation a b h t o e (loading id x y z) = loading id (h ∙ x) (t ∙ y) (e ∙ z)
  same-Situation a b h t o e (live s x y z v) = live s (h ∙ x) (t ∙ y) (o ∙ z) (e ∙ v)

  -- Only the stream of the selected order is open.
  stream_selected :
      (a : App) (s : Stream) (before after : List Stream)
      → Situation utc a
      → a.streams ≡ before ++ (s ∷ after)
      → a.selected ≡ some s.order_id
  stream_selected a s before after (untouched _ none_open _) e =
      absurd (none_of-nil utc _ before after s none_open e)
  stream_selected a s before after (loading _ _ none_open _) e =
      absurd (none_of-nil utc _ before after s none_open e)
  stream_selected a s before after (live t _ one _ sel) e =
      sel ∙ ap (λ x. some x.order_id) (sym (one_of-single utc _ before after s t one e))

  hydrated-Situation :
      (a : App) (id : Text) (answer : Settled (List StageItem)) (rest : List Text)
      → a.hydrating ≡ id ∷ rest
      → Situation utc a
      → (a.selected ≡ some id) × Situation utc (ended id answer rest a)
  hydrated-Situation a id answer rest h (untouched x _ _) = cc
  hydrated-Situation a id answer rest h (live _ x _ _ _) = cc
  hydrated-Situation a id answer rest h (loading id' x streams sel) =
      let same : id ≡ id' = cc in
      let none_left : rest ≡ [] = cc in
      (rw same sel, rw none_left (hydrate-live a id answer (rw same sel) streams))

  Step-Situation : {a b : App} → Step utc a b → Situation utc a → Situation utc b
  unfolding hydrated on_stage on_error add_rows
  Step-Situation (clicks a id h) s = select-Situation a id h s
  Step-Situation (hydrates a id answer rest h ok) s = (hydrated-Situation a id _ rest h s).1
  Step-Situation (receives a s before after e at of) situation =
      same-Situation a (on_stage utc e a) refl refl refl refl situation
  Step-Situation (breaks a s before after at) situation =
      same-Situation a (on_error s a) refl refl refl refl situation
  Step-Situation (ticks a) situation = same-Situation a (refresh a) refl refl refl refl situation

  Reach-Situation : {a : App} → Reach utc a → Situation utc a
  Reach-Situation start = untouched refl refl refl
  Reach-Situation (later r st) = Step-Situation st (Reach-Situation r)

  Reach-shows : {a : App} (r : Reach utc a) → ShowsSelected utc a (arrived utc r)
  unfolding arrived hydrated on_stage on_error add_rows
  Reach-shows start = nothing_shown _ refl
  Reach-shows (later r (clicks a id h)) = select-shows a id
  Reach-shows (later r (hydrates a id answer rest h ok)) =
      let settled = get_json (codes "/orders/" ++ (id ++ codes "/stages")) answer in
      hydrate-shows a id settled rest (arrived utc r)
        (hydrated-Situation a id settled rest h (Reach-Situation r)).0 ok (Reach-shows r)
  Reach-shows (later r (receives a s before after e at of)) =
      let sel = stream_selected a s before after (Reach-Situation r) at in
      shows_more utc a (on_stage utc e a) (arrived utc r) (e ∷ []) refl refl (rw (of, sel) refl, tt)
        (Reach-shows r)
  Reach-shows (later r (breaks a s before after at)) =
      let shows = Reach-shows r in record { rows = shows.rows; orders = shows.orders }
  Reach-shows (later r (ticks a)) =
      let shows = Reach-shows r in record { rows = shows.rows; orders = shows.orders }

  few_streams : (a : App) → Situation utc a → length a.streams ≤ 1
  few_streams a (untouched _ e _) = rw e (omega arith)
  few_streams a (loading _ _ e _) = rw e (omega arith)
  few_streams a (live s _ e _ _) = rw e (omega arith)

  -- On a page whose user clicks only when no hydration is awaited, with the requests failing and the
  -- streams breaking as they may, where a hydration is answered with events of its order and a stream
  -- sends those of its own: the timeline has one row for each event that has come since the last
  -- click, in their order, and no other row, all these events are of the selected order, at most one
  -- stream is open, and it is that of the selected order.
  pub shows_selected :
      {a : App} (r : Reach utc a)
      → ShowsSelected utc a (arrived utc r)
        × (length a.streams ≤ 1)
        × ((s : Stream) (before after : List Stream)
            → a.streams ≡ before ++ (s ∷ after)
            → a.selected ≡ some s.order_id)
  shows_selected {a} r = (
    Reach-shows r,
    few_streams a (Reach-Situation r),
    (λ s before after e. stream_selected a s before after (Reach-Situation r) e),
  )
