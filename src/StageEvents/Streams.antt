-- ===== src/StageEvents/Streams.antt =====
-- What reaches a browser and the status watcher.
use order_outbox_lab.Common.{ℕ, ◌≡◌, refl, ◌∙◌, List, [], ◌∷◌, arith}
use order_outbox_lab.Database.{OrderStageEventEntity}
use order_outbox_lab.Database.Query.{Sorter}
use order_outbox_lab.Frames.{StageEventFrame}
use order_outbox_lab.Effects.{Env, World, M, Result, ok, err, then_run, catching}
use order_outbox_lab.Queries.{BaseQuery}
use order_outbox_lab.Queries.Pages.{Page, find-Page, key-IsLinear}
use order_outbox_lab.Status.{on_settled}
use order_outbox_lab.Status.Settling.{Kept, recompute-Kept}
use order_outbox_lab.StageEvents.{event_wanted, by_id, list_for_order, settled, on_frames, watch}

-- `GET /orders/:id/stages`: at most `limit` rows of the order, by id in the wanted direction; those
-- left out sort after them, and none is left out of a page that is not full.
pub list_for_order-Page :
    (sorter : Sorter) (order_id : ℕ) (q : BaseQuery) (events : List OrderStageEventEntity)
    → Page
        (event_wanted order_id)
        (by_id q.order)
        q.limit
        events
        (list_for_order sorter order_id q events)
unfolding list_for_order
list_for_order-Page sorter order_id q events =
    find-Page (by_id q.order) sorter (event_wanted order_id) q.limit events
      (key-IsLinear (λ e. e.id) q.order)

on_settled-quiet :
    (f : StageEventFrame) (env : Env) (w : World)
    → ((on_settled f env w).0 ≡ ok tt) × Kept w (on_settled f env w).1
unfolding on_settled catching
on_settled-quiet f env w = ground (arith, recompute-Kept f.order_id env w)

Kept-trans : (w v u : World) → Kept w v → Kept v u → Kept w u
Kept-trans w v u (a, b, c, d) (a', b', c', d') = (a' ∙ a, b' ∙ b, c' ∙ c, d' ∙ d)

abbrev QuietFrom : World → Result (Unit {0}) × World → Type 0
QuietFrom w (r, u) = (r ≡ ok tt) × Kept w u

then_run-QuietFrom :
    (m : M (Unit {0})) (env : Env) (w : World) (r : Result (Unit {0}) × World)
    → QuietFrom w r
    → ((v : World) → QuietFrom v (m env v))
    → QuietFrom w (then_run env (λ _. m) r)
then_run-QuietFrom m env w (ok x, v) (e, k) h = ((h v).0, Kept-trans w v (m env v).1 k (h v).1)
then_run-QuietFrom m env w (err x, v) (e, k) h = cc

on_frames-QuietFrom :
    (fs : List StageEventFrame) (env : Env) (w : World) → QuietFrom w (on_frames fs env w)
unfolding on_frames
on_frames-QuietFrom [] env w = (refl, (refl, refl, refl, refl))
on_frames-QuietFrom (f ∷ fs) env w =
    then_run-QuietFrom (on_frames fs) env w (on_settled f env w) (on_settled-quiet f env w)
      (on_frames-QuietFrom fs env)

-- Whatever fails, the watcher handles every frame that it is given without rejecting, and touches no
-- table but `orders`.
pub watch-quiet :
    (frames : List StageEventFrame) (env : Env) (w : World)
    → ((watch frames env w).0 ≡ ok tt) × Kept w (watch frames env w).1
unfolding watch
watch-quiet frames env w = on_frames-QuietFrom (settled frames) env w
