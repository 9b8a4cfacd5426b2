-- ===== src/Dashboard/Timeline.antt =====
-- public/js/timeline.js: the table of stage events.
use order_outbox_lab.Common.{ℕ, Bool, true, false, List, [], ◌∷◌, ◌++◌, Option, none, Text, codes}
use order_outbox_lab.Pipeline.{StageName, StageStatus, stage_text}
use order_outbox_lab.Stages.Runner.{decimal}
use order_outbox_lab.Dashboard.Dom.{Node, el, parent, badge, time}
use order_outbox_lab.Dashboard.Sidebar.{or_empty}

-- A stage event as the page gets it, from the hydration or from the stream.
pub record StageItem : Type 0 where
  pub order_id : Text
  pub stage : StageName
  pub attempt : ℕ
  pub status : StageStatus
  pub detail : Option Text
  pub created_at : Text

pub record Timeline : Type 0 where
  pub rows : List Node
  pub empty_hidden : Bool
  pub table_hidden : Bool

abbrev pub stage_status_text : StageStatus → Text
stage_status_text StageStatus.started = codes "started"
stage_status_text StageStatus.completed = codes "completed"
stage_status_text StageStatus.failed = codes "failed"

abbrev pub clear_timeline : Timeline → Timeline
clear_timeline t = record t { rows = [] }

module _ (utc : Text → Option Text) where
  abbrev pub item_row : StageItem → Node
  item_row e = parent (codes "tr") [] none (
      el (codes "td") [] (stage_text e.stage)
      ∷ el (codes "td") [] (decimal e.attempt)
      ∷ parent (codes "td") [] none (badge (stage_status_text e.status) ∷ [])
      ∷ el (codes "td") [] (or_empty e.detail)
      ∷ el (codes "td") [] (time utc e.created_at)
      ∷ [])

  abbrev pub add_row : StageItem → Timeline → Timeline
  add_row e t = record {
    rows = t.rows ++ (item_row e ∷ []);
    empty_hidden = true;
    table_hidden = false;
  }

  unfoldable pub add_rows : List StageItem → Timeline → Timeline
  add_rows [] t = t
  add_rows (e ∷ es) t = add_rows es (add_row e t)
