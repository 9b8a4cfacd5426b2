-- ===== src/System/Finishing.antt =====
-- The way of an order from its outbox row to its status, and attempts whose process has died.
pub mod Running
pub mod Fulfilling
pub mod Lost
use order_outbox_lab.Common.{ℕ}
use order_outbox_lab.Database.{RetryKey}
use order_outbox_lab.Frames.{Attempt}

abbrev pub attempt_of : RetryKey → ℕ → Attempt
attempt_of k n = record { order_id = k.order_id; stage = k.stage; attempt = n }
