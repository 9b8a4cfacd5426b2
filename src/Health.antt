-- ===== src/Health.antt =====
-- src/modules/health and the `ping` of the event bus. A PING is answered, refused with an error, or
-- still open at the deadline. terminus and the Postgres indicator are libraries.
use order_outbox_lab.Common.{
  ℕ, ◌≡◌, ◌↔◌, Bool, true, false, List, [], ◌∷◌, ◌++◌, Option, none, some, Text, codes, arith,
}
use order_outbox_lab.Stages.Runner.{decimal}

abbrev pub health_ping_timeout_ms : ℕ
health_ping_timeout_ms = 1500

pub data Reply : Type 0 where
  pong : Reply
  refused : Text → Reply
  still_open : Reply

-- The error that `ping` rejects with, if it rejects: the race of the reply and the deadline.
unfoldable pub ping : ℕ → Reply → Option Text
ping deadline_ms Reply.pong = none
ping deadline_ms (Reply.refused message) = some message
ping deadline_ms Reply.still_open =
    some (codes "ping timed out after " ++ (decimal deadline_ms ++ codes "ms"))

pub record HealthIndicatorResult : Type 0 where
  pub key : Text
  pub up : Bool
  pub message : Option Text

abbrev pub status_from : Text → Option Text → HealthIndicatorResult
status_from key none = record { key = key; up = true; message = none }
status_from key (some message) = record { key = key; up = false; message = some message }

-- `EventBusHealthIndicator.isHealthy`, by the reply to its PING.
unfoldable pub is_healthy : Text → Reply → HealthIndicatorResult
unfolding ping decimal
is_healthy key reply = status_from key (ping health_ping_timeout_ms reply)

-- The bus is reported up exactly when it answers the PING in time, and down with a message otherwise.
pub is_healthy_iff :
    (key : Text) (reply : Reply)
    → (((is_healthy key reply).up ≡ true) ↔ (reply ≡ Reply.pong))
      × (((is_healthy key reply).message ≡ none) ↔ (reply ≡ Reply.pong))
      × ((is_healthy key reply).key ≡ key)
unfolding is_healthy ping
is_healthy_iff key Reply.pong = ground arith
is_healthy_iff key (Reply.refused message) = ground arith
is_healthy_iff key Reply.still_open = ground arith

pub data HealthKey : Type 0 where
  postgres event_bus : HealthKey

abbrev pub health_key_text : HealthKey → Text
health_key_text HealthKey.postgres = codes "postgres"
health_key_text HealthKey.event_bus = codes "eventBus"

-- The checks of `GET /health`, in order. `ping_check` is the indicator for Postgres: its result under
-- a key and a timeout.
abbrev pub check : (Text → ℕ → HealthIndicatorResult) → Reply → List HealthIndicatorResult
check ping_check reply =
    ping_check (health_key_text HealthKey.postgres) health_ping_timeout_ms
    ∷ is_healthy (health_key_text HealthKey.event_bus) reply
    ∷ []
