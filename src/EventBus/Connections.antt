-- ===== src/EventBus/Connections.antt =====
-- The two connections of `RedisEventBus`: its constructor, `ping` and `onModuleDestroy`.
use order_outbox_lab.Common.{
  ℕ, ◌≡◌, ◌≤◌, refl, Bool, true, false, ◌&&◌, ◌||◌, ◌==◌, Option, none, some, Text, ltb,
  Option-cases, inl, inr, if◌then◌else◌, arith,
}
use order_outbox_lab.EventBus.{Bus, empty_bus}
use order_outbox_lab.Health.{Reply, ping}

-- `maxRetriesPerRequest: null` is `none`: commands wait for a connection for ever.
pub record RedisOptions : Type 0 where
  pub url : Text
  pub max_retries_per_request : Option ℕ

pub record Redis : Type 0 where
  pub options : RedisOptions
  pub has_quit : Bool

-- `listening`: the subscriber hands its messages to `dispatch`.
pub record RedisEventBus : Type 0 where
  pub publisher : Redis
  pub subscriber : Redis
  pub listening : Bool
  pub bus : Bus

abbrev pub connect : RedisOptions → Redis
connect options = record { options = options; has_quit = false }

-- `duplicate()` opens a second connection with the same options.
unfoldable pub construct : Text → RedisEventBus
construct url =
    let publisher = connect (record { url = url; max_retries_per_request = none }) in
    record {
      publisher = publisher;
      subscriber = connect publisher.options;
      listening = true;
      bus = empty_bus;
    }

abbrev pub quit : Redis → Redis
quit r = record r { has_quit = true }

-- Both QUITs are sent before either is awaited; it resolves if both do.
unfoldable pub on_module_destroy : Bool → Bool → RedisEventBus → Bool × RedisEventBus
on_module_destroy publisher_quits subscriber_quits b = (
  publisher_quits && subscriber_quits,
  record b { publisher = quit b.publisher; subscriber = quit b.subscriber },
)

abbrev pub default_ping_deadline_ms : ℕ
default_ping_deadline_ms = 1500

-- The answer to a PING: an error or none, after so many milliseconds; `none`: it never comes.
pub record Answer : Type 0 where
  pub after_ms : ℕ
  pub error : Option Text

abbrev answered : Option Text → Reply
answered none = Reply.pong
answered (some message) = Reply.refused message

-- `Promise.race`: what settles first, where `reply_first` says who comes first at the deadline itself.
unfoldable pub race : Bool → ℕ → Option Answer → Reply
race reply_first deadline_ms none = Reply.still_open
race reply_first deadline_ms (some a) =
    if ltb a.after_ms deadline_ms || (reply_first && a.after_ms == deadline_ms)
    then answered a.error
    else Reply.still_open

unfoldable pub ping_within : Bool → ℕ → Option Answer → Option Text
ping_within reply_first deadline_ms answer = ping deadline_ms (race reply_first deadline_ms answer)

-- The two connections of a bus are made with the same options, and commands wait for ever.
construct-options :
    (url : Text)
    → ((construct url).subscriber.options ≡ (construct url).publisher.options)
      × ((construct url).publisher.options.max_retries_per_request ≡ none)
unfolding construct
construct-options url = (refl, refl)

-- So `ping` needs its deadline: with no answer it rejects, and it resolves only with an answer that is
-- no error and comes by then.
ping_within-deadline :
    (reply_first : Bool) (deadline_ms : ℕ) (answer : Option Answer)
    → ping_within reply_first deadline_ms answer ≡ none
    → (a : Answer) × (answer ≡ some a) × (a.error ≡ none) × (a.after_ms ≤ deadline_ms)
unfolding ping_within race ping
ping_within-deadline first deadline_ms none h = cc
ping_within-deadline first deadline_ms (some a) h = elim (Option-cases a.error) [
  | inl clean ↦ (a, refl, clean, ground (arith, clean))
  | inr (message, failed) ↦ absurd (ground (arith, failed))
]
