-- ===== src/EventBus.antt =====
-- `RedisEventBus` of src/infrastructure/event-bus/redis-event-bus.ts: the local handlers of each
-- channel, SUBSCRIBE, and the dispatch of a message. Redis and `JSON.parse` are parameters. A handler
-- is a number, since a `Set` compares handlers by identity.
pub mod Dispatch
pub mod Commands
pub mod Contract
pub mod Broadcast
pub mod Connections
use order_outbox_lab.Common.{
  ℕ, Bool, true, false, List, [], ◌∷◌, ◌++◌, Option, none, some, Text, text_eq, if◌then◌else◌,
  contains, ℕ_discrete,
}

pub record Subscription : Type 0 where
  pub channel : Text
  pub handlers : List ℕ

-- The `Map` of handlers, and the channels of the SUBSCRIBE commands that Redis took, newest first.
pub record Bus : Type 0 where
  pub subscriptions : List Subscription
  pub subscribed : List Text

abbrev pub empty_bus : Bus
empty_bus = record { subscriptions = []; subscribed = [] }

-- `this.handlers.get(channel)`
unfoldable pub get : Text → List Subscription → Option (List ℕ)
get channel [] = none
get channel (s ∷ ss) = if text_eq s.channel channel then some s.handlers else get channel ss

-- `Set.prototype.add`, which keeps the order of insertion.
unfoldable pub add : ℕ → List ℕ → List ℕ
add h hs = if contains ℕ_discrete h hs then hs else hs ++ (h ∷ [])

-- `existing.add(handler)` in the set of the channel.
unfoldable pub add_handler : Text → ℕ → List Subscription → List Subscription
add_handler channel h [] = []
add_handler channel h (s ∷ ss) =
    if text_eq s.channel channel
    then record s { handlers = add h s.handlers } ∷ ss
    else s ∷ add_handler channel h ss

abbrev pub first_handler : Bool → Text → ℕ → Bus → Bool × Bus
first_handler accepts channel h bus = (
  accepts,
  record {
    subscriptions = bus.subscriptions ++ (record { channel = channel; handlers = h ∷ [] } ∷ []);
    subscribed = if accepts then channel ∷ bus.subscribed else bus.subscribed;
  },
)

abbrev pub subscribe_found : Bool → Text → ℕ → Bus → Option (List ℕ) → Bool × Bus
subscribe_found accepts channel h bus (some _) =
    (true, record bus { subscriptions = add_handler channel h bus.subscriptions })
subscribe_found accepts channel h bus none = first_handler accepts channel h bus

-- `accepts` says whether Redis takes a SUBSCRIBE; false if the promise rejects.
unfoldable pub subscribe : Bool → Text → ℕ → Bus → Bool × Bus
subscribe accepts channel h bus =
    subscribe_found accepts channel h bus (get channel bus.subscriptions)

-- A handler call, or a line of the log.
pub data Effect (Payload : Type 0) : Type 0 where
  called : ℕ → Payload → Effect Payload
  ignored_malformed : Text → Effect Payload
  handler_failed : ℕ → Text → Effect Payload

-- `this.handlers.get(channel) ?? []`
abbrev pub handlers_of : Option (List ℕ) → List ℕ
handlers_of none = []
handlers_of (some hs) = hs

module _ {Payload : Type 0} (parse : Text → Option Payload) (throws : ℕ → Payload → Bool) where
  -- The loop of `dispatch`.
  unfoldable pub call_all : Text → Payload → List ℕ → List (Effect Payload)
  call_all channel payload [] = []
  call_all channel payload (h ∷ hs) =
      Effect.called h payload
      ∷ (if throws h payload
          then Effect.handler_failed h channel ∷ call_all channel payload hs
          else call_all channel payload hs)

  abbrev pub dispatch_parsed : Text → Bus → Option Payload → List (Effect Payload)
  dispatch_parsed channel bus none = Effect.ignored_malformed channel ∷ []
  dispatch_parsed channel bus (some payload) =
      call_all channel payload (handlers_of (get channel bus.subscriptions))

  unfoldable pub dispatch : Text → Text → Bus → List (Effect Payload)
  dispatch channel raw bus = dispatch_parsed channel bus (parse raw)

-- A message on the wire.
pub record Message : Type 0 where
  pub channel : Text
  pub raw : Text

-- `publish` hands Redis the payload as JSON.
abbrev pub publish : {Payload : Type 0} → (Payload → Text) → Text → Payload → Message
publish stringify channel payload = record { channel = channel; raw = stringify payload }
