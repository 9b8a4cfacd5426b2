-- ===== src/EventBus/Broadcast.antt =====
-- `RedisEventBus` over Redis pub/sub, which hands a message to every connection that is subscribed
-- to the channel, beside the contract of the abstract bus.
use order_outbox_lab.Common.{
  ℕ, ◌≡◌, ◌≤◌, refl, inl, inr, Bool, true, List, [], map, Option, none, some, Text, ltb, Bool-cases,
  if◌then◌else◌, arith,
}
use order_outbox_lab.EventBus.{Bus, Message, empty_bus, get, subscribe, publish, dispatch}
use order_outbox_lab.EventBus.Dispatch.{calls, handlers, calls-call_all, subscribe-handlers}
use order_outbox_lab.EventBus.Commands.{count_text, is_known, HasSubscribes, HasSubscribes-found}
use order_outbox_lab.EventBus.Contract.{
  EventBus, broadcast, instance_with, subscribers, broadcast-subscribers,
}

-- An instance whose SUBSCRIBE commands Redis has taken.
abbrev pub Subscribed : Type 0
Subscribed = (bus : Bus) × HasSubscribes bus

pub subscribe-HasSubscribes :
    (channel : Text) (h : ℕ) (bus : Bus)
    → HasSubscribes bus
    → HasSubscribes (subscribe true channel h bus).1
unfolding subscribe
subscribe-HasSubscribes channel h bus k =
    HasSubscribes-found channel h bus (get channel bus.subscriptions) refl k

pub empty_subscribed : HasSubscribes empty_bus
unfolding get
empty_subscribed c = omega arith

pub empty_handlers : (c : Text) → handlers c empty_bus ≡ []
unfolding get
empty_handlers c = refl

module _ {Payload : Type 0} (parse : Text → Option Payload) (stringify : Payload → Text)
    (throws : ℕ → Payload → Bool) (round_trip : (p : Payload) → parse (stringify p) ≡ some p) where
  -- What Redis hands to the subscriber connection of an instance.
  unfoldable pub taken : Message → Bus → List (ℕ × Payload)
  taken m bus =
      if ltb 0 (count_text m.channel bus.subscribed)
      then calls (dispatch parse throws m.channel m.raw bus)
      else []

  dispatch-published :
      (c : Text) (p : Payload) (bus : Bus)
      → calls (dispatch parse throws c (stringify p) bus) ≡ map (λ h. (h, p)) (handlers c bus)
  unfolding dispatch
  dispatch-published c p bus = rw (round_trip p) (calls-call_all parse throws c p (handlers c bus))

  pub taken-handlers :
      (c : Text) (p : Payload) (bus : Bus)
      → HasSubscribes bus
      → taken (publish stringify c p) bus ≡ map (λ h. (h, p)) (handlers c bus)
  unfolding taken
  taken-handlers c p bus k = elim (Bool-cases (ltb 0 (count_text c bus.subscribed))) [
    | inl some_taken ↦ rw some_taken (dispatch-published c p bus)
    | inr none_taken ↦
        let empty = no_entry (get c bus.subscriptions) (ground (arith, k c)) in
        rw (none_taken, empty) refl
  ]
    where
      no_entry : (o : Option (List ℕ)) → is_known o ≤ 0 → o ≡ none
      no_entry none h = refl
      no_entry (some hs) h = absurd (omega (arith, h))

  abbrev pub redis_bus : EventBus Payload
  redis_bus = record {
    Instance = Subscribed;
    start = (empty_bus, (λ c. empty_subscribed c));
    subscribe = λ channel h i.
        ((subscribe true channel h i.0).1, subscribe-HasSubscribes channel h i.0 i.1);
    receive = λ c p i. taken (publish stringify c p) i.0;
    handlers = λ c i. handlers c i.0;
    no_handlers = λ c. empty_handlers c;
    one_more = λ channel c h i. subscribe-handlers true channel c h i.0;
    each_once = λ c p i. taken-handlers c p i.0 i.1;
  }

  -- Where Redis takes every SUBSCRIBE and JSON round-trips the payload, a message that any instance
  -- publishes is handed, on every instance, to each handler that the instance has subscribed to the
  -- channel, once and in the order of subscription, whichever of them throw; no instance is skipped
  -- and no handler of another channel is called.
  pub redis_bus-broadcasts :
      (c : Text) (p : Payload) (fleet : List (List (Text × ℕ)))
      → broadcast redis_bus c p (map (instance_with redis_bus) fleet)
        ≡ map (λ subs. map (λ h. (h, p)) (subscribers c subs [])) fleet
  redis_bus-broadcasts = broadcast-subscribers redis_bus
