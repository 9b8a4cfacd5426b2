-- ===== src/EventBus/Contract.antt =====
-- The contract of src/infrastructure/event-bus/event-bus.ts, over the instances that share the bus:
-- a message is broadcast, so every subscriber on every instance receives it.
use order_outbox_lab.Common.{
  ℕ, ◌≡◌, refl, ap, ◌∙◌, List, [], ◌∷◌, map, Text, text_eq, if◌then◌else◌,
}
use order_outbox_lab.EventBus.{add}

-- What a driver offers to the classes of one instance, and the laws that they rely on.
pub record EventBus (Payload : Type 0) : Type 1 where
  pub Instance : Type 0
  pub start : Instance
  pub subscribe : Text → ℕ → Instance → Instance
  -- The handler calls on an instance for one message that some instance publishes.
  pub receive : Text → Payload → Instance → List (ℕ × Payload)
  pub handlers : Text → Instance → List ℕ
  pub no_handlers : (c : Text) → handlers c start ≡ []
  pub one_more :
      (channel c : Text) (h : ℕ) (i : Instance)
      → handlers c (subscribe channel h i)
        ≡ (if text_eq channel c then add h (handlers c i) else handlers c i)
  pub each_once :
      (c : Text) (p : Payload) (i : Instance) → receive c p i ≡ map (λ h. (h, p)) (handlers c i)

-- The handlers of a channel after these subscriptions, in the order in which they came.
unfoldable pub subscribers : Text → List (Text × ℕ) → List ℕ → List ℕ
subscribers c [] hs = hs
subscribers c ((channel, h) ∷ subs) hs =
    subscribers c subs (if text_eq channel c then add h hs else hs)

module _ {Payload : Type 0} (bus : EventBus Payload) where
  unfoldable pub subscribed_from : List (Text × ℕ) → bus.Instance → bus.Instance
  subscribed_from [] i = i
  subscribed_from ((channel, h) ∷ subs) i = subscribed_from subs (bus.subscribe channel h i)

  -- An instance that has made these subscriptions.
  abbrev pub instance_with : List (Text × ℕ) → bus.Instance
  instance_with subs = subscribed_from subs bus.start

  -- One message, on all instances.
  abbrev pub broadcast : Text → Payload → List bus.Instance → List (List (ℕ × Payload))
  broadcast c p = map (bus.receive c p)

  handlers-subscribed_from :
      (c : Text) (subs : List (Text × ℕ)) (i : bus.Instance)
      → bus.handlers c (subscribed_from subs i) ≡ subscribers c subs (bus.handlers c i)
  unfolding subscribed_from subscribers
  handlers-subscribed_from c [] i = refl
  handlers-subscribed_from c ((channel, h) ∷ subs) i =
      handlers-subscribed_from c subs (bus.subscribe channel h i)
      ∙ ap (subscribers c subs) (bus.one_more channel c h i)

  receive-instance :
      (c : Text) (p : Payload) (subs : List (Text × ℕ))
      → bus.receive c p (instance_with subs) ≡ map (λ h. (h, p)) (subscribers c subs [])
  receive-instance c p subs =
      bus.each_once c p (instance_with subs)
      ∙ ap (map (λ h. (h, p)))
          (handlers-subscribed_from c subs bus.start ∙ ap (subscribers c subs) (bus.no_handlers c))

  pub broadcast-subscribers :
      (c : Text) (p : Payload) (fleet : List (List (Text × ℕ)))
      → broadcast c p (map instance_with fleet)
        ≡ map (λ subs. map (λ h. (h, p)) (subscribers c subs [])) fleet
  broadcast-subscribers c p [] = refl
  broadcast-subscribers c p (subs ∷ fleet) =
      rw (receive-instance c p subs, broadcast-subscribers c p fleet) refl
