-- ===== src/EventBus/Dispatch.antt =====
-- What `subscribe` and `dispatch` do with the handlers of each channel.
use order_outbox_lab.Common.{
  ℕ, ◌≡◌, refl, ap, ◌∙◌, inl, inr, ite, Bool, true, List, [], ◌∷◌, map, ◌++◌, Option, none, some,
  Text, text_eq, text_eq_iff, Bool-cases, if◌then◌else◌, contains, ℕ_discrete, arith,
}
use order_outbox_lab.EventBus.{
  Subscription, Bus, get, add, add_handler, subscribe_found, subscribe, Effect, call_all,
  handlers_of, dispatch,
}

contains-snoc :
    (h x : ℕ) (hs : List ℕ)
    → contains ℕ_discrete h (hs ++ (x ∷ [])) ≡ ite (ℕ_discrete x h) true (contains ℕ_discrete h hs)
unfolding contains
contains-snoc h x [] = refl
contains-snoc h x (y ∷ hs) = ground (arith, contains-snoc h x hs)

contains-add :
    (h x : ℕ) (hs : List ℕ)
    → contains ℕ_discrete h (add x hs) ≡ ite (ℕ_discrete x h) true (contains ℕ_discrete h hs)
unfolding add
contains-add h x hs = ground (arith, contains-snoc h x hs)

abbrev pub handlers : Text → Bus → List ℕ
handlers channel bus = handlers_of (get channel bus.subscriptions)

pub get-add_handler :
    (c channel : Text) (h : ℕ) (ss : List Subscription) (hs : List ℕ)
    → get channel ss ≡ some hs
    → get c (add_handler channel h ss) ≡ (if text_eq channel c then some (add h hs) else get c ss)
unfolding get add_handler
get-add_handler c channel h [] hs e = cc
get-add_handler c channel h (s ∷ ss) hs e = ground (
  arith,
  get-add_handler c channel h ss hs,
  text_eq_iff s.channel channel,
  text_eq_iff s.channel c,
  text_eq_iff channel c,
)

pub get-snoc :
    (c channel : Text) (h : ℕ) (ss : List Subscription)
    → get channel ss ≡ none
    → get c (ss ++ (record { channel = channel; handlers = h ∷ [] } ∷ []))
      ≡ (if text_eq channel c then some (h ∷ []) else get c ss)
unfolding get
get-snoc c channel h [] e = refl
get-snoc c channel h (s ∷ ss) e = ground (
  arith,
  get-snoc c channel h ss,
  text_eq_iff s.channel channel,
  text_eq_iff s.channel c,
  text_eq_iff channel c,
)

found-handlers :
    (accepts : Bool) (channel c : Text) (h : ℕ) (bus : Bus) (found : Option (List ℕ))
    → get channel bus.subscriptions ≡ found
    → handlers c (subscribe_found accepts channel h bus found).1
      ≡ (if text_eq channel c then add h (handlers c bus) else handlers c bus)
unfolding add contains
found-handlers accepts channel c h bus (some hs) e =
    ground (arith, get-add_handler c channel h bus.subscriptions hs e, text_eq_iff channel c)
found-handlers accepts channel c h bus none e =
    ground (arith, get-snoc c channel h bus.subscriptions e, text_eq_iff channel c)

pub subscribe-handlers :
    (accepts : Bool) (channel c : Text) (h : ℕ) (bus : Bus)
    → handlers c (subscribe accepts channel h bus).1
      ≡ (if text_eq channel c then add h (handlers c bus) else handlers c bus)
unfolding subscribe
subscribe-handlers accepts channel c h bus =
    found-handlers accepts channel c h bus (get channel bus.subscriptions) refl

module _ {Payload : Type 0} where
  -- The handler calls among the effects, in order.
  unfoldable pub calls : List (Effect Payload) → List (ℕ × Payload)
  calls [] = []
  calls (Effect.called h p ∷ es) = (h, p) ∷ calls es
  calls (Effect.ignored_malformed c ∷ es) = calls es
  calls (Effect.handler_failed h c ∷ es) = calls es

  module _ (parse : Text → Option Payload) (throws : ℕ → Payload → Bool) where
    pub calls-call_all :
        (c : Text) (p : Payload) (hs : List ℕ)
        → calls (call_all parse throws c p hs) ≡ map (λ h. (h, p)) hs
    unfolding calls call_all
    calls-call_all c p [] = refl
    calls-call_all c p (h ∷ hs) = elim (Bool-cases (throws h p)) [
      | inl e ↦ rw e (ap (◌∷◌ (h, p)) (calls-call_all c p hs))
      | inr e ↦ rw e (ap (◌∷◌ (h, p)) (calls-call_all c p hs))
    ]

    -- After a `subscribe`, a well-formed message of its channel is handed to each handler that was
    -- there and to the new one, once each and in the order of subscription, whichever of them throw;
    -- on another channel nothing has changed; a malformed message is handed to none.
    pub subscribe-dispatch :
        (accepts : Bool) (channel c raw : Text) (h : ℕ) (bus : Bus)
        → let later = (subscribe accepts channel h bus).1 in
          ((p : Payload)
            → parse raw ≡ some p
            → calls (dispatch parse throws c raw later)
              ≡ map
                  (λ x. (x, p))
                  (if text_eq channel c then add h (handlers c bus) else handlers c bus))
          × (parse raw ≡ none → calls (dispatch parse throws c raw later) ≡ [])
    unfolding dispatch calls
    subscribe-dispatch accepts channel c raw h bus = (
      (λ p e. rw e (
          calls-call_all c p (handlers c (subscribe accepts channel h bus).1)
          ∙ ap (map (λ x. (x, p))) (subscribe-handlers accepts channel c h bus))),
      (λ e. rw e refl),
    )
