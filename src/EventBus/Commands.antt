-- ===== src/EventBus/Commands.antt =====
-- The SUBSCRIBE commands that Redis has taken.
use order_outbox_lab.Common.{
  ℕ, suc, All, ◌≡◌, ◌≤◌, refl, Bool, true, false, List, [], ◌∷◌, Option, none, some, Text, text_eq,
  text_eq_iff, if◌then◌else◌, arith,
}
use order_outbox_lab.EventBus.{Bus, empty_bus, get, subscribe_found, subscribe}
use order_outbox_lab.EventBus.Dispatch.{get-add_handler, get-snoc}

unfoldable pub count_text : Text → List Text → ℕ
count_text c [] = 0
count_text c (t ∷ ts) = let rest = count_text c ts in if text_eq t c then suc rest else rest

abbrev pub is_known : Option (List ℕ) → ℕ
is_known none = 0
is_known (some hs) = 1

-- One call of `subscribe`, with the answer of Redis.
pub record Call : Type 0 where
  pub accepts : Bool
  pub channel : Text
  pub handler : ℕ

unfoldable pub subscribe_all : List Call → Bus → Bus
subscribe_all [] bus = bus
subscribe_all (c ∷ cs) bus = subscribe_all cs (subscribe c.accepts c.channel c.handler bus).1

-- At most one SUBSCRIBE for a channel that has an entry, none for others.
abbrev Once : Bus → Type 0
Once bus = (c : Text) → count_text c bus.subscribed ≤ is_known (get c bus.subscriptions)

Once-found :
    (accepts : Bool) (channel : Text) (h : ℕ) (bus : Bus) (found : Option (List ℕ))
    → get channel bus.subscriptions ≡ found
    → Once bus
    → Once (subscribe_found accepts channel h bus found).1
unfolding count_text
Once-found accepts channel h bus (some hs) e once c =
    ground (arith, get-add_handler c channel h bus.subscriptions hs e, once c)
Once-found true channel h bus none e once c = ground (
  arith,
  get-snoc c channel h bus.subscriptions e,
  once c,
  once channel,
  text_eq_iff channel c,
  e,
)
Once-found false channel h bus none e once c =
    ground (arith, get-snoc c channel h bus.subscriptions e, once c)

Once-subscribe_all : (calls : List Call) (bus : Bus) → Once bus → Once (subscribe_all calls bus)
unfolding subscribe_all subscribe
Once-subscribe_all [] bus once = once
Once-subscribe_all (k ∷ ks) bus once =
    Once-subscribe_all ks (subscribe k.accepts k.channel k.handler bus).1
      (Once-found k.accepts k.channel k.handler bus (get k.channel bus.subscriptions) refl once)

-- Every channel with an entry has its SUBSCRIBE.
abbrev pub HasSubscribes : Bus → Type 0
HasSubscribes bus = (c : Text) → is_known (get c bus.subscriptions) ≤ count_text c bus.subscribed

pub HasSubscribes-found :
    (channel : Text) (h : ℕ) (bus : Bus) (found : Option (List ℕ))
    → get channel bus.subscriptions ≡ found
    → HasSubscribes bus
    → HasSubscribes (subscribe_found true channel h bus found).1
unfolding count_text
HasSubscribes-found channel h bus (some hs) e covered c =
    ground (
      arith,
      get-add_handler c channel h bus.subscriptions hs e,
      covered c,
      text_eq_iff channel c,
      e,
    )
HasSubscribes-found channel h bus none e covered c =
    ground (arith, get-snoc c channel h bus.subscriptions e, covered c, text_eq_iff channel c, e)

HasSubscribes-subscribe_all :
    (calls : List Call) (bus : Bus)
    → All (λ k. k.accepts ≡ true) calls
    → HasSubscribes bus
    → HasSubscribes (subscribe_all calls bus)
unfolding subscribe_all subscribe
HasSubscribes-subscribe_all [] bus all covered = covered
HasSubscribes-subscribe_all (k ∷ ks) bus (taken, all) covered =
    HasSubscribes-subscribe_all ks (subscribe k.accepts k.channel k.handler bus).1 all (
      rw taken (
        HasSubscribes-found k.channel k.handler bus (get k.channel bus.subscriptions) refl covered))

known-le : (o : Option (List ℕ)) → is_known o ≤ 1
known-le none = omega arith
known-le (some hs) = omega arith

-- Over any sequence of subscriptions, Redis takes at most one SUBSCRIBE for a channel; if it refuses
-- none, it has taken exactly one for each channel that has local handlers, and none for others.
pub subscribe_all-once :
    (calls : List Call) (c : Text)
    → let bus = subscribe_all calls empty_bus in
      (count_text c bus.subscribed ≤ 1)
      × (All (λ k. k.accepts ≡ true) calls
          → count_text c bus.subscribed ≡ is_known (get c bus.subscriptions))
unfolding get count_text
subscribe_all-once calls c =
    let bus = subscribe_all calls empty_bus in
    let once = Once-subscribe_all calls empty_bus (λ d. omega arith) c in
    (
      omega (arith, once, known-le (get c bus.subscriptions)),
      λ all.
          omega (arith, once, HasSubscribes-subscribe_all calls empty_bus all (λ d. omega arith) c),
    )
