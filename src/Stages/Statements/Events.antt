-- ===== src/Stages/Statements/Events.antt =====
-- The insert into `order_stage_events`, seen through the unique index.
use order_outbox_lab.Common.{
  ◌≡◌, refl, ◌⊎◌, Bool, true, false, List, [], ◌∷◌, Option, some, Text, ite, arith, contains,
}
use order_outbox_lab.Database.{
  OrderStageEventEntity, Store, Stamp, EventKey, EventKey-discrete, event_key,
}
use order_outbox_lab.Stages.Statements.{event_row, has_event, insert_event}

abbrev pub log_event : EventKey → Option Text → Stamp → Store → Store
log_event k detail t s = record s { stage_events = event_row k detail t ∷ s.stage_events }

-- The store with one more event, whose key was free.
pub record Logged (k : EventKey) (s s' : Store) : Type 0 where
  pub detail : Option Text
  pub stamp : Stamp
  pub free : has_event k s.stage_events ≡ false
  pub after : s' ≡ log_event k detail stamp s

pub has_event-cons :
    (j k : EventKey) (detail : Option Text) (t : Stamp) (events : List OrderStageEventEntity)
    → has_event j (event_row k detail t ∷ events)
      ≡ ite (EventKey-discrete k j) true (has_event j events)
unfolding has_event contains
has_event-cons j k detail t events = refl

-- The insert reports true exactly when it added the row, and false when the key was taken.
pub insert_event-eq-some :
    (k : EventKey) (detail : Option Text) (t : Stamp) (s s' : Store) (b : Bool)
    → insert_event k detail t s ≡ some (b, s')
    → ((b ≡ false) × (s' ≡ s) × (has_event k s.stage_events ≡ true)) ⊎ ((b ≡ true) × Logged k s s')
unfolding insert_event
insert_event-eq-some k detail t s s' b h = grind (arith)

-- The constraint `uq_stage_attempt`.
abbrev pub UniqueEvents : List OrderStageEventEntity → Type 0
UniqueEvents [] = Unit
UniqueEvents (e ∷ es) = (has_event (event_key e) es ≡ false) × UniqueEvents es
