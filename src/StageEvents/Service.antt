-- ===== src/StageEvents/Service.antt =====
-- `StageEventsService` over the event bus of its instance: one subscription, whose handler feeds the
-- subject, and what the messages that Redis brings make the subject emit.
use order_outbox_lab.Common.{
  ℕ, ◌≡◌, refl, ap, ◌∙◌, Bool, List, [], ◌∷◌, ◌++◌, map, Option, Option-cases, some, none, inl, inr,
  contains, Text, text_eq, if◌then◌else◌, ◌==◌, arith,
}
use order_outbox_lab.Pipeline.{EventChannel, channel_text}
use order_outbox_lab.Frames.{StageEventFrame}
use order_outbox_lab.EventBus.{Bus, Message, empty_bus, get, add, subscribe, publish, dispatch}
use order_outbox_lab.EventBus.Dispatch.{calls, subscribe-dispatch}
use order_outbox_lab.StageEvents.{stream}

-- The handler `(event) => this.subject.next(event)`.
abbrev pub subject : ℕ
subject = 0

unfoldable pub on_module_init : Bool → Bus → Bool × Bus
on_module_init accepts bus = subscribe accepts (channel_text EventChannel.stage_events) subject bus

-- `publish(event)`
abbrev pub publish_event : (StageEventFrame → Text) → StageEventFrame → Message
publish_event stringify f = publish stringify (channel_text EventChannel.stage_events) f

-- The bus of an instance that has started.
abbrev pub started : Bool → Bus
started accepts = (on_module_init accepts empty_bus).1

-- The frames of the calls of the subject.
unfoldable pub emitted : List (ℕ × StageEventFrame) → List StageEventFrame
emitted [] = []
emitted ((h, f) ∷ cs) = if h == subject then f ∷ emitted cs else emitted cs

module _ (parse : Text → Option StageEventFrame) (throws : ℕ → StageEventFrame → Bool) where
  -- What the subject emits while the messages come in.
  unfoldable pub received : Bus → List Message → List StageEventFrame
  received bus [] = []
  received bus (m ∷ ms) =
      emitted (calls (dispatch parse throws m.channel m.raw bus)) ++ received bus ms

  abbrev parsed : Option StageEventFrame → List StageEventFrame
  parsed none = []
  parsed (some f) = f ∷ []

  -- The frames of the messages of the channel that parse.
  unfoldable pub frames_in : List Message → List StageEventFrame
  unfolding text_eq channel_text
  frames_in [] = []
  frames_in (m ∷ ms) =
      (if text_eq (channel_text EventChannel.stage_events) m.channel
        then parsed (parse m.raw)
        else [])
      ++ frames_in ms

  emitted_lem :
      (accepts : Bool) (c raw : Text)
      → emitted (calls (dispatch parse throws c raw (started accepts)))
        ≡ (if text_eq (channel_text EventChannel.stage_events) c then parsed (parse raw) else [])
  unfolding on_module_init emitted get add contains calls
  emitted_lem accepts c raw =
      let (good, bad) =
        subscribe-dispatch parse throws accepts (channel_text EventChannel.stage_events) c raw
          subject empty_bus in
      elim (Option-cases (parse raw)) [
        | inl none_there ↦ ap emitted (bad none_there) ∙ ground (arith, none_there)
        | inr (p, e) ↦ ap emitted (good p e) ∙ ground (arith, e)
      ]

  received-frames_in :
      (accepts : Bool) (ms : List Message) → received (started accepts) ms ≡ frames_in ms
  unfolding received frames_in
  received-frames_in accepts [] = refl
  received-frames_in accepts (m ∷ ms) =
      rw (emitted_lem accepts m.channel m.raw, received-frames_in accepts ms) refl

  frames_in-published :
      (stringify : StageEventFrame → Text)
      → ((f : StageEventFrame) → parse (stringify f) ≡ some f)
      → (fs : List StageEventFrame) → frames_in (map (publish_event stringify) fs) ≡ fs
  unfolding frames_in
  frames_in-published stringify h [] = refl
  frames_in-published stringify h (f ∷ fs) = rw (h f, frames_in-published stringify h fs) refl

  -- On an instance that has subscribed at its start, the subject emits exactly the frames of the
  -- well-formed messages of the channel `stage_events`, in their order, whatever comes on other
  -- channels and whichever handlers throw. Where JSON round-trips the frames, those that some
  -- instance publishes are emitted as they were, so a stream gives its order's frames among them.
  pub received-published :
      (accepts : Bool) (stringify : StageEventFrame → Text)
      → ((f : StageEventFrame) → parse (stringify f) ≡ some f)
      → (ms : List Message) (fs : List StageEventFrame) (id : ℕ)
      → (received (started accepts) ms ≡ frames_in ms)
        × (received (started accepts) (map (publish_event stringify) fs) ≡ fs)
        × (stream id (received (started accepts) (map (publish_event stringify) fs)) ≡ stream id fs)
  received-published accepts stringify h ms fs id =
      let back =
        received-frames_in accepts (map (publish_event stringify) fs)
        ∙ frames_in-published stringify h fs in
      (received-frames_in accepts ms, back, ap (stream id) back)
