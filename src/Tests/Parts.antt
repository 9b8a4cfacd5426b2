-- ===== src/Tests/Parts.antt =====
-- The theorems on validation, queries, configuration, the bus and the load generator, at concrete
-- inputs, and runs of these parts.
use order_outbox_lab.Common.{
  ◌≡◌, ◌↔◌, refl, true, [], ◌∷◌, map, some, codes, text_eq, contains, ℕ_discrete,
}
use order_outbox_lab.Pipeline.{StageName}
use order_outbox_lab.Effects.{ok}
use order_outbox_lab.Orders.Validation.{
  CreateOrderInput, parse_create_order, trim, trim_start, is_space,
}
use order_outbox_lab.Orders.Trimming.{Accepted, parse_create_order_iff}
use order_outbox_lab.EventBus.{Bus, empty_bus, add, subscribe, dispatch, get, add_handler, call_all}
use order_outbox_lab.EventBus.Dispatch.{calls}
use order_outbox_lab.Common.{ℕ, List}
use order_outbox_lab.Pipeline.{StageStatus}
use order_outbox_lab.Frames.{StageEventFrame}
use order_outbox_lab.EventBus.{Message}
use order_outbox_lab.StageEvents.{stream}
use order_outbox_lab.StageEvents.Service.{
  publish_event, received, frames_in, started, received-published,
}
use order_outbox_lab.Samples.Wire.{sample_parse, sample_stringify, sample_parse-sample_stringify}
use order_outbox_lab.Samples.Numbers.{sample_js}
use order_outbox_lab.Samples.History.{sample_body}

trims : trim (codes "  a b ") ≡ codes "a b"
unfolding trim trim_start is_space
trims = refl

abbrev ada : CreateOrderInput
ada = record { customer_name = codes "Ada"; amount = codes "042.00" }

parses : parse_create_order sample_js sample_body ≡ ok ada
unfolding parse_create_order trim trim_start is_space sample_js
parses = refl

parse_create_order_iff_example :
    (parse_create_order sample_js sample_body ≡ ok ada) ↔ Accepted sample_js sample_body ada
parse_create_order_iff_example = parse_create_order_iff sample_js sample_body ada

abbrev one_handler : Bus
one_handler = (subscribe true (codes "c") 1 empty_bus).1

both_called :
    calls (
      dispatch some
        (λ h x. true)
        (codes "c")
        (codes "m")
        (subscribe true (codes "c") 2 one_handler).1)
    ≡ (1, codes "m") ∷ (2, codes "m") ∷ []
unfolding calls dispatch subscribe get add add_handler call_all text_eq contains ℕ_discrete
both_called = refl

abbrev sample_frame : ℕ → StageEventFrame
sample_frame id = record {
  order_id = id;
  stage = StageName.email;
  status = StageStatus.completed;
  attempt = 1;
  detail = some (codes "7ms");
  created_at = 5;
}

abbrev two_frames : List StageEventFrame
two_frames = sample_frame 1 ∷ sample_frame 2 ∷ []

-- A malformed message, and one of another channel.
abbrev other_messages : List Message
other_messages =
    record { channel = codes "stage_events"; raw = codes "{" }
    ∷ record { channel = codes "x"; raw = sample_stringify (sample_frame 1) }
    ∷ []

received-published_example :
    let bus = started true in
    (received sample_parse (λ h f. true) bus other_messages
      ≡ frames_in sample_parse (λ h f. true) other_messages)
    × (received sample_parse (λ h f. true) bus (map (publish_event sample_stringify) two_frames)
        ≡ two_frames)
    × (stream 2 (
          received sample_parse (λ h f. true) bus (map (publish_event sample_stringify) two_frames))
        ≡ stream 2 two_frames)
received-published_example =
    received-published sample_parse (λ h f. true) true sample_stringify
      sample_parse-sample_stringify other_messages two_frames 2

ignored : frames_in sample_parse (λ h f. true) other_messages ≡ []
unfolding frames_in sample_parse
ignored = refl
