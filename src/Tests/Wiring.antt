-- ===== src/Tests/Wiring.antt =====
-- The modules with libraries that export what they document, and the bus of two instances.
use order_outbox_lab.Common.{
  ℕ, ◌≡◌, ◌≤◌, refl, true, false, All, length, List, [], ◌∷◌, map, Text, codes, none, some,
}
use order_outbox_lab.Pipeline.{StageName, StageStatus}
use order_outbox_lab.Frames.{StageEventFrame}
use order_outbox_lab.EventBus.Connections.{construct, on_module_destroy, race, ping_within}
use order_outbox_lab.Health.{ping}
use order_outbox_lab.Stages.Runner.{decimal, decimal_from}
use order_outbox_lab.EventBus.Contract.{broadcast, instance_with, subscribers}
use order_outbox_lab.EventBus.Broadcast.{redis_bus, redis_bus-broadcasts}
use order_outbox_lab.Samples.Wire.{sample_parse, sample_stringify, sample_parse-sample_stringify}
use order_outbox_lab.Wiring.{Token, ModuleName, module_of, app_module}
use order_outbox_lab.Wiring.Resolving.{IsResolved, globally, imports_below, factory_needs, makers}
use order_outbox_lab.Wiring.Resolved.{dependencies-AreFound}
use order_outbox_lab.Samples.Libraries.{sample_library}

dependencies-AreFound_example :
    ((n : ModuleName) → IsResolved sample_library (module_of n))
    × All
        (λ i.
          All
            (λ t. globally sample_library t (imports_below sample_library app_module) ≡ true)
            (factory_needs i))
        (imports_below sample_library app_module)
    × ((t : Token) → length (makers t) ≤ 1)
dependencies-AreFound_example = dependencies-AreFound sample_library

-- Instance 0 has two handlers of the channel, instance 1 one, and one of another channel.
abbrev two_instances : List (List (Text × ℕ))
two_instances = ((codes "a", 1) ∷ (codes "a", 2) ∷ []) ∷ ((codes "b", 3) ∷ (codes "a", 4) ∷ []) ∷ []

abbrev a_frame : StageEventFrame
a_frame = record {
  order_id = 1;
  stage = StageName.email;
  status = StageStatus.started;
  attempt = 1;
  detail = none;
  created_at = 5;
}

redis_bus-broadcasts_example :
    let bus = redis_bus sample_parse sample_stringify (λ h f. true) sample_parse-sample_stringify in
    broadcast bus (codes "a") a_frame (map (instance_with bus) two_instances)
    ≡ map (λ subs. map (λ h. (h, a_frame)) (subscribers (codes "a") subs [])) two_instances
redis_bus-broadcasts_example =
    redis_bus-broadcasts sample_parse sample_stringify (λ h f. true) sample_parse-sample_stringify
      (codes "a") a_frame two_instances

silent_server : ping_within true 2 none ≡ some (codes "ping timed out after 2ms")
unfolding ping_within race ping decimal decimal_from
silent_server = refl

shut_down : (on_module_destroy true false (construct (codes "redis"))).1.subscriber.has_quit ≡ true
unfolding on_module_destroy construct
shut_down = refl
