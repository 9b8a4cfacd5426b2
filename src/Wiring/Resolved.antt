-- ===== src/Wiring/Resolved.antt =====
-- The modules of src under the rule of injection.
use order_outbox_lab.Common.{◌≡◌, ◌<◌, refl, true, [], ◌∷◌, contains, arith, All, keep, length, ◌≤◌}
use order_outbox_lab.Pipeline.{StageName, StageName-discrete}
use order_outbox_lab.Wiring.{
  order_entity, stage_retry_entity, order_stage_event_entity, Token, Token-discrete,
  EntityName-discrete, ModuleName, Module, module_of, app_module, config_namespaces, database,
  event_bus_wiring, orders, outbox, stages_wiring, stage_events, order_status, health,
}
use order_outbox_lab.Wiring.Resolving.{
  Library, globally, imports_below, visible, factory_needs, rank, IsResolved, makers,
}

unfoldable graph : Unit {0}
unfolding module_of database event_bus_wiring orders outbox stages_wiring stage_events order_status
    health app_module config_namespaces rank visible Token-discrete EntityName-discrete
    StageName-discrete contains
graph = tt

module _ (lib : Library) where
  abbrev IsGlobal : Token → Type 0
  IsGlobal t = globally lib t (imports_below lib app_module) ≡ true

  config_found : (t : Token) → contains Token-discrete t config_namespaces ≡ true → IsGlobal t
  unfolding graph
  config_found t h =
      ground (arith, lib.config_global config_namespaces, lib.config_keys config_namespaces t h)

  source_found : IsGlobal Token.data_source
  unfolding graph
  source_found = ground (
    arith,
    lib.type_orm_global (Token.database_config ∷ []),
    lib.type_orm_source (Token.database_config ∷ []),
  )

  emitter_found : IsGlobal Token.event_emitter
  unfolding graph
  emitter_found = ground (arith, lib.emitter_global, lib.emitter)

  bus_found : IsGlobal Token.event_bus
  unfolding graph
  bus_found = ground arith

  visible-IsGlobal : (m : Module) (t : Token) → IsGlobal t → visible lib m t ≡ true
  unfolding visible
  visible-IsGlobal m t h = ground (arith, h)

  bus-IsResolved : IsResolved lib event_bus_wiring
  unfolding graph
  bus-IsResolved = (
    (
      (visible-IsGlobal event_bus_wiring _ (config_found Token.event_bus_config refl), omega arith),
      tt,
    ),
    tt,
  )

  orders-IsResolved : IsResolved lib orders
  unfolding graph
  orders-IsResolved =
      let both = order_entity ∷ stage_retry_entity ∷ [] in
      (
        ((refl, omega arith), tt),
        (
          ((refl, omega arith), tt),
          (
            (
              (visible-IsGlobal orders _ source_found, omega arith),
              ((ground (arith, lib.repositories both order_entity refl), omega arith), tt),
            ),
            (
              (((ground (arith, lib.repositories both stage_retry_entity refl)), omega arith), tt),
              tt,
            ),
          ),
        ),
      )

  outbox-IsResolved : IsResolved lib outbox
  unfolding graph
  outbox-IsResolved = (
    (
      (visible-IsGlobal outbox _ source_found, omega arith),
      (
        (visible-IsGlobal outbox _ emitter_found, omega arith),
        ((visible-IsGlobal outbox _ (config_found Token.app_config refl), omega arith), tt),
      ),
    ),
    tt,
  )

  stage-IsResolved :
      (s : StageName)
      → All
          (λ t. (visible lib stages_wiring t ≡ true) × (rank t < rank (Token.stage_handler s)))
          (Token.data_source ∷ Token.stage_events_service ∷ Token.app_config ∷ [])
  unfolding graph
  stage-IsResolved s = (
    (visible-IsGlobal stages_wiring _ source_found, omega arith),
    (
      (refl, omega arith),
      ((visible-IsGlobal stages_wiring _ (config_found Token.app_config refl), omega arith), tt),
    ),
  )

  stages-IsResolved : IsResolved lib stages_wiring
  unfolding graph
  stages-IsResolved = (
    stage-IsResolved StageName.payment,
    (stage-IsResolved StageName.inventory, (stage-IsResolved StageName.email, tt)),
  )

  events-IsResolved : IsResolved lib stage_events
  unfolding graph
  events-IsResolved =
      let only = order_stage_event_entity ∷ [] in
      (
        ((refl, omega arith), ((refl, omega arith), tt)),
        (
          ((visible-IsGlobal stage_events _ bus_found, omega arith), tt),
          (
            (
              (ground (arith, lib.repositories only order_stage_event_entity refl), omega arith),
              tt,
            ),
            tt,
          ),
        ),
      )

  status-IsResolved : IsResolved lib order_status
  unfolding graph
  status-IsResolved =
      (((visible-IsGlobal order_status _ source_found, omega arith), ((refl, omega arith), tt)), tt)

  health-IsResolved : IsResolved lib health
  unfolding graph
  health-IsResolved = (
    (
      (ground (arith, lib.health_check), omega arith),
      ((ground (arith, lib.type_orm_indicator), omega arith), ((refl, omega arith), tt)),
    ),
    (((visible-IsGlobal health _ bus_found, omega arith), tt), tt),
  )

  module-IsResolved : (n : ModuleName) → IsResolved lib (module_of n)
  unfolding module_of database
  module-IsResolved ModuleName.database_module = tt
  module-IsResolved ModuleName.event_bus_module = bus-IsResolved
  module-IsResolved ModuleName.orders_module = orders-IsResolved
  module-IsResolved ModuleName.outbox_module = outbox-IsResolved
  module-IsResolved ModuleName.stages_module = stages-IsResolved
  module-IsResolved ModuleName.stage_events_module = events-IsResolved
  module-IsResolved ModuleName.order_status_module = status-IsResolved
  module-IsResolved ModuleName.health_module = health-IsResolved

  factories-IsGlobal : All (λ i. All IsGlobal (factory_needs i)) (imports_below lib app_module)
  unfolding graph
  factories-IsGlobal = (
    tt,
    (
      tt,
      (
        (config_found Token.database_config refl, tt),
        (
          tt,
          (tt, (tt, (tt, (tt, (tt, (tt, (tt, (tt, (tt, (tt, (tt, (tt, (tt, (tt, tt)))))))))))))),
        ),
      ),
    ),
  )

makers-one : (t : Token) → length (makers t) ≤ 1
unfolding graph keep
makers-one (Token.stage_handler StageName.payment) = omega arith
makers-one (Token.stage_handler StageName.inventory) = omega arith
makers-one (Token.stage_handler StageName.email) = omega arith
makers-one (Token.repository e) = omega arith
makers-one Token.app_config = omega arith
makers-one Token.database_config = omega arith
makers-one Token.event_bus_config = omega arith
makers-one Token.data_source = omega arith
makers-one Token.event_emitter = omega arith
makers-one Token.health_check_service = omega arith
makers-one Token.type_orm_health_indicator = omega arith
makers-one Token.event_bus = omega arith
makers-one Token.stage_events_service = omega arith
makers-one Token.stage_event_history_service = omega arith
makers-one Token.orders_service = omega arith
makers-one Token.dead_letters_service = omega arith
makers-one Token.outbox_relay_service = omega arith
makers-one Token.order_status_service = omega arith
makers-one Token.event_bus_health_indicator = omega arith
makers-one Token.orders_controller = omega arith
makers-one Token.dead_letters_controller = omega arith
makers-one Token.stage_events_controller = omega arith
makers-one Token.health_controller = omega arith

-- Whatever the modules of libraries export beyond what their documentation says: every class of the
-- program finds each parameter of its constructor by Nest's rule in the module that declares it, and
-- the class of that parameter comes earlier in one order, so no dependencies are circular; the
-- factory of the database options finds its configuration; and no class is made by two modules, so
-- all that use the relay of stage events in an instance share the one that `StageEventsModule` makes.
pub dependencies-AreFound :
    (lib : Library)
    → ((n : ModuleName) → IsResolved lib (module_of n))
      × All
          (λ i. All (λ t. globally lib t (imports_below lib app_module) ≡ true) (factory_needs i))
          (imports_below lib app_module)
      × ((t : Token) → length (makers t) ≤ 1)
dependencies-AreFound lib = (module-IsResolved lib, factories-IsGlobal lib, makers-one)
