-- ===== src/Wiring.antt =====
-- src/app.module.ts and the modules of src/modules and src/infrastructure: what each declares, and
-- what the constructors of its classes ask for. The modules of libraries are parameters.
pub mod Resolving
pub mod Resolved
use order_outbox_lab.Common.{
  ℕ, ◌≡◌, Bool, true, false, ◌&&◌, ◌||◌, List, [], ◌∷◌, ◌++◌, map, contains,
}
use order_outbox_lab.Pipeline.{StageName, StageName-discrete, stages}

pub data EntityName : Type 0 where
  order_entity stage_retry_entity order_stage_event_entity : EntityName

-- What can be injected: a class, or the key of a configuration namespace.
pub data Token : Type 0 where
  app_config database_config event_bus_config : Token
  data_source event_emitter health_check_service type_orm_health_indicator : Token
  repository : EntityName → Token
  event_bus stage_events_service stage_event_history_service : Token
  orders_service dead_letters_service outbox_relay_service order_status_service : Token
  stage_handler : StageName → Token
  event_bus_health_indicator : Token
  orders_controller dead_letters_controller stage_events_controller health_controller : Token

unfoldable pub EntityName-discrete : Discrete EntityName
EntityName-discrete = hlevel

unfoldable pub Token-discrete : Discrete Token
unfolding EntityName-discrete StageName-discrete
Token-discrete = hlevel

-- The modules of libraries, with the arguments of `forRoot`, `forRootAsync` and `forFeature`.
pub data LibraryModule : Type 0 where
  config_root : List Token → LibraryModule
  -- With the tokens that its factory injects.
  type_orm_root : List Token → LibraryModule
  event_emitter_root schedule_root serve_static_root terminus : LibraryModule
  type_orm_feature : List EntityName → LibraryModule

pub data ModuleName : Type 0 where
  database_module event_bus_module orders_module outbox_module stages_module : ModuleName
  stage_events_module order_status_module health_module : ModuleName

pub data Import : Type 0 where
  own : ModuleName → Import
  library : LibraryModule → Import

-- A provider or a controller: its token, and the parameters of the constructor that makes it.
pub record Class : Type 0 where
  pub token : Token
  pub needs : List Token

pub record Module : Type 0 where
  pub imports : List Import
  pub controllers : List Class
  pub providers : List Class
  pub exports : List Token
  pub global : Bool

abbrev class_of : Token → List Token → Class
class_of t needs = record { token = t; needs = needs }

-- The classes, by their constructors.
abbrev pub redis_event_bus_class : Class
redis_event_bus_class = class_of event_bus (event_bus_config ∷ [])

abbrev pub orders_controller_class : Class
orders_controller_class = class_of orders_controller (orders_service ∷ [])

abbrev pub dead_letters_controller_class : Class
dead_letters_controller_class = class_of dead_letters_controller (dead_letters_service ∷ [])

abbrev pub orders_service_class : Class
orders_service_class = class_of orders_service (data_source ∷ repository order_entity ∷ [])

abbrev pub dead_letters_service_class : Class
dead_letters_service_class = class_of dead_letters_service (repository stage_retry_entity ∷ [])

abbrev pub outbox_relay_class : Class
outbox_relay_class = class_of outbox_relay_service (data_source ∷ event_emitter ∷ app_config ∷ [])

abbrev pub stage_events_controller_class : Class
stage_events_controller_class =
    class_of stage_events_controller (stage_events_service ∷ stage_event_history_service ∷ [])

abbrev pub stage_events_service_class : Class
stage_events_service_class = class_of stage_events_service (event_bus ∷ [])

abbrev pub stage_event_history_class : Class
stage_event_history_class =
    class_of stage_event_history_service (repository order_stage_event_entity ∷ [])

abbrev pub order_status_class : Class
order_status_class = class_of order_status_service (data_source ∷ stage_events_service ∷ [])

abbrev pub health_controller_class : Class
health_controller_class =
    class_of health_controller
      (health_check_service ∷ type_orm_health_indicator ∷ event_bus_health_indicator ∷ [])

abbrev pub event_bus_indicator_class : Class
event_bus_indicator_class = class_of event_bus_health_indicator (event_bus ∷ [])

-- The class of a stage: `StageHandler`, whose constructor is that of `StageRunner`.
abbrev pub stage_handler_class : StageName → Class
stage_handler_class s =
    class_of (stage_handler s) (data_source ∷ stage_events_service ∷ app_config ∷ [])

abbrev plain : Module
plain = record { imports = []; controllers = []; providers = []; exports = []; global = false }

unfoldable pub config_namespaces : List Token
config_namespaces = app_config ∷ database_config ∷ event_bus_config ∷ []

unfoldable pub database : Module
database = record plain { imports = library (type_orm_root (database_config ∷ [])) ∷ [] }

-- `{ provide: EventBus, useClass: RedisEventBus }`
unfoldable pub event_bus_wiring : Module
event_bus_wiring = record plain {
  providers = redis_event_bus_class ∷ [];
  exports = event_bus ∷ [];
  global = true;
}

unfoldable pub orders : Module
orders = record plain {
  imports = library (type_orm_feature (order_entity ∷ stage_retry_entity ∷ [])) ∷ [];
  controllers = orders_controller_class ∷ dead_letters_controller_class ∷ [];
  providers = orders_service_class ∷ dead_letters_service_class ∷ [];
}

unfoldable pub outbox : Module
outbox = record plain { providers = outbox_relay_class ∷ [] }

-- `STAGE_HANDLERS`: one class for each stage.
abbrev pub stage_classes : List Class
stage_classes = map stage_handler_class stages

unfoldable pub stages_wiring : Module
stages_wiring = record plain { imports = own stage_events_module ∷ []; providers = stage_classes }

unfoldable pub stage_events : Module
stage_events = record plain {
  imports = library (type_orm_feature (order_stage_event_entity ∷ [])) ∷ [];
  controllers = stage_events_controller_class ∷ [];
  providers = stage_events_service_class ∷ stage_event_history_class ∷ [];
  exports = stage_events_service ∷ [];
}

unfoldable pub order_status : Module
order_status = record plain {
  imports = own stage_events_module ∷ [];
  providers = order_status_class ∷ [];
}

unfoldable pub health : Module
health = record plain {
  imports = library terminus ∷ [];
  controllers = health_controller_class ∷ [];
  providers = event_bus_indicator_class ∷ [];
}

unfoldable pub module_of : ModuleName → Module
unfolding database event_bus_wiring orders outbox stages_wiring stage_events order_status health
module_of database_module = database
module_of event_bus_module = event_bus_wiring
module_of orders_module = orders
module_of outbox_module = outbox
module_of stages_module = stages_wiring
module_of stage_events_module = stage_events
module_of order_status_module = order_status
module_of health_module = health

-- `AppModule`
unfoldable pub app_module : List Import
unfolding config_namespaces
app_module =
    library (config_root config_namespaces)
    ∷ own database_module
    ∷ own event_bus_module
    ∷ library event_emitter_root
    ∷ library schedule_root
    ∷ library serve_static_root
    ∷ own orders_module
    ∷ own outbox_module
    ∷ own stages_module
    ∷ own stage_events_module
    ∷ own order_status_module
    ∷ own health_module
    ∷ []
