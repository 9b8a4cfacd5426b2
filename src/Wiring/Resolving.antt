-- ===== src/Wiring/Resolving.antt =====
-- Nest's rule of injection, over what the modules of libraries export.
use order_outbox_lab.Common.{
  ℕ, ◌≡◌, ◌<◌, Bool, true, false, ◌&&◌, ◌||◌, List, [], ◌∷◌, ◌++◌, contains, All, keep,
}
use order_outbox_lab.Wiring.{
  EntityName, Token, Token-discrete, EntityName-discrete, LibraryModule, config_root, type_orm_root,
  event_emitter_root, terminus, type_orm_feature, ModuleName, Import, own, library, Class, Module,
  module_of, app_module,
}

-- What the documentation of the libraries says that their modules export.
pub record Library : Type 0 where
  pub exported : LibraryModule → List Token
  pub is_global : LibraryModule → Bool
  -- `isGlobal: true`
  pub config_global : (keys : List Token) → is_global (config_root keys) ≡ true
  pub config_keys :
      (keys : List Token) (t : Token)
      → contains Token-discrete t keys ≡ true
      → contains Token-discrete t (exported (config_root keys)) ≡ true
  pub type_orm_global : (injected : List Token) → is_global (type_orm_root injected) ≡ true
  pub type_orm_source :
      (injected : List Token)
      → contains Token-discrete Token.data_source (exported (type_orm_root injected)) ≡ true
  pub emitter_global : is_global event_emitter_root ≡ true
  pub emitter : contains Token-discrete Token.event_emitter (exported event_emitter_root) ≡ true
  pub repositories :
      (entities : List EntityName) (e : EntityName)
      → contains EntityName-discrete e entities ≡ true
      → contains Token-discrete (Token.repository e) (exported (type_orm_feature entities)) ≡ true
  pub health_check : contains Token-discrete Token.health_check_service (exported terminus) ≡ true
  pub type_orm_indicator :
      contains Token-discrete Token.type_orm_health_indicator (exported terminus) ≡ true

abbrev pub classes_of : Module → List Class
classes_of m = m.controllers ++ m.providers

abbrev pub declares : Token → List Class → Bool
declares t [] = false
declares t (c ∷ cs) = contains Token-discrete t (c.token ∷ []) || declares t cs

module _ (lib : Library) where
  abbrev pub exports_of : Import → List Token
  exports_of (own m) = (module_of m).exports
  exports_of (library l) = lib.exported l

  abbrev pub global : Import → Bool
  global (own m) = (module_of m).global
  global (library l) = lib.is_global l

  abbrev pub exported_by : Token → List Import → Bool
  exported_by t [] = false
  exported_by t (i ∷ is) = contains Token-discrete t (exports_of i) || exported_by t is

  abbrev pub globally : Token → List Import → Bool
  globally t [] = false
  globally t (i ∷ is) = (global i && contains Token-discrete t (exports_of i)) || globally t is

  -- The imports of all modules below `AppModule`.
  abbrev pub imports_below : List Import → List Import
  imports_below [] = []
  imports_below (own m ∷ is) = own m ∷ ((module_of m).imports ++ imports_below is)
  imports_below (library l ∷ is) = library l ∷ imports_below is

  -- A class of a module may ask for what the module provides, for what a module that it imports
  -- exports, and for what a global module exports.
  unfoldable pub visible : Module → Token → Bool
  visible m t =
      declares t m.providers || exported_by t m.imports || globally t (imports_below app_module)

-- What the factory of an import injects.
abbrev pub factory_needs : Import → List Token
factory_needs (library (type_orm_root injected)) = injected
factory_needs _ = []

-- An order in which the classes can be made.
unfoldable pub rank : Token → ℕ
rank Token.event_bus = 1
rank Token.stage_event_history_service = 1
rank Token.orders_service = 1
rank Token.dead_letters_service = 1
rank Token.outbox_relay_service = 1
rank Token.stage_events_service = 2
rank Token.event_bus_health_indicator = 2
rank Token.orders_controller = 2
rank Token.dead_letters_controller = 2
rank Token.order_status_service = 3
rank (Token.stage_handler s) = 3
rank Token.stage_events_controller = 3
rank Token.health_controller = 3
rank _ = 0

module _ (lib : Library) where
  -- A dependency that is found, and made before the class that asks for it.
  abbrev pub Found : Module → Class → Token → Type 0
  Found m c t = (visible lib m t ≡ true) × (rank t < rank c.token)

  abbrev pub IsResolved : Module → Type 0
  IsResolved m = All (λ c. All (Found m c) c.needs) (classes_of m)

-- The modules of the program, in the order of `AppModule`.
abbrev pub modules : List ModuleName
modules =
    ModuleName.database_module ∷ ModuleName.event_bus_module ∷ ModuleName.orders_module
    ∷ ModuleName.outbox_module ∷ ModuleName.stages_module ∷ ModuleName.stage_events_module
    ∷ ModuleName.order_status_module ∷ ModuleName.health_module ∷ []

-- The modules that make an instance of the class.
abbrev pub makers : Token → List ModuleName
makers t = keep (λ n. declares t (classes_of (module_of n))) modules
