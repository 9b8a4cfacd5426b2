-- ===== src/Samples/Libraries.antt =====
-- Library modules that export what their documentation says and nothing else.
use order_outbox_lab.Common.{◌≡◌, refl, ap, Bool, true, false, List, [], ◌∷◌, map, contains, arith}
use order_outbox_lab.Pipeline.{StageName-discrete}
use order_outbox_lab.Wiring.{
  EntityName, Token, Token-discrete, EntityName-discrete, LibraryModule, config_root, type_orm_root,
  event_emitter_root, schedule_root, serve_static_root, terminus, type_orm_feature,
}
use order_outbox_lab.Wiring.Resolving.{Library}

abbrev sample_exports : LibraryModule → List Token
sample_exports (config_root keys) = keys
sample_exports (type_orm_root injected) = Token.data_source ∷ []
sample_exports event_emitter_root = Token.event_emitter ∷ []
sample_exports (type_orm_feature entities) = map Token.repository entities
sample_exports terminus = Token.health_check_service ∷ Token.type_orm_health_indicator ∷ []
sample_exports schedule_root = []
sample_exports serve_static_root = []

abbrev sample_global : LibraryModule → Bool
sample_global (config_root keys) = true
sample_global (type_orm_root injected) = true
sample_global event_emitter_root = true
sample_global (type_orm_feature entities) = false
sample_global terminus = false
sample_global schedule_root = false
sample_global serve_static_root = false

contains-repository :
    (entities : List EntityName) (e : EntityName)
    → contains EntityName-discrete e entities ≡ true
    → contains Token-discrete (Token.repository e) (map Token.repository entities) ≡ true
unfolding contains
contains-repository [] e h = cc
contains-repository (x ∷ xs) e h = elim (EntityName-discrete x e) [
  | yes p ↦ let q = ap Token.repository p in ground (arith, q)
  | no n ↦ ground (arith, contains-repository xs e)
]

pub sample_library : Library
unfolding Token-discrete EntityName-discrete StageName-discrete contains
sample_library = record {
  exported = sample_exports;
  is_global = sample_global;
  config_global = λ keys. refl;
  config_keys = λ keys t h. h;
  type_orm_global = λ injected. refl;
  type_orm_source = λ injected. refl;
  emitter_global = refl;
  emitter = refl;
  repositories = contains-repository;
  health_check = refl;
  type_orm_indicator = refl;
}
