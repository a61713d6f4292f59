-- ===== src/Coordinator/Routing.antt =====
-- packages/sdk/src/interlatent/routing.py: how a node reaches a box, by a registry of methods.
-- The process has the built-in method "direct"; a registry with more entries is an argument.
use interlatent.Base.{String, none, some, [], string_key}
use interlatent.Base.Dict.{Dict, get, put}
use interlatent.Coordinator.Data.{Route, Result, ok, err, unknown_method}

-- A resolver maps a stored descriptor to a session's route, a connector a route to an address.
pub record Method : Type 0 where
  pub resolver : Route → Route
  pub connector : Route → String

abbrev pub Registry : Type 0
Registry = Dict String Method

pub register_method : String → Method → Registry → Registry
register_method name m registry = put name m registry

unfoldable pub make_descriptor : String → String → Route
make_descriptor address method = record { method = method; address = address }

unfoldable pub resolve : Registry → Route → Result Route
resolve registry descriptor = elim (get descriptor.method registry) [
  | none ↦ err (unknown_method descriptor.method)
  | some m ↦ ok (m.resolver descriptor)
]

pub connect_params : Registry → Route → Result String
connect_params registry route = elim (get route.method registry) [
  | none ↦ err (unknown_method route.method)
  | some m ↦ ok (m.connector route)
]

unfoldable pub direct_resolver : Route → Route
direct_resolver descriptor = record { method = "direct"; address = descriptor.address }

pub direct_connector : Route → String
direct_connector route = route.address

unfoldable pub builtin : Registry
unfolding register_method direct_resolver direct_connector
builtin =
    register_method "direct" (record { resolver = direct_resolver; connector = direct_connector })
      []
