-- ===== src/Coordinator/Server.antt =====
-- server.py: which handler a request reaches, and who may call it. A path is the list of its segments,
-- none of them empty; what the handlers read of the body is not part of the model.
use interlatent.Base.{
  ℕ, String, string_key, string_discrete, Bool, true, false, Option, none, some, List, [], ◌∷◌, ite,
  ◌≡◌, ◌⊎◌, inl, inr, refl, arith, Option-cases, Bool-cases, if◌then◌else◌, is_some,
}
use interlatent.Base.Dict.{Dict, get}
use interlatent.Coordinator.Data.{Principal, node, box}
use interlatent.Coordinator.Credentials.{is_operator}

pub data HttpMethod : Type 0 where
  get_method post_method put_method delete_method : HttpMethod

pub data Handler : Type 0 where
  on_pair on_list_nodes on_heartbeat on_poll on_hardware on_features on_delete_node on_register_box
        on_box_status on_warmup_target on_authz on_list_gpus on_delete_gpu on_list_envs
        on_create_env on_env_config on_list_sessions on_create_session on_delete_session
        on_mint_teleop_token on_list_teleop_recordings on_create_teleop_recording
        on_stop_teleop_recording on_capabilities on_get_destination on_set_destination :
      Handler

-- Who may call a route beside the operator.
pub data Access : Type 0 where
  operator_only owner_node owner_box any_issued : Access

pub data Segment : Type 0 where
  text : (s : String) → Segment
  param : (name : String) → Segment

pub record HttpRoute : Type 0 where
  pub method : HttpMethod
  pub pattern : List Segment
  pub handler : Handler
  pub access : Access

abbrev pub http_route : HttpMethod → List Segment → Handler → Access → HttpRoute
http_route method pattern handler access = record {
  method = method;
  pattern = pattern;
  handler = handler;
  access = access;
}

abbrev pub same_method : HttpMethod → HttpMethod → Bool
same_method get_method get_method = true
same_method post_method post_method = true
same_method put_method put_method = true
same_method delete_method delete_method = true
same_method m n = false

-- `regex.match` and `groupdict`
unfoldable pub match_path : List Segment → List String → Option (Dict String String)
match_path [] [] = some []
match_path [] (s ∷ path) = none
match_path (p ∷ pattern) [] = none
match_path (text t ∷ pattern) (s ∷ path) =
    let rest = match_path pattern path in ite (string_discrete t s) rest none
match_path (param name ∷ pattern) (s ∷ path) = elim (match_path pattern path) [
  | none ↦ none
  | some params ↦ some ((name, s) ∷ params)
]

-- `a == b` of two optional texts
abbrev pub same_text : Option String → Option String → Bool
same_text none none = true
same_text (some a) (some b) = ite (string_discrete a b) true false
same_text none (some b) = false
same_text (some a) none = false

abbrev pub is_owner : Principal → Access → Dict String String → Bool
is_owner p operator_only params = false
is_owner p any_issued params = true
is_owner p owner_node params = elim p.kind [
  | node ↦ same_text p.node_id (get "node_id" params)
  | _ ↦ false
]
is_owner p owner_box params = elim p.kind [
  | box ↦ same_text p.box_id (get "box_id" params)
  | _ ↦ false
]

unfoldable pub authorize : Access → Option Principal → Dict String String → Bool
authorize access none params = false
authorize access (some p) params = if is_operator p then true else is_owner p access params

pub data Reply : Type 0 where
  -- 404
  no_route : Reply
  -- 401 or 403
  refused : (status : ℕ) → Reply
  handled : (route : HttpRoute) (params : Dict String String) → Reply

unfoldable pub answer : HttpRoute → Option Principal → Dict String String → Reply
answer route principal params =
    if authorize route.access principal params
    then handled route params
    else refused (if is_some principal then 403 else 401)

unfoldable pub dispatch : List HttpRoute → HttpMethod → List String → Option Principal → Reply
dispatch [] method path principal = no_route
dispatch (route ∷ routes) method path principal =
    let later = dispatch routes method path principal in
    if same_method route.method method
    then elim (match_path route.pattern path) [
      | none ↦ later
      | some params ↦ answer route principal params
    ]
    else later

abbrev pub routes : List HttpRoute
routes =
    (http_route post_method (text "api" ∷ text "v1" ∷ text "nodes" ∷ []) on_pair operator_only)
    ∷ (http_route get_method (text "api" ∷ text "v1" ∷ text "nodes" ∷ []) on_list_nodes
        operator_only)
    ∷ (http_route post_method
        (text "api" ∷ text "v1" ∷ text "nodes" ∷ param "node_id" ∷ text "heartbeat" ∷ [])
        on_heartbeat owner_node)
    ∷ (http_route get_method
        (text "api" ∷ text "v1" ∷ text "nodes" ∷ param "node_id" ∷ text "poll" ∷ []) on_poll
        owner_node)
    ∷ (http_route post_method
        (text "api" ∷ text "v1" ∷ text "nodes" ∷ param "node_id" ∷ text "hardware" ∷ []) on_hardware
        owner_node)
    ∷ (http_route post_method
        (text "api" ∷ text "v1" ∷ text "nodes" ∷ param "node_id" ∷ text "robot-features" ∷ [])
        on_features owner_node)
    ∷ (http_route delete_method (text "api" ∷ text "v1" ∷ text "nodes" ∷ param "node_id" ∷ [])
        on_delete_node operator_only)
    ∷ (http_route post_method
        (text "api" ∷ text "v1" ∷ text "compute" ∷ text "boxes" ∷ text "register" ∷ [])
        on_register_box operator_only)
    ∷ (http_route post_method
        (text "api"
          ∷ text "v1"
          ∷ text "compute"
          ∷ text "boxes"
          ∷ param "box_id"
          ∷ text "status"
          ∷ [])
        on_box_status owner_box)
    ∷ (http_route get_method
        (text "api"
          ∷ text "v1"
          ∷ text "compute"
          ∷ text "boxes"
          ∷ param "box_id"
          ∷ text "warmup-target"
          ∷ [])
        on_warmup_target owner_box)
    ∷ (http_route get_method
        (text "api"
          ∷ text "v1"
          ∷ text "compute"
          ∷ text "boxes"
          ∷ param "box_id"
          ∷ text "authz"
          ∷ [])
        on_authz any_issued)
    ∷ (http_route get_method (text "api" ∷ text "v1" ∷ text "gpus" ∷ []) on_list_gpus operator_only)
    ∷ (http_route delete_method (text "api" ∷ text "v1" ∷ text "gpus" ∷ param "name" ∷ [])
        on_delete_gpu operator_only)
    ∷ (http_route get_method (text "api" ∷ text "v1" ∷ text "environments" ∷ []) on_list_envs
        any_issued)
    ∷ (http_route post_method (text "api" ∷ text "v1" ∷ text "environments" ∷ []) on_create_env
        operator_only)
    ∷ (http_route get_method
        (text "api" ∷ text "v1" ∷ text "environments" ∷ param "env_id" ∷ text "config" ∷ [])
        on_env_config any_issued)
    ∷ (http_route get_method (text "api" ∷ text "v1" ∷ text "inference" ∷ text "sessions" ∷ [])
        on_list_sessions operator_only)
    ∷ (http_route post_method (text "api" ∷ text "v1" ∷ text "inference" ∷ text "sessions" ∷ [])
        on_create_session operator_only)
    ∷ (http_route delete_method
        (text "api" ∷ text "v1" ∷ text "inference" ∷ text "sessions" ∷ param "session_id" ∷ [])
        on_delete_session operator_only)
    ∷ (http_route post_method
        (text "api"
          ∷ text "v1"
          ∷ text "inference"
          ∷ text "sessions"
          ∷ param "session_id"
          ∷ text "teleop-token"
          ∷ [])
        on_mint_teleop_token any_issued)
    ∷ (http_route post_method
        (text "api"
          ∷ text "v1"
          ∷ text "teleop-recordings"
          ∷ param "recording_id"
          ∷ text "teleop-token"
          ∷ [])
        on_mint_teleop_token any_issued)
    ∷ (http_route get_method (text "api" ∷ text "v1" ∷ text "teleop-recordings" ∷ [])
        on_list_teleop_recordings operator_only)
    ∷ (http_route post_method (text "api" ∷ text "v1" ∷ text "teleop-recordings" ∷ [])
        on_create_teleop_recording operator_only)
    ∷ (http_route post_method
        (text "api"
          ∷ text "v1"
          ∷ text "teleop-recordings"
          ∷ param "recording_id"
          ∷ text "stop"
          ∷ [])
        on_stop_teleop_recording operator_only)
    ∷ (http_route get_method (text "api" ∷ text "v1" ∷ text "capabilities" ∷ []) on_capabilities
        any_issued)
    ∷ (http_route get_method (text "api" ∷ text "v1" ∷ text "coordinator" ∷ text "recording" ∷ [])
        on_get_destination operator_only)
    ∷ (http_route put_method (text "api" ∷ text "v1" ∷ text "coordinator" ∷ text "recording" ∷ [])
        on_set_destination operator_only)
    ∷ []

-- A request that reaches a handler comes from a key that stands for the operator, or for any
-- principal where the route admits these, or for the very node or box that the path names.
pub dispatch-handled :
    (rs : List HttpRoute) (method : HttpMethod) (path : List String) (principal : Option Principal)
    (route : HttpRoute) (params : Dict String String)
    → dispatch rs method path principal ≡ handled route params
    → (p : Principal) × (principal ≡ some p)
      × ((is_operator p ≡ true) ⊎ (is_owner p route.access params ≡ true))
unfolding dispatch answer authorize
dispatch-handled [] method path principal route params e = cc
dispatch-handled (r ∷ rs) method path principal route params e =
    elim (Bool-cases (same_method r.method method)) [
      | inr f ↦ dispatch-handled rs method path principal route params (rw (f, dispatch) at e)
      | inl f ↦ elim (Option-cases (match_path r.pattern path)) [
        | inl g ↦ dispatch-handled rs method path principal route params (rw (f, g, dispatch) at e)
        | inr (ps, g) ↦ answered ps principal (rw (f, g, dispatch) at e)
      ]
    ]
  where
    answered :
        (ps : Dict String String) (principal : Option Principal)
        → answer r principal ps ≡ handled route params
        → (p : Principal) × (principal ≡ some p)
          × ((is_operator p ≡ true) ⊎ (is_owner p route.access params ≡ true))
    answered ps none h = cc
    answered ps (some p) h = elim (Bool-cases (is_operator p)) [
      | inl o ↦ (p, refl, inl o)
      | inr o ↦ elim (Bool-cases (is_owner p r.access ps)) [
        | inl w ↦ (p, refl, inr (ground (arith, h, o, w)))
        | inr w ↦ ground (arith, h, o, w)
      ]
    ]
