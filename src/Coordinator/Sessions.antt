-- ===== src/Coordinator/Sessions.antt =====
-- state.py, the sessions: assigning an inference session to a node, unassigning, looking up.
use Prim.Native.String.{◌++◌ as ◌++ˢ◌}
use interlatent.Base.{
  ℕ, String, string_key, string_discrete, Bool, true, false, not, ◌||◌, Option, none, some, List,
  [], ◌∷◌, map, if◌then◌else◌, ite, is_some, or_else, strip, is_blank, ◌+◌,
}
use interlatent.Base.Dict.{Dict, get, put, find_value, find_key}
use interlatent.Coordinator.Data.{
  Box, Environment, Session, Route, Assignment, inference, teleop, Coordinator, State, Result, ok,
  err, unknown_node, node_busy, unknown_gpu, gpu_busy, policy_change, ensure, or_raise, ◌>>=◌, ◌>>◌,
}
use interlatent.Coordinator.Routing.{Registry, resolve, make_descriptor}
use interlatent.Coordinator.Persistence.{persist}
use interlatent.Coordinator.Credentials.{with_state}
use interlatent.Coordinator.Nodes.{assigned, assignment_id}
use interlatent.Coordinator.Environments.{find_environment}
use interlatent.Coordinator.Boxes.{or_number}

pub record StartParams : Type 0 where
  pub policy : String
  pub backend : Option String
  pub task : Option String
  pub task_id : Option String
  pub env_slug : Option String
  pub fps : Option ℕ
  pub chunk_size : Option ℕ
  pub action_dim : Option ℕ
  pub synchronous : Bool
  pub confirm_policy_change : Bool

-- `other and other.get("gpu") == gpu_name`: a teleop recording has no "gpu".
unfoldable pub uses_gpu : String → Option Assignment → Bool
uses_gpu gpu_name none = false
uses_gpu gpu_name (some (teleop r)) = false
uses_gpu gpu_name (some (inference s)) = ite (string_discrete s.gpu gpu_name) true false

-- `sess and sess.get("id") == session_id`
unfoldable pub has_id : String → Option Assignment → Bool
has_id session_id none = false
has_id session_id (some a) = ite (string_discrete (assignment_id a) session_id) true false

-- `for other in sessions.values(): if …: raise`, the check of one session for each box.
unfoldable pub check_gpu_free : String → State → Result (Unit {0})
check_gpu_free gpu_name s = elim (find_value (uses_gpu gpu_name) s.sessions) [
  | some (some other) ↦ err (gpu_busy gpu_name (assignment_id other))
  | some none ↦ ok tt
  | none ↦ ok tt
]

-- The guard against switching a box's warm policy.
unfoldable pub check_policy : Box → String → StartParams → Result (Unit {0})
check_policy gpu gpu_name params =
    let warm = strip gpu.warm_policy in
    ensure
      (is_blank warm
        || ite (string_discrete params.policy warm) true false
        || params.confirm_policy_change)
      (policy_change gpu_name warm params.policy)

env_action_dim : Option Environment → Option ℕ
env_action_dim none = none
env_action_dim (some env) = env.action_dim

unfoldable pub env_id_of : Option Environment → String → String
env_id_of none slug = slug
env_id_of (some env) slug = or_else (some env.id) slug

-- The session's dict.
unfoldable pub make_session : State → String → String → StartParams → Route → String → Session
unfolding env_action_dim env_id_of
make_session s node_id gpu_name params route random =
    let env_slug = or_else params.env_slug "default" in
    let env = find_environment s env_slug in
    record {
      id = ◌++ˢ◌ "sess_" random;
      policy_uri = params.policy;
      policy_backend = or_else params.backend "lerobot";
      task = or_else params.task env_slug;
      task_id = params.task_id;
      fps = or_number params.fps 30000;
      chunk_size = or_number params.chunk_size 50;
      action_dim = or_number params.action_dim (or_number (env_action_dim env) 6);
      synchronous = params.synchronous;
      drtc_endpoint = route.address;
      route = route;
      environment_id = env_id_of env env_slug;
      env_slug = env_slug;
      recording = s.recording;
      node_id = node_id;
      gpu = gpu_name;
      status = "running";
    }

-- `if requested and requested != warm: gpu["warm_policy"] = requested`
unfoldable pub note_policy : Box → String → Dict String Box → String → Dict String Box
note_policy gpu requested gpus gpu_name =
    let warm = strip gpu.warm_policy in
    if is_blank requested || ite (string_discrete requested warm) true false
    then gpus
    else put gpu_name (record gpu { warm_policy = requested }) gpus

-- `self._cond.notify_all()`
abbrev pub wake : Coordinator → Coordinator
wake c = record c { wakes = c.wakes + 1 }

-- The writes at the end of `start_session`.
unfoldable pub install_session : Coordinator → Session → Box → Coordinator
unfolding persist note_policy
install_session c session gpu =
    let s = c.state in
    wake (
      persist (
        with_state c (record s {
          sessions = put session.node_id (some (inference session)) s.sessions;
          gpus = note_policy gpu session.policy_uri s.gpus session.gpu;
        })))

unfoldable pub start_session :
    Registry → Coordinator → String → String → StartParams → String → Result (Coordinator × Session)
start_session registry c node_id gpu_name params random = do
  let s = c.state
  ensure (is_some (get node_id s.nodes)) (unknown_node node_id)
  ensure (not (is_some (assigned s node_id))) (node_busy node_id)
  gpu ← or_raise (get gpu_name s.gpus) (unknown_gpu gpu_name)
  check_gpu_free gpu_name s
  check_policy gpu gpu_name params
  route ← resolve registry (make_descriptor gpu.url gpu.method)
  let session = make_session s node_id gpu_name params route random
  ok (install_session c session gpu, session)

unfoldable pub stop_session : Coordinator → String → Coordinator × Bool
unfolding persist
stop_session c session_id =
    let s = c.state in
    elim (find_key (has_id session_id) s.sessions) [
      | none ↦ (c, false)
      | some node_id ↦ (
        wake (persist (with_state c (record s { sessions = put node_id none s.sessions }))),
        true,
      )
    ]

-- `sessions[nid] = None` for each node that has one. A dict has a key once, so this is a map.
unfoldable pub unassign_all : Dict String (Option Assignment) → Dict String (Option Assignment)
unassign_all = map (λ e. (e.0, none))

unfoldable pub assigned_ids : Dict String (Option Assignment) → List String
assigned_ids [] = []
assigned_ids ((n, none) ∷ rest) = assigned_ids rest
assigned_ids ((n, some a) ∷ rest) = assignment_id a ∷ assigned_ids rest

unfoldable pub stop_all : Coordinator → Coordinator × List String
unfolding persist
stop_all c =
    let s = c.state in
    elim (assigned_ids s.sessions) [
      | [] ↦ (c, [])
      | id ∷ ids ↦ (
        wake (persist (with_state c (record s { sessions = unassign_all s.sessions }))),
        id ∷ ids,
      )
    ]

assignments : Dict String (Option Assignment) → List Assignment
assignments [] = []
assignments ((n, none) ∷ rest) = assignments rest
assignments ((n, some a) ∷ rest) = a ∷ assignments rest

unfoldable pub list_sessions : Coordinator → List Assignment
unfolding assignments
list_sessions c = assignments c.state.sessions

unfoldable pub find_session : Coordinator → String → Option Assignment
find_session c session_id = elim (find_value (has_id session_id) c.state.sessions) [
  | none ↦ none
  | some a ↦ a
]

unfoldable pub has_active_sessions : Coordinator → Bool
has_active_sessions c = is_some (find_value is_some c.state.sessions)
