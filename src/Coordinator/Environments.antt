-- ===== src/Coordinator/Environments.antt =====
-- state.py, the environments and the recording destination.
use Prim.Native.String.{◌++◌ as ◌++ˢ◌}
use interlatent.Base.{
  ℕ, String, string_key, string_discrete, Bool, true, false, Option, none, some, List, [], ite,
  or_else, get_or, strip, is_blank, not,
}
use interlatent.Base.Dict.{get, put, find_value, values}
use interlatent.Base.Json.{Fields}
use interlatent.Coordinator.Data.{
  Environment, Coordinator, State, Result, ok, slug_required, ensure, ◌>>◌,
}
use interlatent.Coordinator.Persistence.{persist}
use interlatent.Coordinator.Credentials.{with_state}

pub record EnvironmentPayload : Type 0 where
  pub slug : Option String
  pub display_name : Option String
  pub robot_type : Option String
  pub action_dim : Option ℕ
  pub camera_names : Option (List String)
  pub num_cameras : Option ℕ
  pub task_description : Option String

known_id : Option Environment → Option String
known_id none = none
known_id (some env) = some env.id

-- An environment that is created again keeps its id.
unfoldable pub create_environment :
    Coordinator → EnvironmentPayload → String → Result (Coordinator × Environment)
unfolding persist known_id
create_environment c payload random = do
  let s = c.state
  let slug = strip (or_else payload.slug "")
  ensure (not (is_blank slug)) slug_required
  let env : Environment = record {
    id = or_else (known_id (get slug s.environments)) (◌++ˢ◌ "env_" random);
    slug = slug;
    display_name = or_else payload.display_name slug;
    robot_type = or_else payload.robot_type "";
    action_dim = payload.action_dim;
    camera_names = get_or payload.camera_names [];
    num_cameras = payload.num_cameras;
    task_description = or_else payload.task_description "";
  }
  ok (persist (with_state c (record s { environments = put slug env s.environments })), env)

unfoldable pub has_env_id : String → Environment → Bool
has_env_id ref env = ite (string_discrete env.id ref) true false

-- By slug or by id.
unfoldable pub find_environment : State → String → Option Environment
find_environment s ref = elim (is_blank ref) [
  | true ↦ none
  | false ↦ elim (get ref s.environments) [
    | some env ↦ some env
    | none ↦ find_value (has_env_id ref) s.environments
  ]
]

unfoldable pub get_environment : Coordinator → String → Option Environment
unfolding find_environment
get_environment c ref = find_environment c.state ref

pub list_environments : Coordinator → List Environment
list_environments c = values c.state.environments

unfoldable pub set_destination : Coordinator → Fields → Coordinator
unfolding persist
set_destination c recording = persist (with_state c (record s { recording = recording }))
  where
    s : State
    s = c.state

pub get_destination : Coordinator → Fields
get_destination c = c.state.recording
