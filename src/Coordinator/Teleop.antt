-- ===== src/Coordinator/Teleop.antt =====
-- state.py, teleop: tokens for the relay, and policy-less recordings that are assigned to a node.
use Prim.Native.String.{◌++◌ as ◌++ˢ◌}
use interlatent.Base.{
  ℕ, String, string_key, string_discrete, Bool, true, false, not, ◌&&◌, ◌||◌, Option, none, some,
  List, if◌then◌else◌, ite, is_some, or_else, strip, is_blank,
}
use interlatent.Base.Dict.{get, put, find_value, drop_where, values}
use interlatent.Coordinator.Data.{
  Recording, Environment, teleop, TeleopToken, Coordinator, State, Result, ok, node_busy,
  unresolved_node, bad_role, ensure, or_raise, ◌>>◌,
}
use interlatent.Coordinator.Persistence.{persist}
use interlatent.Coordinator.Credentials.{hash_key, with_state}
use interlatent.Coordinator.Nodes.{assigned, resolve_node}
use interlatent.Coordinator.Environments.{get_environment}
use interlatent.Coordinator.Sessions.{has_id, env_id_of, wake}

unfoldable pub is_role : String → Bool
is_role role =
    ite (string_discrete role "node") true false || ite (string_discrete role "browser") true false

-- Is there a session or a recording with this id?
unfoldable pub knows_session : State → String → Bool
knows_session s session_id =
    is_some (find_value (has_id session_id) s.sessions) || is_some (get session_id s.recordings)

-- What the relay is told of a presented token.
pub data Verdict : Type 0 where
  accepted no_token unknown_token other_session other_role : Verdict

module _ (sha256 : String → String) where
  -- The token's record, under the token's hash.
  unfoldable pub record_token : Coordinator → String → String → String → ℕ → Coordinator
  unfolding persist
  record_token c token session_id role now =
      let s = c.state in
      let entry : TeleopToken = record { session_id = session_id; role = role; created = now } in
      persist (
        with_state c
          (record s { teleop_tokens = put (hash_key sha256 token) entry s.teleop_tokens }))

  -- `none` is the answer for an unknown session.
  unfoldable pub mint_teleop_token :
      Coordinator → String → String → String → ℕ → Result (Coordinator × Option String)
  unfolding record_token
  mint_teleop_token c session_id role random now = do
    ensure (is_role role) (bad_role role)
    let token = ◌++ˢ◌ "iltel_" random
    ok (
        if knows_session c.state session_id
        then (record_token c token session_id role now, some token)
        else (c, none))

  unfoldable pub verify_teleop_token : Coordinator → String → String → String → Verdict
  verify_teleop_token c token session_id role =
      if is_blank token
      then no_token
      else elim (get (hash_key sha256 token) c.state.teleop_tokens) [
        | none ↦ unknown_token
        | some r ↦
            ite (string_discrete r.session_id session_id)
              (ite (string_discrete r.role role) accepted other_role) other_session
      ]

unfoldable pub of_session : String → TeleopToken → Bool
of_session session_id t = ite (string_discrete t.session_id session_id) true false

unfoldable pub revoke_teleop_tokens : Coordinator → String → Coordinator
unfolding persist
revoke_teleop_tokens c session_id =
    persist (
      with_state c
        (record s { teleop_tokens = drop_where (of_session session_id) s.teleop_tokens }))
  where
    s : State
    s = c.state

pub record RecordingPayload : Type 0 where
  pub node_id : Option String
  pub node : Option String
  pub environment_id : Option String
  pub environment : Option String
  pub task : Option String
  pub robot_kind : Option String

unfoldable pub environment_ref : RecordingPayload → String
environment_ref payload = or_else payload.environment_id (or_else payload.environment "default")

-- The recording's dict.
unfoldable pub make_recording :
    State → String → Option Environment → RecordingPayload → String → Recording
make_recording s node_id environment payload random =
    let env_slug = environment_ref payload in
    record {
      id = ◌++ˢ◌ "trec_" random;
      status = "running";
      node_id = node_id;
      environment_id = env_id_of environment env_slug;
      env_slug = env_slug;
      task = or_else payload.task "";
      robot_kind = or_else payload.robot_kind "";
      recording = s.recording;
    }

unfoldable pub install_recording : Coordinator → Recording → Coordinator
unfolding persist
install_recording c r = wake (
    persist (
      with_state c (record s {
        recordings = put r.id r s.recordings;
        sessions = put r.node_id (some (teleop r)) s.sessions;
      })))
  where
    s : State
    s = c.state

-- `create_teleop_recording` takes the lock three times, and other methods may run in between: to
-- resolve the node, to read the environment, and to assign the recording. This is the first part.
unfoldable pub resolve_target : Coordinator → RecordingPayload → ℕ → Result String
resolve_target c payload now =
    let node_ref = strip (or_else payload.node_id (or_else payload.node "")) in
    or_raise (resolve_node c node_ref now) (unresolved_node node_ref)

-- The second part.
pub read_environment : Coordinator → RecordingPayload → Option Environment
read_environment c payload = get_environment c (environment_ref payload)

-- The third part, which does not look for the node again.
unfoldable pub assign_recording :
    Coordinator
    → String
    → Option Environment
    → RecordingPayload
    → String
    → Result (Coordinator × Recording)
assign_recording c node_id environment payload random = do
  ensure (not (is_some (assigned c.state node_id))) (node_busy node_id)
  let recording = make_recording c.state node_id environment payload random
  ok (install_recording c recording, recording)

-- Unassigns the node if it still runs this recording.
unfoldable pub release_node : State → String → String → State
release_node s node_id recording_id =
    if not (is_blank node_id) && has_id recording_id (assigned s node_id)
    then record s { sessions = put node_id none s.sessions }
    else s

unfoldable pub stop_teleop_recording : Coordinator → String → Coordinator × Bool
unfolding persist release_node
stop_teleop_recording c recording_id = elim (get recording_id c.state.recordings) [
  | none ↦ (c, false)
  | some r ↦
      let s = c.state in
      let stopped = record s {
        recordings = put recording_id (record r { status = "stopped" }) s.recordings;
      } in
      (wake (persist (with_state c (release_node stopped r.node_id recording_id))), true)
]

pub list_teleop_recordings : Coordinator → List Recording
list_teleop_recordings c = values c.state.recordings
