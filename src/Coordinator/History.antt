-- ===== src/Coordinator/History.antt =====
-- Histories of the coordinator: the methods in the order in which the lock admits them.
-- `create_teleop_recording` takes the lock several times; its last part is a step of its own, before
-- which any other call may come, and the parts before it change nothing.
-- A method that raises leaves the coordinator as it was.
pub mod Consistency
pub mod Race
pub mod Durability
pub mod Wakeups
use interlatent.Base.{ℕ, String, Option, none, some, true, is_some, ◌≡◌, List, [], ◌∷◌}
use interlatent.Base.Json.{Fields}
use interlatent.Base.Dict.{put, get}
use interlatent.Base.{string_key}
use interlatent.Coordinator.Data.{Coordinator, Environment, Result, ok, err}
use interlatent.Coordinator.Routing.{Registry}
use interlatent.Coordinator.Credentials.{register_operator_key}
use interlatent.Coordinator.Nodes.{pair, heartbeat, set_hardware, set_features, remove_node}
use interlatent.Coordinator.Boxes.{BoxPayload, register_box, set_box_status, add_gpu, remove_gpu}
use interlatent.Coordinator.Environments.{EnvironmentPayload, create_environment, set_destination}
use interlatent.Coordinator.Sessions.{StartParams, start_session, stop_session, stop_all}
use interlatent.Coordinator.Teleop.{
  RecordingPayload, mint_teleop_token, revoke_teleop_tokens, assign_recording,
  stop_teleop_recording,
}

-- Each constructor carries a method's arguments, the time and the random texts that it draws.
pub data Call : Type 0 where
  register_operator_keys : (key : String) (now : ℕ) → Call
  pairs : (name random_id random_key : String) (now : ℕ) → Call
  heartbeats : (node_id : String) (payload : Fields) (now : ℕ) → Call
  polls : (node_id : String) (now : ℕ) → Call
  sets_hardware sets_features : (node_id : String) (payload : Fields) → Call
  removes_node : (node_id : String) → Call
  registers_box : (payload : BoxPayload) (random : String) (now : ℕ) → Call
  sets_box_status : (box_id status endpoint : String) → Call
  adds_gpu : (name url method warm_policy : String) → Call
  removes_gpu : (name : String) → Call
  creates_environment : (payload : EnvironmentPayload) (random : String) → Call
  sets_destination : (recording : Fields) → Call
  starts_session : (node_id gpu_name : String) (params : StartParams) (random : String) → Call
  stops_session : (session_id : String) → Call
  stops_all : Call
  mints_teleop_token : (session_id role random : String) (now : ℕ) → Call
  revokes_teleop_tokens : (session_id : String) → Call
  -- the last part of `create_teleop_recording`, for a node that its first part has found
  assigns_recording :
      (node_id : String) (environment : Option Environment) (payload : RecordingPayload)
      (random : String)
      → Call
  stops_recording : (recording_id : String) → Call

abbrev pub after {ℓ} : {A : Type ℓ} → (A → Coordinator) → Coordinator → Result A → Coordinator
after f c (ok a) = f a
after f c (err e) = c

abbrev pub recorded_node : Call → Option String
recorded_node (assigns_recording n environment payload random) = some n
recorded_node _ = none

abbrev pub IsPairedAt : Coordinator → Option String → Type 0
IsPairedAt c none = Unit
IsPairedAt c (some n) = is_some (get n c.state.nodes) ≡ true

abbrev pub StaysPaired : Coordinator → Call → Type 0
StaysPaired c call = IsPairedAt c (recorded_node call)

module _ (sha256 : String → String) (registry : Registry) where
  unfoldable pub step : Coordinator → Call → Coordinator
  step c (register_operator_keys key now) = register_operator_key sha256 c key now
  step c (pairs name random_id random_key now) = (pair sha256 c name random_id random_key now).0
  step c (heartbeats node_id payload now) = heartbeat c node_id payload now
  step c (polls node_id now) = record c { last_seen = put node_id now c.last_seen }
  step c (sets_hardware node_id payload) = set_hardware c node_id payload
  step c (sets_features node_id payload) = set_features c node_id payload
  step c (removes_node node_id) = (remove_node c node_id).0
  step c (registers_box payload random now) =
      after (λ r. r.0) c (register_box sha256 c payload random now)
  step c (sets_box_status box_id status endpoint) = (set_box_status c box_id status endpoint).0
  step c (adds_gpu name url method warm_policy) =
      after (λ d. d) c (add_gpu registry c name url method warm_policy)
  step c (removes_gpu name) = (remove_gpu c name).0
  step c (creates_environment payload random) =
      after (λ r. r.0) c (create_environment c payload random)
  step c (sets_destination recording) = set_destination c recording
  step c (starts_session node_id gpu_name params random) =
      after (λ r. r.0) c (start_session registry c node_id gpu_name params random)
  step c (stops_session session_id) = (stop_session c session_id).0
  step c stops_all = (stop_all c).0
  step c (mints_teleop_token session_id role random now) =
      after (λ r. r.0) c (mint_teleop_token sha256 c session_id role random now)
  step c (revokes_teleop_tokens session_id) = revoke_teleop_tokens c session_id
  step c (assigns_recording n environment payload random) =
      after (λ r. r.0) c (assign_recording c n environment payload random)
  step c (stops_recording recording_id) = (stop_teleop_recording c recording_id).0

  unfoldable pub run : Coordinator → List Call → Coordinator
  run c [] = c
  run c (call ∷ calls) = run (step c call) calls

  -- No node is removed while a recording is on its way to it: each assignment of a recording finds
  -- the node paired, as the first part of `create_teleop_recording` has found it.
  unfoldable pub Undisturbed : Coordinator → List Call → Type 0
  Undisturbed c [] = Unit
  Undisturbed c (call ∷ calls) = StaysPaired c call × Undisturbed (step c call) calls
