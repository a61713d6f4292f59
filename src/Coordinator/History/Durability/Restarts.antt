-- ===== src/Coordinator/History/Durability/Restarts.antt =====
-- The state file always holds the state: a restarted coordinator forgets nothing but liveness.
use interlatent.Base.{String, string_key, ◌≡◌, refl, List, [], ◌∷◌}
use interlatent.Coordinator.Data.{Coordinator, missing}
use interlatent.Coordinator.Routing.{Registry}
use interlatent.Coordinator.Persistence.{start, load}
use interlatent.Coordinator.Invariant.{IsConsistent}
use interlatent.Coordinator.History.Consistency.{step-IsConsistent, initial-IsConsistent}
use interlatent.Coordinator.History.{
  Call, register_operator_keys, pairs, heartbeats, polls, sets_hardware, sets_features,
  removes_node, registers_box, sets_box_status, adds_gpu, removes_gpu, creates_environment,
  sets_destination, starts_session, stops_session, stops_all, mints_teleop_token,
  revokes_teleop_tokens, assigns_recording, stops_recording, step, run, Undisturbed,
}
use interlatent.Coordinator.History.Durability.{IsDurable, remove_node-IsDurable}
use interlatent.Coordinator.History.Durability.Methods.{
  register_operator_key-IsDurable, pair-IsDurable, register_box-IsDurable, add_gpu-IsDurable,
  mint_teleop_token-IsDurable, start_session-IsDurable, assign_recording-IsDurable,
  set_hardware-IsDurable, set_features-IsDurable, set_box_status-IsDurable, remove_gpu-IsDurable,
  create_environment-IsDurable, set_destination-IsDurable, revoke_teleop_tokens-IsDurable,
  heartbeat-IsDurable, stop_session-IsDurable, stop_all-IsDurable, stop_teleop_recording-IsDurable,
}

module _ (sha256 : String → String) (registry : Registry) where
  -- Every method that changes the state has written it to the file when it returns.
  pub step-IsDurable :
      (c : Coordinator) (call : Call)
      → IsConsistent c.state
      → IsDurable c
      → IsDurable (step sha256 registry c call)
  unfolding step
  step-IsDurable c (register_operator_keys key now) v d =
      register_operator_key-IsDurable sha256 registry c key now
  step-IsDurable c (pairs name random_id random_key now) v d =
      pair-IsDurable sha256 registry c name random_id random_key now
  step-IsDurable c (heartbeats n payload now) v d = heartbeat-IsDurable c n payload now d
  step-IsDurable c (polls n now) v d = d
  step-IsDurable c (sets_hardware n payload) v d = set_hardware-IsDurable c n payload d
  step-IsDurable c (sets_features n payload) v d = set_features-IsDurable c n payload d
  step-IsDurable c (removes_node n) v d = remove_node-IsDurable c n v d
  step-IsDurable c (registers_box payload random now) v d =
      register_box-IsDurable sha256 registry c payload random now d
  step-IsDurable c (sets_box_status box_id status endpoint) v d =
      set_box_status-IsDurable c box_id status endpoint d
  step-IsDurable c (adds_gpu name url method warm) v d =
      add_gpu-IsDurable sha256 registry c name url method warm d
  step-IsDurable c (removes_gpu name) v d = remove_gpu-IsDurable c name d
  step-IsDurable c (creates_environment payload random) v d =
      create_environment-IsDurable c payload random d
  step-IsDurable c (sets_destination recording) v d = set_destination-IsDurable c recording
  step-IsDurable c (starts_session n g params random) v d =
      start_session-IsDurable sha256 registry c n g params random d
  step-IsDurable c (stops_session id) v d = stop_session-IsDurable c id d
  step-IsDurable c stops_all v d = stop_all-IsDurable c d
  step-IsDurable c (mints_teleop_token id role random now) v d =
      mint_teleop_token-IsDurable sha256 registry c id role random now d
  step-IsDurable c (revokes_teleop_tokens id) v d = revoke_teleop_tokens-IsDurable c id
  step-IsDurable c (assigns_recording n environment payload random) v d =
      assign_recording-IsDurable c n environment payload random d
  step-IsDurable c (stops_recording id) v d = stop_teleop_recording-IsDurable c id d

  run-IsDurable :
      (c : Coordinator) (calls : List Call)
      → Undisturbed sha256 registry c calls
      → IsConsistent c.state
      → IsDurable c
      → IsDurable (run sha256 registry c calls)
  unfolding run Undisturbed
  run-IsDurable c [] u v d = d
  run-IsDurable c (call ∷ calls) (p, u) v d =
      run-IsDurable (step sha256 registry c call) calls u
        (step-IsConsistent sha256 registry c call p v) (step-IsDurable c call v d)

  -- A coordinator that is restarted from its state file after any history, in which no node is
  -- removed while a recording is on its way to it, has the state that it had before: no assignment, credential, box or token is forgotten.
  pub start-run :
      (calls : List Call)
      → Undisturbed sha256 registry (start missing) calls
      → (start (run sha256 registry (start missing) calls).file).state
        ≡ (run sha256 registry (start missing) calls).state
  unfolding start load
  start-run calls u = run-IsDurable (start missing) calls u initial-IsConsistent refl
