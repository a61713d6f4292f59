-- ===== src/Coordinator/History/Durability/Methods.antt =====
-- Each method writes the state that it leaves.
use interlatent.Base.{
  ℕ, String, Option, string_key, ◌≡◌, refl, List, [], ◌∷◌, is_some, Option-cases, Bool-cases, inl,
  inr, strip, or_else, is_blank, not,
}
use interlatent.Base.Json.{Fields}
use interlatent.Base.Dict.{get, find_value, find_key}
use interlatent.Coordinator.Data.{Environment, Coordinator}
use interlatent.Coordinator.Routing.{Registry}
use interlatent.Coordinator.Nodes.{heartbeat, pair, set_hardware, set_features}
use interlatent.Coordinator.Boxes.{
  BoxPayload, register_box, set_box_status, add_gpu, remove_gpu, has_box_id,
}
use interlatent.Coordinator.Environments.{EnvironmentPayload, create_environment, set_destination}
use interlatent.Coordinator.Teleop.{
  mint_teleop_token, revoke_teleop_tokens, assign_recording, knows_session, is_role,
  stop_teleop_recording, install_recording, RecordingPayload,
}
use interlatent.Coordinator.Sessions.{
  start_session, install_session, stop_session, stop_all, assigned_ids, has_id, StartParams,
}
use interlatent.Coordinator.Credentials.{register_operator_key}
use interlatent.Coordinator.Invariant.Started.{start_session_ok}
use interlatent.Coordinator.Invariant.Recordings.{assign_recording_ok}
use interlatent.Coordinator.History.{after}
use interlatent.Coordinator.History.Durability.{
  IsDurable, load-dump, after_result, set_node-IsDurable,
}

module _ (sha256 : String → String) (registry : Registry) where
  pub register_operator_key-IsDurable :
      (c : Coordinator) (key : String) (now : ℕ)
      → IsDurable (register_operator_key sha256 c key now)
  unfolding register_operator_key
  register_operator_key-IsDurable c key now = load-dump _

  pub pair-IsDurable :
      (c : Coordinator) (name random_id random_key : String) (now : ℕ)
      → IsDurable (pair sha256 c name random_id random_key now).0
  unfolding pair
  pair-IsDurable c name random_id random_key now = load-dump _

  pub register_box-IsDurable :
      (c : Coordinator) (payload : BoxPayload) (random : String) (now : ℕ)
      → IsDurable c
      → IsDurable (after (λ r. r.0) c (register_box sha256 c payload random now))
  unfolding register_box
  register_box-IsDurable c payload random now d =
      elim (Bool-cases (not (is_blank (strip (or_else payload.box_id ""))))) [
        | inl e ↦ rw e (load-dump _)
        | inr e ↦ rw e d
      ]

  pub add_gpu-IsDurable :
      (c : Coordinator) (name url method warm : String)
      → IsDurable c
      → IsDurable (after (λ d. d) c (add_gpu registry c name url method warm))
  unfolding add_gpu
  add_gpu-IsDurable c name url method warm d = elim (Bool-cases (is_some (get method registry))) [
    | inl e ↦ rw e (load-dump _)
    | inr e ↦ rw e d
  ]

  pub mint_teleop_token-IsDurable :
      (c : Coordinator) (session_id role random : String) (now : ℕ)
      → IsDurable c
      → IsDurable (after (λ r. r.0) c (mint_teleop_token sha256 c session_id role random now))
  unfolding mint_teleop_token
  mint_teleop_token-IsDurable c session_id role random now d = elim (Bool-cases (is_role role)) [
    | inr e ↦ rw e d
    | inl e ↦ elim (Bool-cases (knows_session c.state session_id)) [
      | inl k ↦ rw (e, k) (load-dump _)
      | inr k ↦ rw (e, k) d
    ]
  ]

  pub start_session-IsDurable :
      (c : Coordinator) (n g : String) (params : StartParams) (random : String)
      → IsDurable c
      → IsDurable (after (λ r. r.0) c (start_session registry c n g params random))
  unfolding install_session
  start_session-IsDurable c n g params random d =
      after_result (λ r. r.0) c (start_session registry c n g params random) d
        λ (e, session) q. rw (start_session_ok registry c n g params random q).after (load-dump _)

pub assign_recording-IsDurable :
    (c : Coordinator) (n : String) (environment : Option Environment) (payload : RecordingPayload)
    (random : String)
    → IsDurable c
    → IsDurable (after (λ r. r.0) c (assign_recording c n environment payload random))
unfolding install_recording
assign_recording-IsDurable c n environment payload random d =
    after_result (λ r. r.0) c (assign_recording c n environment payload random) d
      λ (e, r) q. rw (assign_recording_ok c n environment payload random q).2 (load-dump _)

pub set_hardware-IsDurable :
    (c : Coordinator) (n : String) (payload : Fields)
    → IsDurable c
    → IsDurable (set_hardware c n payload)
unfolding set_hardware
set_hardware-IsDurable c n payload d = set_node-IsDurable _ c n d

pub set_features-IsDurable :
    (c : Coordinator) (n : String) (payload : Fields)
    → IsDurable c
    → IsDurable (set_features c n payload)
unfolding set_features
set_features-IsDurable c n payload d = set_node-IsDurable _ c n d

pub set_box_status-IsDurable :
    (c : Coordinator) (box_id status endpoint : String)
    → IsDurable c
    → IsDurable (set_box_status c box_id status endpoint).0
unfolding set_box_status
set_box_status-IsDurable c box_id status endpoint d =
    elim (Bool-cases (is_some (find_value (has_box_id box_id) c.state.gpus))) [
      | inl e ↦ rw e (load-dump _)
      | inr e ↦ rw e d
    ]

pub remove_gpu-IsDurable :
    (c : Coordinator) (name : String) → IsDurable c → IsDurable (remove_gpu c name).0
unfolding remove_gpu
remove_gpu-IsDurable c name d = elim (Bool-cases (is_some (get name c.state.gpus))) [
  | inl e ↦ rw e (load-dump _)
  | inr e ↦ rw e d
]

pub create_environment-IsDurable :
    (c : Coordinator) (payload : EnvironmentPayload) (random : String)
    → IsDurable c
    → IsDurable (after (λ r. r.0) c (create_environment c payload random))
unfolding create_environment
create_environment-IsDurable c payload random d =
    elim (Bool-cases (not (is_blank (strip (or_else payload.slug ""))))) [
      | inl e ↦ rw e (load-dump _)
      | inr e ↦ rw e d
    ]

pub set_destination-IsDurable :
    (c : Coordinator) (recording : Fields) → IsDurable (set_destination c recording)
unfolding set_destination
set_destination-IsDurable c recording = load-dump _

pub revoke_teleop_tokens-IsDurable :
    (c : Coordinator) (id : String) → IsDurable (revoke_teleop_tokens c id)
unfolding revoke_teleop_tokens
revoke_teleop_tokens-IsDurable c id = load-dump _

pub heartbeat-IsDurable :
    (c : Coordinator) (n : String) (payload : Fields) (now : ℕ)
    → IsDurable c
    → IsDurable (heartbeat c n payload now)
unfolding heartbeat
heartbeat-IsDurable c n payload now d = d

pub stop_session-IsDurable :
    (c : Coordinator) (session_id : String) → IsDurable c → IsDurable (stop_session c session_id).0
unfolding stop_session
stop_session-IsDurable c session_id d =
    elim (Option-cases (find_key (has_id session_id) c.state.sessions)) [
      | inl e ↦ rw (e, stop_session) d
      | inr (n, e) ↦ rw (e, stop_session) (load-dump _)
    ]

pub stop_all-IsDurable : (c : Coordinator) → IsDurable c → IsDurable (stop_all c).0
unfolding stop_all
stop_all-IsDurable c d = by_ids (assigned_ids c.state.sessions) refl
  where
    by_ids : (ids : List String) → assigned_ids c.state.sessions ≡ ids → IsDurable (stop_all c).0
    by_ids [] e = rw (e, stop_all) d
    by_ids (id ∷ ids) e = rw (e, stop_all) (load-dump _)

pub stop_teleop_recording-IsDurable :
    (c : Coordinator) (recording_id : String)
    → IsDurable c
    → IsDurable (stop_teleop_recording c recording_id).0
unfolding stop_teleop_recording
stop_teleop_recording-IsDurable c recording_id d =
    elim (Option-cases (get recording_id c.state.recordings)) [
      | inl e ↦ rw (e, stop_teleop_recording) d
      | inr (r, e) ↦ rw (e, stop_teleop_recording) (load-dump _)
    ]
