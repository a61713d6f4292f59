-- ===== src/Coordinator/History/Consistency.antt =====
-- The state stays consistent through every history.
use interlatent.Base.{
  ℕ, String, string_key, ◌≡◌, refl, List, [], ◌∷◌, is_some, Bool-cases, inl, inr, strip, or_else,
  is_blank, not,
}
use interlatent.Base.Json.{Fields}
use interlatent.Base.Dict.{get, find_value}
use interlatent.Coordinator.Data.{Coordinator, Result, ok, err, missing}
use interlatent.Coordinator.Routing.{Registry}
use interlatent.Coordinator.Persistence.{start, load, initial}
use interlatent.Coordinator.Nodes.{assigned, heartbeat}
use interlatent.Coordinator.Boxes.{
  BoxPayload, register_box, set_box_status, add_gpu, remove_gpu, has_box_id,
}
use interlatent.Coordinator.Environments.{EnvironmentPayload, create_environment, set_destination}
use interlatent.Coordinator.Teleop.{
  mint_teleop_token, revoke_teleop_tokens, assign_recording, knows_session, is_role,
}
use interlatent.Coordinator.Sessions.{start_session}
use interlatent.Coordinator.Invariant.{IsConsistent, keep_all}
use interlatent.Coordinator.Invariant.Operations.{
  register_operator_key-IsConsistent, pair-IsConsistent, enrol-IsConsistent,
  set_hardware-IsConsistent, set_features-IsConsistent, remove_node-IsConsistent,
}
use interlatent.Coordinator.Invariant.Assigning.{
  start_session-IsConsistent, stop_session-IsConsistent, stop_all-IsConsistent,
}
use interlatent.Coordinator.Invariant.Recordings.{
  assign_recording-IsConsistent, stop_teleop_recording-IsConsistent,
}
use interlatent.Coordinator.History.{
  Call, register_operator_keys, pairs, heartbeats, polls, sets_hardware, sets_features,
  removes_node, registers_box, sets_box_status, adds_gpu, removes_gpu, creates_environment,
  sets_destination, starts_session, stops_session, stops_all, mints_teleop_token,
  revokes_teleop_tokens, assigns_recording, stops_recording, after, step, run, Undisturbed,
  StaysPaired,
}

-- A statement about the coordinator after a method that may raise.
after_result {ℓ} :
    {A : Type ℓ} (P : Coordinator → Type 0) (f : A → Coordinator) (c : Coordinator) (r : Result A)
    → P c
    → ((a : A) → r ≡ ok a → P (f a))
    → P (after f c r)
after_result P f c (ok a) p h = h a refl
after_result P f c (err e) p h = p

abbrev Holds : Coordinator → Type 0
Holds c = IsConsistent c.state

heartbeat_state :
    (c : Coordinator) (n : String) (payload : Fields) (now : ℕ)
    → (heartbeat c n payload now).state ≡ c.state
unfolding heartbeat
heartbeat_state c n payload now = refl

module _ (sha256 : String → String) (registry : Registry) where
  register_box-Holds :
      (c : Coordinator) (payload : BoxPayload) (random : String) (now : ℕ)
      → Holds c
      → Holds (after (λ r. r.0) c (register_box sha256 c payload random now))
  unfolding register_box
  register_box-Holds c payload random now v =
      elim (Bool-cases (not (is_blank (strip (or_else payload.box_id ""))))) [
        | inl e ↦ rw e (enrol-IsConsistent sha256 c payload _ _ random now v)
        | inr e ↦ rw e v
      ]

  add_gpu-Holds :
      (c : Coordinator) (name url method warm : String)
      → Holds c
      → Holds (after (λ d. d) c (add_gpu registry c name url method warm))
  unfolding add_gpu
  add_gpu-Holds c name url method warm v = elim (Bool-cases (is_some (get method registry))) [
    | inl e ↦ rw e (keep_all c.state _ refl refl refl v)
    | inr e ↦ rw e v
  ]

  mint_teleop_token-Holds :
      (c : Coordinator) (session_id role random : String) (now : ℕ)
      → Holds c
      → Holds (after (λ r. r.0) c (mint_teleop_token sha256 c session_id role random now))
  unfolding mint_teleop_token
  mint_teleop_token-Holds c session_id role random now v = elim (Bool-cases (is_role role)) [
    | inr e ↦ rw e v
    | inl e ↦ elim (Bool-cases (knows_session c.state session_id)) [
      | inl k ↦ rw (e, k) (keep_all c.state _ refl refl refl v)
      | inr k ↦ rw (e, k) v
    ]
  ]

set_box_status-Holds :
    (c : Coordinator) (box_id status endpoint : String)
    → Holds c
    → Holds (set_box_status c box_id status endpoint).0
unfolding set_box_status
set_box_status-Holds c box_id status endpoint v =
    elim (Bool-cases (is_some (find_value (has_box_id box_id) c.state.gpus))) [
      | inl e ↦ rw e (keep_all c.state _ refl refl refl v)
      | inr e ↦ rw e v
    ]

remove_gpu-Holds : (c : Coordinator) (name : String) → Holds c → Holds (remove_gpu c name).0
unfolding remove_gpu
remove_gpu-Holds c name v = elim (Bool-cases (is_some (get name c.state.gpus))) [
  | inl e ↦ rw e (keep_all c.state _ refl refl refl v)
  | inr e ↦ rw e v
]

create_environment-Holds :
    (c : Coordinator) (payload : EnvironmentPayload) (random : String)
    → Holds c
    → Holds (after (λ r. r.0) c (create_environment c payload random))
unfolding create_environment
create_environment-Holds c payload random v =
    elim (Bool-cases (not (is_blank (strip (or_else payload.slug ""))))) [
      | inl e ↦ rw e (keep_all c.state _ refl refl refl v)
      | inr e ↦ rw e v
    ]

set_destination-Holds :
    (c : Coordinator) (recording : Fields) → Holds c → Holds (set_destination c recording)
unfolding set_destination
set_destination-Holds c recording v = keep_all c.state _ refl refl refl v

revoke_teleop_tokens-Holds :
    (c : Coordinator) (id : String) → Holds c → Holds (revoke_teleop_tokens c id)
unfolding revoke_teleop_tokens
revoke_teleop_tokens-Holds c id v = keep_all c.state _ refl refl refl v

module _ (sha256 : String → String) (registry : Registry) where
  -- Every method keeps the state consistent, whether it returns or raises.
  pub step-IsConsistent :
      (c : Coordinator) (call : Call)
      → StaysPaired c call
      → IsConsistent c.state
      → IsConsistent (step sha256 registry c call).state
  unfolding step
  step-IsConsistent c (register_operator_keys key now) p v =
      register_operator_key-IsConsistent sha256 c key now v
  step-IsConsistent c (pairs name random_id random_key now) p v =
      pair-IsConsistent sha256 c name random_id random_key now v
  step-IsConsistent c (heartbeats n payload now) p v = rw (heartbeat_state c n payload now) v
  step-IsConsistent c (polls n now) p v = v
  step-IsConsistent c (sets_hardware n payload) p v = set_hardware-IsConsistent c n payload v
  step-IsConsistent c (sets_features n payload) p v = set_features-IsConsistent c n payload v
  step-IsConsistent c (removes_node n) p v = remove_node-IsConsistent c n v
  step-IsConsistent c (registers_box payload random now) p v =
      register_box-Holds sha256 registry c payload random now v
  step-IsConsistent c (sets_box_status box_id status endpoint) p v =
      set_box_status-Holds c box_id status endpoint v
  step-IsConsistent c (adds_gpu name url method warm) p v =
      add_gpu-Holds sha256 registry c name url method warm v
  step-IsConsistent c (removes_gpu name) p v = remove_gpu-Holds c name v
  step-IsConsistent c (creates_environment payload random) p v =
      create_environment-Holds c payload random v
  step-IsConsistent c (sets_destination recording) p v = set_destination-Holds c recording v
  step-IsConsistent c (starts_session n g params random) p v =
      after_result Holds (λ r. r.0) c (start_session registry c n g params random) v
        λ (d, session) e. start_session-IsConsistent registry c n g params random e v
  step-IsConsistent c (stops_session id) p v = stop_session-IsConsistent c id v
  step-IsConsistent c stops_all p v = stop_all-IsConsistent c v
  step-IsConsistent c (mints_teleop_token id role random now) p v =
      mint_teleop_token-Holds sha256 registry c id role random now v
  step-IsConsistent c (revokes_teleop_tokens id) p v = revoke_teleop_tokens-Holds c id v
  step-IsConsistent c (assigns_recording n environment payload random) p v =
      after_result Holds (λ r. r.0) c (assign_recording c n environment payload random) v
        λ (d, recording) e. assign_recording-IsConsistent c n environment payload random e p v
  step-IsConsistent c (stops_recording id) p v = stop_teleop_recording-IsConsistent c id v

  pub run-IsConsistent :
      (c : Coordinator) (calls : List Call)
      → Undisturbed sha256 registry c calls
      → IsConsistent c.state
      → IsConsistent (run sha256 registry c calls).state
  unfolding run Undisturbed
  run-IsConsistent c [] u v = v
  run-IsConsistent c (call ∷ calls) (p, u) v =
      run-IsConsistent (step sha256 registry c call) calls u (step-IsConsistent c call p v)

pub initial-IsConsistent : IsConsistent initial
unfolding initial assigned get
initial-IsConsistent = record {
  filed = tt;
  known = λ n x e. cc;
  placed = λ n a e. cc;
  exclusive = λ n m x y e f. cc;
  paired = tt;
}

module _ (sha256 : String → String) (registry : Registry) where
  -- Whatever calls a new coordinator serves, if no node is removed while a recording is on its way
  -- to it, only paired nodes are assigned, each assignment names its node, no two sessions name the
  -- same box, and no credential outlives its node.
  pub run-start-IsConsistent :
      (calls : List Call)
      → Undisturbed sha256 registry (start missing) calls
      → IsConsistent (run sha256 registry (start missing) calls).state
  unfolding start load
  run-start-IsConsistent calls u =
      run-IsConsistent sha256 registry (start missing) calls u initial-IsConsistent
