-- ===== src/Coordinator/History/Wakeups.antt =====
-- Which calls wake the long polls: each that changes an assignment, but for `remove_node`.
use interlatent.Base.{
  ℕ, String, Option, string_key, string_discrete, ◌≡◌, refl, ◌∙◌, ap, Bool, true, false, none, some,
  List, [], ◌∷◌, is_some, arith, Option-cases, Bool-cases, inl, inr, ◌⊎◌, ◌≢◌, ◌<◌, if_pos, strip,
  or_else, is_blank, not, if◌then◌else◌,
}
use interlatent.Base.Json.{Fields}
use interlatent.Base.Dict.{get, find_key}
use interlatent.Coordinator.Data.{Environment, Node, Assignment, Coordinator, Result, ok, err}
use interlatent.Coordinator.Routing.{Registry}
use interlatent.Coordinator.Nodes.{
  assigned, heartbeat, pair, set_hardware, set_features, set_node, remove_node,
}
use interlatent.Coordinator.Boxes.{BoxPayload, register_box, set_box_status, add_gpu, remove_gpu}
use interlatent.Coordinator.Environments.{EnvironmentPayload, create_environment, set_destination}
use interlatent.Coordinator.Teleop.{
  mint_teleop_token, revoke_teleop_tokens, assign_recording, is_role, stop_teleop_recording,
  install_recording, RecordingPayload,
}
use interlatent.Coordinator.Sessions.{
  start_session, install_session, stop_session, stop_all, assigned_ids, has_id, StartParams,
}
use interlatent.Coordinator.Credentials.{register_operator_key, issue_key}
use interlatent.Coordinator.Invariant.Started.{start_session_ok}
use interlatent.Coordinator.Invariant.Recordings.{assign_recording_ok}
use interlatent.Coordinator.Invariant.Operations.{state-remove_node, assigned-without_node}
use interlatent.Coordinator.History.{
  Call, register_operator_keys, pairs, heartbeats, polls, sets_hardware, sets_features,
  removes_node, registers_box, sets_box_status, adds_gpu, removes_gpu, creates_environment,
  sets_destination, starts_session, stops_session, stops_all, mints_teleop_token,
  revokes_teleop_tokens, assigns_recording, stops_recording, after, step,
}

-- A method that changes the sessions has woken the long polls.
abbrev pub Wakes : Coordinator → Coordinator → Type 0
Wakes c d = (d.state.sessions ≡ c.state.sessions) ⊎ (c.wakes < d.wakes)

after_result :
    {A : Type 0} (f : A → Coordinator) (c : Coordinator) (r : Result A)
    → ((a : A) → r ≡ ok a → Wakes c (f a))
    → Wakes c (after f c r)
after_result f c (ok a) h = h a refl
after_result f c (err e) h = inl refl

if_either :
    {A : Type 0} (b : Bool) (c : Coordinator) (d e : Coordinator × A)
    → Wakes c d.0
    → Wakes c e.0
    → Wakes c (if b then d else e).0
if_either true c d e p q = p
if_either false c d e p q = q

set_node-Wakes :
    (change : Node → Node) (c : Coordinator) (n : String) → Wakes c (set_node change c n)
unfolding set_node
set_node-Wakes change c n = elim (Option-cases (get n c.state.nodes)) [
  | inl e ↦ rw (e, set_node) (inl refl)
  | inr (x, e) ↦ rw (e, set_node) (inl refl)
]

set_hardware-Wakes :
    (c : Coordinator) (n : String) (payload : Fields) → Wakes c (set_hardware c n payload)
unfolding set_hardware
set_hardware-Wakes c n payload = set_node-Wakes _ c n

set_features-Wakes :
    (c : Coordinator) (n : String) (payload : Fields) → Wakes c (set_features c n payload)
unfolding set_features
set_features-Wakes c n payload = set_node-Wakes _ c n

set_box_status-Wakes :
    (c : Coordinator) (box_id status endpoint : String)
    → Wakes c (set_box_status c box_id status endpoint).0
unfolding set_box_status
set_box_status-Wakes c box_id status endpoint = if_either _ c _ _ (inl refl) (inl refl)

remove_gpu-Wakes : (c : Coordinator) (name : String) → Wakes c (remove_gpu c name).0
unfolding remove_gpu
remove_gpu-Wakes c name = if_either _ c _ _ (inl refl) (inl refl)

create_environment-Wakes :
    (c : Coordinator) (payload : EnvironmentPayload) (random : String)
    → Wakes c (after (λ r. r.0) c (create_environment c payload random))
unfolding create_environment
create_environment-Wakes c payload random =
    elim (Bool-cases (not (is_blank (strip (or_else payload.slug ""))))) [
      | inl e ↦ rw e (inl refl)
      | inr e ↦ rw e (inl refl)
    ]

stop_session-Wakes : (c : Coordinator) (session_id : String) → Wakes c (stop_session c session_id).0
unfolding stop_session
stop_session-Wakes c session_id =
    elim (Option-cases (find_key (has_id session_id) c.state.sessions)) [
      | inl e ↦ rw (e, stop_session) (inl refl)
      | inr (n, e) ↦ rw (e, stop_session) (inr (omega arith))
    ]

stop_all-Wakes : (c : Coordinator) → Wakes c (stop_all c).0
unfolding stop_all
stop_all-Wakes c = by_ids (assigned_ids c.state.sessions) refl
  where
    by_ids : (ids : List String) → assigned_ids c.state.sessions ≡ ids → Wakes c (stop_all c).0
    by_ids [] e = rw (e, stop_all) (inl refl)
    by_ids (id ∷ ids) e = rw (e, stop_all) (inr (omega arith))

stop_teleop_recording-Wakes :
    (c : Coordinator) (recording_id : String) → Wakes c (stop_teleop_recording c recording_id).0
unfolding stop_teleop_recording
stop_teleop_recording-Wakes c recording_id =
    elim (Option-cases (get recording_id c.state.recordings)) [
      | inl e ↦ rw (e, stop_teleop_recording) (inl refl)
      | inr (r, e) ↦ rw (e, stop_teleop_recording) (inr (omega arith))
    ]

assign_recording-Wakes :
    (c : Coordinator) (n : String) (environment : Option Environment) (payload : RecordingPayload)
    (random : String)
    → Wakes c (after (λ r. r.0) c (assign_recording c n environment payload random))
unfolding install_recording
assign_recording-Wakes c n environment payload random =
    after_result (λ r. r.0) c (assign_recording c n environment payload random)
      λ (e, r) q. rw (assign_recording_ok c n environment payload random q).2 (inr (omega arith))

module _ (sha256 : String → String) (registry : Registry) where
  register_operator_key-Wakes :
      (c : Coordinator) (key : String) (now : ℕ) → Wakes c (register_operator_key sha256 c key now)
  unfolding register_operator_key
  register_operator_key-Wakes c key now = inl refl

  pair-Wakes :
      (c : Coordinator) (name random_id random_key : String) (now : ℕ)
      → Wakes c (pair sha256 c name random_id random_key now).0
  unfolding pair issue_key
  pair-Wakes c name random_id random_key now = inl refl

  register_box-Wakes :
      (c : Coordinator) (payload : BoxPayload) (random : String) (now : ℕ)
      → Wakes c (after (λ r. r.0) c (register_box sha256 c payload random now))
  unfolding register_box issue_key
  register_box-Wakes c payload random now =
      elim (Bool-cases (not (is_blank (strip (or_else payload.box_id ""))))) [
        | inl e ↦ rw e (inl refl)
        | inr e ↦ rw e (inl refl)
      ]

  add_gpu-Wakes :
      (c : Coordinator) (name url method warm : String)
      → Wakes c (after (λ d. d) c (add_gpu registry c name url method warm))
  unfolding add_gpu
  add_gpu-Wakes c name url method warm = elim (Bool-cases (is_some (get method registry))) [
    | inl e ↦ rw e (inl refl)
    | inr e ↦ rw e (inl refl)
  ]

  mint_teleop_token-Wakes :
      (c : Coordinator) (session_id role random : String) (now : ℕ)
      → Wakes c (after (λ r. r.0) c (mint_teleop_token sha256 c session_id role random now))
  unfolding mint_teleop_token
  mint_teleop_token-Wakes c session_id role random now = elim (Bool-cases (is_role role)) [
    | inr e ↦ rw e (inl refl)
    | inl e ↦ rw e (if_either _ c _ _ (inl refl) (inl refl))
  ]

  start_session-Wakes :
      (c : Coordinator) (n g : String) (params : StartParams) (random : String)
      → Wakes c (after (λ r. r.0) c (start_session registry c n g params random))
  unfolding install_session
  start_session-Wakes c n g params random =
      after_result (λ r. r.0) c (start_session registry c n g params random)
        λ (e, session) q.
          rw (start_session_ok registry c n g params random q).after (inr (omega arith))

  -- Every call but `remove_node` that changes an assignment wakes the nodes that wait in a poll.
  pub step-Wakes :
      (c : Coordinator) (call : Call)
      → ((n : String) → call ≢ removes_node n)
      → Wakes c (step sha256 registry c call)
  unfolding step revoke_teleop_tokens set_destination heartbeat
  step-Wakes c (register_operator_keys key now) h = register_operator_key-Wakes c key now
  step-Wakes c (pairs name random_id random_key now) h = pair-Wakes c name random_id random_key now
  step-Wakes c (heartbeats n payload now) h = inl refl
  step-Wakes c (polls n now) h = inl refl
  step-Wakes c (sets_hardware n payload) h = set_hardware-Wakes c n payload
  step-Wakes c (sets_features n payload) h = set_features-Wakes c n payload
  step-Wakes c (removes_node n) h = absurd (h n refl)
  step-Wakes c (registers_box payload random now) h = register_box-Wakes c payload random now
  step-Wakes c (sets_box_status box_id status endpoint) h =
      set_box_status-Wakes c box_id status endpoint
  step-Wakes c (adds_gpu name url method warm) h = add_gpu-Wakes c name url method warm
  step-Wakes c (removes_gpu name) h = remove_gpu-Wakes c name
  step-Wakes c (creates_environment payload random) h = create_environment-Wakes c payload random
  step-Wakes c (sets_destination recording) h = inl refl
  step-Wakes c (starts_session n g params random) h = start_session-Wakes c n g params random
  step-Wakes c (stops_session id) h = stop_session-Wakes c id
  step-Wakes c stops_all h = stop_all-Wakes c
  step-Wakes c (mints_teleop_token id role random now) h =
      mint_teleop_token-Wakes c id role random now
  step-Wakes c (revokes_teleop_tokens id) h = inl refl
  step-Wakes c (assigns_recording n environment payload random) h =
      assign_recording-Wakes c n environment payload random
  step-Wakes c (stops_recording id) h = stop_teleop_recording-Wakes c id

remove_node-wakes : (c : Coordinator) (n : String) → (remove_node c n).0.wakes ≡ c.wakes
unfolding remove_node
remove_node-wakes c n = elim (Bool-cases (is_some (get n c.state.nodes))) [
  | inl h ↦ rw h refl
  | inr h ↦ rw h refl
]

-- A node that is removed while it has an assignment loses it, and no waiting poll is woken.
pub remove_node_wakes_nobody :
    (c : Coordinator) (n : String) (a : Assignment)
    → assigned c.state n ≡ some a
    → (assigned (remove_node c n).0.state n ≢ assigned c.state n)
      × ((remove_node c n).0.wakes ≡ c.wakes)
remove_node_wakes_nobody c n a e =
    let gone : assigned (remove_node c n).0.state n ≡ none =
      ap (λ s. assigned s n) (state-remove_node c n)
      ∙ assigned-without_node c.state n n
      ∙ if_pos (string_discrete n n) refl _ _ in
    (λ same. cc (gone, e, same), remove_node-wakes c n)
