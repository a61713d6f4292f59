-- ===== src/Coordinator/Examples.antt =====
-- Two nodes and a box: one node runs a session, a browser holds a token for it.
use interlatent.Base.{
  ℕ, ◌⊎◌, String, string_key, string_discrete, false, Option, none, some, List, [], ◌∷◌, ◌≡◌, ◌≢◌,
  ◌↔◌, refl, is_blank, strip,
}
use interlatent.Base.Json.{end}
use interlatent.Base.Dict.{get, put, drop_where, find_value}
use interlatent.Coordinator.Data.{
  Recording, teleop, Node, KeyRecord, node, Session, inference, State, missing, document,
  Coordinator, ok,
}
use interlatent.Coordinator.Routing.{builtin}
use interlatent.Coordinator.Data.{Document, unreadable}
use interlatent.Coordinator.Persistence.{initial, start, load, persist, dump}
use interlatent.Coordinator.Credentials.{identify, hash_key, issue_key}
use interlatent.Coordinator.Nodes.{assigned, bound_to_node, assignment_id, pair, remove_node}
use interlatent.Coordinator.Boxes.{BoxPayload}
use interlatent.Coordinator.Sessions.{has_id, StartParams, start_session}
use interlatent.Coordinator.Teleop.{
  RecordingPayload, assign_recording, mint_teleop_token, revoke_teleop_tokens, verify_teleop_token,
  record_token, accepted, is_role, knows_session,
}
use interlatent.Coordinator.Invariant.{IsConsistent}
use interlatent.Coordinator.History.{
  Call, pairs, registers_box, starts_session, removes_node, stops_all, assigns_recording, step, run,
  Undisturbed,
}
use interlatent.Coordinator.History.Consistency.{run-start-IsConsistent}
use interlatent.Coordinator.History.Durability.Restarts.{start-run}
use interlatent.Coordinator.History.Race.{assign_recording-remove_node}
use interlatent.Coordinator.History.Wakeups.{Wakes, step-Wakes, remove_node_wakes_nobody}
use interlatent.Coordinator.Crash.{
  Disk, IsOneOf, write_in_order, persist_writes, crash_all, crash_all-target,
}
use interlatent.Coordinator.Terms.{MayStart, start_session_iff}
use interlatent.Coordinator.Revocation.{identify-pair, identify-remove_node}
use interlatent.Coordinator.Tokens.{verify-mint, verify_unique, verify-revoke}

-- In place of the hash, which the statements do not look into.
abbrev sha : String → String
sha s = s

abbrev box_payload : BoxPayload
box_payload = record {
  box_id = some "b1";
  name = some "a100";
  endpoint = some "grpc://10.0.0.2:50051";
  method = none;
  gpu_model = none;
  gpu_count = some 1;
  vram_gb = some 80;
  provider = none;
  warmup_policy = none;
}

abbrev params : StartParams
params = record {
  policy = "lerobot/act";
  backend = none;
  task = some "stack";
  task_id = none;
  env_slug = none;
  fps = some 30;
  chunk_size = none;
  action_dim = some 6;
  synchronous = false;
  confirm_policy_change = false;
}

abbrev recording_payload : RecordingPayload
recording_payload = record {
  node_id = some "n2";
  node = none;
  environment_id = none;
  environment = none;
  task = some "pour";
  robot_kind = none;
}

abbrev calls : List Call
calls =
    pairs "hand" "n2" "k2" 3
    ∷ assigns_recording "node_n2" none recording_payload "t1"
    ∷ pairs "arm" "n1" "k1" 5
    ∷ registers_box box_payload "r1" 6
    ∷ starts_session "node_n1" "a100" params "s1"
    ∷ removes_node "node_n1"
    ∷ []

-- The recording's node is there when it is assigned.
calls-Undisturbed : Undisturbed sha builtin (start missing) calls
unfolding Undisturbed step pair start load issue_key put get persist initial string_discrete
calls-Undisturbed = (tt, (refl, (tt, (tt, (tt, (tt, tt))))))

abbrev session : Session
session = record {
  id = "s1";
  policy_uri = "lerobot/act";
  policy_backend = "";
  task = "stack";
  task_id = none;
  fps = 30;
  chunk_size = 50;
  action_dim = 6;
  synchronous = false;
  drtc_endpoint = "grpc://10.0.0.2:50051";
  route = record { method = "direct"; address = "grpc://10.0.0.2:50051" };
  environment_id = "";
  env_slug = "";
  recording = end;
  node_id = "n1";
  gpu = "a100";
  status = "running";
}

abbrev key_of : String → KeyRecord
key_of n = record { kind = node; node_id = some n; box_id = none; created = 1 }

abbrev node_of : String → Node
node_of n = record { id = n; name = n; token_hash = n; hardware = end; features = end }

abbrev serving : State
serving = record initial {
  keys = ("k1", key_of "n1") ∷ ("k2", key_of "n2") ∷ [];
  nodes = ("n1", node_of "n1") ∷ ("n2", node_of "n2") ∷ [];
  sessions = ("n1", some (inference session)) ∷ [];
}

abbrev coordinator : Coordinator
coordinator = record {
  state = serving;
  file = document (dump serving);
  last_seen = [];
  telemetry = [];
  wakes = 0;
}

run-start-IsConsistent_example : IsConsistent (run sha builtin (start missing) calls).state
run-start-IsConsistent_example = run-start-IsConsistent sha builtin calls calls-Undisturbed

start-run_example :
    (start (run sha builtin (start missing) calls).file).state
    ≡ (run sha builtin (start missing) calls).state
start-run_example = start-run sha builtin calls calls-Undisturbed

assign_recording-remove_node_example :
    (e : Coordinator) × (r : Recording) × (assign_recording
        (remove_node coordinator "n2").0
        "n2"
        none
        recording_payload
        "t1"
      ≡ ok (e, r))
    × (get "n2" e.state.nodes ≡ none)
    × (assigned e.state "n2" ≡ some (teleop r))
    × (assigned (remove_node e "n2").0.state "n2" ≡ none)
    × (assigned (start (remove_node e "n2").0.file).state "n2" ≡ some (teleop r))
assign_recording-remove_node_example =
    assign_recording-remove_node coordinator "n2" none recording_payload "t1"

start_session_iff_example :
    ((d : Coordinator) × (s : Session) × (start_session builtin coordinator "n2" "a100" params "s2"
        ≡ ok (d, s)))
    ↔ MayStart builtin coordinator.state "n2" "a100" params
start_session_iff_example = start_session_iff builtin coordinator "n2" "a100" params "s2"

identify-pair_example :
    identify sha
      (pair sha coordinator "arm" "n3" "k3" 7).0
      (pair sha coordinator "arm" "n3" "k3" 7).2
    ≡ some (record {
      kind = node;
      node_id = some (pair sha coordinator "arm" "n3" "k3" 7).1;
      box_id = none;
    })
identify-pair_example = identify-pair sha coordinator "arm" "n3" "k3" 7

identify-remove_node_example : ◌≢◌ {A = Option String} (some "n2") (some "n1")
unfolding identify remove_node hash_key get string_discrete is_blank drop_where bound_to_node strip
identify-remove_node_example =
    identify-remove_node sha coordinator "n1" "k2"
      (record { kind = node; node_id = some "n2"; box_id = none }) refl

remove_node_wakes_nobody_example :
    (assigned (remove_node coordinator "n1").0.state "n1" ≢ assigned coordinator.state "n1")
    × ((remove_node coordinator "n1").0.wakes ≡ coordinator.wakes)
unfolding assigned get string_discrete
remove_node_wakes_nobody_example =
    remove_node_wakes_nobody coordinator "n1" (inference session) refl

step-Wakes_example : Wakes coordinator (step sha builtin coordinator stops_all)
step-Wakes_example = step-Wakes sha builtin coordinator stops_all (λ n e. cc)

verify-mint_example :
    (d : Coordinator) × (token : String) × (mint_teleop_token sha coordinator "s1" "browser" "t" 9
      ≡ ok (d, some token))
    × (verify_teleop_token sha d token "s1" "browser" ≡ accepted)
unfolding is_role knows_session string_discrete find_value has_id assignment_id
verify-mint_example = verify-mint sha coordinator "s1" "browser" "t" 9 refl refl

abbrev with_token : Coordinator
with_token = record_token sha coordinator "iltel_t" "s1" "browser" 9

verify_unique_example : (◌≡◌ {A = String} "s1" "s1") × (◌≡◌ {A = String} "browser" "browser")
unfolding record_token verify_teleop_token hash_key get put string_discrete is_blank initial strip
verify_unique_example =
    verify_unique sha with_token "iltel_t" "s1" "browser" "s1" "browser" refl refl

verify-revoke_example :
    verify_teleop_token sha (revoke_teleop_tokens with_token "s1") "iltel_t" "s1" "browser"
    ≢ accepted
verify-revoke_example = verify-revoke sha with_token "iltel_t" "s1" "browser"

-- The temporary file is there, and the first attempt stops before it is renamed.
abbrev old_disk : Disk
old_disk = record { tmp = unreadable; target = document (dump initial) }

abbrev attempts : List (Document × ℕ)
attempts = (dump serving, 2) ∷ (dump serving, 1) ∷ []

crash_all-target_example :
    (((crash_all old_disk attempts).target ≡ old_disk.target)
      ⊎ IsOneOf (crash_all old_disk attempts).target attempts)
    × ((write_in_order
          (crash_all old_disk attempts)
          (persist_writes (dump coordinator.state))).target
        ≡ (persist coordinator).file)
crash_all-target_example = crash_all-target old_disk attempts coordinator
