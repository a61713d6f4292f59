-- ===== src/Coordinator/History/Durability.antt =====
-- What it is for the state file to hold the state, and the methods that leave what they do not find.
pub mod Methods
pub mod Restarts
use interlatent.Base.{
  ℕ, String, string_key, string_discrete, ◌≡◌, refl, sym, ◌∙◌, Bool, true, false, Option, none,
  some, List, [], ◌∷◌, is_some, arith, Option-cases, Bool-cases, inl, inr, strip, or_else, is_blank,
  not, if◌then◌else◌,
}
use interlatent.Base.Json.{Fields}
use interlatent.Base.Dict.{Dict, get, find_value, find_key}
use interlatent.Coordinator.Data.{
  Node, KeyRecord, Coordinator, State, Result, ok, err, missing, document, ensure, ◌>>◌, ◌>>=◌,
}
use interlatent.Coordinator.Routing.{Registry}
use interlatent.Coordinator.Persistence.{start, load, dump, initial, persist, update}
use interlatent.Coordinator.Nodes.{
  assigned, heartbeat, pair, set_hardware, set_features, set_node, remove_node, bound_to_node,
}
use interlatent.Coordinator.Boxes.{
  BoxPayload, register_box, set_box_status, add_gpu, remove_gpu, has_box_id,
}
use interlatent.Coordinator.Environments.{EnvironmentPayload, create_environment, set_destination}
use interlatent.Coordinator.Teleop.{
  mint_teleop_token, revoke_teleop_tokens, assign_recording, knows_session, is_role,
  stop_teleop_recording, assign_recording, install_recording, RecordingPayload,
}
use interlatent.Coordinator.Sessions.{
  start_session, install_session, stop_session, stop_all, assigned_ids, has_id, StartParams,
}
use interlatent.Coordinator.Invariant.{IsConsistent, keep_all}
use interlatent.Coordinator.Invariant.Operations.{
  register_operator_key-IsConsistent, pair-IsConsistent, enrol-IsConsistent,
  set_hardware-IsConsistent, set_features-IsConsistent, remove_node-IsConsistent,
}
use interlatent.Coordinator.Invariant.Assigning.{
  start_session-IsConsistent, stop_session-IsConsistent, stop_all-IsConsistent,
}
use interlatent.Coordinator.Invariant.Recordings.{
  assign_recording-IsConsistent, stop_teleop_recording-IsConsistent,
}
use interlatent.Coordinator.Credentials.{register_operator_key}
use interlatent.Coordinator.Invariant.Started.{start_session_ok}
use interlatent.Coordinator.Invariant.Recordings.{assign_recording_ok}
use interlatent.Coordinator.History.Consistency.{step-IsConsistent, initial-IsConsistent}
use interlatent.Base.Dict.Laws.{Each, Each-implies, remove_absent, drop_where_none}
use interlatent.Coordinator.Invariant.Operations.{without_node}
use interlatent.Coordinator.Invariant.{OfPaired}
use interlatent.Coordinator.History.{
  Call, register_operator_keys, pairs, heartbeats, polls, sets_hardware, sets_features,
  removes_node, registers_box, sets_box_status, adds_gpu, removes_gpu, creates_environment,
  sets_destination, starts_session, stops_session, stops_all, mints_teleop_token,
  revokes_teleop_tokens, assigns_recording, stops_recording, after, step, run,
}

-- What the state file holds is the state in memory.
abbrev pub IsDurable : Coordinator → Type 0
IsDurable c = load c.file ≡ c.state

-- A document that is written and read back gives the state.
pub load-dump : (s : State) → load (document (dump s)) ≡ s
unfolding load dump update
load-dump s = refl

pub after_result :
    {A : Type 0} (f : A → Coordinator) (c : Coordinator) (r : Result A)
    → IsDurable c
    → ((a : A) → r ≡ ok a → IsDurable (f a))
    → IsDurable (after f c r)
after_result f c (ok a) p h = h a refl
after_result f c (err e) p h = p

pub set_node-IsDurable :
    (change : Node → Node) (c : Coordinator) (n : String)
    → IsDurable c
    → IsDurable (set_node change c n)
unfolding set_node
set_node-IsDurable change c n d = elim (Option-cases (get n c.state.nodes)) [
  | inl e ↦ rw (e, set_node) d
  | inr (x, e) ↦ rw (e, set_node) (load-dump _)
]

pub none_of : {A : Type 0} (o : Option A) → is_some o ≡ false → o ≡ none
none_of none h = refl
none_of (some a) h = cc

pub unbound :
    (nodes : Dict String Node) (n : String) (r : KeyRecord)
    → ((m : String) → r.node_id ≡ some m → is_some (get m nodes) ≡ true)
    → is_some (get n nodes) ≡ false
    → bound_to_node n r ≡ false
unfolding bound_to_node
unbound nodes n r p h = ground (arith, p n)

-- A node that is not there has no assignment and no credential to take away.
pub nothing_to_remove :
    (s : State) (n : String)
    → IsConsistent s
    → is_some (get n s.nodes) ≡ false
    → without_node s n ≡ s
unfolding without_node
nothing_to_remove s n v h =
    let no_node = remove_absent n s.nodes (none_of _ h) in
    let no_entry = remove_absent n s.sessions (no_session n v h) in
    let no_key = drop_where_none (bound_to_node n) s.keys (no_credential n v h) in
    rw (no_node, no_entry, no_key)
  where
    no_session :
        (n : String) → IsConsistent s → is_some (get n s.nodes) ≡ false → get n s.sessions ≡ none
    no_session n v h = elim (Option-cases (get n s.sessions)) [
      | inl e ↦ e
      | inr (x, e) ↦ cc (v.known n x e)
    ]

    no_credential :
        (n : String)
        → IsConsistent s
        → is_some (get n s.nodes) ≡ false
        → Each (λ d r. bound_to_node n r ≡ false) s.keys
    no_credential n v h =
        Each-implies (OfPaired s.nodes) _ s.keys (λ d r p. unbound s.nodes n r p h) v.paired

pub remove_node-IsDurable :
    (c : Coordinator) (n : String)
    → IsConsistent c.state
    → IsDurable c
    → IsDurable (remove_node c n).0
unfolding remove_node without_node
remove_node-IsDurable c n v d = elim (Bool-cases (is_some (get n c.state.nodes))) [
  | inl e ↦ rw e (load-dump _)
  | inr e ↦ rw e (d ∙ sym (nothing_to_remove c.state n v e))
]
