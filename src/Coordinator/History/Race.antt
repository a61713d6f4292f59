-- ===== src/Coordinator/History/Race.antt =====
-- What happens if a node is removed between the locked parts of `create_teleop_recording`.
use interlatent.Base.{
  String, string_key, string_discrete, ◌≡◌, refl, ◌∙◌, ap, true, false, Option, none, some, is_some,
  arith, Bool-cases, inl, inr, if_pos, not, if◌then◌else◌,
}
use interlatent.Base.Dict.{get, put, remove, get-remove}
use interlatent.Coordinator.Data.{Coordinator, State, Environment, Recording, teleop, ok}
use interlatent.Coordinator.Persistence.{start}
use interlatent.Coordinator.Nodes.{assigned, remove_node}
use interlatent.Coordinator.Teleop.{
  RecordingPayload, make_recording, install_recording, assign_recording,
}
use interlatent.Coordinator.Invariant.{assigned-put}
use interlatent.Coordinator.Invariant.Operations.{
  without_node, state-remove_node, assigned-without_node,
}
use interlatent.Coordinator.History.Durability.{load-dump}

-- The node's own entry is gone.
node-without_node : (s : State) (n : String) → get n (without_node s n).nodes ≡ none
unfolding without_node
node-without_node s n = ground (arith, get-remove n n s.nodes)

assigned-install_recording :
    (c : Coordinator) (r : Recording)
    → assigned (install_recording c r).state r.node_id ≡ some (teleop r)
unfolding install_recording interlatent.Base.Dict.put assigned
assigned-install_recording c r =
    assigned-put c.state r.node_id r.node_id (some (teleop r))
    ∙ if_pos (string_discrete r.node_id r.node_id) refl _ _

start-install_recording :
    (c : Coordinator) (r : Recording)
    → (start (install_recording c r).file).state ≡ (install_recording c r).state
unfolding install_recording start
start-install_recording c r = load-dump _

nodes-install_recording :
    (c : Coordinator) (r : Recording) → (install_recording c r).state.nodes ≡ c.state.nodes
unfolding install_recording
nodes-install_recording c r = refl

assign_recording-idle :
    (c : Coordinator) (n : String) (environment : Option Environment) (payload : RecordingPayload)
    (random : String)
    → assigned c.state n ≡ none
    → let recording = make_recording c.state n environment payload random in
      assign_recording c n environment payload random
      ≡ ok (install_recording c recording, recording)
unfolding assign_recording
assign_recording-idle c n environment payload random e = rw e refl

-- Removing a node that is not there leaves the file.
file-remove_node :
    (c : Coordinator) (n : String) → get n c.state.nodes ≡ none → (remove_node c n).0.file ≡ c.file
unfolding remove_node
file-remove_node c n e = rw e refl

assigned-make_recording :
    (d : Coordinator) (n : String) (environment : Option Environment) (payload : RecordingPayload)
    (random : String)
    → let r = make_recording d.state n environment payload random in
      assigned (install_recording d r).state n ≡ some (teleop r)
unfolding make_recording
assigned-make_recording d n environment payload random =
    assigned-install_recording d (make_recording d.state n environment payload random)

-- A node that is removed after `create_teleop_recording` has found it is assigned the recording,
-- although it is not paired. If it is removed once more then the assignment is gone from the memory,
-- but a coordinator that starts from the state file has it again.
pub assign_recording-remove_node :
    (c : Coordinator) (n : String) (environment : Option Environment) (payload : RecordingPayload)
    (random : String)
    → (e : Coordinator) × (r : Recording) × (assign_recording
          (remove_node c n).0
          n
          environment
          payload
          random
        ≡ ok (e, r))
      × (get n e.state.nodes ≡ none)
      × (assigned e.state n ≡ some (teleop r))
      × (assigned (remove_node e n).0.state n ≡ none)
      × (assigned (start (remove_node e n).0.file).state n ≡ some (teleop r))
assign_recording-remove_node c n environment payload random =
    let d = (remove_node c n).0 in
    let r = make_recording d.state n environment payload random in
    let e = install_recording d r in
    let unpaired : get n e.state.nodes ≡ none =
      ap (get n) (nodes-install_recording d r) ∙ removed_node c n in
    let given = assigned-make_recording d n environment payload random in
    (
      e,
      r,
      assign_recording-idle d n environment payload random (removed_assignment c n),
      unpaired,
      given,
      removed_assignment e n,
      ap (λ f. assigned (start f).state n) (file-remove_node e n unpaired)
          ∙ ap (λ s. assigned s n) (start-install_recording d r)
          ∙ given,
    )
  where
    removed_node : (c : Coordinator) (n : String) → get n (remove_node c n).0.state.nodes ≡ none
    removed_node c n = ap (λ s. get n s.nodes) (state-remove_node c n) ∙ node-without_node c.state n

    removed_assignment :
        (c : Coordinator) (n : String) → assigned (remove_node c n).0.state n ≡ none
    removed_assignment c n =
        ap (λ s. assigned s n) (state-remove_node c n)
        ∙ assigned-without_node c.state n n
        ∙ if_pos (string_discrete n n) refl _ _
