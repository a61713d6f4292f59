-- ===== src/Coordinator/Poll.antt =====
-- state.py, `poll`: the node's long poll, as a loop over what it sees each time it wakes.
use interlatent.Base.{
  ℕ, String, string_discrete, Bool, true, false, not, ◌||◌, Option, none, some, List, [], ◌∷◌, leb,
  if◌then◌else◌, ite, ◌+◌,
}
use interlatent.Base.Dict.{put}
use interlatent.Base.{string_key}
use interlatent.Coordinator.Data.{
  Session, Recording, Assignment, inference, teleop, Coordinator, State,
}
use interlatent.Coordinator.Nodes.{assigned, assignment_id}

-- The typed part of the answer; the flat part is the assignment itself.
pub data Typed : Type 0 where
  none_assigned : Typed
  run_session : Session → Typed
  run_recording : Recording → Typed

pub record Envelope : Type 0 where
  pub changed : Bool
  pub session : Option Assignment
  pub assignment : Typed

unfoldable pub typed : Option Assignment → Typed
typed none = none_assigned
typed (some (inference s)) = run_session s
typed (some (teleop r)) = run_recording r

unfoldable pub assignment_envelope : Bool → Option Assignment → Envelope
unfolding typed
assignment_envelope changed desired = record {
  changed = changed;
  session = desired;
  assignment = typed desired;
}

unfoldable pub desired_id : Option Assignment → String
desired_id none = ""
desired_id (some a) = assignment_id a

-- A teleop recording has no "drtc_endpoint".
unfoldable pub desired_endpoint : Option Assignment → String
desired_endpoint none = ""
desired_endpoint (some (inference s)) = s.drtc_endpoint
desired_endpoint (some (teleop r)) = ""

unfoldable pub has_changed : String → String → Option Assignment → Bool
has_changed known_session_id known_endpoint desired =
    not (ite (string_discrete known_session_id (desired_id desired)) true false)
    || not (ite (string_discrete known_endpoint (desired_endpoint desired)) true false)

-- What one round of the loop sees: the state under the lock, and the time after.
pub record Sight : Type 0 where
  pub state : State
  pub time : ℕ

-- `none`: the rounds that are listed do not end the call.
unfoldable pub poll_loop : String → String → String → ℕ → List Sight → Option Envelope
poll_loop node_id known_session_id known_endpoint deadline [] = none
poll_loop node_id known_session_id known_endpoint deadline (sight ∷ later) =
    let desired = assigned sight.state node_id in
    let changed = has_changed known_session_id known_endpoint desired in
    let waited = poll_loop node_id known_session_id known_endpoint deadline later in
    if changed || leb deadline sight.time
    then some (assignment_envelope changed desired)
    else waited

-- `poll`, called at `now` with `wait` milliseconds to spend; it marks the node as seen.
unfoldable pub poll :
    Coordinator → String → String → String → ℕ → ℕ → List Sight → Coordinator × Option Envelope
poll c node_id known_session_id known_endpoint wait now sights = (
  record c { last_seen = put node_id now c.last_seen },
  poll_loop node_id known_session_id known_endpoint (now + wait) sights,
)
