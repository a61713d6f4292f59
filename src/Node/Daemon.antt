-- ===== src/Node/Daemon.antt =====
-- node/daemon.py, `NodeDaemon`: the node's control loop follows the assignment that it polls. The
-- environment variable and the disk's pressure are read at each call, and are arguments; so is what
-- becomes of the connection. Threads are entries of a list of all loops that were started.
pub mod Tracking
pub mod Settling
mod Examples
use interlatent.Base.{
  ℕ, zero, suc, String, string_discrete, is_blank, or_else, Bool, true, false, not, ◌&&◌, ◌||◌,
  Option, none, some, List, [], ◌∷◌, ◌++◌, length, if◌then◌else◌, ite,
}

-- A session, or a recording, as the poll brings it; the addresses are empty where there is none.
pub record Payload : Type 0 where
  pub id : String
  pub drtc_endpoint : String
  pub route_address : String

-- A control loop that was started: `_ControlLoopHandle` and its thread.
pub record ControlLoopHandle : Type 0 where
  pub session_id : String
  pub endpoint : String
  pub policy_enabled : Bool
  pub stop_flag : Bool
  -- the thread has ended
  pub ended : Bool

pub record NodeDaemon : Type 0 where
  -- `cfg.drtc_url`
  pub drtc_url : String
  pub known_session_id : String
  pub known_endpoint : String
  pub active_endpoint : String
  -- the index of the active loop
  pub active : Option ℕ
  pub loops : List ControlLoopHandle

-- What becomes of a route: its method has no connector or gives no address, the connection raises,
-- or the loop runs.
pub data Connection : Type 0 where
  refused : Connection
  raises : Connection
  connects : Connection

unfoldable pub new_daemon : String → NodeDaemon
new_daemon drtc_url = record {
  drtc_url = drtc_url;
  known_session_id = "";
  known_endpoint = "";
  active_endpoint = "";
  active = none;
  loops = [];
}

-- `_resolve_endpoint`: the first address there is, of the environment, the stamped route, the
-- session and the configuration; empty if there is none.
unfoldable pub resolve_endpoint : String → Payload → NodeDaemon → String
resolve_endpoint env session d =
    or_else (some env)
      (or_else (some session.route_address) (or_else (some session.drtc_endpoint) d.drtc_url))

unfoldable pub same_id : String → String → Bool
same_id a b = ite (string_discrete a b) true false

unfoldable pub is_active : Option ℕ → Bool
is_active none = false
is_active (some i) = true

unfoldable pub stop_at : ℕ → List ControlLoopHandle → List ControlLoopHandle
stop_at i [] = []
stop_at zero (l ∷ ls) = record l { stop_flag = true } ∷ ls
stop_at (suc i) (l ∷ ls) = l ∷ stop_at i ls

unfoldable pub stop_active : Option ℕ → NodeDaemon → NodeDaemon
unfolding stop_at
stop_active none d = d
stop_active (some i) d = record d { active = none; loops = stop_at i d.loops }

-- `_stop_active_loop`: a thread that does not end in time stays, with its client closed.
unfoldable pub stop_active_loop : NodeDaemon → NodeDaemon
unfolding stop_active
stop_active_loop d = stop_active d.active d

unfoldable pub forget_assignment : NodeDaemon → NodeDaemon
forget_assignment d = record d { known_session_id = ""; known_endpoint = ""; active_endpoint = "" }

-- `_start_loop`; nothing if it raises. Without an address or a connector it returns, and no loop
-- runs.
unfoldable pub start_loop : String → Bool → Connection → Payload → NodeDaemon → Option NodeDaemon
unfolding resolve_endpoint
start_loop env is_recording refused session d = some d
start_loop env is_recording raises session d =
    if is_blank (resolve_endpoint env session d) then some d else none
start_loop env is_recording connects session d =
    if is_blank (resolve_endpoint env session d)
    then some d
    else some (record d {
      active = some (length d.loops);
      loops =
          d.loops
          ++ record {
            session_id = session.id;
            endpoint = resolve_endpoint env session d;
            policy_enabled = not is_recording;
            stop_flag = false;
            ended = false;
          }
            ∷ [];
    })

-- The part of `_converge` after the old loop is stopped.
unfoldable pub assign : String → Bool → Bool → Connection → Payload → NodeDaemon → NodeDaemon
unfolding start_loop forget_assignment
assign env pressure is_recording connection session d =
    if pressure
    then forget_assignment d
    else (elim (start_loop env is_recording connection session d) [
      | none ↦ forget_assignment d
      | some started ↦ record started {
        known_session_id = session.id;
        known_endpoint = session.drtc_endpoint;
        active_endpoint = resolve_endpoint env session d;
      }
    ])

-- `same_session and not endpoint_changed`
unfoldable pub is_same : String → Payload → NodeDaemon → Bool
unfolding same_id is_active
is_same env session d =
    same_id session.id d.known_session_id
    && is_active d.active
    && same_id (resolve_endpoint env session d) d.active_endpoint

-- `_converge`
unfoldable pub converge :
    String → Bool → Bool → Connection → Option Payload → NodeDaemon → NodeDaemon
unfolding is_same stop_active_loop assign
converge env pressure is_recording connection none d =
    if same_id "" d.known_session_id && is_active d.active && same_id "" d.active_endpoint
    then record d { known_endpoint = "" }
    else forget_assignment (stop_active_loop d)
converge env pressure is_recording connection (some session) d =
    if is_same env session d
    then record d { known_endpoint = session.drtc_endpoint }
    else assign env pressure is_recording connection session (stop_active_loop d)

-- The thread of a loop ends, by itself or by a crash: the daemon takes no notice.
unfoldable pub end_at : ℕ → List ControlLoopHandle → List ControlLoopHandle
end_at i [] = []
end_at zero (l ∷ ls) = record l { ended = true } ∷ ls
end_at (suc i) (l ∷ ls) = l ∷ end_at i ls

unfoldable pub thread_ends : ℕ → NodeDaemon → NodeDaemon
unfolding end_at
thread_ends i d = record d { loops = end_at i d.loops }
