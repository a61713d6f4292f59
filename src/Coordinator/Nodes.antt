-- ===== src/Coordinator/Nodes.antt =====
-- state.py, the node plane and the operator's view of the nodes.
use Prim.Native.String.{◌++◌ as ◌++ˢ◌}
use interlatent.Base.{
  ℕ, String, string_key, string_discrete, Bool, true, false, ◌&&◌, Option, none, some, List, [],
  ◌∷◌, map, leb, ltb, ◌+◌, ◌-◌, if◌then◌else◌, ite, is_some, or_else, get_or,
}
use interlatent.Base.Dict.{Dict, get, put, remove, drop_where, values}
use interlatent.Base.Json.{Json, Fields, end, field, obj, get_field}
use interlatent.Coordinator.Data.{
  node, KeyRecord, Node, Coordinator, State, Assignment, inference, teleop,
}
use interlatent.Coordinator.Persistence.{persist}
use interlatent.Coordinator.Credentials.{hash_key, issue_key, with_state}

abbrev pub live_window : ℕ
live_window = 30000

-- `self._state["sessions"].get(node_id)`: a node without an entry and one with `None` are alike.
unfoldable pub assigned : State → String → Option Assignment
assigned s node_id = elim (get node_id s.sessions) [ none ↦ none | some a ↦ a ]

unfoldable pub assignment_id : Assignment → String
assignment_id (inference s) = s.id
assignment_id (teleop r) = r.id

-- Is a credential bound to this node?
unfoldable pub bound_to_node : String → KeyRecord → Bool
bound_to_node node_id r = elim r.node_id [
  | none ↦ false
  | some id ↦ ite (string_discrete id node_id) true false
]

module _ (sha256 : String → String) where
  -- `pair`: the coordinator, the node's id and its token. The two random texts are arguments.
  unfoldable pub pair : Coordinator → String → String → String → ℕ → Coordinator × String × String
  unfolding persist
  pair c name random_id random_key now =
      let node_id = ◌++ˢ◌ "node_" random_id in
      let (s, token) = issue_key sha256 c.state node (some node_id) none random_key now in
      let entry : Node = record {
        id = node_id;
        name = or_else (some name) node_id;
        token_hash = hash_key sha256 token;
        hardware = end;
        features = end;
      } in
      (
        persist (record c {
          state = record s { nodes = put node_id entry s.nodes };
          last_seen = put node_id now c.last_seen;
        }),
        node_id,
        token,
      )

-- `if payload:`; an empty dict is falsy.
telemetry_after : String → Fields → Dict String Fields → Dict String Fields
telemetry_after node_id end telemetry = telemetry
telemetry_after node_id (field k v rest) telemetry = put node_id (field k v rest) telemetry

unfoldable pub heartbeat : Coordinator → String → Fields → ℕ → Coordinator
unfolding telemetry_after
heartbeat c node_id payload now = record c {
  last_seen = put node_id now c.last_seen;
  telemetry = telemetry_after node_id payload c.telemetry;
}

unfoldable pub telemetry_of : Coordinator → String → Fields
telemetry_of c node_id = get_or (get node_id c.telemetry) end

-- An assignment to a field of a node that is there, followed by `_persist`.
unfoldable pub set_node : (Node → Node) → Coordinator → String → Coordinator
unfolding persist
set_node change c node_id = elim (get node_id c.state.nodes) [
  | none ↦ c
  | some n ↦ persist (with_state c (record s { nodes = put node_id (change n) s.nodes }))
]
  where
    s : State
    s = c.state

unfoldable pub set_hardware : Coordinator → String → Fields → Coordinator
unfolding set_node
set_hardware c node_id payload = set_node (λ n. record n { hardware = payload }) c node_id

unfoldable pub set_features : Coordinator → String → Fields → Coordinator
unfolding set_node
set_features c node_id payload = set_node (λ n. record n { features = payload }) c node_id

-- `bool(last and (now - last) <= _LIVE_WINDOW_S)`: a time of zero is falsy.
unfoldable pub is_live : Option ℕ → ℕ → Bool
is_live none now = false
is_live (some last) now = ltb 0 last && leb now (last + live_window)

-- A row of `list_nodes`.
pub record NodeView : Type 0 where
  pub id : String
  pub name : String
  pub hardware : Fields
  pub robot_type : Option Json
  pub last_seen_age : Option ℕ
  pub live : Bool
  pub online : Bool
  pub busy : Bool
  pub current_session_id : Option String
  pub status : String
  pub recording : Json

-- A clock that has gone back shows the age 0, where the source shows a negative one.
age : Option ℕ → ℕ → Option ℕ
age none now = none
age (some last) now = if ltb 0 last then some (now - last) else none

unfoldable pub node_view : Coordinator → ℕ → Node → NodeView
unfolding age telemetry_of
node_view c now n = record {
  id = n.id;
  name = n.name;
  hardware = n.hardware;
  robot_type = get_field "robot_type" n.hardware;
  last_seen_age = age (get n.id c.last_seen) now;
  live = is_live (get n.id c.last_seen) now;
  online = is_live (get n.id c.last_seen) now;
  busy = is_some (assigned c.state n.id);
  current_session_id = elim (assigned c.state n.id) [
    | none ↦ none
    | some a ↦ some (assignment_id a)
  ];
  status = if is_live (get n.id c.last_seen) now then "online" else "offline";
  recording = get_or (get_field "recording" (telemetry_of c n.id)) (obj end);
}

pub list_nodes : Coordinator → ℕ → List NodeView
list_nodes c now = map (node_view c now) (values c.state.nodes)

-- `remove_node`: writes the file only if the node was there, and wakes nobody.
unfoldable pub remove_node : Coordinator → String → Coordinator × Bool
unfolding persist
remove_node c node_id =
    let s = c.state in
    let existed = is_some (get node_id s.nodes) in
    let after = record c {
      state = record s {
        nodes = remove node_id s.nodes;
        sessions = remove node_id s.sessions;
        keys = drop_where (bound_to_node node_id) s.keys;
      };
      last_seen = remove node_id c.last_seen;
      telemetry = remove node_id c.telemetry;
    } in
    (if existed then persist after else after, existed)

-- The ids of the nodes of one name, among those that pass a test.
unfoldable pub ids_named : String → (Node → Bool) → List Node → List String
ids_named ref test [] = []
ids_named ref test (n ∷ ns) =
    let rest = ids_named ref test ns in
    if ite (string_discrete n.name ref) true false && test n then n.id ∷ rest else rest

-- `xs[0] if len(xs) == 1`
abbrev pub only : List String → Option String
only [] = none
only (x ∷ []) = some x
only (x ∷ y ∷ rest) = none

unfoldable pub resolve_node : Coordinator → String → ℕ → Option String
unfolding ids_named
resolve_node c ref now =
    let ns = values c.state.nodes in
    let by_live = only (ids_named ref (λ n. is_live (get n.id c.last_seen) now) ns) in
    let by_name = only (ids_named ref (λ _. true) ns) in
    if is_some (get ref c.state.nodes)
    then some ref
    else elim by_live [ some id ↦ some id | none ↦ by_name ]
