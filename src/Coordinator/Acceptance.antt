-- ===== src/Coordinator/Acceptance.antt =====
-- What `start_session` tests when it starts a session, and what a box's new name does to the check of one session a box.
use interlatent.Base.{
  ℕ, String, string_key, string_discrete, ◌≡◌, refl, sym, ◌∙◌, true, Option, none, some, is_some,
  ite, arith,
}
use interlatent.Base.Dict.{get, find_value}
use interlatent.Base.Dict.Laws.{get-put_self}
use interlatent.Coordinator.Data.{State, Box, Session, Route, inference, Coordinator, ok}
use interlatent.Coordinator.Routing.{Registry, resolve, make_descriptor}
use interlatent.Coordinator.Nodes.{assigned}
use interlatent.Coordinator.Boxes.{BoxPayload, enrol, box_record, has_box_id}
use interlatent.Coordinator.Credentials.{issue_key}
use interlatent.Coordinator.Sessions.{
  StartParams, check_gpu_free, check_policy, make_session, install_session, start_session,
}
use interlatent.Coordinator.Invariant.{assigned-put}
use interlatent.Coordinator.Invariant.Started.{start_session_ok}

-- What `start_session` asks for: a paired and idle node, a registered box that serves nobody and
-- whose warm policy may stay or be replaced, and a routing method that the process has.
pub record IsAcceptable (registry : Registry) (s : State) (node_id gpu_name : String)
    (params : StartParams) (gpu : Box) (route : Route) : Type 0 where
  pub paired : is_some (get node_id s.nodes) ≡ true
  pub idle : assigned s node_id ≡ none
  pub registered : get gpu_name s.gpus ≡ some gpu
  pub free : check_gpu_free gpu_name s ≡ ok tt
  pub agreed : check_policy gpu gpu_name params ≡ ok tt
  pub routed : resolve registry (make_descriptor gpu.url gpu.method) ≡ ok route

pub start_session_accepts :
    (registry : Registry) (c : Coordinator) (node_id gpu_name : String) (params : StartParams)
    (random : String) (gpu : Box) (route : Route)
    → IsAcceptable registry c.state node_id gpu_name params gpu route
    → let session = make_session c.state node_id gpu_name params route random in
      start_session registry c node_id gpu_name params random
      ≡ ok (install_session c session gpu, session)
unfolding start_session
start_session_accepts registry c node_id gpu_name params random gpu route a =
    rw (a.paired, a.idle, a.registered, a.free, a.agreed, a.routed)

pub start_session_needs :
    (registry : Registry) (c : Coordinator) (node_id gpu_name : String) (params : StartParams)
    (random : String) {d : Coordinator} {session : Session}
    → start_session registry c node_id gpu_name params random ≡ ok (d, session)
    → (gpu : Box) × (route : Route) × IsAcceptable registry c.state node_id gpu_name params gpu
        route
start_session_needs registry c node_id gpu_name params random e =
    let st = start_session_ok registry c node_id gpu_name params random e in
    (
      st.gpu,
      st.route,
      record {
        paired = st.paired;
        idle = st.idle;
        registered = st.registered;
        free = st.free;
        agreed = st.agreed;
        routed = st.routed;
      },
    )

assigned-install_session :
    (c : Coordinator) (x : Session) (gpu : Box) (n : String)
    → assigned (install_session c x gpu).state n
      ≡ ite (string_discrete x.node_id n) (some (inference x)) (assigned c.state n)
unfolding install_session assigned
assigned-install_session c x gpu n = assigned-put c.state x.node_id n (some (inference x))

make_session_fields :
    (s : State) (n g : String) (params : StartParams) (route : Route) (random : String)
    → ((make_session s n g params route random).node_id ≡ n)
      × ((make_session s n g params route random).gpu ≡ g)
unfolding make_session
make_session_fields s n g params route random = (refl, refl)

-- A second session beside one that is there.
start_beside :
    (registry : Registry) (d : Coordinator) (n m g : String) (x : Session) (params : StartParams)
    (random : String) (gpu : Box) (route : Route)
    → assigned d.state n ≡ some (inference x)
    → IsAcceptable registry d.state m g params gpu route
    → (e : Coordinator) × (y : Session) × (start_session registry d m g params random ≡ ok (e, y))
      × (assigned e.state n ≡ some (inference x))
      × (assigned e.state m ≡ some (inference y))
      × (y.gpu ≡ g)
start_beside registry d n m g x params random gpu route a v =
    let y = make_session d.state m g params route random in
    let fields = make_session_fields d.state m g params route random in
    (
      install_session d y gpu,
      y,
      start_session_accepts registry d m g params random gpu route v,
      beside y (make_session_fields d.state m g params route random).0,
      self y (make_session_fields d.state m g params route random).0,
      fields.1,
    )
  where
    beside :
        (y : Session)
        → y.node_id ≡ m
        → assigned (install_session d y gpu).state n ≡ some (inference x)
    beside y k = ground (arith, v.idle, assigned-install_session d y gpu n)

    self :
        (y : Session)
        → y.node_id ≡ m
        → assigned (install_session d y gpu).state m ≡ some (inference y)
    self y k = ground (arith, assigned-install_session d y gpu m)

module _ (sha256 : String → String) (c : Coordinator) (payload : BoxPayload)
    (box_id name random : String) (now : ℕ) where
  enrol_sessions :
      (k : String)
      → assigned (enrol sha256 c payload box_id name random now).0.state k ≡ assigned c.state k
  unfolding enrol issue_key assigned
  enrol_sessions k = refl

  enrol_free :
      check_gpu_free name (enrol sha256 c payload box_id name random now).0.state
      ≡ check_gpu_free name c.state
  unfolding enrol issue_key check_gpu_free
  enrol_free = refl

  enrol_nodes :
      (k : String)
      → get k (enrol sha256 c payload box_id name random now).0.state.nodes ≡ get k c.state.nodes
  unfolding enrol issue_key
  enrol_nodes k = refl

  enrol_box :
      get name (enrol sha256 c payload box_id name random now).0.state.gpus
      ≡ some (box_record payload box_id name (find_value (has_box_id box_id) c.state.gpus) now)
  unfolding enrol issue_key
  enrol_box = get-put_self _ _ _

box_record_id :
    (payload : BoxPayload) (box_id name : String) (existing : Option Box) (now : ℕ)
    → (box_record payload box_id name existing now).box_id ≡ box_id
unfolding box_record
box_record_id payload box_id name existing now = refl

-- A box that registers under another name while it serves a session is free under the new name: a
-- second node is given a session on the same box, and the first keeps its own.
pub rename_double_books :
    (sha256 : String → String) (registry : Registry) (c : Coordinator) (payload : BoxPayload)
    (box_id name random random' : String) (now : ℕ) (n m : String) (x : Session) (old : Box)
    (params : StartParams) (route : Route)
    → get x.gpu c.state.gpus ≡ some old
    → old.box_id ≡ box_id
    → assigned c.state n ≡ some (inference x)
    → check_gpu_free name c.state ≡ ok tt
    → is_some (get m c.state.nodes) ≡ true
    → assigned c.state m ≡ none
    → let gpu = box_record payload box_id name (find_value (has_box_id box_id) c.state.gpus) now in
      let d = (enrol sha256 c payload box_id name random now).0 in
      check_policy gpu name params ≡ ok tt
      → resolve registry (make_descriptor gpu.url gpu.method) ≡ ok route
      → (e : Coordinator) × (y : Session) × (start_session registry d m name params random'
          ≡ ok (e, y))
        × (assigned e.state n ≡ some (inference x))
        × (assigned e.state m ≡ some (inference y))
        × (get y.gpu d.state.gpus ≡ some gpu)
        × (gpu.box_id ≡ old.box_id)
rename_double_books sha256 registry c payload box_id name random random' now n m x old params route
      r b a f p i g q =
    let gpu = box_record payload box_id name (find_value (has_box_id box_id) c.state.gpus) now in
    let d = (enrol sha256 c payload box_id name random now).0 in
    let (e, y, starts, kept, given, named) =
      start_beside registry d n m name x params random' gpu route
        (enrol_sessions sha256 c payload box_id name random now n ∙ a)
        (record {
          paired = rw (enrol_nodes sha256 c payload box_id name random now m) p;
          idle = enrol_sessions sha256 c payload box_id name random now m ∙ i;
          registered = enrol_box sha256 c payload box_id name random now;
          free = enrol_free sha256 c payload box_id name random now ∙ f;
          agreed = g;
          routed = q;
        }) in
    (
      e,
      y,
      starts,
      kept,
      given,
      rw named (enrol_box sha256 c payload box_id name random now),
      box_record_id payload box_id name (find_value (has_box_id box_id) c.state.gpus) now ∙ sym b,
    )
