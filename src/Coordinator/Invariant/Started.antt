-- ===== src/Coordinator/Invariant/Started.antt =====
-- What has been checked when `start_session` returns.
use interlatent.Base.{String, string_key, ◌≡◌, refl, true, Option, none, some, is_some, arith, not}
use interlatent.Base.Dict.{get}
use interlatent.Coordinator.Data.{
  Box, Session, Route, Assignment, Coordinator, Result, ok, ensure-eq-ok, or_raise-eq-ok,
  then-eq-ok, >>=-eq-ok,
}
use interlatent.Coordinator.Routing.{Registry, resolve, make_descriptor}
use interlatent.Coordinator.Nodes.{assigned}
use interlatent.Coordinator.Sessions.{
  StartParams, check_gpu_free, check_policy, make_session, install_session, start_session,
}

-- What `start_session` has checked when it returns, and what it returns.
pub record Started (registry : Registry) (c : Coordinator) (node_id gpu_name : String)
    (params : StartParams) (random : String) (d : Coordinator) (session : Session) : Type 0 where
  pub gpu : Box
  pub route : Route
  pub paired : is_some (get node_id c.state.nodes) ≡ true
  pub idle : assigned c.state node_id ≡ none
  pub registered : get gpu_name c.state.gpus ≡ some gpu
  pub free : check_gpu_free gpu_name c.state ≡ ok tt
  pub agreed : check_policy gpu gpu_name params ≡ ok tt
  pub routed : resolve registry (make_descriptor gpu.url gpu.method) ≡ ok route
  pub session_is : session ≡ make_session c.state node_id gpu_name params route random
  pub after : d ≡ install_session c session gpu

none_of_not : (o : Option Assignment) → not (is_some o) ≡ true → o ≡ none
none_of_not none h = refl
none_of_not (some a) h = cc

session_is :
    (a b : Coordinator) (x y : Session)
    → ◌≡◌ {A = Result (Coordinator × Session)} (ok (a, x)) (ok (b, y))
    → y ≡ x
session_is a b x y e = ground arith

after :
    (c : Coordinator) (gpu : Box) (b : Coordinator) (x y : Session)
    → ◌≡◌ {A = Result (Coordinator × Session)} (ok (install_session c x gpu, x)) (ok (b, y))
    → b ≡ install_session c y gpu
after c gpu b x y e = ground arith

pub start_session_ok :
    (registry : Registry) (c : Coordinator) (node_id gpu_name : String) (params : StartParams)
    (random : String) {d : Coordinator} {session : Session}
    → start_session registry c node_id gpu_name params random ≡ ok (d, session)
    → Started registry c node_id gpu_name params random d session
unfolding start_session
start_session_ok registry c node_id gpu_name params random e =
    let (paired, e1) = ensure-eq-ok _ _ _ e in
    let (idle, e2) = ensure-eq-ok _ _ _ e1 in
    let (gpu, registered, e3) = or_raise-eq-ok _ _ _ e2 in
    let (free, e4) = then-eq-ok _ _ e3 in
    let (agreed, e5) = then-eq-ok _ _ e4 in
    let (route, routed, e6) = >>=-eq-ok _ _ e5 in
    record {
      gpu = gpu;
      route = route;
      paired = paired;
      idle = none_of_not _ idle;
      registered = registered;
      free = free;
      agreed = agreed;
      routed = routed;
      session_is = session_is _ _ _ _ e6;
      after = after _ _ _ _ _ e6;
    }
