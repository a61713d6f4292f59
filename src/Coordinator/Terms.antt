-- ===== src/Coordinator/Terms.antt =====
-- The terms on which `start_session` starts a session, without the functions that test them.
use interlatent.Base.{
  String, string_key, strip, is_blank, ◌≡◌, ◌≢◌, refl, true, false, Option, none, some, [], ◌∷◌,
  is_some, arith, ◌↔◌, ◌⊎◌, inl, inr, Bool-cases, Option-cases,
}
use interlatent.Base.Dict.{Dict, get, find_value}
use interlatent.Base.Dict.Laws.{Each, find_value-some}
use interlatent.Coordinator.Data.{
  State, Box, Session, Route, Assignment, inference, teleop, Coordinator, ok,
}
use interlatent.Coordinator.Routing.{Registry, Method, resolve, make_descriptor}
use interlatent.Coordinator.Nodes.{assigned}
use interlatent.Coordinator.Sessions.{
  StartParams, uses_gpu, check_gpu_free, check_policy, start_session,
}
use interlatent.Coordinator.Acceptance.{start_session_accepts, start_session_needs}

-- The entry is no session on the box.
abbrev pub LeavesFree : String → Option Assignment → Type 0
LeavesFree gpu_name none = Unit
LeavesFree gpu_name (some (teleop r)) = Unit
LeavesFree gpu_name (some (inference x)) = x.gpu ≢ gpu_name

-- A paired and idle node, a registered box that no session names, whose warm policy is none, the one
-- asked for, or may be replaced, and a routing method that the process has, which gives the route.
pub record MayStart (registry : Registry) (s : State) (node_id gpu_name : String)
    (params : StartParams) : Type 0 where
  pub gpu : Box
  pub method : Method
  pub paired : is_some (get node_id s.nodes) ≡ true
  pub idle : assigned s node_id ≡ none
  pub registered : get gpu_name s.gpus ≡ some gpu
  pub unserved : Each (λ k a. LeavesFree gpu_name a) s.sessions
  pub agreed :
      (is_blank (strip gpu.warm_policy) ≡ true)
      ⊎ ((params.policy ≡ strip gpu.warm_policy) ⊎ (params.confirm_policy_change ≡ true))
  pub known : get gpu.method registry ≡ some method

free-uses_gpu : (g : String) (a : Option Assignment) → uses_gpu g a ≡ false → LeavesFree g a
unfolding uses_gpu
free-uses_gpu g none e = tt
free-uses_gpu g (some (teleop r)) e = tt
free-uses_gpu g (some (inference x)) e = λ p. ground (arith, e, p)

uses_gpu-free : (g : String) (a : Option Assignment) → LeavesFree g a → uses_gpu g a ≡ false
unfolding uses_gpu
uses_gpu-free g none h = refl
uses_gpu-free g (some (teleop r)) h = refl
uses_gpu-free g (some (inference x)) h = ground (arith, h)

unserved-find_value :
    (g : String) (d : Dict String (Option Assignment))
    → find_value (uses_gpu g) d ≡ none
    → Each (λ k a. LeavesFree g a) d
unfolding find_value
unserved-find_value g [] e = tt
unserved-find_value g ((k, a) ∷ d) e = elim (Bool-cases (uses_gpu g a)) [
  | inl u ↦ ground (arith, e, u)
  | inr u ↦ (free-uses_gpu g a u, unserved-find_value g d (ground (arith, e, u)))
]

find_value-unserved :
    (g : String) (d : Dict String (Option Assignment))
    → Each (λ k a. LeavesFree g a) d
    → find_value (uses_gpu g) d ≡ none
unfolding find_value
find_value-unserved g [] h = refl
find_value-unserved g ((k, a) ∷ d) h =
    ground (arith, uses_gpu-free g a h.0, find_value-unserved g d h.1)

found_busy :
    (g : String) (s : State) (a : Option Assignment)
    → find_value (uses_gpu g) s.sessions ≡ some a
    → uses_gpu g a ≡ true
found_busy g s a e = find_value-some (uses_gpu g) a s.sessions e

check_gpu_free-unserved :
    (g : String) (s : State) → check_gpu_free g s ≡ ok tt → Each (λ k a. LeavesFree g a) s.sessions
unfolding check_gpu_free uses_gpu
check_gpu_free-unserved g s e = elim (Option-cases (find_value (uses_gpu g) s.sessions)) [
  | inl f ↦ unserved-find_value g s.sessions f
  | inr (a, f) ↦ absurd (refuses a f (found_busy g s a f))
]
  where
    refuses :
        (a : Option Assignment)
        → find_value (uses_gpu g) s.sessions ≡ some a
        → uses_gpu g a ≡ true
        → ⊥
    refuses none f u = cc u
    refuses (some x) f u = ground (arith, e, f)

unserved-check_gpu_free :
    (g : String) (s : State) → Each (λ k a. LeavesFree g a) s.sessions → check_gpu_free g s ≡ ok tt
unfolding check_gpu_free
unserved-check_gpu_free g s h = rw (find_value-unserved g s.sessions h, check_gpu_free) refl

policy_agreed :
    (gpu : Box) (g : String) (params : StartParams)
    → check_policy gpu g params ≡ ok tt
    → (is_blank (strip gpu.warm_policy) ≡ true)
      ⊎ ((params.policy ≡ strip gpu.warm_policy) ⊎ (params.confirm_policy_change ≡ true))
unfolding check_policy
policy_agreed gpu g params e = ground (arith, e)

agreed_policy :
    (gpu : Box) (g : String) (params : StartParams)
    → (is_blank (strip gpu.warm_policy) ≡ true)
      ⊎ ((params.policy ≡ strip gpu.warm_policy) ⊎ (params.confirm_policy_change ≡ true))
    → check_policy gpu g params ≡ ok tt
unfolding check_policy
agreed_policy gpu g params h = ground (arith, h)

resolve-known :
    (registry : Registry) (gpu : Box) (route : Route)
    → resolve registry (make_descriptor gpu.url gpu.method) ≡ ok route
    → (m : Method) × (get gpu.method registry ≡ some m)
unfolding resolve make_descriptor
resolve-known registry gpu route e = elim (Option-cases (get gpu.method registry)) [
  | inl f ↦ ground (arith, e, f)
  | inr (m, f) ↦ (m, f)
]

known-resolve :
    (registry : Registry) (gpu : Box) (m : Method)
    → get gpu.method registry ≡ some m
    → resolve registry (make_descriptor gpu.url gpu.method)
      ≡ ok (m.resolver (record { method = gpu.method; address = gpu.url }))
unfolding resolve make_descriptor
known-resolve registry gpu m e = rw (e, resolve) refl

-- `start_session` starts a session exactly if the node is paired and idle, the box is registered and
-- no session names it, its warm policy is blank, the one asked for, or may be replaced, and its
-- routing method is registered.
pub start_session_iff :
    (registry : Registry) (c : Coordinator) (node_id gpu_name : String) (params : StartParams)
    (random : String)
    → ((d : Coordinator) × (session : Session) × (start_session registry c node_id gpu_name params
            random
          ≡ ok (d, session)))
      ↔ MayStart registry c.state node_id gpu_name params
start_session_iff registry c node_id gpu_name params random = (
  (λ (d, session, e).
      let (gpu, route, a) = start_session_needs registry c node_id gpu_name params random e in
      let (m, known) = resolve-known registry gpu route a.routed in
      record {
        gpu = gpu;
        method = m;
        paired = a.paired;
        idle = a.idle;
        registered = a.registered;
        unserved = check_gpu_free-unserved gpu_name c.state a.free;
        agreed = policy_agreed gpu gpu_name params a.agreed;
        known = known;
      }),
  (λ h. (
    _,
    _,
    start_session_accepts registry c node_id gpu_name params random h.gpu
        (h.method.resolver (record { method = h.gpu.method; address = h.gpu.url }))
        (record {
          paired = h.paired;
          idle = h.idle;
          registered = h.registered;
          free = unserved-check_gpu_free gpu_name c.state h.unserved;
          agreed = agreed_policy h.gpu gpu_name params h.agreed;
          routed = known-resolve registry h.gpu h.method h.known;
        }),
  )),
)
