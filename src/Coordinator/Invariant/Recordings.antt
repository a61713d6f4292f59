-- ===== src/Coordinator/Invariant/Recordings.antt =====
-- Teleop recordings: what a reference resolves to, assigning and stopping.
use interlatent.Base.{
  ℕ, String, string_key, string_discrete, ◌≡◌, refl, Bool, true, false, Option, none, some, List,
  [], ◌∷◌, is_some, ite, arith, Option-cases, Bool-cases, inl, inr, ◌⊎◌, is_blank, not, All, subst,
  if◌then◌else◌, ◌&&◌,
}
use interlatent.Base.Dict.{Dict, get, put, values}
use interlatent.Base.Dict.Laws.{Each, Each-both, Each-found}
use interlatent.Coordinator.Data.{
  State, Node, Recording, Environment, Error, or_raise, teleop, Coordinator, Result, ok, node_busy,
  ensure-eq-ok,
}
use interlatent.Coordinator.Nodes.{assigned, resolve_node, ids_named, only, is_live}
use interlatent.Coordinator.Sessions.{has_id}
use interlatent.Coordinator.Teleop.{
  RecordingPayload, make_recording, install_recording, resolve_target, assign_recording,
  stop_teleop_recording, release_node,
}
use interlatent.Coordinator.Invariant.{
  IsConsistent, IsPaired, assigned-known, keep_all, unassign-IsConsistent, assign-IsConsistent,
}

All-values : (P : Node → Type 0) (d : Dict String Node) → Each (λ k n. P n) d → All P (values d)
All-values P [] h = tt
All-values P ((k, n) ∷ d) h = (h.0, All-values P d h.1)

ids_named-All :
    (P : String → Type 0) (ref : String) (test : Node → Bool) (ns : List Node)
    → All (λ n. P n.id) ns
    → All P (ids_named ref test ns)
unfolding ids_named
ids_named-All P ref test [] h = tt
ids_named-All P ref test (n ∷ ns) h =
    elim (Bool-cases (ite (string_discrete n.name ref) true false && test n)) [
      | inl e ↦ rw e (h.0, ids_named-All P ref test ns h.1)
      | inr e ↦ rw e (ids_named-All P ref test ns h.1)
    ]

only-All : (P : String → Type 0) (xs : List String) (x : String) → All P xs → only xs ≡ some x → P x
only-All P [] x h e = cc
only-All P (y ∷ []) x h e = subst P (cc) h.0
only-All P (y ∷ z ∷ rest) x h e = cc

ids_paired :
    (s : State) → IsConsistent s → All (λ n. is_some (get n.id s.nodes) ≡ true) (values s.nodes)
ids_paired s v =
    All-values _ s.nodes
      (Each-both _ _ _ s.nodes (λ k n id found. rw id found) v.filed (Each-found s.nodes))

-- A reference resolves to a paired node only.
pub resolve_node-IsPaired :
    (c : Coordinator) (ref : String) (now : ℕ) (n : String)
    → IsConsistent c.state
    → resolve_node c ref now ≡ some n
    → IsPaired c.state n
unfolding resolve_node
resolve_node-IsPaired c ref now n v e =
    resolved (only (ids_named ref (λ n. is_live (get n.id c.last_seen) now) (values c.state.nodes)))
      (only (ids_named ref (λ _. true) (values c.state.nodes)))
      (λ x. only-All IsKnown _ x (among _)) (λ x. only-All IsKnown _ x (among _))
      (Bool-cases (is_some (get ref c.state.nodes))) e
  where
    IsKnown : String → Type 0
    IsKnown i = is_some (get i c.state.nodes) ≡ true

    among : (test : Node → Bool) → All IsKnown (ids_named ref test (values c.state.nodes))
    among test = ids_named-All IsKnown ref test (values c.state.nodes) (ids_paired c.state v)

    resolved :
        (by_live by_name : Option String)
        → ((x : String) → by_live ≡ some x → IsKnown x)
        → ((x : String) → by_name ≡ some x → IsKnown x)
        → (is_some (get ref c.state.nodes) ≡ true) ⊎ (is_some (get ref c.state.nodes) ≡ false)
        → (if is_some (get ref c.state.nodes)
            then some ref
            else elim by_live [ some id ↦ some id | none ↦ by_name ])
          ≡ some n
        → IsKnown n
    resolved by_live by_name h k (inl q) e =
        let found : some ref ≡ some n = rw q at e in subst IsKnown (cc) q
    resolved none by_name h k (inr q) e = k n (rw q at e)
    resolved (some x) by_name h k (inr q) e = h n (rw q at e)

make_recording_node :
    (s : State) (n : String) (environment : Option Environment) (payload : RecordingPayload)
    (random : String)
    → (make_recording s n environment payload random).node_id ≡ n
unfolding make_recording
make_recording_node s n environment payload random = refl

install_recording-IsConsistent :
    (c : Coordinator) (r : Recording)
    → IsPaired c.state r.node_id
    → IsConsistent c.state
    → IsConsistent (install_recording c r).state
unfolding install_recording
install_recording-IsConsistent c r p v =
    keep_all _ _ refl refl refl (assign-IsConsistent c.state (teleop r) p tt v)

-- What the last part of `create_teleop_recording` has checked, and what it does.
pub assign_recording_ok :
    (c : Coordinator) (node_id : String) (environment : Option Environment)
    (payload : RecordingPayload) (random : String) {d : Coordinator} {r : Recording}
    → assign_recording c node_id environment payload random ≡ ok (d, r)
    → (is_some (assigned c.state node_id) ≡ false)
      × (r ≡ make_recording c.state node_id environment payload random)
      × (d ≡ install_recording c r)
unfolding assign_recording
assign_recording_ok c node_id environment payload random {d} {r} e =
    let made = make_recording c.state node_id environment payload random in
    let (idle, done) =
      ensure-eq-ok (not (is_some (assigned c.state node_id))) (node_busy node_id)
        (ok (install_recording c made, made)) e in
    (ground arith, returned c made d r done, installed c made d r done)
  where
    returned :
        (c : Coordinator) (made : Recording) (d : Coordinator) (r : Recording)
        → ◌≡◌ {A = Result (Coordinator × Recording)}
            (ok (install_recording c made, made))
            (ok (d, r))
        → r ≡ made
    returned c made d r e = ground arith

    installed :
        (c : Coordinator) (made : Recording) (d : Coordinator) (r : Recording)
        → ◌≡◌ {A = Result (Coordinator × Recording)}
            (ok (install_recording c made, made))
            (ok (d, r))
        → d ≡ install_recording c r
    installed c made d r e = ground arith

-- The last part of `create_teleop_recording`, for a paired node.
pub assign_recording-IsConsistent :
    (c : Coordinator) (node_id : String) (environment : Option Environment)
    (payload : RecordingPayload) (random : String) {d : Coordinator} {r : Recording}
    → assign_recording c node_id environment payload random ≡ ok (d, r)
    → IsPaired c.state node_id
    → IsConsistent c.state
    → IsConsistent d.state
assign_recording-IsConsistent c node_id environment payload random {d} {r} e p v =
    let (idle, made, after) = assign_recording_ok c node_id environment payload random e in
    rw after (
      install_recording-IsConsistent c r
        (rw (made, make_recording_node c.state node_id environment payload random) p) v)

-- The node that the first part of `create_teleop_recording` finds is paired.
pub resolve_target-IsPaired :
    (c : Coordinator) (payload : RecordingPayload) (now : ℕ) {n : String}
    → IsConsistent c.state
    → resolve_target c payload now ≡ ok n
    → IsPaired c.state n
unfolding resolve_target
resolve_target-IsPaired c payload now {n} v e =
    resolve_node-IsPaired c _ now n v (found (resolve_node c _ now) _ n e)
  where
    found :
        (o : Option String) (x : Error) (n : String)
        → ◌≡◌ {A = Result String} (or_raise o x) (ok n)
        → o ≡ some n
    found none x n h = cc
    found (some m) x n h = ground arith

release_node-IsConsistent :
    (s : State) (n recording_id : String)
    → IsConsistent s
    → IsConsistent (release_node s n recording_id)
unfolding release_node has_id
release_node-IsConsistent s n recording_id v = elim (Option-cases (assigned s n)) [
  | inl e ↦ rw e (idle (is_blank n))
  | inr (a, e) ↦ elim (Bool-cases (not (is_blank n) && has_id recording_id (assigned s n))) [
    | inl h ↦ rw h (unassign-IsConsistent s n (assigned-known s n a v e) v)
    | inr h ↦ rw h v
  ]
]
  where
    idle :
        (blank : Bool)
        → IsConsistent
            (if not blank && false then record s { sessions = put n none s.sessions } else s)
    idle true = v
    idle false = v

pub stop_teleop_recording-IsConsistent :
    (c : Coordinator) (recording_id : String)
    → IsConsistent c.state
    → IsConsistent (stop_teleop_recording c recording_id).0.state
unfolding stop_teleop_recording
stop_teleop_recording-IsConsistent c recording_id v =
    elim (Option-cases (get recording_id c.state.recordings)) [
      | inl e ↦ rw (e, stop_teleop_recording) v
      | inr (r, e) ↦
          rw (e, stop_teleop_recording)
            (release_node-IsConsistent _ r.node_id recording_id
              (keep_all c.state _ refl refl refl v))
    ]
