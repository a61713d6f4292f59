-- ===== src/Coordinator/Invariant/Assigning.antt =====
-- The methods that assign and unassign keep the state consistent.
use interlatent.Base.{
  String, string_key, string_discrete, ◌≡◌, ◌≢◌, refl, ◌∙◌, ap, true, Option, none, some, List, [],
  ◌∷◌, is_some, if_pos, if_neg, arith, Option-cases, inl, inr,
}
use interlatent.Base.Dict.{Dict, get, find_key}
use interlatent.Base.Dict.Laws.{find_value-none, find_value-some, find_key-found}
use interlatent.Coordinator.Data.{
  State, Box, Session, Route, Assignment, inference, Coordinator, ok,
}
use interlatent.Coordinator.Routing.{Registry}
use interlatent.Coordinator.Nodes.{assigned}
use interlatent.Coordinator.Sessions.{
  StartParams, uses_gpu, check_gpu_free, make_session, install_session, start_session, stop_session,
  stop_all, unassign_all, assigned_ids, has_id,
}
use interlatent.Coordinator.Invariant.Started.{start_session_ok}
use interlatent.Coordinator.Invariant.{
  IsConsistent, IsPaired, keep_all, unassign-IsConsistent, assign-IsConsistent, IsFreeFor,
}

-- A box that the check passes serves nobody.
check_gpu_free-IsFree :
    (s : State) (g : String)
    → check_gpu_free g s ≡ ok tt
    → (m : String) (y : Session) → assigned s m ≡ some (inference y)
    → y.gpu ≢ g
unfolding check_gpu_free uses_gpu assigned
check_gpu_free-IsFree s g h m y e = ground (
  arith,
  find_value-none (uses_gpu g) m (some (inference y)) s.sessions,
  find_value-some (uses_gpu g) none s.sessions,
)

make_session_node :
    (s : State) (n g : String) (params : StartParams) (route : Route) (random : String)
    → ((make_session s n g params route random).node_id ≡ n)
      × ((make_session s n g params route random).gpu ≡ g)
unfolding make_session
make_session_node s n g params route random = (refl, refl)

-- An assigned session leaves the state consistent, on a free box and a paired node.
install_session-IsConsistent :
    (c : Coordinator) (x : Session) (gpu : Box)
    → IsPaired c.state x.node_id
    → IsFreeFor c.state (inference x)
    → IsConsistent c.state
    → IsConsistent (install_session c x gpu).state
unfolding install_session
install_session-IsConsistent c x gpu p f v =
    keep_all _ _ refl refl refl (assign-IsConsistent c.state (inference x) p f v)

pub start_session-IsConsistent :
    (registry : Registry) (c : Coordinator) (node_id gpu_name : String) (params : StartParams)
    (random : String) {d : Coordinator} {session : Session}
    → start_session registry c node_id gpu_name params random ≡ ok (d, session)
    → IsConsistent c.state
    → IsConsistent d.state
start_session-IsConsistent registry c node_id gpu_name params random {d} {session} e v =
    let st = start_session_ok registry c node_id gpu_name params random e in
    let made = make_session_node c.state node_id gpu_name params st.route random in
    rw st.after (
      install_session-IsConsistent c session st.gpu (rw (st.session_is, made.0) st.paired)
        (λ m y h q.
          check_gpu_free-IsFree c.state gpu_name st.free m y h
            (q ∙ ap (λ z. z.gpu) st.session_is ∙ made.1))
        v)

some_of :
    (o : Option (Option Assignment)) → is_some o ≡ true → (x : Option Assignment) × (o ≡ some x)
some_of none h = cc
some_of (some x) h = (x, refl)

pub stop_session-IsConsistent :
    (c : Coordinator) (session_id : String)
    → IsConsistent c.state
    → IsConsistent (stop_session c session_id).0.state
unfolding stop_session
stop_session-IsConsistent c session_id v =
    elim (Option-cases (find_key (has_id session_id) c.state.sessions)) [
      | inl e ↦ rw (e, stop_session) v
      | inr (n, e) ↦
          rw (e, stop_session)
            (let (x, entry) =
                some_of (get n c.state.sessions)
                  (find_key-found (has_id session_id) n c.state.sessions e) in
              keep_all _ _ refl refl refl (unassign-IsConsistent c.state n (v.known n x entry) v))
    ]

get-unassign_all :
    (n : String) (d : Dict String (Option Assignment)) (a : Assignment)
    → get n (unassign_all d) ≢ some (some a)
unfolding get unassign_all
get-unassign_all n [] a e = cc
get-unassign_all n ((m, x) ∷ d) a e = ground (arith, get-unassign_all n d a)

-- No node has an assignment once all are taken away.
pub assigned-unassign_all :
    (s : State) (n : String) → assigned (record s { sessions = unassign_all s.sessions }) n ≡ none
unfolding assigned
assigned-unassign_all s n = elim (Option-cases (get n (unassign_all s.sessions))) [
  | inl e ↦ rw (e, assigned) refl
  | inr (none, e) ↦ rw (e, assigned) refl
  | inr (some a, e) ↦ absurd (get-unassign_all n s.sessions a e)
]

key_kept :
    (n : String) (d : Dict String (Option Assignment)) (x : Option Assignment)
    → get n (unassign_all d) ≡ some x
    → (y : Option Assignment) × (get n d ≡ some y)
unfolding get unassign_all
key_kept n [] x e = cc
key_kept n ((m, z) ∷ d) x e = elim (string_discrete m n) [
  | yes q ↦ (z, rw (if_pos _ q))
  | no q ↦ let (y, f) = key_kept n d x (rw (if_neg _ q) at e) in (y, rw (if_neg _ q) f)
]

unassign_all-IsConsistent :
    (s : State) → IsConsistent s → IsConsistent (record s { sessions = unassign_all s.sessions })
unassign_all-IsConsistent s v = record {
  filed = v.filed;
  known = λ n x h. let (y, e) = key_kept n s.sessions x h in v.known n y e;
  placed = λ n a h. cc (assigned-unassign_all s n);
  exclusive = λ n m x y h k. cc (assigned-unassign_all s n);
  paired = v.paired;
}

pub stop_all-IsConsistent :
    (c : Coordinator) → IsConsistent c.state → IsConsistent (stop_all c).0.state
unfolding stop_all
stop_all-IsConsistent c v = by_ids (assigned_ids c.state.sessions) refl
  where
    by_ids :
        (ids : List String)
        → assigned_ids c.state.sessions ≡ ids
        → IsConsistent (stop_all c).0.state
    by_ids [] e = rw (e, stop_all) v
    by_ids (id ∷ ids) e =
        rw (e, stop_all) (keep_all _ _ refl refl refl (unassign_all-IsConsistent c.state v))
