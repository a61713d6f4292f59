-- ===== src/Coordinator/Invariant/Operations.antt =====
-- Each method of the coordinator keeps its state consistent.
use interlatent.Base.{
  ℕ, String, string_key, string_discrete, ◌≡◌, refl, ◌∙◌, true, false, none, is_some, ite, arith,
  Option-cases, Bool-cases, inl, inr,
}
use interlatent.Base.Json.{Fields}
use interlatent.Base.Dict.{Dict, get, put, remove, get-put, get-remove, drop_where}
use interlatent.Base.Dict.Laws.{
  Each, Each-put, Each-remove, Each-get, Each-drop_where, Each-implies, Each-both, drop_where-Each,
}
use interlatent.Coordinator.Data.{State, KeyRecord, Node, Coordinator}
use interlatent.Coordinator.Credentials.{hash_key, register_operator_key, issue_key}
use interlatent.Coordinator.Nodes.{
  assigned, pair, set_hardware, set_features, remove_node, set_node, bound_to_node,
}
use interlatent.Coordinator.Boxes.{enrol, bound_to_box, BoxPayload}
use interlatent.Coordinator.Invariant.{IsConsistent, OfPaired, keep_sessions}

-- A credential without a node, or one of a paired node, may be added.
OfPaired-put :
    (nodes : Dict String Node) (digest : String) (r : KeyRecord) (keys : Dict String KeyRecord)
    → OfPaired nodes digest r
    → Each (OfPaired nodes) keys
    → Each (OfPaired nodes) (put digest r keys)
OfPaired-put nodes digest r keys p h = Each-put (OfPaired nodes) digest r keys p h

put_self :
    (nodes : Dict String Node) (k n : String) (x : Node)
    → k ≡ n
    → is_some (get n (put k x nodes)) ≡ true
put_self nodes k n x e = ground (arith, get-put k n x nodes)

put-IsPaired :
    (nodes : Dict String Node) (k n : String) (x : Node)
    → is_some (get n nodes) ≡ true
    → is_some (get n (put k x nodes)) ≡ true
put-IsPaired nodes k n x h = ground (arith, get-put k n x nodes)

-- A node's record that is added or replaced takes no node away.
grown :
    (nodes : Dict String Node) (k : String) (x : Node) (keys : Dict String KeyRecord)
    → Each (OfPaired nodes) keys
    → Each (OfPaired (put k x nodes)) keys
grown nodes k x keys h =
    Each-implies (OfPaired nodes) (OfPaired (put k x nodes)) keys
      (λ d r p n e. put-IsPaired nodes k n x (p n e)) h

module _ (sha256 : String → String) where
  pub register_operator_key-IsConsistent :
      (c : Coordinator) (key : String) (now : ℕ)
      → IsConsistent c.state
      → IsConsistent (register_operator_key sha256 c key now).state
  unfolding register_operator_key
  register_operator_key-IsConsistent c key now v =
      keep_sessions c.state _ refl (λ n h. h) v.filed
        (OfPaired-put c.state.nodes (hash_key sha256 key) _ c.state.keys (λ n e. cc) v.paired) v

  pub pair-IsConsistent :
      (c : Coordinator) (name random_id random_key : String) (now : ℕ)
      → IsConsistent c.state
      → IsConsistent (pair sha256 c name random_id random_key now).0.state
  unfolding pair issue_key
  pair-IsConsistent c name random_id random_key now v =
      keep_sessions c.state _ refl (λ n h. put-IsPaired c.state.nodes _ n _ h)
        (Each-put _ _ _ c.state.nodes refl v.filed)
        (OfPaired-put _ _ _ c.state.keys (λ n e. put_self c.state.nodes _ n _ (cc))
          (grown c.state.nodes _ _ c.state.keys v.paired))
        v

  pub enrol-IsConsistent :
      (c : Coordinator) (payload : BoxPayload) (box_id name random : String) (now : ℕ)
      → IsConsistent c.state
      → IsConsistent (enrol sha256 c payload box_id name random now).0.state
  unfolding enrol issue_key
  enrol-IsConsistent c payload box_id name random now v =
      keep_sessions c.state _ refl (λ n h. h) v.filed
        (OfPaired-put c.state.nodes _ _ _ (λ n e. cc)
          (Each-drop_where (OfPaired c.state.nodes) (bound_to_box box_id) c.state.keys v.paired))
        v

-- A report of a node replaces its record under the same id.
set_node-IsConsistent :
    (change : Node → Node) (c : Coordinator) (node_id : String)
    → ((n : Node) → (change n).id ≡ n.id)
    → IsConsistent c.state
    → IsConsistent (set_node change c node_id).state
unfolding set_node
set_node-IsConsistent change c node_id same_id v = elim (Option-cases (get node_id c.state.nodes)) [
  | inl e ↦ rw (e, set_node) v
  | inr (n, e) ↦
      rw (e, set_node)
        (keep_sessions c.state _ refl (λ m h. put-IsPaired c.state.nodes _ m _ h)
          (Each-put _ _ _ c.state.nodes (same_id n ∙ Each-get _ node_id n c.state.nodes v.filed e)
            v.filed)
          (grown c.state.nodes _ _ c.state.keys v.paired) v)
]

pub set_hardware-IsConsistent :
    (c : Coordinator) (node_id : String) (payload : Fields)
    → IsConsistent c.state
    → IsConsistent (set_hardware c node_id payload).state
unfolding set_hardware
set_hardware-IsConsistent c node_id payload v = set_node-IsConsistent _ c node_id (λ n. refl) v

pub set_features-IsConsistent :
    (c : Coordinator) (node_id : String) (payload : Fields)
    → IsConsistent c.state
    → IsConsistent (set_features c node_id payload).state
unfolding set_features
set_features-IsConsistent c node_id payload v = set_node-IsConsistent _ c node_id (λ n. refl) v

-- The state without a node, its assignment and its credentials.
unfoldable pub without_node : State → String → State
without_node s node_id = record s {
  nodes = remove node_id s.nodes;
  sessions = remove node_id s.sessions;
  keys = drop_where (bound_to_node node_id) s.keys;
}

pub state-remove_node :
    (c : Coordinator) (node_id : String)
    → (remove_node c node_id).0.state ≡ without_node c.state node_id
unfolding remove_node without_node
state-remove_node c node_id = elim (Bool-cases (is_some (get node_id c.state.nodes))) [
  | inl e ↦ rw e refl
  | inr e ↦ rw e refl
]

pub assigned-without_node :
    (s : State) (n m : String)
    → assigned (without_node s n) m ≡ ite (string_discrete n m) none (assigned s m)
unfolding assigned without_node
assigned-without_node s n m = ground (arith, get-remove n m s.sessions)

pub without_node-IsConsistent :
    (s : State) (n : String) → IsConsistent s → IsConsistent (without_node s n)
unfolding without_node bound_to_node
without_node-IsConsistent s n v = record {
  filed = Each-remove _ n s.nodes v.filed;
  known = λ m a h. ground (arith, v.known m a, get-remove n m s.sessions, get-remove n m s.nodes);
  placed = λ m a h. ground (arith, v.placed m a, assigned-without_node s n m);
  exclusive = λ k m x y h l.
      ground (arith, v.exclusive k m x y, assigned-without_node s n k, assigned-without_node s n m);
  paired =
      Each-both (OfPaired s.nodes) (λ d r. bound_to_node n r ≡ false) (OfPaired (remove n s.nodes))
        (drop_where (bound_to_node n) s.keys)
        (λ d r p unbound m e. ground (arith, p m e, get-remove n m s.nodes))
        (Each-drop_where (OfPaired s.nodes) (bound_to_node n) s.keys v.paired)
        (drop_where-Each (bound_to_node n) s.keys);
}

pub remove_node-IsConsistent :
    (c : Coordinator) (node_id : String)
    → IsConsistent c.state
    → IsConsistent (remove_node c node_id).0.state
remove_node-IsConsistent c node_id v =
    rw (state-remove_node c node_id) (without_node-IsConsistent c.state node_id v)
