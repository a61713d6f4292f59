-- ===== src/Coordinator/Invariant.antt =====
-- What every call keeps true of the coordinator's state.
pub mod Operations
pub mod Recordings
pub mod Started
pub mod Assigning
use interlatent.Base.{
  ℕ, String, string_key, string_discrete, ◌≡◌, ◌≢◌, refl, sym, Bool, true, false, Option, none,
  some, List, [], ◌∷◌, is_some, ite, arith, Option-cases, inl, inr,
}
use interlatent.Base.Dict.{Dict, get, put, get-put, get-remove}
use interlatent.Base.Dict.Laws.{Each}
use interlatent.Coordinator.Data.{
  State, KeyRecord, Node, Session, Recording, Assignment, inference, teleop, Coordinator,
}
use interlatent.Coordinator.Nodes.{assigned}

abbrev pub assigned_node : Assignment → String
assigned_node (inference s) = s.node_id
assigned_node (teleop r) = r.node_id

-- A credential that is bound to a node is bound to a paired one.
abbrev pub OfPaired : Dict String Node → String → KeyRecord → Type 0
OfPaired nodes digest r = (n : String) → r.node_id ≡ some n → is_some (get n nodes) ≡ true

pub record IsConsistent (s : State) : Type 0 where
  -- a node's record stands under its id
  pub filed : Each (λ k (n : Node). n.id ≡ k) s.nodes
  -- only a paired node has an entry among the sessions
  pub known :
      (n : String) (x : Option Assignment)
      → get n s.sessions ≡ some x
      → is_some (get n s.nodes) ≡ true
  -- an assignment names the node that has it
  pub placed : (n : String) (a : Assignment) → assigned s n ≡ some a → assigned_node a ≡ n
  -- no two sessions name the same box
  pub exclusive :
      (n m : String) (x y : Session)
      → assigned s n ≡ some (inference x)
      → assigned s m ≡ some (inference y)
      → x.gpu ≡ y.gpu
      → n ≡ m
  -- no credential of a node that is gone
  pub paired : Each (OfPaired s.nodes) s.keys

abbrev pub IsPaired : State → String → Type 0
IsPaired s n = is_some (get n s.nodes) ≡ true

-- A change that leaves the sessions alone, and the nodes that are there.
pub keep_sessions :
    (s t : State)
    → t.sessions ≡ s.sessions
    → ((n : String) → IsPaired s n → IsPaired t n)
    → Each (λ k (n : Node). n.id ≡ k) t.nodes
    → Each (OfPaired t.nodes) t.keys
    → IsConsistent s
    → IsConsistent t
unfolding assigned
keep_sessions s t e grow filed paired v = record {
  filed = filed;
  known = λ n a h. grow n (v.known n a (rw (← e) h));
  placed = λ n a h. v.placed n a (rw (← e) h);
  exclusive = λ n m x y h k. v.exclusive n m x y (rw (← e) h) (rw (← e) k);
  paired = paired;
}

pub assigned-known :
    (s : State) (n : String) (a : Assignment)
    → IsConsistent s
    → assigned s n ≡ some a
    → IsPaired s n
unfolding assigned
assigned-known s n a v h = elim (Option-cases (get n s.sessions)) [
  | inl e ↦ let found : none ≡ some a = rw (e, assigned) at h in cc
  | inr (x, e) ↦ v.known n x e
]

-- A change that leaves the nodes, the credentials and the sessions alone.
pub keep_all :
    (s t : State)
    → t.sessions ≡ s.sessions
    → t.nodes ≡ s.nodes
    → t.keys ≡ s.keys
    → IsConsistent s
    → IsConsistent t
keep_all s t e f g v = keep_sessions s t e (λ n h. rw f h) (rw f v.filed) (rw (f, g) v.paired) v

pub assigned-put :
    (s : State) (n m : String) (a : Option Assignment)
    → assigned (record s { sessions = put n a s.sessions }) m
      ≡ ite (string_discrete n m) a (assigned s m)
unfolding assigned
assigned-put s n m a = ground (arith, get-put n m a s.sessions)

-- Taking a node's assignment away.
pub unassign-IsConsistent :
    (s : State) (n : String)
    → IsPaired s n
    → IsConsistent s
    → IsConsistent (record s { sessions = put n none s.sessions })
unassign-IsConsistent s n p v = record {
  filed = v.filed;
  known = λ m a h. ground (arith, p, v.known m a, get-put n m none s.sessions);
  placed = λ m a h. ground (arith, v.placed m a, assigned-put s n m none);
  exclusive = λ k m x y h l.
      ground (arith, v.exclusive k m x y, assigned-put s n m none, assigned-put s n k none);
  paired = v.paired;
}

-- Giving a paired node its assignment, on a box that serves no session.
abbrev pub IsFreeFor : State → Assignment → Type 0
IsFreeFor s (teleop r) = Unit
IsFreeFor s (inference x) =
    (m : String) (y : Session) → assigned s m ≡ some (inference y) → y.gpu ≢ x.gpu

pub assign-IsConsistent :
    (s : State) (a : Assignment)
    → IsPaired s (assigned_node a)
    → IsFreeFor s a
    → IsConsistent s
    → IsConsistent (record s { sessions = put (assigned_node a) (some a) s.sessions })
assign-IsConsistent s (teleop r) p f v = record {
  filed = v.filed;
  known = λ m a h. ground (arith, p, v.known m a, get-put r.node_id m (some (teleop r)) s.sessions);
  placed = λ m a h. ground (arith, v.placed m a, assigned-put s r.node_id m (some (teleop r)));
  exclusive = λ k m x y h l. ground (
    arith,
    v.exclusive k m x y,
    assigned-put s r.node_id m (some (teleop r)),
    assigned-put s r.node_id k (some (teleop r)),
  );
  paired = v.paired;
}
assign-IsConsistent s (inference z) p f v = record {
  filed = v.filed;
  known =
      λ m a h. ground (arith, p, v.known m a, get-put z.node_id m (some (inference z)) s.sessions);
  placed = λ m a h. ground (arith, v.placed m a, assigned-put s z.node_id m (some (inference z)));
  exclusive = λ k m x y h l. ground (
    arith,
    f k x,
    f m y,
    v.exclusive k m x y,
    assigned-put s z.node_id m (some (inference z)),
    assigned-put s z.node_id k (some (inference z)),
  );
  paired = v.paired;
}
