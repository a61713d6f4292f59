-- ===== src/Coordinator/Revocation.antt =====
-- Who a presented key stands for, after a node is paired or removed and after a box registers.
use Prim.Native.Char.{Char}
use Prim.Native.String.append
use Prim.Native.String.{◌++◌ as ◌++ˢ◌}
use interlatent.Base.{
  ℕ, String, string_key, string_discrete, ◌≡◌, ◌≢◌, refl, sym, ◌∙◌, ap, Bool, true, false, Option,
  none, some, arith, Option-cases, inl, inr, is_blank, subst,
}
use interlatent.Base.Dict.{get, drop_where}
use interlatent.Base.Dict.Laws.{Each-get, drop_where-Each, get-put_self, get-put_ne}
use interlatent.Coordinator.Data.{
  KeyRecord, Principal, Kind, node, box, operator, Coordinator, State,
}
use interlatent.Coordinator.Credentials.{hash_key, identify, issue_key, mint_key, principal}
use interlatent.Coordinator.Nodes.{pair, remove_node, bound_to_node}
use interlatent.Coordinator.Boxes.{enrol, BoxPayload, bound_to_box}
use interlatent.Coordinator.Invariant.Operations.{without_node, state-remove_node}

pub is_blank-append : (c : Char) (s t : String) → is_blank (String.◌∷◌ c s ++ˢ t) ≡ false
unfolding is_blank
is_blank-append c s t = ap is_blank (append.cons c s t)

mint_key-is_blank : (kind : Kind) (random : String) → is_blank (mint_key kind random) ≡ false
unfolding mint_key
mint_key-is_blank operator random = is_blank-append "i" "lop_" random
mint_key-is_blank node random = is_blank-append "i" "lnode_" random
mint_key-is_blank box random = is_blank-append "i" "lbox_" random

bound_to_node_self : (n : String) (r : KeyRecord) → r.node_id ≡ some n → bound_to_node n r ≡ true
unfolding bound_to_node
bound_to_node_self n r e = ground arith

bound_to_box_self : (b : String) (r : KeyRecord) → r.box_id ≡ some b → bound_to_box b r ≡ true
unfolding bound_to_box
bound_to_box_self b r e = ground arith

module _ (sha256 : String → String) where
  -- What `identify` answers comes from the record under the key's hash.
  identify_record :
      (c : Coordinator) (key : String) (p : Principal)
      → identify sha256 c key ≡ some p
      → (r : KeyRecord) × (get (hash_key sha256 key) c.state.keys ≡ some r) × (p ≡ principal r)
  unfolding identify
  identify_record c key p e = by_blank (is_blank key) refl
    where
      by_blank :
          (b : Bool)
          → is_blank key ≡ b
          → (r : KeyRecord) × (get (hash_key sha256 key) c.state.keys ≡ some r) × (p ≡ principal r)
      by_blank true q = let impossible : none ≡ some p = rw (q, identify) at e in cc
      by_blank false q = elim (Option-cases (get (hash_key sha256 key) c.state.keys)) [
        | inl f ↦ let impossible : none ≡ some p = rw (q, f, identify) at e in cc
        | inr (r, f) ↦
            let found : some (principal r) ≡ some p = rw (q, f, identify) at e in (r, f, cc)
      ]

  identify_found :
      (c : Coordinator) (key : String) (r : KeyRecord)
      → is_blank key ≡ false
      → get (hash_key sha256 key) c.state.keys ≡ some r
      → identify sha256 c key ≡ some (principal r)
  unfolding identify
  identify_found c key r b e = rw (b, e, identify)

  get_issued :
      (s : State) (kind : Kind) (node_id box_id : Option String) (random : String) (now : ℕ)
      → let (t, key) = issue_key sha256 s kind node_id box_id random now in
        get (hash_key sha256 key) t.keys
        ≡ some (record { kind = kind; node_id = node_id; box_id = box_id; created = now })
  unfolding issue_key
  get_issued s kind node_id box_id random now = get-put_self _ _ s.keys

  issued-is_blank :
      (s : State) (kind : Kind) (node_id box_id : Option String) (random : String) (now : ℕ)
      → is_blank (issue_key sha256 s kind node_id box_id random now).1 ≡ false
  unfolding issue_key
  issued-is_blank s kind node_id box_id random now = mint_key-is_blank kind random

  -- The token that pairing hands out stands for the paired node.
  pub identify-pair :
      (c : Coordinator) (name random_id random_key : String) (now : ℕ)
      → let (d, node_id, token) = pair sha256 c name random_id random_key now in
        identify sha256 d token
        ≡ some (record { kind = node; node_id = some node_id; box_id = none })
  unfolding pair principal
  identify-pair c name random_id random_key now =
      identify_found _ _ _ (issued-is_blank c.state node _ none random_key now)
        (get_issued c.state node _ none random_key now)

  -- No key stands for a node that has been removed.
  pub identify-remove_node :
      (c : Coordinator) (node_id key : String) (p : Principal)
      → identify sha256 (remove_node c node_id).0 key ≡ some p
      → p.node_id ≢ some node_id
  unfolding without_node principal
  identify-remove_node c node_id key p e =
      let (r, f, q) = identify_record (remove_node c node_id).0 key p e in
      let kept =
        subst (λ (s : State). get (hash_key sha256 key) s.keys ≡ some r)
          (state-remove_node c node_id) f in
      let unbound =
        Each-get (λ d x. bound_to_node node_id x ≡ false) (hash_key sha256 key) r _
          (drop_where-Each (bound_to_node node_id) c.state.keys) kept in
      λ bound. cc (unbound, bound_to_node_self node_id r (ap (λ x. x.node_id) (sym q) ∙ bound))

  -- A registration revokes the keys that the box had: only the new one stands for it.
  pub identify-enrol :
      (c : Coordinator) (payload : BoxPayload) (box_id name random : String) (now : ℕ)
      (key : String) (p : Principal)
      → let (d, fresh) = enrol sha256 c payload box_id name random now in
        identify sha256 d key ≡ some p
        → p.box_id ≡ some box_id
        → hash_key sha256 key ≡ hash_key sha256 fresh
  unfolding enrol issue_key principal
  identify-enrol c payload box_id name random now key p e bound =
      let s = c.state in
      let fresh = mint_key box random in
      let (r, f, q) = identify_record (enrol sha256 c payload box_id name random now).0 key p e in
      let entry : KeyRecord = record {
        kind = box;
        node_id = none;
        box_id = some box_id;
        created = now;
      } in
      let kept = drop_where (bound_to_box box_id) s.keys in
      elim (string_discrete (hash_key sha256 fresh) (hash_key sha256 key)) [
        | yes same ↦ sym same
        | no other ↦
            let old : get (hash_key sha256 key) kept ≡ some r =
              sym (get-put_ne _ _ entry kept other) ∙ f in
            let unbound =
              Each-get (λ d x. bound_to_box box_id x ≡ false) (hash_key sha256 key) r kept
                (drop_where-Each (bound_to_box box_id) s.keys) old in
            cc (unbound, bound_to_box_self box_id r (ap (λ x. x.box_id) (sym q) ∙ bound))
      ]
