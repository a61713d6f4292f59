-- ===== src/Relay/Registry/Pairing.antt =====
-- The registry as the two sides of each session see it.
use interlatent.Base.{
  String, string_key, string_discrete, Bool, true, false, Option, none, some, if◌then◌else◌, ite,
  ◌≡◌, arith,
}
use interlatent.Base.Dict.{Key, same, get, get-put, get-remove}
use interlatent.Relay.Registry.{
  Role, browser, node, other, Registry, side, set_side, attach, peer_of, detach, clear, is_empty,
  pair_or_new,
}

abbrev pub role_same : Role → Role → Bool
role_same browser browser = true
role_same node node = true
role_same browser node = false
role_same node browser = false

module _ {P : Type 0} where
  -- The peer on one side of a session.
  abbrev pub holder : Registry P → String → Role → Option P
  holder r s role = side (pair_or_new (get s r)) role

  -- A datagram goes to whoever holds the other side.
  pub peer_of-holder :
      (r : Registry P) (s : String) (role : Role) → peer_of r s role ≡ holder r s (other role)
  unfolding peer_of
  peer_of-holder r s browser = ground arith
  peer_of-holder r s node = ground arith

  -- Attaching gives one side of one session to the newcomer, names whom it supersedes, and leaves
  -- every other side and session as it was.
  pub holder-attach :
      (r : Registry P) (s t : String) (role side_of : Role) (peer : P)
      → (holder (attach r s role peer).0 t side_of
          ≡ ite
              (string_discrete s t)
              (if role_same role side_of then some peer else holder r t side_of)
              (holder r t side_of))
        × ((attach r s role peer).1 ≡ holder r s role)
  unfolding attach
  holder-attach r s t browser browser peer =
      ground (arith, get-put s t (set_side (pair_or_new (get s r)) browser (some peer)) r)
  holder-attach r s t browser node peer =
      ground (arith, get-put s t (set_side (pair_or_new (get s r)) browser (some peer)) r)
  holder-attach r s t node browser peer =
      ground (arith, get-put s t (set_side (pair_or_new (get s r)) node (some peer)) r)
  holder-attach r s t node node peer =
      ground (arith, get-put s t (set_side (pair_or_new (get s r)) node (some peer)) r)

  module _ ⦃key : Key P⦄ where
    -- What a side holds once a peer has left it: nothing if it was that peer, else what it held.
    abbrev pub without : Option P → P → Option P
    without none peer = none
    without (some q) peer = ite (same q peer) none (some q)

    -- Detaching takes only the peer that leaves, from its own side: a peer that was superseded
    -- leaves the newcomer alone. The answer is the peer on the other side.
    pub holder-detach :
        (r : Registry P) (s t : String) (role side_of : Role) (peer : P)
        → (holder (detach r s role peer).0 t side_of
            ≡ ite
                (string_discrete s t)
                (if role_same role side_of
                  then without (holder r t side_of) peer
                  else holder r t side_of)
                (holder r t side_of))
          × ((detach r s role peer).1 ≡ holder r s (other role))
    unfolding detach clear is_empty
    holder-detach r s t browser browser peer =
        ground (arith, get-put s t (clear (pair_or_new (get s r)) browser peer) r, get-remove s t r)
    holder-detach r s t browser node peer =
        ground (arith, get-put s t (clear (pair_or_new (get s r)) browser peer) r, get-remove s t r)
    holder-detach r s t node browser peer =
        ground (arith, get-put s t (clear (pair_or_new (get s r)) node peer) r, get-remove s t r)
    holder-detach r s t node node peer =
        ground (arith, get-put s t (clear (pair_or_new (get s r)) node peer) r, get-remove s t r)
