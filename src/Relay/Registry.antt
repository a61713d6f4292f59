-- ===== src/Relay/Registry.antt =====
-- relay_core.py, `Registry`: who is paired with whom. A peer is an opaque handle, compared by `is`.
pub mod Pairing
use interlatent.Base.{
  ℕ, String, string_key, Bool, true, false, ◌&&◌, not, Option, none, some, List, [], is_some,
  if◌then◌else◌, ite, length,
}
use interlatent.Base.Dict.{Dict, Key, same, get, put, remove}

pub data Role : Type 0 where
  browser node : Role

abbrev pub other : Role → Role
other browser = node
other node = browser

pub record Pair (P : Type 0) : Type 0 where
  pub browser_peer : Option P
  pub node_peer : Option P

abbrev pub Registry : Type 0 → Type 0
Registry P = Dict String (Pair P)

module _ {P : Type 0} where
  abbrev pub no_peers : Pair P
  no_peers = record { browser_peer = none; node_peer = none }

  -- `getattr(pair, role)`
  abbrev pub side : Pair P → Role → Option P
  side p browser = p.browser_peer
  side p node = p.node_peer

  -- `setattr(pair, role, peer)`
  abbrev pub set_side : Pair P → Role → Option P → Pair P
  set_side p browser peer = record p { browser_peer = peer }
  set_side p node peer = record p { node_peer = peer }

  abbrev pub pair_or_new : Option (Pair P) → Pair P
  pair_or_new none = no_peers
  pair_or_new (some p) = p

  -- The registry, and the peer that was superseded.
  unfoldable pub attach : Registry P → String → Role → P → Registry P × Option P
  attach r session_id role peer =
      let pair = pair_or_new (get session_id r) in
      (put session_id (set_side pair role (some peer)) r, side pair role)

  unfoldable pub peer_of : Registry P → String → Role → Option P
  peer_of r session_id role = elim (get session_id r) [ none ↦ none | some p ↦ side p (other role) ]

  unfoldable pub is_empty : Pair P → Bool
  is_empty p = not (is_some p.browser_peer) && not (is_some p.node_peer)

  module _ ⦃key : Key P⦄ where
    -- Clears the side if it still holds this peer.
    unfoldable pub clear : Pair P → Role → P → Pair P
    clear p role peer = elim (side p role) [
      | none ↦ p
      | some q ↦ ite (same q peer) (set_side p role none) p
    ]

    -- The registry, and the peer on the other side.
    unfoldable pub detach : Registry P → String → Role → P → Registry P × Option P
    unfolding clear is_empty
    detach r session_id role peer = elim (get session_id r) [
      | none ↦ (r, none)
      | some p ↦
          let left = clear p role peer in
          (
            if is_empty left then remove session_id r else put session_id left r,
            side left (other role),
          )
    ]

  pub session_count : Registry P → ℕ
  session_count r = length r
