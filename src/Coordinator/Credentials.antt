-- ===== src/Coordinator/Credentials.antt =====
-- coordinator/auth.py and state.py, the credentials: minting, hashing, identifying.
-- SHA-256 (`hashlib`) is the argument `sha256`; the random part of a key (`secrets.token_hex`) and
-- the time are arguments.
use Prim.Native.String.{◌++◌ as ◌++ˢ◌}
use interlatent.Base.{ℕ, String, string_key, Bool, true, false, Option, none, some, strip, is_blank}
use interlatent.Base.Dict.{get, put}
use interlatent.Coordinator.Data.{
  Kind, operator, node, box, KeyRecord, Principal, Coordinator, State,
}
use interlatent.Coordinator.Persistence.{persist}

unfoldable pub prefix_by_kind : Kind → String
prefix_by_kind operator = "ilop_"
prefix_by_kind node = "ilnode_"
prefix_by_kind box = "ilbox_"

unfoldable pub mint_key : Kind → String → String
unfolding prefix_by_kind
mint_key kind random = ◌++ˢ◌ (prefix_by_kind kind) random

unfoldable pub is_operator : Principal → Bool
is_operator p = elim p.kind [ operator ↦ true | _ ↦ false ]

-- Replaces one section of the state.
abbrev pub with_state : Coordinator → State → Coordinator
with_state c s = record c { state = s }

unfoldable pub principal : KeyRecord → Principal
principal r = record { kind = r.kind; node_id = r.node_id; box_id = r.box_id }

module _ (sha256 : String → String) where
  unfoldable pub hash_key : String → String
  hash_key key = sha256 (strip key)

  unfoldable pub register_operator_key : Coordinator → String → ℕ → Coordinator
  unfolding persist
  register_operator_key c key now = persist (
      with_state c (record s {
        keys =
            put (hash_key key)
              (record { kind = operator; node_id = none; box_id = none; created = now }) s.keys;
      }))
    where
      s : State
      s = c.state

  unfoldable pub identify : Coordinator → String → Option Principal
  unfolding principal
  identify c presented = elim (is_blank presented) [
    | true ↦ none
    | false ↦ elim (get (hash_key presented) c.state.keys) [
      | none ↦ none
      | some r ↦ some (principal r)
    ]
  ]

  -- The minted key, and the state that holds its hash.
  unfoldable pub issue_key :
      State → Kind → Option String → Option String → String → ℕ → State × String
  unfolding mint_key
  issue_key s kind node_id box_id random now =
      let key = mint_key kind random in
      (
        record s {
          keys =
              put (hash_key key)
                (record { kind = kind; node_id = node_id; box_id = box_id; created = now }) s.keys;
        },
        key,
      )
