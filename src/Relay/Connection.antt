-- ===== src/Relay/Connection.antt =====
-- relay.py, `RelayProtocol`: what one connection does on each event. The wire is a list of
-- effects; whether an outgoing stream could be opened, and under which id, is an argument.
use interlatent.Base.{
  ℕ, String, string_key, Bool, true, false, Option, none, some, List, [], ◌∷◌, ◌++◌, if◌then◌else◌,
  length,
}
use mathlib.Core.List.{map}
use interlatent.Base.Dict.{Dict, Key, ℕ_key, values, get, put}
use interlatent.Relay.Registry.{Role, browser, node, Registry, attach, peer_of, detach}
use interlatent.Relay.Streams.{
  StreamForwardTable, empty_table, get_ref, can_open, open_ref, note_bytes, remove_ref, is_dropped,
  drop_stream, forget_dropped, drain,
}

pub data Effect (P : Type 0) : Type 0 where
  -- a datagram to a peer
  datagram : (peer : P) (payload : List ℕ) → Effect P
  -- `BROWSER_CLOSED_FRAME` to a peer
  browser_closed : (peer : P) → Effect P
  -- `send_stream`
  sent : (peer : P) (out_sid : ℕ) (payload : List ℕ) (ended : Bool) → Effect P
  -- `reset_stream`
  reset : (peer : P) (out_sid : ℕ) → Effect P
  -- `stop_stream`: STOP_SENDING to the sender
  stopped : (in_sid : ℕ) → Effect P
  -- `_respond`, and the answer 200 of a session that is accepted
  respond : (stream_id status : ℕ) → Effect P

pub record SessionInfo (P : Type 0) : Type 0 where
  pub role : Role
  pub session_id : String
  pub peer : P

-- `_sessions` and `_fwd`
pub record RelayProtocol (P : Type 0) : Type 0 where
  pub sessions : Dict ℕ (SessionInfo P)
  pub fwd : StreamForwardTable (P × ℕ)

pub record StreamData : Type 0 where
  pub session_stream : ℕ
  pub stream_id : ℕ
  pub payload : List ℕ
  pub stream_ended : Bool

module _ {P : Type 0} where
  abbrev pub new_connection : RelayProtocol P
  new_connection = record { sessions = []; fwd = empty_table }

  -- `info[1], info[0]` looked up in the registry
  abbrev pub target : Registry P → Option (SessionInfo P) → Option P
  target r none = none
  target r (some info) = peer_of r info.session_id info.role

  -- Pruning the HTTP layer's own table is that layer's, and not part of the state.
  unfoldable pub refuse_incoming :
      StreamForwardTable (P × ℕ) → ℕ → Bool → StreamForwardTable (P × ℕ) × List (Effect P)
  refuse_incoming t in_sid true = (t, [])
  refuse_incoming t in_sid false = (drop_stream t in_sid, stopped in_sid ∷ [])

  -- From `dest, out_sid = ref` on.
  unfoldable pub forward :
      StreamForwardTable (P × ℕ) → P × ℕ → StreamData → StreamForwardTable (P × ℕ) × List (Effect P)
  forward t (dest, out_sid) e =
      let (counted, within) = note_bytes t e.stream_id (length e.payload) in
      elim within [
        | false ↦
            let (rest, effects) =
              refuse_incoming (remove_ref counted e.stream_id).0 e.stream_id e.stream_ended in
            (rest, reset dest out_sid ∷ effects)
        | true ↦ (
          if e.stream_ended then (remove_ref counted e.stream_id).0 else counted,
          sent dest out_sid e.payload e.stream_ended ∷ [],
        )
      ]

  unfoldable pub on_wt_stream :
      Registry P
      → RelayProtocol P
      → Option ℕ
      → StreamData
      → StreamForwardTable (P × ℕ) × List (Effect P)
  on_wt_stream r c opened e = elim (is_dropped c.fwd e.stream_id) [
    | true ↦ (if e.stream_ended then forget_dropped c.fwd e.stream_id else c.fwd, [])
    | false ↦ elim (get_ref c.fwd e.stream_id) [
      | some ref ↦ forward c.fwd ref e
      | none ↦ elim (target r (get e.session_stream c.sessions)) [
        | none ↦ refuse_incoming c.fwd e.stream_id e.stream_ended
        | some dest ↦ elim (can_open c.fwd) [
          | false ↦ refuse_incoming c.fwd e.stream_id e.stream_ended
          | true ↦ elim opened [
            | none ↦ refuse_incoming c.fwd e.stream_id e.stream_ended
            | some out_sid ↦ forward (open_ref c.fwd e.stream_id (dest, out_sid)) (dest, out_sid) e
          ]
        ]
      ]
    ]
  ]

  -- `StreamReset`
  unfoldable pub on_reset : RelayProtocol P → ℕ → StreamForwardTable (P × ℕ) × List (Effect P)
  on_reset c stream_id =
      let (rest, ref) = remove_ref c.fwd stream_id in
      (
        forget_dropped rest stream_id,
        elim ref [ none ↦ [] | some (dest, out_sid) ↦ reset dest out_sid ∷ [] ],
      )

  unfoldable pub on_datagram : Registry P → RelayProtocol P → ℕ → List ℕ → List (Effect P)
  on_datagram r c stream_id payload = elim (target r (get stream_id c.sessions)) [
    | none ↦ []
    | some peer ↦ datagram peer payload ∷ []
  ]

  -- From the parsed path on; `ok` is the verifier's verdict.
  unfoldable pub on_headers :
      Registry P
      → RelayProtocol P
      → ℕ
      → Option (Role × String)
      → Bool
      → P
      → (Registry P × RelayProtocol P) × List (Effect P)
  on_headers r c stream_id none ok peer = ((r, c), respond stream_id 404 ∷ [])
  on_headers r c stream_id (some (role, session_id)) ok peer = elim ok [
    | false ↦ ((r, c), respond stream_id 401 ∷ [])
    | true ↦
        let info : SessionInfo P = record { role = role; session_id = session_id; peer = peer } in
        (
          (
            (attach r session_id role peer).0,
            record c { sessions = put stream_id info c.sessions },
          ),
          respond stream_id 200 ∷ [],
        )
  ]

  abbrev pub close_frame : Role → Option P → List (Effect P)
  close_frame browser (some survivor) = browser_closed survivor ∷ []
  close_frame browser none = []
  close_frame node survivor = []

  module _ ⦃key : Key P⦄ where
    unfoldable pub detach_all : Registry P → List (SessionInfo P) → Registry P × List (Effect P)
    detach_all r [] = (r, [])
    detach_all r (info ∷ infos) =
        let (left, survivor) = detach r info.session_id info.role info.peer in
        let (rest, effects) = detach_all left infos in
        (rest, close_frame info.role survivor ++ effects)

    unfoldable pub teardown_all :
        Registry P → RelayProtocol P → (Registry P × RelayProtocol P) × List (Effect P)
    teardown_all r c =
        let (table, refs) = drain c.fwd in
        let (left, effects) = detach_all r (values c.sessions) in
        (
          (left, record { sessions = []; fwd = table }),
          map (λ ref. reset ref.0 ref.1) refs ++ effects,
        )
