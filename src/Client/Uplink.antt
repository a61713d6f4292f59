-- ===== src/Client/Uplink.antt =====
-- packages/sdk/src/interlatent/inference/client/controller.py, the recording half of `DRTCClient`:
-- a tick is journaled to the spool, and the sender ships batches and deletes what was acknowledged.
-- The bytes of a tick are opaque, and what an RPC answers is an argument. The sender's thread ends
-- when its list of answers does. Pacing, back-off and the telemetry window are left out.
pub mod Peeking
pub mod Deleting
use interlatent.Base.{
  ℕ, zero, suc, ◌+◌, ◌-◌, min, max, Bool, true, false, not, Option, none, some, List, [], ◌∷◌,
  length, get_elem?, ◌==◌, if◌then◌else◌,
}
use interlatent.Client.TickSpool.{TickSpool, check_blocked, append_tick, peek_batch, ack}

-- `_REC_BATCH_MAX_BYTES`
abbrev pub rec_batch_max_bytes : ℕ
rec_batch_max_bytes = 262144

pub record DrtcClient : Type 0 where
  -- the session is open: it has an id, a stub and a spool
  pub is_open : Bool
  pub spool : TickSpool
  pub rec_batch_max_ticks : ℕ
  pub rec_captured : ℕ
  pub rec_refused : ℕ
  pub rec_sent : ℕ
  -- the server has no `RecordTicks`
  pub rec_batch_unsupported : Bool

-- What the RPCs of a batch come to: an answer, a server without `RecordTicks`, or another error.
pub data BatchReply : Type 0 where
  answered : (accepted : ℕ) → BatchReply
  unimplemented : BatchReply
  failed : BatchReply

unfoldable pub refuse : DrtcClient → DrtcClient
refuse c = record c { rec_refused = c.rec_refused + 1 }

-- `record_tick`, for the bytes of the tick; `free` is the disk's free space.
unfoldable pub record_tick : ℕ → Bool → List ℕ → DrtcClient → DrtcClient × Bool
unfolding refuse
record_tick free written payload c =
    if c.is_open
    then (let (checked, is_blocked) = check_blocked c.spool free in
        if is_blocked
        then (refuse (record c { spool = checked }), false)
        else (let (journaled, seq) = append_tick checked payload written in
            elim seq [
              | none ↦ (refuse (record c { spool = journaled }), false)
              | some q ↦ (record c { spool = journaled; rec_captured = c.rec_captured + 1 }, true)
            ]))
    else (c, false)

-- The last sequence number of the accepted prefix.
unfoldable pub last_accepted : List (ℕ × List ℕ) → ℕ → Option ℕ
last_accepted batch zero = none
last_accepted batch (suc n) = elim (get_elem? batch n) [ none ↦ none | some entry ↦ some entry.0 ]

-- Deletes the accepted prefix.
unfoldable pub ack_prefix : List (ℕ × List ℕ) → ℕ → DrtcClient → DrtcClient
unfolding last_accepted
ack_prefix batch accepted c = elim (last_accepted batch accepted) [
  | none ↦ c
  | some seq ↦ record c { spool = ack c.spool seq; rec_sent = c.rec_sent + accepted }
]

-- `_send_unary`; `answers` are the `ok`s, up to an exception.
unfoldable pub send_unary : List (ℕ × List ℕ) → List Bool → DrtcClient → DrtcClient × Bool
send_unary [] answers c = (c, true)
send_unary (entry ∷ batch) [] c = (c, false)
send_unary (entry ∷ batch) (ok ∷ answers) c =
    let rest =
      send_unary batch answers
        (record c { spool = ack c.spool entry.0; rec_sent = c.rec_sent + 1 }) in
    if ok then rest else (c, false)

-- `_send_batch`, on a batch that is not empty
unfoldable pub send_batch :
    List (ℕ × List ℕ) → BatchReply → List Bool → DrtcClient → DrtcClient × Bool
unfolding ack_prefix send_unary
send_batch batch (answered n) answers c =
    if c.rec_batch_unsupported
    then send_unary batch answers c
    else (ack_prefix batch (min n (length batch)) c, min n (length batch) == length batch)
send_batch batch unimplemented answers c =
    if c.rec_batch_unsupported
    then send_unary batch answers c
    else send_unary batch answers (record c { rec_batch_unsupported = true })
send_batch batch failed answers c =
    if c.rec_batch_unsupported then send_unary batch answers c else (c, false)

-- `_ship_available`: batches until the spool is empty, one is not accepted whole, or the sender is
-- told to stop. Each exchange has the reads, the reply and the answers of its batch.
unfoldable pub ship_available : List ((ℕ → Bool) × BatchReply × List Bool) → DrtcClient → DrtcClient
unfolding send_batch
ship_available [] c = c
ship_available ((readable, reply, answers) ∷ exchanges) c =
    let peeked = peek_batch readable c.spool (max 1 c.rec_batch_max_ticks) rec_batch_max_bytes in
    let looked = record c { spool = peeked.0 } in
    let sent = send_batch peeked.1 reply answers looked in
    let next = ship_available exchanges sent.0 in
    elim peeked.1 [ [] ↦ looked | entry ∷ batch ↦ if sent.1 then next else sent.0 ]
