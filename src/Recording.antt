-- ===== src/Recording.antt =====
-- The client's sender and the box's servicer together: one batch over `RecordTicks`.
pub mod Handover
pub mod Durable
mod Examples
use interlatent.Base.{ℕ, max, Bool, true, false, List, [], ◌∷◌, map, if◌then◌else◌}
use interlatent.Client.TickSpool.{peek_batch}
use interlatent.Client.Uplink.{
  DrtcClient, BatchReply, answered, failed, send_batch, rec_batch_max_bytes,
}
use interlatent.Server.Recorder.{Tick}
use interlatent.Server.Servicer.{InferenceServicer}
use interlatent.Server.Servicer.Requests.{record_ticks}

-- The ticks of a batch, as the server parses them.
abbrev pub parsed : (List ℕ → Tick) → List (ℕ × List ℕ) → List Tick
parsed parse batch = map (λ entry. parse entry.1) batch

-- One turn of the sender: it peeks, where `readable` says which files can be read, a batch, the server records it and answers; `lost` says that the
-- answer does not arrive.
unfoldable pub exchange :
    {V : Type 0}
    → (ℕ → Bool)
    → (List ℕ → Tick)
    → ℕ
    → (Tick → List Bool)
    → Bool
    → DrtcClient
    → InferenceServicer V
    → DrtcClient × InferenceServicer V
exchange readable parse now outcomes lost c s =
    let peeked = peek_batch readable c.spool (max 1 c.rec_batch_max_ticks) rec_batch_max_bytes in
    let served = record_ticks now outcomes (parsed parse peeked.1) s in
    let reply = if lost then failed else answered served.1 in
    ((send_batch peeked.1 reply [] (record c { spool = peeked.0 })).0, served.0)
