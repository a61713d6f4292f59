-- ===== src/Recording/Handover.antt =====
-- A tick leaves the robot's disk only when the box has it.
use interlatent.Base.{
  ℕ, zero, suc, max, min, Bool, true, false, none, some, List, [], ◌∷◌, length, get_elem?,
  if◌then◌else◌, ◌==◌, ◌≡◌, sym, subst, ap, ◌∙◌, arith,
}
use interlatent.Base.Dict.{Dict, ℕ_key, get}
use interlatent.Client.TickSpool.{open_spool, peek_batch}
use interlatent.Client.TickSpool.Keeping.{Call, run}
use interlatent.Client.TickSpool.Ordering.{IsOrdered, opened-IsOrdered}
use interlatent.Client.Uplink.{
  DrtcClient, answered, failed, send_batch, send_unary, ack_prefix, rec_batch_max_bytes,
}
use interlatent.Client.Uplink.Deleting.{ack_prefix-deleted}
use interlatent.Client.Uplink.Peeking.{peek_batch-files}
use interlatent.Server.Recorder.{Tick, SessionRecorder, seen}
use interlatent.Server.Servicer.{InferenceServicer}
use interlatent.Server.Servicer.Requests.{record_ticks}
use interlatent.Server.Servicer.Ticks.{record_ticks-seen}
use interlatent.Recording.{parsed, exchange}

get_elem?-map :
    (parse : List ℕ → Tick) (batch : List (ℕ × List ℕ)) (i q : ℕ) (p : List ℕ)
    → get_elem? batch i ≡ some (q, p)
    → get_elem? (parsed parse batch) i ≡ some (parse p)
get_elem?-map parse [] i q p e = ground (arith, e)
get_elem?-map parse (x ∷ batch) zero q p e =
    let same : x ≡ (q, p) = ground (arith, e) in ap (λ y. some (parse y.1)) same
get_elem?-map parse (x ∷ batch) (suc i) q p e = get_elem?-map parse batch i q p e

-- Without an answer the files stay.
failed-files :
    (batch : List (ℕ × List ℕ)) (c : DrtcClient)
    → c.rec_batch_unsupported ≡ false
    → (send_batch batch failed [] c).0 ≡ c
unfolding send_batch
failed-files batch c supported =
    ap (λ b. (if b then send_unary batch [] c else (c, false)).0) supported

answered-ack_prefix :
    (batch : List (ℕ × List ℕ)) (n : ℕ) (c : DrtcClient)
    → c.rec_batch_unsupported ≡ false
    → (send_batch batch (answered n) [] c).0 ≡ ack_prefix batch (min n (length batch)) c
unfolding send_batch
answered-ack_prefix batch n c supported =
    ap
      (λ b.
        (if b
          then send_unary batch [] c
          else (ack_prefix batch (min n (length batch)) c, min n (length batch) == length batch)).0)
      supported

-- The client's spool was opened on any files and had any calls and crashes since, and the server has
-- `RecordTicks`. If a tick is on the client's disk before one batch is sent and not after it, then a
-- recorder of the box has seen the tick's step, whether or not the answer arrived.
pub exchange-deleted :
    {V : Type 0}
    → (readable : ℕ → Bool) (parse : List ℕ → Tick) (now : ℕ) (outcomes : Tick → List Bool)
      (lost : Bool) (c : DrtcClient)
    → (s : InferenceServicer V) (files : Dict ℕ (List ℕ)) (max_bytes min_free : ℕ)
      (calls : List Call)
    → (q : ℕ) (p : List ℕ) → c.spool ≡ run (open_spool files max_bytes min_free) calls
    → c.rec_batch_unsupported ≡ false
    → readable q ≡ true
    → get q c.spool.files ≡ some p
    → get q (exchange readable parse now outcomes lost c s).0.spool.files ≡ none
    → (h : ℕ) × (after : SessionRecorder) × (get h
          (exchange readable parse now outcomes lost c s).1.recorders
        ≡ some after)
      × (seen (parse p).step after.steps_seen ≡ true)
unfolding exchange
exchange-deleted readable parse now outcomes true c s files max_bytes min_free calls q p opened
      supported a on gone =
    let peeked = peek_batch readable c.spool (max 1 c.rec_batch_max_ticks) rec_batch_max_bytes in
    let looked = record c { spool = peeked.0 } in
    let still : get q peeked.0.files ≡ some p =
      ap (get q)
        (peek_batch-files readable c.spool (max 1 c.rec_batch_max_ticks) rec_batch_max_bytes)
      ∙ on in
    let same =
      ap (λ x. get q x.spool.files) (sym (failed-files peeked.1 looked supported)) ∙ gone in
    ground (arith, still, same)
exchange-deleted readable parse now outcomes false c s files max_bytes min_free calls q p opened
      supported a on gone =
    let ordered = subst IsOrdered (sym opened) (opened-IsOrdered files max_bytes min_free calls) in
    let k = max 1 c.rec_batch_max_ticks in
    let peeked = peek_batch readable c.spool k rec_batch_max_bytes in
    let served = record_ticks now outcomes (parsed parse peeked.1) s in
    let looked = record c { spool = peeked.0 } in
    let acked =
      ap (λ x. get q x.spool.files) (sym (answered-ack_prefix peeked.1 served.1 looked supported))
      ∙ gone in
    let found =
      ack_prefix-deleted readable k rec_batch_max_bytes (min served.1 (length peeked.1)) q p c
        ordered.ascends a on acked in
    record_ticks-seen now outcomes (parsed parse peeked.1) s found.0 (parse p)
      (omega (arith, found.1)) (get_elem?-map parse peeked.1 found.0 q p found.2)
