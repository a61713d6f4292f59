-- ===== src/Client/Uplink/Deleting.antt =====
-- What the sender deletes: the accepted prefix of the batch it was peeked from.
use interlatent.Base.{
  ℕ, Bool, zero, suc, ◌≤◌, ◌<◌, max, true, false, none, some, List, get_elem?, take, ◌≡◌, refl, ap,
  ◌∙◌, arith, Option-cases, inl, inr,
}
use interlatent.Base.Dict.{ℕ_key, get}
use interlatent.Client.ActionSchedule.Sorting.{Ascends}
use interlatent.Client.TickSpool.{peek_from, peek_batch, ack_from, ack}
use interlatent.Client.Uplink.{DrtcClient, last_accepted, ack_prefix}
use interlatent.Client.Uplink.Peeking.{
  ack_from-deleted, take-Ascends, contains-take, peek_from-files, peek_from-order,
  peek_from-contains, peek_from-earlier,
}

last_accepted-entry :
    (batch : List (ℕ × List ℕ)) (n seq : ℕ)
    → last_accepted batch n ≡ some seq
    → (m : ℕ) × (e : ℕ × List ℕ) × (n ≡ suc m) × (get_elem? batch m ≡ some e) × (e.0 ≡ seq)
unfolding last_accepted
last_accepted-entry batch zero seq h = ground (arith, h)
last_accepted-entry batch (suc m) seq h = elim (Option-cases (get_elem? batch m)) [
  | inl e ↦ ground (arith, h, e)
  | inr (x, e) ↦ (m, x, refl, e, ground (arith, h, e))
]

-- Where the batch was peeked from the client's spool, whose order ascends: a tick that can be read and is on disk before
-- and not after the accepted prefix was acknowledged is one of the prefix.
pub ack_prefix-deleted :
    (readable : ℕ → Bool) (max_ticks max_total accepted q : ℕ) (p : List ℕ) (c : DrtcClient)
    → Ascends 0 c.spool.order
    → readable q ≡ true
    → get q c.spool.files ≡ some p
    → get q
        (ack_prefix
          (peek_batch readable c.spool max_ticks max_total).1
          accepted
          (record c { spool = (peek_batch readable c.spool max_ticks max_total).0 })).spool.files
      ≡ none
    → (i : ℕ) × (i < accepted)
      × (get_elem? (peek_batch readable c.spool max_ticks max_total).1 i ≡ some (q, p))
unfolding ack_prefix peek_batch ack
ack_prefix-deleted readable max_ticks max_total accepted q p c up a on gone =
    let s = c.spool in
    let k = max 1 max_ticks in
    let peeked = peek_from readable max_total false 0 (take k s.order) s in
    let still : get q peeked.0.files ≡ some p =
      ap (get q) (peek_from-files readable max_total false 0 (take k s.order) s) ∙ on in
    elim (Option-cases (last_accepted peeked.1 accepted)) [
      | inl l ↦
          let same : get q peeked.0.files ≡ none = rw (l, ack_prefix) at gone in
          ground (arith, still, same)
      | inr (seq, l) ↦
          let acked : get q (ack_from seq peeked.0.order peeked.0).files ≡ none =
            rw (l, ack_prefix) at gone in
          let (due, le) = ack_from-deleted seq q p peeked.0.order peeked.0 still acked in
          let (m, e, n, at_m, is_seq) = last_accepted-entry peeked.1 accepted seq l in
          let le_last : q ≤ e.0 = omega (arith, le, is_seq) in
          let ordered = peek_from-order readable q max_total false 0 (take k s.order) s due in
          let looked =
            contains-take 0 k q e.0 s.order up ordered
              (peek_from-contains readable max_total false 0 (take k s.order) s m e at_m) le_last in
          let found =
            peek_from-earlier readable max_total false 0 (take k s.order) s 0 m e q p
              (take-Ascends 0 k s.order up) at_m a on looked le_last in
          (found.0, omega (arith, found.1, n), found.2)
    ]
