-- ===== src/Relay/Forwarding.antt =====
-- Streams through a connection: what its events do to the table, and what is copied where.
use interlatent.Base.{
  ℕ, Bool, true, false, Option, none, some, List, [], ◌∷◌, All, ◌≡◌, refl, Option-cases, Bool-cases,
  inl, inr, ◌⊎◌, length, if◌then◌else◌,
}
use interlatent.Base.Dict.{ℕ_key, get}
use interlatent.Relay.Registry.{Registry}
use interlatent.Relay.Streams.{
  StreamForwardTable, get_ref, can_open, open_ref, note_bytes, remove_ref, is_dropped,
  forget_dropped,
}
use interlatent.Relay.Connection.{
  Effect, datagram, browser_closed, sent, reset, stopped, respond, RelayProtocol, StreamData,
  target, refuse_incoming, forward, on_wt_stream, on_reset,
}
use interlatent.Relay.Bounds.{
  IsBounded, drop_stream-IsBounded, remove_ref-IsBounded, forget_dropped-IsBounded,
  open_ref-IsBounded, note_bytes-IsBounded, note_bytes-remove_ref-IsBounded,
}

-- A connection's events on streams, each with the registry and the opened stream it meets.
pub data StreamEvent (P : Type 0) : Type 0 where
  chunk : (registry : Registry P) (opened : Option ℕ) (e : StreamData) → StreamEvent P
  aborted : (stream_id : ℕ) → StreamEvent P

module _ {P : Type 0} where
  unfoldable pub after_event : RelayProtocol P → StreamEvent P → RelayProtocol P
  after_event c (chunk r opened e) = record c { fwd = (on_wt_stream r c opened e).0 }
  after_event c (aborted stream_id) = record c { fwd = (on_reset c stream_id).0 }

  unfoldable pub after_events : RelayProtocol P → List (StreamEvent P) → RelayProtocol P
  after_events c [] = c
  after_events c (x ∷ xs) = after_events (after_event c x) xs

  refuse-IsBounded :
      (t : StreamForwardTable (P × ℕ)) (s : ℕ) (ended : Bool)
      → IsBounded t
      → IsBounded (refuse_incoming t s ended).0
  unfolding refuse_incoming
  refuse-IsBounded t s true h = h
  refuse-IsBounded t s false h = drop_stream-IsBounded t s h

  ended-IsBounded :
      (t : StreamForwardTable (P × ℕ)) (s : ℕ) (ended : Bool)
      → IsBounded t
      → IsBounded (if ended then (remove_ref t s).0 else t)
  ended-IsBounded t s true h = remove_ref-IsBounded t s h
  ended-IsBounded t s false h = h

  forward-IsBounded :
      (t : StreamForwardTable (P × ℕ)) (ref : P × ℕ) (e : StreamData)
      → IsBounded t
      → IsBounded (forward t ref e).0
  unfolding forward
  forward-IsBounded t ref e h = elim (Bool-cases (note_bytes t e.stream_id (length e.payload)).1) [
    | inl q ↦
        rw (q, forward)
          (ended-IsBounded (note_bytes t e.stream_id (length e.payload)).0 e.stream_id
            e.stream_ended (note_bytes-IsBounded t e.stream_id (length e.payload) h q))
    | inr q ↦
        rw (q, forward)
          (refuse-IsBounded
            (remove_ref (note_bytes t e.stream_id (length e.payload)).0 e.stream_id).0 e.stream_id
            e.stream_ended (note_bytes-remove_ref-IsBounded t e.stream_id (length e.payload) h))
  ]

  -- What holds on each way through the handler holds of its result.
  on_wt_stream-cases :
      (Q : StreamForwardTable (P × ℕ) × List (Effect P) → Type 0) (r : Registry P)
      (c : RelayProtocol P) (opened : Option ℕ) (e : StreamData)
      → Q (if e.stream_ended then forget_dropped c.fwd e.stream_id else c.fwd, [])
      → Q (refuse_incoming c.fwd e.stream_id e.stream_ended)
      → ((ref : P × ℕ) → get_ref c.fwd e.stream_id ≡ some ref → Q (forward c.fwd ref e))
      → ((dest : P) (out_sid : ℕ)
          → get_ref c.fwd e.stream_id ≡ none
          → target r (get e.session_stream c.sessions) ≡ some dest
          → opened ≡ some out_sid
          → can_open c.fwd ≡ true
          → Q (forward (open_ref c.fwd e.stream_id (dest, out_sid)) (dest, out_sid) e))
      → Q (on_wt_stream r c opened e)
  unfolding on_wt_stream
  on_wt_stream-cases Q r c opened e known refused live fresh =
      elim (Bool-cases (is_dropped c.fwd e.stream_id)) [
        | inl p ↦ rw (p, on_wt_stream) known
        | inr p ↦ elim (Option-cases (get_ref c.fwd e.stream_id)) [
          | inr (ref, q) ↦ rw (p, q, on_wt_stream) (live ref q)
          | inl q ↦ elim (Option-cases (target r (get e.session_stream c.sessions))) [
            | inl s ↦ rw (p, q, s, on_wt_stream) refused
            | inr (dest, s) ↦ elim (Bool-cases (can_open c.fwd)) [
              | inr t ↦ rw (p, q, s, t, on_wt_stream) refused
              | inl t ↦ elim (Option-cases opened) [
                | inl u ↦ rw (p, q, s, t, u, on_wt_stream) refused
                | inr (out_sid, u) ↦ rw (p, q, s, t, u, on_wt_stream) (fresh dest out_sid q s u t)
              ]
            ]
          ]
        ]
      ]

  dropped-IsBounded :
      (t : StreamForwardTable (P × ℕ)) (s : ℕ) (ended : Bool)
      → IsBounded t
      → IsBounded (if ended then forget_dropped t s else t)
  dropped-IsBounded t s true h = forget_dropped-IsBounded t s h
  dropped-IsBounded t s false h = h

  after_event-IsBounded :
      (c : RelayProtocol P) (x : StreamEvent P) → IsBounded c.fwd → IsBounded (after_event c x).fwd
  unfolding after_event on_reset
  after_event-IsBounded c (aborted s) h =
      forget_dropped-IsBounded (remove_ref c.fwd s).0 s (remove_ref-IsBounded c.fwd s h)
  after_event-IsBounded c (chunk r opened e) h =
      on_wt_stream-cases (λ x. IsBounded x.0) r c opened e
        (dropped-IsBounded c.fwd e.stream_id e.stream_ended h)
        (refuse-IsBounded c.fwd e.stream_id e.stream_ended h)
        (λ ref q. forward-IsBounded c.fwd ref e h)
        (λ dest out_sid empty q o room.
          forward-IsBounded (open_ref c.fwd e.stream_id (dest, out_sid)) (dest, out_sid) e
            (open_ref-IsBounded c.fwd e.stream_id (dest, out_sid) h room))

  -- Whatever the order and the size of the chunks that a connection receives, from a table within
  -- its caps on: at most eight streams are being copied, none of them past 262144 bytes, and at
  -- most 1024 refused streams are remembered.
  pub after_events-IsBounded :
      (c : RelayProtocol P) (xs : List (StreamEvent P))
      → IsBounded c.fwd
      → IsBounded (after_events c xs).fwd
  unfolding after_events
  after_events-IsBounded c [] h = h
  after_events-IsBounded c (x ∷ xs) h =
      after_events-IsBounded (after_event c x) xs (after_event-IsBounded c x h)

  -- The outgoing half: the stored one, or, only if there is none, the one that was opened at the peer.
  abbrev pub IsDestined : Option (P × ℕ) → Option P → Option ℕ → P × ℕ → Type 0
  IsDestined stored dest opened ref =
      (stored ≡ some ref) ⊎ ((stored ≡ none) × (dest ≡ some ref.0) × (opened ≡ some ref.1))

  -- An effect that copies a chunk as it is, or ends a stream, to the stored outgoing half or else
  -- on a stream that was opened for it at the peer.
  abbrev pub IsCopyOf : Option (P × ℕ) → Option P → Option ℕ → StreamData → Effect P → Type 0
  IsCopyOf stored dest opened e (sent p out_sid payload ended) =
      ((payload ≡ e.payload) × (ended ≡ e.stream_ended))
      × IsDestined stored dest opened (p, out_sid)
  IsCopyOf stored dest opened e (reset p out_sid) = IsDestined stored dest opened (p, out_sid)
  IsCopyOf stored dest opened e (stopped in_sid) = in_sid ≡ e.stream_id
  IsCopyOf stored dest opened e (datagram p payload) = ⊥
  IsCopyOf stored dest opened e (browser_closed p) = ⊥
  IsCopyOf stored dest opened e (respond stream_id status) = ⊥

  refuse-IsCopyOf :
      (stored : Option (P × ℕ)) (dest : Option P) (opened : Option ℕ) (e : StreamData)
      (t : StreamForwardTable (P × ℕ)) (ended : Bool)
      → All (IsCopyOf stored dest opened e) (refuse_incoming t e.stream_id ended).1
  unfolding refuse_incoming
  refuse-IsCopyOf stored dest opened e t true = tt
  refuse-IsCopyOf stored dest opened e t false = (refl, tt)

  forward-IsCopyOf :
      (stored : Option (P × ℕ)) (dest : Option P) (opened : Option ℕ) (e : StreamData)
      (t : StreamForwardTable (P × ℕ)) (ref : P × ℕ)
      → IsDestined stored dest opened ref
      → All (IsCopyOf stored dest opened e) (forward t ref e).1
  unfolding forward
  forward-IsCopyOf stored dest opened e t ref h =
      elim (Bool-cases (note_bytes t e.stream_id (length e.payload)).1) [
        | inl q ↦ rw (q, forward) ((((refl, refl), h), tt))
        | inr q ↦
            rw (q, forward)
              ((
                h,
                refuse-IsCopyOf stored dest opened e
                    (remove_ref (note_bytes t e.stream_id (length e.payload)).0 e.stream_id).0
                    e.stream_ended,
              ))
      ]

  -- Each effect of a chunk is on the outgoing half that the table holds for the stream, or, where
  -- it holds none, on the stream just opened at the peer of the other side; what is sent is the
  -- chunk as it came, its end included. Nothing goes anywhere else.
  pub on_wt_stream-IsCopyOf :
      (r : Registry P) (c : RelayProtocol P) (opened : Option ℕ) (e : StreamData)
      → All
          (IsCopyOf
            (get_ref c.fwd e.stream_id)
            (target r (get e.session_stream c.sessions))
            opened
            e)
          (on_wt_stream r c opened e).1
  on_wt_stream-IsCopyOf r c opened e =
      let stored = get_ref c.fwd e.stream_id in
      let dest = target r (get e.session_stream c.sessions) in
      on_wt_stream-cases (λ x. All (IsCopyOf stored dest opened e) x.1) r c opened e tt
        (refuse-IsCopyOf stored dest opened e c.fwd e.stream_ended)
        (λ ref q. forward-IsCopyOf stored dest opened e c.fwd ref (inl q))
        (λ p out_sid empty q o room.
          forward-IsCopyOf stored dest opened e (open_ref c.fwd e.stream_id (p, out_sid))
            (p, out_sid) (inr (empty, q, o)))
