-- ===== src/Relay/Bounds.antt =====
-- What a misbehaving sender can make a connection keep, and what reaches the other side.
use interlatent.Base.{
  ℕ, ◌+◌, ◌-◌, ◌≤◌, string_key, true, length, length-drop, leb, ◌≡◌, arith, Option-cases, inl, inr,
}
use interlatent.Base.Dict.{Dict, ℕ_key, get, put}
use interlatent.Base.Dict.Laws.{
  Each, Each-put, Each-remove, length-put, length-put_found, length-remove, remove-put,
}
use interlatent.Relay.Streams.{
  StreamForwardTable, empty_table, can_open, open_ref, note_bytes, remove_ref, drop_stream, prune,
  forget_dropped, max_forwards_per_conn, max_forward_stream_bytes, max_dropped_tracked,
}

prune_le : (n : ℕ) (d : Dict ℕ Unit) → length (prune n d) ≤ n
unfolding prune
prune_le n d = omega (arith, length-drop (length d - n) d)

module _ {R : Type 0} where
  -- The caps of a table: the streams, the bytes of each, and the refused streams it remembers.
  pub record IsBounded (t : StreamForwardTable R) : Type 0 where
    pub streams : length t.active ≤ max_forwards_per_conn
    pub bytes : Each (λ k e. e.bytes_so_far ≤ max_forward_stream_bytes) t.active
    pub refused : length t.dropped ≤ max_dropped_tracked

  pub empty-IsBounded : IsBounded (empty_table {R = R})
  empty-IsBounded = record { streams = omega arith; bytes = tt; refused = omega arith }

  pub drop_stream-IsBounded :
      (t : StreamForwardTable R) (s : ℕ) → IsBounded t → IsBounded (drop_stream t s)
  unfolding drop_stream
  drop_stream-IsBounded t s h = record {
    streams = h.streams;
    bytes = h.bytes;
    refused = prune_le max_dropped_tracked (put s tt t.dropped);
  }

  pub remove_ref-IsBounded :
      (t : StreamForwardTable R) (s : ℕ) → IsBounded t → IsBounded (remove_ref t s).0
  unfolding remove_ref
  remove_ref-IsBounded t s h = record {
    streams = omega (arith, h.streams, length-remove s t.active);
    bytes = Each-remove (λ k e. e.bytes_so_far ≤ max_forward_stream_bytes) s t.active h.bytes;
    refused = h.refused;
  }

  pub forget_dropped-IsBounded :
      (t : StreamForwardTable R) (s : ℕ) → IsBounded t → IsBounded (forget_dropped t s)
  unfolding forget_dropped
  forget_dropped-IsBounded t s h = record {
    streams = h.streams;
    bytes = h.bytes;
    refused = omega (arith, h.refused, length-remove s t.dropped);
  }

  pub open_ref-IsBounded :
      (t : StreamForwardTable R) (s : ℕ) (ref : R)
      → IsBounded t
      → can_open t ≡ true
      → IsBounded (open_ref t s ref)
  unfolding open_ref can_open
  open_ref-IsBounded t s ref h room = record {
    streams =
        ground (arith, room, length-put s (record { out_ref = ref; bytes_so_far = 0 }) t.active);
    bytes =
        Each-put (λ k e. e.bytes_so_far ≤ max_forward_stream_bytes) s
          (record { out_ref = ref; bytes_so_far = 0 }) t.active (omega arith) h.bytes;
    refused = h.refused;
  }

  -- Counting keeps the caps where it answers that the stream is within its budget, and where the
  -- stream is forgotten after it.
  pub note_bytes-IsBounded :
      (t : StreamForwardTable R) (s n : ℕ)
      → IsBounded t
      → (note_bytes t s n).1 ≡ true
      → IsBounded (note_bytes t s n).0
  unfolding note_bytes
  note_bytes-IsBounded t s n h within = elim (Option-cases (get s t.active)) [
    | inl q ↦ rw (q, note_bytes) h
    | inr (e, q) ↦
        let fits : e.bytes_so_far + n ≤ max_forward_stream_bytes =
          let total : leb (e.bytes_so_far + n) max_forward_stream_bytes ≡ true =
            rw (q, note_bytes) at within in
          ground (arith, total) in
        rw (q, note_bytes)
          (record {
            streams = omega (
              arith,
              h.streams,
              length-put_found s (record e { bytes_so_far = e.bytes_so_far + n }) e t.active q,
            );
            bytes =
                Each-put (λ k e. e.bytes_so_far ≤ max_forward_stream_bytes) s
                  (record e { bytes_so_far = e.bytes_so_far + n }) t.active fits h.bytes;
            refused = h.refused;
          })
  ]

  pub note_bytes-remove_ref-IsBounded :
      (t : StreamForwardTable R) (s n : ℕ)
      → IsBounded t
      → IsBounded (remove_ref (note_bytes t s n).0 s).0
  unfolding note_bytes remove_ref
  note_bytes-remove_ref-IsBounded t s n h = elim (Option-cases (get s t.active)) [
    | inl q ↦ rw (q, note_bytes) (remove_ref-IsBounded t s h)
    | inr (e, q) ↦
        rw (q, note_bytes, remove-put s (record e { bytes_so_far = e.bytes_so_far + n }) t.active)
          (remove_ref-IsBounded t s h)
  ]
