-- ===== src/Client/TickSpool/Ordering.antt =====
-- The numbers that are due ascend, and are below the next one, in every state of a spool.
use interlatent.Base.{
  ℕ, ◌+◌, ◌≤◌, ◌<◌, max, Bool, true, false, ◌&&◌, List, [], ◌∷◌, ◌++◌, map, length, take, ltb, leb,
  ◌==◌, ◌≡◌, arith, Option-cases, Bool-cases, inl, inr,
}
use interlatent.Base.Dict.{Dict, ℕ_key, get}
use interlatent.Client.ActionSchedule.{sorted}
use interlatent.Client.ActionSchedule.Sorting.{Ascends, sorted-Ascends}
use interlatent.Client.ActionSchedule.Spans.{contains}
use interlatent.Client.TickSpool.{
  TickSpool, open_spool, check_blocked, append_tick, remove_first, forget, read_tick, peek_from,
  peek_batch, drop_acked, ack_from, ack,
}
use interlatent.Client.TickSpool.Keeping.{
  Call, appends, acks, peeks, checks_blocked, crashes, step, run, lt-next_after, contains-append,
  drop_acked-same,
}

pub record IsOrdered (s : TickSpool) : Type 0 where
  pub ascends : Ascends 0 s.order
  pub below : (q : ℕ) → contains q s.order ≡ true → q < s.next_seq

remove_first-Ascends : (lo q : ℕ) (ns : List ℕ) → Ascends lo ns → Ascends lo (remove_first q ns)
unfolding remove_first
remove_first-Ascends lo q [] up = tt
remove_first-Ascends lo q (n ∷ ns) up = elim (Bool-cases (q == n)) [
  | inl e ↦ rw e (raise-Ascends lo n ns up.0 up.1)
  | inr e ↦ rw e (up.0, remove_first-Ascends n q ns up.1)
]
  where
    raise-Ascends : (lo hi : ℕ) (ms : List ℕ) → lo ≤ hi → Ascends hi ms → Ascends lo ms
    raise-Ascends lo hi [] l h = tt
    raise-Ascends lo hi (m ∷ ms) l h = (omega (arith, l, h.0), h.1)

contains-remove_first_back :
    (q r : ℕ) (ns : List ℕ) → contains q (remove_first r ns) ≡ true → contains q ns ≡ true
unfolding contains remove_first
contains-remove_first_back q r [] h = h
contains-remove_first_back q r (n ∷ ns) h = ground (arith, h, contains-remove_first_back q r ns)

append-Ascends :
    (lo r : ℕ) (ns : List ℕ)
    → Ascends lo ns
    → lo ≤ r
    → ((q : ℕ) → contains q ns ≡ true → q < r)
    → Ascends lo (ns ++ r ∷ [])
unfolding contains
append-Ascends lo r [] up l f = (l, tt)
append-Ascends lo r (n ∷ ns) up l f =
    let first : n < r = f n (ground arith) in
    (up.0, append-Ascends n r ns up.1 (omega (arith, first)) (λ q h. f q (ground (arith, h))))

forget-IsOrdered : (s : TickSpool) (r : ℕ) → IsOrdered s → IsOrdered (forget s r)
unfolding forget
forget-IsOrdered s r o = elim (Option-cases (get r s.pending)) [
  | inl e ↦ rw (e, forget) o
  | inr (size, e) ↦
      rw (e, forget)
        (record {
          ascends = remove_first-Ascends 0 r s.order o.ascends;
          below = λ q h. o.below q (contains-remove_first_back q r s.order h);
        })
]

peek_from-IsOrdered :
    (readable : ℕ → Bool) (max_total : ℕ) (started : Bool) (total : ℕ) (seqs : List ℕ)
    (s : TickSpool)
    → IsOrdered s
    → IsOrdered (peek_from readable max_total started total seqs s).0
unfolding peek_from
peek_from-IsOrdered readable max_total started total [] s o = o
peek_from-IsOrdered readable max_total started total (r ∷ seqs) s o =
    elim (Option-cases (read_tick readable s r)) [
      | inl e ↦
          rw (e, peek_from)
            (peek_from-IsOrdered readable max_total started total seqs (forget s r)
              (forget-IsOrdered s r o))
      | inr (payload, e) ↦ elim (Bool-cases (started && ltb max_total (total + length payload))) [
        | inl f ↦ rw (e, f, peek_from) o
        | inr f ↦
            rw (e, f, peek_from)
              (peek_from-IsOrdered readable max_total true (total + length payload) seqs s o)
      ]
    ]

-- The loop of `ack` keeps the next number and leaves a later part of the order.
ack_from-IsOrdered :
    (through_seq lo : ℕ) (ns : List ℕ) (s : TickSpool)
    → Ascends lo ns
    → ((q : ℕ) → contains q ns ≡ true → q < s.next_seq)
    → IsOrdered (ack_from through_seq ns s)
unfolding ack_from contains
ack_from-IsOrdered through_seq lo [] s up f = record { ascends = tt; below = f }
ack_from-IsOrdered through_seq lo (r ∷ ns) s up f = elim (Bool-cases (leb r through_seq)) [
  | inr e ↦ rw (e, ack_from) (record { ascends = (omega arith, up.1); below = f })
  | inl e ↦
      let same = (drop_acked-same 0 [] s r).1 in
      rw (e, ack_from)
        (ack_from-IsOrdered through_seq r ns (drop_acked s r) up.1
          (λ q h. rw same (f q (ground (arith, h)))))
]

open_spool-IsOrdered :
    (files : Dict ℕ (List ℕ)) (max_bytes min_free : ℕ)
    → IsOrdered (open_spool files max_bytes min_free)
unfolding open_spool
open_spool-IsOrdered files max_bytes min_free =
    let seqs = map (λ e. e.0) files in
    record {
      ascends = sorted-Ascends seqs;
      below = λ q h. lt-next_after 0 q (sorted seqs) (sorted-Ascends seqs) h;
    }

step-IsOrdered : (s : TickSpool) (c : Call) → IsOrdered s → IsOrdered (step s c)
unfolding step ack peek_batch check_blocked append_tick
step-IsOrdered s (appends payload true) o = record {
  ascends = append-Ascends 0 s.next_seq s.order o.ascends (omega arith) o.below;
  below = λ q h. ground (arith, h, contains-append q s.next_seq s.order, o.below q);
}
step-IsOrdered s (appends payload false) o = record {
  ascends = o.ascends;
  below = λ q h. omega (arith, o.below q h);
}
step-IsOrdered s (acks through_seq) o = ack_from-IsOrdered through_seq 0 s.order s o.ascends o.below
step-IsOrdered s (peeks readable max_ticks max_total) o =
    peek_from-IsOrdered readable max_total false 0 (take (max 1 max_ticks) s.order) s o
step-IsOrdered s (checks_blocked free) o = record { ascends = o.ascends; below = o.below }
step-IsOrdered s crashes o = open_spool-IsOrdered s.files s.max_bytes s.min_free

-- From the opening on, also across crashes.
pub run-IsOrdered : (s : TickSpool) (cs : List Call) → IsOrdered s → IsOrdered (run s cs)
unfolding run
run-IsOrdered s [] o = o
run-IsOrdered s (c ∷ cs) o = run-IsOrdered (step s c) cs (step-IsOrdered s c o)

pub opened-IsOrdered :
    (files : Dict ℕ (List ℕ)) (max_bytes min_free : ℕ) (cs : List Call)
    → IsOrdered (run (open_spool files max_bytes min_free) cs)
opened-IsOrdered files max_bytes min_free cs =
    run-IsOrdered (open_spool files max_bytes min_free) cs
      (open_spool-IsOrdered files max_bytes min_free)
