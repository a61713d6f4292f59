-- ===== src/Client/Uplink/Peeking.antt =====
-- What a batch that is peeked from an ascending order holds, and what an acknowledgement deletes.
use interlatent.Base.{
  ℕ, zero, suc, ◌+◌, ◌≤◌, max, Bool, true, false, ◌&&◌, none, some, List, [], ◌∷◌, length,
  get_elem?, leb, ltb, take, ℕ_discrete, ◌≡◌, ◌≢◌, refl, ap, ◌∙◌, arith, Bool-cases, Option-cases,
  inl, inr, ◌⊎◌,
}
use interlatent.Base.Dict.{ℕ_key, get, get-remove}
use interlatent.Client.ActionSchedule.Sorting.{Ascends}
use interlatent.Client.ActionSchedule.Spans.{contains}
use interlatent.Client.TickSpool.{
  TickSpool, forget, read_tick, remove_first, peek_from, peek_batch, drop_acked, ack_from,
}
use interlatent.Client.TickSpool.Batches.{forget-files, read_tick-some}
use interlatent.Client.TickSpool.Keeping.{drop_acked-same, read_tick-none}

-- An acknowledgement deletes ticks that are due and up to its number.
pub ack_from-deleted :
    (through_seq q : ℕ) (p : List ℕ) (ns : List ℕ) (s : TickSpool)
    → get q s.files ≡ some p
    → get q (ack_from through_seq ns s).files ≡ none
    → (contains q ns ≡ true) × (q ≤ through_seq)
unfolding ack_from contains
ack_from-deleted through_seq q p [] s e d = ground (arith, e, d)
ack_from-deleted through_seq q p (r ∷ ns) s e d = elim (Bool-cases (leb r through_seq)) [
  | inr f ↦ ground (arith, f, e, d)
  | inl f ↦ elim (ℕ_discrete r q) [
    | yes m ↦ (ground (arith, m), ground (arith, m, f))
    | no m ↦
        let stays : get q (drop_acked s r).files ≡ some p =
          ap (get q) (drop_acked-same q p s r).0 ∙ ground (arith, m, e, get-remove r q s.files) in
        let gone : get q (ack_from through_seq ns (drop_acked s r)).files ≡ none =
          ground (arith, f, d) in
        let rest = ack_from-deleted through_seq q p ns (drop_acked s r) stays gone in
        (ground (arith, rest.0), rest.1)
  ]
]

first_le : (lo q : ℕ) (ns : List ℕ) → Ascends lo ns → contains q ns ≡ true → lo ≤ q
unfolding contains
first_le lo q [] up h = ground (arith, h)
first_le lo q (n ∷ ns) up h = ground (arith, h, up.0, first_le n q ns up.1)

pub take-Ascends : (lo k : ℕ) (ns : List ℕ) → Ascends lo ns → Ascends lo (take k ns)
take-Ascends lo zero ns up = tt
take-Ascends lo (suc k) [] up = tt
take-Ascends lo (suc k) (n ∷ ns) up = (up.0, take-Ascends n k ns up.1)

-- What is not above a number in the first `k` is itself among them.
pub contains-take :
    (lo k q r : ℕ) (ns : List ℕ)
    → Ascends lo ns
    → contains q ns ≡ true
    → contains r (take k ns) ≡ true
    → q ≤ r
    → contains q (take k ns) ≡ true
unfolding contains
contains-take lo zero q r ns up h i l = ground (arith, i)
contains-take lo (suc k) q r [] up h i l = ground (arith, h)
contains-take lo (suc k) q r (n ∷ ns) up h i l =
    ground (arith, h, i, l, contains-take n k q r ns up.1, first_le n q ns up.1)

pub peek_from-files :
    (readable : ℕ → Bool) (max_total : ℕ) (started : Bool) (total : ℕ) (seqs : List ℕ)
    (s : TickSpool)
    → (peek_from readable max_total started total seqs s).0.files ≡ s.files
unfolding peek_from
peek_from-files readable max_total started total [] s = refl
peek_from-files readable max_total started total (r ∷ seqs) s =
    elim (Option-cases (read_tick readable s r)) [
      | inl e ↦
          rw (e, peek_from)
            (peek_from-files readable max_total started total seqs (forget s r) ∙ forget-files s r)
      | inr (payload, e) ↦ elim (Bool-cases (started && ltb max_total (total + length payload))) [
        | inl f ↦ rw (e, f, peek_from) refl
        | inr f ↦
            rw (e, f, peek_from)
              (peek_from-files readable max_total true (total + length payload) seqs s)
      ]
    ]

pub peek_batch-files :
    (readable : ℕ → Bool) (s : TickSpool) (max_ticks max_total : ℕ)
    → (peek_batch readable s max_ticks max_total).0.files ≡ s.files
unfolding peek_batch
peek_batch-files readable s max_ticks max_total =
    peek_from-files readable max_total false 0 (take (max 1 max_ticks) s.order) s

contains-remove_first_before :
    (q r : ℕ) (ns : List ℕ) → contains q (remove_first r ns) ≡ true → contains q ns ≡ true
unfolding contains remove_first
contains-remove_first_before q r [] h = h
contains-remove_first_before q r (n ∷ ns) h = ground (arith, h, contains-remove_first_before q r ns)

contains-forget :
    (q r : ℕ) (s : TickSpool) → contains q (forget s r).order ≡ true → contains q s.order ≡ true
unfolding forget
contains-forget q r s h = elim (Option-cases (get r s.pending)) [
  | inl e ↦ rw (e, forget) at h
  | inr (size, e) ↦ contains-remove_first_before q r s.order (rw (e, forget) at h)
]

-- Peeking only takes out of the order.
pub peek_from-order :
    (readable : ℕ → Bool) (q max_total : ℕ) (started : Bool) (total : ℕ) (seqs : List ℕ)
    (s : TickSpool)
    → contains q (peek_from readable max_total started total seqs s).0.order ≡ true
    → contains q s.order ≡ true
unfolding peek_from
peek_from-order readable q max_total started total [] s h = h
peek_from-order readable q max_total started total (r ∷ seqs) s h =
    elim (Option-cases (read_tick readable s r)) [
      | inl e ↦ contains-forget q r s (
          peek_from-order readable q max_total started total seqs (forget s r)
            (rw (e, peek_from) at h))
      | inr (payload, e) ↦ elim (Bool-cases (started && ltb max_total (total + length payload))) [
        | inl f ↦ rw (e, f, peek_from) at h
        | inr f ↦
            peek_from-order readable q max_total true (total + length payload) seqs s
              (rw (e, f, peek_from) at h)
      ]
    ]

-- An entry of a list is its first or one of the others.
entry_cases :
    (x e : ℕ × List ℕ) (out : List (ℕ × List ℕ)) (n : ℕ)
    → get_elem? (x ∷ out) n ≡ some e
    → ((x ≡ e) × (n ≡ 0)) ⊎ ((m : ℕ) × (n ≡ suc m) × (get_elem? out m ≡ some e))
entry_cases x e out zero h = inl (ground (arith, h), refl)
entry_cases x e out (suc m) h = inr (m, refl, h)

-- A number in the batch is one of those looked at.
pub peek_from-contains :
    (readable : ℕ → Bool) (max_total : ℕ) (started : Bool) (total : ℕ) (seqs : List ℕ)
    (s : TickSpool) (n : ℕ) (e : ℕ × List ℕ)
    → get_elem? (peek_from readable max_total started total seqs s).1 n ≡ some e
    → contains e.0 seqs ≡ true
unfolding peek_from contains
peek_from-contains readable max_total started total [] s n e h = ground (arith, h)
peek_from-contains readable max_total started total (r ∷ seqs) s n e h =
    elim (Option-cases (read_tick readable s r)) [
      | inl g ↦
          let rest =
            peek_from-contains readable max_total started total seqs (forget s r) n e
              (rw (g, peek_from) at h) in
          ground (arith, rest)
      | inr (payload, g) ↦ elim (Bool-cases (started && ltb max_total (total + length payload))) [
        | inl f ↦
            let none_there : none ≡ some e = rw (g, f, peek_from) at h in ground (arith, none_there)
        | inr f ↦
            let out = (peek_from readable max_total true (total + length payload) seqs s).1 in
            let found : get_elem? ((r, payload) ∷ out) n ≡ some e = rw (g, f, peek_from) at h in
            elim (entry_cases (r, payload) e out n found) [
              | inl x ↦ let first : r ≡ e.0 = ap (λ y. y.0) x.0 in ground (arith, first)
              | inr x ↦
                  let rest =
                    peek_from-contains readable max_total true (total + length payload) seqs s x.0 e
                      x.2 in
                  ground (arith, rest)
            ]
      ]
    ]

first_entry :
    (r q : ℕ) (payload p : List ℕ) (s : TickSpool) (out : List (ℕ × List ℕ))
    → r ≡ q
    → get r s.files ≡ some payload
    → get q s.files ≡ some p
    → get_elem? ((r, payload) ∷ out) 0 ≡ some (q, p)
first_entry r q payload p s out m g on = cc (m, g, on)

-- A tick on disk that can be read and is due no later than one in the batch is in the batch, no later than that.
pub peek_from-earlier :
    (readable : ℕ → Bool) (max_total : ℕ) (started : Bool) (total : ℕ) (seqs : List ℕ)
    (s : TickSpool) (lo n : ℕ) (e : ℕ × List ℕ) (q : ℕ) (p : List ℕ)
    → Ascends lo seqs
    → get_elem? (peek_from readable max_total started total seqs s).1 n ≡ some e
    → readable q ≡ true
    → get q s.files ≡ some p
    → contains q seqs ≡ true
    → q ≤ e.0
    → (i : ℕ) × (i ≤ n)
      × (get_elem? (peek_from readable max_total started total seqs s).1 i ≡ some (q, p))
unfolding peek_from contains
peek_from-earlier readable max_total started total [] s lo n e q p up h a on due le =
    ground (arith, due)
peek_from-earlier readable max_total started total (r ∷ seqs) s lo n e q p up h a on due le =
    elim (Option-cases (read_tick readable s r)) [
      | inl g ↦
          let other : q ≢ r = read_tick-none readable s q r p g a on in
          let later : contains q seqs ≡ true = ground (arith, due, other) in
          let same : get q (forget s r).files ≡ some p = ap (get q) (forget-files s r) ∙ on in
          rw (g, peek_from)
            (peek_from-earlier readable max_total started total seqs (forget s r) r n e q p up.1
              (rw (g, peek_from) at h) a same later le)
      | inr (payload, g) ↦ elim (Bool-cases (started && ltb max_total (total + length payload))) [
        | inl f ↦
            let none_there : none ≡ some e = rw (g, f, peek_from) at h in ground (arith, none_there)
        | inr f ↦
            let out = (peek_from readable max_total true (total + length payload) seqs s).1 in
            let found : get_elem? ((r, payload) ∷ out) n ≡ some e = rw (g, f, peek_from) at h in
            rw (g, f, peek_from)
              (elim (ℕ_discrete r q) [
                | yes m ↦ (
                  0,
                  omega arith,
                  first_entry r q payload p s out m (read_tick-some readable s r payload g) on,
                )
                | no m ↦
                    let later : contains q seqs ≡ true = ground (arith, due, m) in
                    elim (entry_cases (r, payload) e out n found) [
                      | inl x ↦
                          let first : r ≡ e.0 = ap (λ y. y.0) x.0 in
                          absurd (m (omega (arith, first, le, first_le r q seqs up.1 later)))
                      | inr x ↦
                          let rest =
                            peek_from-earlier readable max_total true (total + length payload) seqs
                              s r x.0 e q p up.1 x.2 a on later le in
                          (suc rest.0, omega (arith, rest.1, x.1), rest.2)
                    ]
              ])
      ]
    ]
