-- ===== src/Client/TickSpool/Batches.antt =====
-- What a batch holds.
use interlatent.Base.{
  ℕ, zero, suc, ◌+◌, ◌-◌, ◌≤◌, ◌<◌, max, Bool, true, false, ◌&&◌, some, List, [], ◌∷◌, length,
  length-take, take, ltb, All, ◌≡◌, refl, ap, ◌∙◌, arith, Option-cases, Bool-cases, inl, inr, ◌⊎◌,
}
use interlatent.Base.Dict.{ℕ_key, get}
use interlatent.Client.TickSpool.{TickSpool, forget, read_tick, peek_from, peek_batch}

abbrev pub total_of : List (ℕ × List ℕ) → ℕ
total_of [] = 0
total_of (e ∷ es) = length e.1 + total_of es

pub forget-files : (s : TickSpool) (r : ℕ) → (forget s r).files ≡ s.files
unfolding forget
forget-files s r = elim (Option-cases (get r s.pending)) [
  | inl e ↦ rw (e, forget) refl
  | inr (size, e) ↦ rw (e, forget) refl
]

-- The ticks are as they are on disk, there are at most `count` of them, and they fit into what is
-- left, a single one that starts the batch excepted.
pub record IsBatch (s : TickSpool) (max_total : ℕ) (started : Bool) (total count : ℕ)
    (out : List (ℕ × List ℕ)) : Type 0 where
  pub on_disk : All (λ e. get e.0 s.files ≡ some e.1) out
  pub few : length out ≤ count
  pub fits :
      (out ≡ []) ⊎ ((total + total_of out ≤ max_total) ⊎ ((started ≡ false) × (length out ≤ 1)))

-- The tick that comes first into a batch.
fits_with :
    (max_total : ℕ) (started : Bool) (total : ℕ) (r : ℕ) (payload : List ℕ)
    (out : List (ℕ × List ℕ))
    → (started && ltb max_total (total + length payload)) ≡ false
    → (out ≡ [])
      ⊎ ((total + length payload + total_of out ≤ max_total) ⊎ ((true ≡ false) × (length out ≤ 1)))
    → (total + total_of ((r, payload) ∷ out) ≤ max_total)
      ⊎ ((started ≡ false) × (length ((r, payload) ∷ out) ≤ 1))
fits_with max_total true total r payload out f (inl e) = inl (rw e (ground (arith, f)))
fits_with max_total false total r payload out f (inl e) = inr (refl, rw e (omega arith))
fits_with max_total started total r payload out f (inr (inl h)) = inl (omega (arith, h))
fits_with max_total started total r payload out f (inr (inr h)) = cc h.0

pub read_tick-some :
    (readable : ℕ → Bool) (s : TickSpool) (r : ℕ) (payload : List ℕ)
    → read_tick readable s r ≡ some payload
    → get r s.files ≡ some payload
unfolding read_tick
read_tick-some readable s r payload e = ground (arith, e)

peek_from-IsBatch :
    (readable : ℕ → Bool) (max_total : ℕ) (started : Bool) (total : ℕ) (seqs : List ℕ)
    (s : TickSpool)
    → IsBatch s max_total started total
        (length seqs)
        (peek_from readable max_total started total seqs s).1
unfolding peek_from forget
peek_from-IsBatch readable max_total started total [] s = record {
  on_disk = tt;
  few = omega arith;
  fits = inl refl;
}
peek_from-IsBatch readable max_total started total (r ∷ seqs) s =
    elim (Option-cases (read_tick readable s r)) [
      | inl e ↦
          let rest = peek_from-IsBatch readable max_total started total seqs (forget s r) in
          let out = (peek_from readable max_total started total seqs (forget s r)).1 in
          let same : All (λ x. get x.0 s.files ≡ some x.1) out =
            rw (forget-files s r) at rest.on_disk in
          rw (e, peek_from)
            (record { on_disk = same; few = omega (arith, rest.few); fits = rest.fits })
      | inr (payload, e) ↦ elim (Bool-cases (started && ltb max_total (total + length payload))) [
        | inl f ↦ rw (e, f, peek_from) (record { on_disk = tt; few = omega arith; fits = inl refl })
        | inr f ↦
            let rest = peek_from-IsBatch readable max_total true (total + length payload) seqs s in
            let out = (peek_from readable max_total true (total + length payload) seqs s).1 in
            rw (e, f, peek_from)
              (record {
                on_disk = (read_tick-some readable s r payload e, rest.on_disk);
                few = omega (arith, rest.few);
                fits = inr (fits_with max_total started total r payload out f rest.fits);
              })
      ]
    ]

IsBatch-few :
    (s : TickSpool) (max_total : ℕ) (started : Bool) (total m n : ℕ) (out : List (ℕ × List ℕ))
    → m ≤ n
    → IsBatch s max_total started total m out
    → IsBatch s max_total started total n out
IsBatch-few s max_total started total m n out l b = record {
  on_disk = b.on_disk;
  few = omega (arith, l, b.few);
  fits = b.fits;
}

-- A batch holds ticks as they are on disk, at most the number asked for and at least one allowed,
-- and together within the bytes asked for, except that a single tick may be larger.
pub peek_batch-IsBatch :
    (readable : ℕ → Bool) (s : TickSpool) (max_ticks max_total : ℕ)
    → IsBatch s max_total false 0 (max 1 max_ticks) (peek_batch readable s max_ticks max_total).1
unfolding peek_batch
peek_batch-IsBatch readable s max_ticks max_total =
    let seqs = take (max 1 max_ticks) s.order in
    let short : length seqs ≤ max 1 max_ticks =
      omega (arith, length-take (max 1 max_ticks) s.order) in
    IsBatch-few s max_total false 0 (length seqs) (max 1 max_ticks)
      (peek_from readable max_total false 0 seqs s).1 short
      (peek_from-IsBatch readable max_total false 0 seqs s)

take_first : (n q : ℕ) (rest : List ℕ) → 0 < n → take n (q ∷ rest) ≡ q ∷ take (n - 1) rest
take_first zero q rest h = ground (arith, h)
take_first (suc n) q rest h = let less : suc n - 1 ≡ n = omega arith in rw less refl

peek_from_first :
    (readable : ℕ → Bool) (max_total q : ℕ) (seqs : List ℕ) (s : TickSpool) (payload : List ℕ)
    → read_tick readable s q ≡ some payload
    → (peek_from readable max_total false 0 (q ∷ seqs) s).1
      ≡ (q, payload) ∷ (peek_from readable max_total true (0 + length payload) seqs s).1
unfolding peek_from
peek_from_first readable max_total q seqs s payload f = rw (f, peek_from) refl

-- Where the oldest tick that is due can be read, the batch starts with it, however large it is.
pub peek_batch_progresses :
    (readable : ℕ → Bool) (s : TickSpool) (max_ticks max_total q : ℕ) (rest : List ℕ)
    (payload : List ℕ)
    → s.order ≡ q ∷ rest
    → read_tick readable s q ≡ some payload
    → (out : List (ℕ × List ℕ)) × ((peek_batch readable s max_ticks max_total).1
        ≡ (q, payload) ∷ out)
unfolding peek_batch
peek_batch_progresses readable s max_ticks max_total q rest payload e f =
    let n = max 1 max_ticks in
    (
      (peek_from readable max_total true (0 + length payload) (take (n - 1) rest) s).1,
      ap (λ seqs. (peek_from readable max_total false 0 seqs s).1)
            (ap (take n) e ∙ take_first n q rest (omega arith))
          ∙ peek_from_first readable max_total q (take (n - 1) rest) s payload f,
    )
