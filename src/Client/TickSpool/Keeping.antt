-- ===== src/Client/TickSpool/Keeping.antt =====
-- No tick is lost before its acknowledgement, also across crashes.
use interlatent.Base.{
  ℕ, ◌<◌, Bool, true, ◌||◌, none, some, List, [], ◌∷◌, ◌++◌, ◌==◌, ◌≡◌, ◌≢◌, refl, sym, ap, ◌∙◌,
  arith, Option-cases, inl, inr,
}
use interlatent.Base.Dict.{Dict, ℕ_key, get, remove}
use interlatent.Client.ActionSchedule.Sorting.{Ascends}
use interlatent.Client.ActionSchedule.Spans.{contains}
use interlatent.Client.TickSpool.{
  TickSpool, next_after, open_spool, check_blocked, append_tick, read_tick, peek_batch, drop_acked,
  ack,
}

-- What may happen to a spool; a crash keeps the files only.
pub data Call : Type 0 where
  appends : (payload : List ℕ) (written : Bool) → Call
  acks : (through_seq : ℕ) → Call
  peeks : (readable : ℕ → Bool) (max_ticks max_total : ℕ) → Call
  checks_blocked : (free : ℕ) → Call
  crashes : Call

unfoldable pub step : TickSpool → Call → TickSpool
step s (appends payload written) = (append_tick s payload written).0
step s (acks through_seq) = ack s through_seq
step s (peeks readable max_ticks max_total) = (peek_batch readable s max_ticks max_total).0
step s (checks_blocked free) = (check_blocked s free).0
step s crashes = open_spool s.files s.max_bytes s.min_free

unfoldable pub run : TickSpool → List Call → TickSpool
run s [] = s
run s (c ∷ cs) = run (step s c) cs

-- The call neither acknowledges the tick nor fails to read it.
abbrev pub Spares : ℕ → Call → Type 0
Spares q (appends payload written) = Unit
Spares q (acks through_seq) = through_seq < q
Spares q (peeks readable max_ticks max_total) = readable q ≡ true
Spares q (checks_blocked free) = Unit
Spares q crashes = Unit

-- The tick is on disk, due to be sent, and its number is not given out again.
pub record IsKept (q : ℕ) (payload : List ℕ) (s : TickSpool) : Type 0 where
  pub on_disk : get q s.files ≡ some payload
  pub due : contains q s.order ≡ true
  pub numbered : q < s.next_seq

pub contains-append :
    (q r : ℕ) (ns : List ℕ) → contains q (ns ++ r ∷ []) ≡ (contains q ns || (r == q))
unfolding contains
contains-append q r [] = ground arith
contains-append q r (n ∷ ns) = ground (arith, contains-append q r ns)

pub lt-next_after :
    (lo q : ℕ) (ns : List ℕ) → Ascends lo ns → contains q ns ≡ true → q < next_after ns
unfolding contains next_after
lt-next_after lo q [] up h = ground (arith, h)
lt-next_after lo q (n ∷ []) up h = ground (arith, h)
lt-next_after lo q (n ∷ m ∷ rest) up h =
    let first : m < next_after (m ∷ rest) = lt-next_after n m (m ∷ rest) up.1 (ground arith) in
    ground (arith, h, up.0, first, lt-next_after n q (m ∷ rest) up.1)

pub read_tick-none :
    (readable : ℕ → Bool) (s : TickSpool) (q r : ℕ) (payload : List ℕ)
    → read_tick readable s r ≡ none
    → readable q ≡ true
    → get q s.files ≡ some payload
    → q ≢ r
unfolding read_tick
read_tick-none readable s q r payload e a on p =
    let there : readable r ≡ true = ap readable (sym p) ∙ a in
    let found : get r s.files ≡ some payload = ap (λ k. get k s.files) (sym p) ∙ on in
    ground (arith, e, there, found)

module _ (q : ℕ) (payload : List ℕ) where
  pub drop_acked-same :
      (s : TickSpool) (r : ℕ)
      → ((drop_acked s r).files ≡ remove r s.files) × ((drop_acked s r).next_seq ≡ s.next_seq)
  unfolding drop_acked
  drop_acked-same s r = elim (Option-cases (get r s.pending)) [
    | inl e ↦ rw (e, drop_acked) (refl, refl)
    | inr (size, e) ↦ rw (e, drop_acked) (refl, refl)
  ]
