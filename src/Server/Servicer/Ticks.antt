-- ===== src/Server/Servicer/Ticks.antt =====
-- `RecordTicks`: the answer counts the ticks that a client may delete.
use interlatent.Base.{
  ℕ, zero, suc, ◌≤◌, ◌<◌, string_key, Bool, true, false, some, List, [], ◌∷◌, length, take,
  get_elem?, ◌≡◌, refl, ap, ◌∙◌, subst, arith, Bool-cases, Option-cases, inl, inr,
}
use interlatent.Base.Dict.{ℕ_key, get}
use interlatent.Base.Dict.Laws.{get-put_self}
use interlatent.Server.Recorder.{Tick, SessionRecorder, seen, enqueue_nowait, drain_some}
use interlatent.Server.Recorder.Staging.{IsStaged, enqueue-IsStaged}
use interlatent.Server.Recorder.Accepted.{Later, enqueue-seen, enqueue-Later}
use interlatent.Server.Servicer.{SessionState, InferenceServicer}
use interlatent.Server.Servicer.Requests.{
  offer, offer_all, recorder_of, note_ticks, record_ticks, engaged,
}

offer-seen :
    (b : Bool) (outcomes : Tick → List Bool) (r : SessionRecorder) (tick : Tick)
    → (offer b outcomes r tick).1 ≡ true
    → seen tick.step (offer b outcomes r tick).0.steps_seen ≡ true
unfolding offer enqueue_nowait drain_some
offer-seen true outcomes r tick e = enqueue-seen r tick (outcomes tick) e
offer-seen false outcomes r tick e = enqueue-seen r tick [] e

offer-Later :
    (b : Bool) (outcomes : Tick → List Bool) (k : ℕ) (r : SessionRecorder) (tick : Tick)
    → Later k r (offer b outcomes r tick).0
unfolding offer enqueue_nowait drain_some
offer-Later true outcomes k r tick = enqueue-Later k r tick (outcomes tick)
offer-Later false outcomes k r tick = enqueue-Later k r tick []

offer-IsStaged :
    (b : Bool) (outcomes : Tick → List Bool) (r : SessionRecorder) (tick : Tick)
    → IsStaged r
    → IsStaged (offer b outcomes r tick).0
unfolding offer enqueue_nowait drain_some
offer-IsStaged true outcomes r tick h = enqueue-IsStaged r tick (outcomes tick) h
offer-IsStaged false outcomes r tick h = enqueue-IsStaged r tick [] h

offer_all-Later :
    (b : Bool) (outcomes : Tick → List Bool) (k : ℕ) (r : SessionRecorder) (ticks : List Tick)
    → Later k r (offer_all b outcomes r ticks).0
unfolding offer_all Later
offer_all-Later b outcomes k r [] p = p
offer_all-Later b outcomes k r (tick ∷ ticks) p =
    let first = offer-Later b outcomes k r tick p in
    let rest = offer_all-Later b outcomes k (offer b outcomes r tick).0 ticks first in
    elim (Bool-cases (offer b outcomes r tick).1) [ inl e ↦ rw e rest | inr e ↦ rw e first ]

offer_all-seen :
    (b : Bool) (outcomes : Tick → List Bool) (r : SessionRecorder) (ticks : List Tick) (i : ℕ)
    (x : Tick)
    → i < (offer_all b outcomes r ticks).1
    → get_elem? ticks i ≡ some x
    → seen x.step (offer_all b outcomes r ticks).0.steps_seen ≡ true
unfolding offer_all Later
offer_all-seen b outcomes r [] i x lt e = ground (arith, lt)
offer_all-seen b outcomes r (tick ∷ ticks) zero x lt e =
    elim (Bool-cases (offer b outcomes r tick).1) [
      | inl a ↦
          let same : tick ≡ x = ground (arith, e) in
          rw a (
            offer_all-Later b outcomes x.step (offer b outcomes r tick).0 ticks (
              subst (λ y. seen y.step (offer b outcomes r tick).0.steps_seen ≡ true) same
                (offer-seen b outcomes r tick a)))
      | inr a ↦ ground (arith, lt, a)
    ]
offer_all-seen b outcomes r (tick ∷ ticks) (suc i) x lt e =
    elim (Bool-cases (offer b outcomes r tick).1) [
      | inl a ↦ rw a (
          offer_all-seen b outcomes (offer b outcomes r tick).0 ticks i x (ground (arith, lt, a)) e)
      | inr a ↦ ground (arith, lt, a)
    ]

offer_all-IsStaged :
    (b : Bool) (outcomes : Tick → List Bool) (r : SessionRecorder) (ticks : List Tick)
    → IsStaged r
    → IsStaged (offer_all b outcomes r ticks).0
unfolding offer_all
offer_all-IsStaged b outcomes r [] h = h
offer_all-IsStaged b outcomes r (tick ∷ ticks) h =
    let first = offer-IsStaged b outcomes r tick h in
    elim (Bool-cases (offer b outcomes r tick).1) [
      | inl e ↦ rw e (offer_all-IsStaged b outcomes (offer b outcomes r tick).0 ticks first)
      | inr e ↦ rw e first
    ]

offer_all-accepts :
    (b : Bool) (outcomes : Tick → List Bool) (r : SessionRecorder) (tick : Tick) (ticks : List Tick)
    → (offer b outcomes r tick).1 ≡ true
    → (offer_all b outcomes r (tick ∷ ticks)).1
      ≡ suc (offer_all b outcomes (offer b outcomes r tick).0 ticks).1
unfolding offer_all
offer_all-accepts b outcomes r tick ticks e = rw e (omega arith)

offer_all-reached :
    (b : Bool) (outcomes : Tick → List Bool) (r : SessionRecorder) (tick : Tick) (ticks : List Tick)
    → (offer b outcomes r tick).1 ≡ true
    → (offer_all b outcomes r (tick ∷ ticks)).0
      ≡ (offer_all b outcomes (offer b outcomes r tick).0 ticks).0
unfolding offer_all
offer_all-reached b outcomes r tick ticks e = rw e refl

offer_all-stops :
    (b : Bool) (outcomes : Tick → List Bool) (r : SessionRecorder) (tick : Tick) (ticks : List Tick)
    → (offer b outcomes r tick).1 ≡ false
    → (offer_all b outcomes r (tick ∷ ticks)).1 ≡ 0
unfolding offer_all
offer_all-stops b outcomes r tick ticks e = rw e refl

-- The tick after the accepted ones, if there is one, was refused by the recorder as they left it,
-- which it left as it is.
offer_all-refused :
    (b : Bool) (outcomes : Tick → List Bool) (r : SessionRecorder) (ticks : List Tick)
    → (offer_all b outcomes r ticks).1 < length ticks
    → (x : Tick) × (get_elem? ticks (offer_all b outcomes r ticks).1 ≡ some x)
      × ((offer b outcomes
            (offer_all b outcomes r (take (offer_all b outcomes r ticks).1 ticks)).0
            x).1
          ≡ false)
unfolding offer_all
offer_all-refused b outcomes r [] lt = ground (arith, lt)
offer_all-refused b outcomes r (tick ∷ ticks) lt = elim (Bool-cases (offer b outcomes r tick).1) [
  | inl e ↦
      let next = (offer b outcomes r tick).0 in
      let rest = offer_all-refused b outcomes next ticks (ground (arith, lt, e)) in
      let count = offer_all-accepts b outcomes r tick ticks e in
      let reached =
        offer_all-reached b outcomes r tick (take (offer_all b outcomes next ticks).1 ticks) e in
      (
        rest.0,
        ap (get_elem? (tick ∷ ticks)) count ∙ rest.1,
        ap (λ n. (offer b outcomes (offer_all b outcomes r (take n (tick ∷ ticks))).0 rest.0).1)
              count
            ∙ ap (λ q. (offer b outcomes q rest.0).1) reached
            ∙ rest.2,
      )
  | inr e ↦
      let none_accepted : (offer_all b outcomes r (tick ∷ ticks)).1 ≡ 0 =
        offer_all-stops b outcomes r tick ticks e in
      (
        tick,
        ap (get_elem? (tick ∷ ticks)) none_accepted,
        ap (λ n. (offer b outcomes (offer_all b outcomes r (take n (tick ∷ ticks))).0 tick).1)
              none_accepted
            ∙ e,
      )
]

offer_all-length :
    (b : Bool) (outcomes : Tick → List Bool) (r : SessionRecorder) (ticks : List Tick)
    → (offer_all b outcomes r ticks).1 ≤ length ticks
unfolding offer_all
offer_all-length b outcomes r [] = omega arith
offer_all-length b outcomes r (tick ∷ ticks) =
    ground (arith, offer_all-length b outcomes (offer b outcomes r tick).0 ticks)

record_ticks-found :
    {V : Type 0}
    → (now : ℕ) (outcomes : Tick → List Bool) (tick : Tick) (ticks : List Tick)
      (s : InferenceServicer V)
    → (state : SessionState) (h : ℕ) (r : SessionRecorder)
    → recorder_of tick.session_id s ≡ some (state, h, r)
    → record_ticks now outcomes (tick ∷ ticks) s ≡ (
      note_ticks now tick.session_id state h
          (offer_all s.record_backpressure outcomes r (tick ∷ ticks)).0
          (engaged (offer_all s.record_backpressure outcomes r (tick ∷ ticks)).1 (tick ∷ ticks))
          s,
      (offer_all s.record_backpressure outcomes r (tick ∷ ticks)).1,
    )
unfolding record_ticks
record_ticks-found now outcomes tick ticks s state h r e = rw (e, record_ticks) refl

-- A tick of the accepted prefix was seen by some recorder of the servicer.
pub record_ticks-seen :
    {V : Type 0}
    → (now : ℕ) (outcomes : Tick → List Bool) (ticks : List Tick) (s : InferenceServicer V)
    → (i : ℕ) (x : Tick) → i < (record_ticks now outcomes ticks s).1
    → get_elem? ticks i ≡ some x
    → (h : ℕ) × (after : SessionRecorder) × (get h (record_ticks now outcomes ticks s).0.recorders
        ≡ some after)
      × (seen x.step after.steps_seen ≡ true)
unfolding note_ticks record_ticks
record_ticks-seen now outcomes [] s i x lt e = ground (arith, lt)
record_ticks-seen now outcomes (tick ∷ ticks) s i x lt e =
    elim (Option-cases (recorder_of tick.session_id s)) [
      | inl none_there ↦
          let zero_accepted : i < 0 = rw (none_there, record_ticks) at lt in
          ground (arith, zero_accepted)
      | inr (found, is_there) ↦
          let b = s.record_backpressure in
          let r = found.2 in
          let same = record_ticks-found now outcomes tick ticks s found.0 found.1 r is_there in
          let before_last : i < (offer_all b outcomes r (tick ∷ ticks)).1 = rw same at lt in
          rw same (
            found.1,
            (offer_all b outcomes r (tick ∷ ticks)).0,
            get-put_self found.1 _ s.recorders,
            offer_all-seen b outcomes r (tick ∷ ticks) i x before_last e,
          )
    ]

-- A batch for a session with a recorder, on a server that does not wait for room: the recorder has
-- afterwards seen the step of each of the first `accepted` ticks, its invariant is kept, and if the
-- answer is less than the number of ticks then the recorder, as the accepted ticks left it, refuses
-- the tick that follows.
pub record_ticks-accepted :
    {V : Type 0}
    → (now : ℕ) (outcomes : Tick → List Bool) (tick : Tick) (ticks : List Tick)
      (s : InferenceServicer V)
    → (state : SessionState) (h : ℕ) (r : SessionRecorder) → s.record_backpressure ≡ false
    → recorder_of tick.session_id s ≡ some (state, h, r)
    → IsStaged r
    → (after : SessionRecorder) × (get h (record_ticks now outcomes (tick ∷ ticks) s).0.recorders
        ≡ some after)
      × IsStaged after
      × ((i : ℕ) (x : Tick)
          → i < (record_ticks now outcomes (tick ∷ ticks) s).1
          → get_elem? (tick ∷ ticks) i ≡ some x
          → seen x.step after.steps_seen ≡ true)
      × ((record_ticks now outcomes (tick ∷ ticks) s).1 < length (tick ∷ ticks)
          → (x : Tick) × (get_elem? (tick ∷ ticks) (record_ticks now outcomes (tick ∷ ticks) s).1
              ≡ some x)
            × ((enqueue_nowait
                  (offer_all false outcomes r
                    (take (record_ticks now outcomes (tick ∷ ticks) s).1 (tick ∷ ticks))).0
                  x).1
                ≡ false))
unfolding note_ticks offer
record_ticks-accepted now outcomes tick ticks s state h r nowait e staged =
    let found = record_ticks-found now outcomes tick ticks s state h r e in
    rw (found, nowait)
      (
        (offer_all false outcomes r (tick ∷ ticks)).0,
        get-put_self h _ s.recorders,
        offer_all-IsStaged false outcomes r (tick ∷ ticks) staged,
        offer_all-seen false outcomes r (tick ∷ ticks),
        offer_all-refused false outcomes r (tick ∷ ticks),
      )
