-- ===== src/Server/Recorder/Staging.antt =====
-- Where the ticks that were accepted are: staged, in the queue, or lost by a write that failed.
use interlatent.Base.{
  ℕ, ◌+◌, ◌≤◌, ◌<◌, Bool, true, false, not, ◌&&◌, none, some, List, [], ◌∷◌, ◌++◌, length,
  length-append, leb, ◌==◌, if◌then◌else◌, ◌≡◌, refl, ap, ◌∙◌, arith, Bool-cases, inl, inr, ◌⊎◌,
  String,
}
use interlatent.Server.Recorder.{
  put_item, Tick, SessionRecorder, new_recorder, queue_maxsize, seen, note_cameras, build_item,
  note_enqueued, note_refused, enqueue, writer_only, drain_from, drain_one, drain_some, drain_all,
  finalize,
}

-- How many of the ticks have the step.
unfoldable pub times : ℕ → List Tick → ℕ
times k [] = 0
times k (t ∷ ts) = let rest = times k ts in if t.step == k then rest + 1 else rest

times-append : (k : ℕ) (xs ys : List Tick) → times k (xs ++ ys) ≡ times k xs + times k ys
unfolding times
times-append k [] ys = omega arith
times-append k (x ∷ xs) ys = ground (arith, times-append k xs ys)

abbrev pub one_if : Bool → ℕ
one_if true = 1
one_if false = 0

-- Each accepted step is in one place once, and no other step is anywhere; the counts fit.
pub record IsStaged (r : SessionRecorder) : Type 0 where
  pub once :
      (k : ℕ) → times k r.rows + times k r.failed + times k r.queue ≡ one_if (seen k r.steps_seen)
  pub counted : length r.rows + length r.failed + length r.queue ≡ r.step_count
  pub short : length r.queue ≤ queue_maxsize
  pub capped : r.step_count ≤ r.max_steps

pub new_recorder-IsStaged : (n : ℕ) → IsStaged (new_recorder n)
unfolding new_recorder times seen
new_recorder-IsStaged n = record {
  once = λ k. omega arith;
  counted = omega arith;
  short = omega arith;
  capped = omega arith;
}

drain_from-IsStaged :
    (q : List Tick) (r : SessionRecorder) (written : Bool)
    → r.queue ≡ q
    → IsStaged r
    → IsStaged (drain_from q r written)
unfolding drain_from times
drain_from-IsStaged [] r written e h = h
drain_from-IsStaged (t ∷ q) r true e h = record {
  once = λ k. ground (arith, h.once k, ap (times k) e, times-append k r.rows (t ∷ []), times);
  counted = omega (arith, h.counted, ap length e, length-append r.rows (t ∷ []));
  short = omega (arith, h.short, ap length e);
  capped = h.capped;
}
drain_from-IsStaged (t ∷ q) r false e h = record {
  once = λ k. ground (arith, h.once k, ap (times k) e, times);
  counted = omega (arith, h.counted, ap length e);
  short = omega (arith, h.short, ap length e);
  capped = h.capped;
}

pub drain_from-queue :
    (t : Tick) (q : List Tick) (r : SessionRecorder) (w : Bool) → (drain_from (t ∷ q) r w).queue ≡ q
unfolding drain_from
drain_from-queue t q r true = refl
drain_from-queue t q r false = refl

pub if_either :
    (P : SessionRecorder → Type 0) (b : Bool) (x y : SessionRecorder)
    → P x
    → P y
    → P (if b then x else y)
if_either P true x y p q = p
if_either P false x y p q = q

pub drain_one-IsStaged :
    (r : SessionRecorder) (written : Bool) → IsStaged r → IsStaged (drain_one r written)
unfolding drain_one
drain_one-IsStaged r written h =
    if_either IsStaged r.closed r _ h (drain_from-IsStaged r.queue r written refl h)

drain_some-IsStaged :
    (r : SessionRecorder) (outcomes : List Bool) → IsStaged r → IsStaged (drain_some r outcomes)
unfolding drain_some
drain_some-IsStaged r [] h = h
drain_some-IsStaged r (w ∷ ws) h = drain_some-IsStaged (drain_one r w) ws (drain_one-IsStaged r w h)

-- A tick with a new step takes the last place of the queue.
accepted-IsStaged :
    (r : SessionRecorder) (cams : List String) (tick : Tick)
    → seen tick.step r.steps_seen ≡ false
    → length r.queue < queue_maxsize
    → r.step_count < r.max_steps
    → IsStaged r
    → IsStaged (note_enqueued (record r { camera_names = cams; queue = r.queue ++ tick ∷ [] }) tick)
unfolding note_enqueued times seen
accepted-IsStaged r cams tick new room below h = record {
  once = λ k. ground (arith, h.once k, new, times-append k r.queue (tick ∷ []));
  counted = omega (arith, h.counted, length-append r.queue (tick ∷ []));
  short = omega (arith, room, length-append r.queue (tick ∷ []));
  capped = omega (arith, below);
}

note_refused-IsStaged : (r : SessionRecorder) → IsStaged r → IsStaged (note_refused r)
unfolding note_refused
note_refused-IsStaged r h = record {
  once = h.once;
  counted = h.counted;
  short = h.short;
  capped = h.capped;
}

-- Draining leaves the steps seen, their number, the bound and the flag.
unfoldable pub SameSteps : SessionRecorder → SessionRecorder → Type 0
SameSteps r s =
    (r.steps_seen ≡ s.steps_seen)
    × (r.step_count ≡ s.step_count)
    × (r.max_steps ≡ s.max_steps)
    × (r.closed ≡ s.closed)

pub drain_from-SameSteps :
    (q : List Tick) (r : SessionRecorder) (w : Bool) → SameSteps (drain_from q r w) r
unfolding drain_from SameSteps
drain_from-SameSteps [] r w = (refl, refl, refl, refl)
drain_from-SameSteps (t ∷ q) r true = (refl, refl, refl, refl)
drain_from-SameSteps (t ∷ q) r false = (refl, refl, refl, refl)

pub drain_one-SameSteps : (r : SessionRecorder) (w : Bool) → SameSteps (drain_one r w) r
unfolding drain_one SameSteps
drain_one-SameSteps r w =
    if_either (λ s. SameSteps s r) r.closed r _ (refl, refl, refl, refl)
      (drain_from-SameSteps r.queue r w)

pub drain_some-SameSteps : (r : SessionRecorder) (ws : List Bool) → SameSteps (drain_some r ws) r
unfolding drain_some SameSteps
drain_some-SameSteps r [] = (refl, refl, refl, refl)
drain_some-SameSteps r (w ∷ ws) =
    let rest = drain_some-SameSteps (drain_one r w) ws in
    let one = drain_one-SameSteps r w in
    (rest.0 ∙ one.0, rest.1 ∙ one.1, rest.2 ∙ one.2, rest.3 ∙ one.3)

put_item-IsStaged :
    (r : SessionRecorder) (tick : Tick)
    → seen tick.step r.steps_seen ≡ false
    → r.step_count < r.max_steps
    → IsStaged r
    → IsStaged (put_item r tick).0
unfolding put_item
put_item-IsStaged r tick new below h = elim (Bool-cases (leb queue_maxsize (length r.queue))) [
  | inl full ↦ rw (full) (note_refused-IsStaged r h)
  | inr room ↦
      rw (room) (accepted-IsStaged r r.camera_names tick new (ground (arith, room)) below h)
]

-- `_build_item` gives nothing, or gives the recorder with the cameras noted, below the bound.
pub build_item-cases :
    (r : SessionRecorder) (tick : Tick)
    → (build_item r tick ≡ none)
      ⊎ ((r.closed ≡ false)
          × (r.step_count < r.max_steps)
          × (build_item r tick
              ≡ some (record r { camera_names = note_cameras tick.cameras r.camera_names })))
unfolding build_item
build_item-cases r tick = elim (Bool-cases r.closed) [
  | inl c ↦ inl (rw (c) refl)
  | inr c ↦ elim (Bool-cases (leb r.max_steps r.step_count)) [
    | inl m ↦ inl (rw (c, m) refl)
    | inr m ↦ inr (c, ground (arith, m), rw (c, m) refl)
  ]
]

pub noted-IsStaged :
    (r : SessionRecorder) (cams : List String)
    → IsStaged r
    → IsStaged (record r { camera_names = cams })
noted-IsStaged r cams h = record {
  once = h.once;
  counted = h.counted;
  short = h.short;
  capped = h.capped;
}

-- A tick that was not acknowledged as a retry is new, also after the wait.
unseen :
    (r : SessionRecorder) (tick : Tick) (steps : List ℕ)
    → (not r.closed && seen tick.step r.steps_seen) ≡ false
    → r.closed ≡ false
    → steps ≡ r.steps_seen
    → seen tick.step steps ≡ false
unseen r tick steps fresh on same = ground (arith, fresh, on, same)

pub enqueue-IsStaged :
    (r : SessionRecorder) (tick : Tick) (outcomes : List Bool)
    → IsStaged r
    → IsStaged (enqueue r tick (writer_only outcomes)).0
unfolding enqueue SameSteps
enqueue-IsStaged r tick outcomes h =
    elim (Bool-cases (not r.closed && seen tick.step r.steps_seen)) [
      | inl again ↦
          rw (again)
            (record { once = h.once; counted = h.counted; short = h.short; capped = h.capped })
      | inr fresh ↦ elim (build_item-cases r tick) [
        | inl e ↦ rw (fresh, e) h
        | inr t ↦
            let noted = noted-IsStaged r (note_cameras tick.cameras r.camera_names) h in
            let kept =
              drain_some-SameSteps
                (record r { camera_names = note_cameras tick.cameras r.camera_names }) outcomes in
            rw (fresh, t.2)
              (put_item-IsStaged _ tick (unseen r tick _ fresh t.0 kept.0)
                (omega (arith, t.1, kept.1, kept.2)) (drain_some-IsStaged _ outcomes noted))
      ]
    ]

drain_all-IsStaged :
    (writes : Tick → Bool) (q : List Tick) (r : SessionRecorder)
    → r.queue ≡ q
    → IsStaged r
    → IsStaged (drain_all writes q r)
unfolding drain_all
drain_all-IsStaged writes [] r e h = h
drain_all-IsStaged writes (t ∷ q) r e h =
    drain_all-IsStaged writes q (drain_from (t ∷ q) r (writes t))
      (drain_from-queue t q r (writes t)) (drain_from-IsStaged (t ∷ q) r (writes t) e h)

pub finalize-closed :
    (writes : Tick → Bool) (r : SessionRecorder) → r.closed ≡ true → finalize writes r ≡ r
unfolding finalize
finalize-closed writes r c =
    ap (λ b. if b then r else drain_all writes r.queue (record r { closed = true })) c

pub finalize-open :
    (writes : Tick → Bool) (r : SessionRecorder)
    → r.closed ≡ false
    → finalize writes r ≡ drain_all writes r.queue (record r { closed = true })
unfolding finalize
finalize-open writes r c =
    ap (λ b. if b then r else drain_all writes r.queue (record r { closed = true })) c

pub finalize-IsStaged :
    (writes : Tick → Bool) (r : SessionRecorder) → IsStaged r → IsStaged (finalize writes r)
finalize-IsStaged writes r h = elim (Bool-cases r.closed) [
  | inl c ↦ rw (finalize-closed writes r c) h
  | inr c ↦ rw (finalize-open writes r c) (
      drain_all-IsStaged writes r.queue (record r { closed = true }) refl
        (record { once = h.once; counted = h.counted; short = h.short; capped = h.capped }))
]
