-- ===== src/Server/Recorder/Accepted.antt =====
-- A tick that was accepted is published or quarantined by the upload, or lost by a failed write.
use interlatent.Base.{
  ℕ, ◌+◌, Bool, true, false, List, [], ◌∷◌, ◌≡◌, refl, ap, ◌∙◌, ◌≤◌, ◌<◌, length, ◌==◌, ◌||◌,
  if◌then◌else◌, arith, Bool-cases, inl, inr,
}
use interlatent.Server.Recorder.{
  Tick, SessionRecorder, new_recorder, seen, note_cameras, build_item, note_enqueued, note_refused,
  put_item, drain_some, enqueue, enqueue_nowait, writer_only, remove_work_dir, Outcome, published,
  quarantined, already, nothing_recorded, build_failed, discarded, upload, publish, drain_from,
  drain_one, drain_all, finalize,
}
use interlatent.Server.Recorder.Staging.{
  IsStaged, SameSteps, times, one_if, finalize-IsStaged, drain_some-SameSteps, drain_one-SameSteps,
  if_either, drain_from-SameSteps, drain_from-queue, finalize-open, finalize-closed,
}
use interlatent.Server.Recorder.Runs.{
  Event, tick_arrives, writer_turns, uploads, discards, handle, run, upload-keeps, discard-keeps,
  IsKept, run-IsKept, uploaded-IsStaged,
}

-- Accepted steps stay among the steps seen.
unfoldable pub Later : ℕ → SessionRecorder → SessionRecorder → Type 0
Later k r s = seen k r.steps_seen ≡ true → seen k s.steps_seen ≡ true

pub enqueue-Later :
    (k : ℕ) (r : SessionRecorder) (tick : Tick) (outcomes : List Bool)
    → Later k r (enqueue r tick (writer_only outcomes)).0
unfolding Later enqueue put_item build_item note_refused note_enqueued SameSteps seen
enqueue-Later k r tick outcomes p = ground (
  arith,
  p,
  drain_some-SameSteps (record r { camera_names = note_cameras tick.cameras r.camera_names })
      outcomes,
)

pub enqueue-seen :
    (r : SessionRecorder) (tick : Tick) (outcomes : List Bool)
    → (enqueue r tick (writer_only outcomes)).1 ≡ true
    → seen tick.step (enqueue r tick (writer_only outcomes)).0.steps_seen ≡ true
unfolding enqueue put_item build_item note_refused note_enqueued SameSteps seen
enqueue-seen r tick outcomes p = ground (
  arith,
  p,
  drain_some-SameSteps (record r { camera_names = note_cameras tick.cameras r.camera_names })
      outcomes,
)

drain_one-Later : (k : ℕ) (r : SessionRecorder) (w : Bool) → Later k r (drain_one r w)
unfolding Later SameSteps
drain_one-Later k r w p = ap (seen k) (drain_one-SameSteps r w).0 ∙ p

pub drain_all-SameSteps :
    (writes : Tick → Bool) (q : List Tick) (r : SessionRecorder)
    → SameSteps (drain_all writes q r) r
unfolding drain_all SameSteps
drain_all-SameSteps writes [] r = (refl, refl, refl, refl)
drain_all-SameSteps writes (t ∷ q) r =
    let rest = drain_all-SameSteps writes q (drain_from (t ∷ q) r (writes t)) in
    let one = drain_from-SameSteps (t ∷ q) r (writes t) in
    (rest.0 ∙ one.0, rest.1 ∙ one.1, rest.2 ∙ one.2, rest.3 ∙ one.3)

drain_all-queue :
    (writes : Tick → Bool) (q : List Tick) (r : SessionRecorder)
    → r.queue ≡ q
    → (drain_all writes q r).queue ≡ []
unfolding drain_all
drain_all-queue writes [] r e = e
drain_all-queue writes (t ∷ q) r e =
    drain_all-queue writes q (drain_from (t ∷ q) r (writes t)) (drain_from-queue t q r (writes t))

pub finalize-Later :
    (k : ℕ) (writes : Tick → Bool) (r : SessionRecorder) → Later k r (finalize writes r)
unfolding Later SameSteps
finalize-Later k writes r p = elim (Bool-cases r.closed) [
  | inl c ↦ ap (λ x. seen k x.steps_seen) (finalize-closed writes r c) ∙ p
  | inr c ↦
      ap (λ x. seen k x.steps_seen) (finalize-open writes r c)
      ∙ ap (seen k) (drain_all-SameSteps writes r.queue (record r { closed = true })).0
      ∙ p
]

-- A closed recorder has an empty queue.
unfoldable pub IsSealed : SessionRecorder → Type 0
IsSealed r = r.closed ≡ true → r.queue ≡ []

pub enqueue-IsSealed :
    (r : SessionRecorder) (tick : Tick) (outcomes : List Bool)
    → IsSealed r
    → IsSealed (enqueue r tick (writer_only outcomes)).0
unfolding IsSealed enqueue put_item build_item note_refused note_enqueued SameSteps
enqueue-IsSealed r tick outcomes h p = ground (
  arith,
  p,
  h,
  drain_some-SameSteps (record r { camera_names = note_cameras tick.cameras r.camera_names })
      outcomes,
)

drain_from-IsSealed :
    (q : List Tick) (r : SessionRecorder) (w : Bool)
    → r.queue ≡ q
    → IsSealed r
    → IsSealed (drain_from q r w)
unfolding IsSealed drain_from
drain_from-IsSealed [] r w e h = h
drain_from-IsSealed (t ∷ q) r true e h = λ c. ground (arith, e, h c)
drain_from-IsSealed (t ∷ q) r false e h = λ c. ground (arith, e, h c)

drain_one-IsSealed : (r : SessionRecorder) (w : Bool) → IsSealed r → IsSealed (drain_one r w)
unfolding IsSealed drain_one
drain_one-IsSealed r w h =
    if_either IsSealed r.closed r _ h (drain_from-IsSealed r.queue r w refl h)

pub finalize-queue :
    (writes : Tick → Bool) (r : SessionRecorder) → IsSealed r → (finalize writes r).queue ≡ []
unfolding IsSealed
finalize-queue writes r h = elim (Bool-cases r.closed) [
  | inl c ↦ ap (λ x. x.queue) (finalize-closed writes r c) ∙ h c
  | inr c ↦
      ap (λ x. x.queue) (finalize-open writes r c)
      ∙ drain_all-queue writes r.queue (record r { closed = true }) refl
]

-- What the later events keep of the step and the flag.
unfoldable pub Holds : ℕ → SessionRecorder → Type 0
Holds k r = (seen k r.steps_seen ≡ true) × IsSealed r

finalize-Holds :
    (k : ℕ) (writes : Tick → Bool) (r : SessionRecorder)
    → Holds k r
    → Holds k (remove_work_dir (finalize writes (record r { uploaded = true })))
unfolding Holds Later IsSealed remove_work_dir
finalize-Holds k writes r h = (
  finalize-Later k writes (record r { uploaded = true }) h.0,
  λ c. finalize-queue writes (record r { uploaded = true }) h.1,
)

handle-Holds : (k : ℕ) (r : SessionRecorder) (e : Event) → Holds k r → Holds k (handle r e)
unfolding Holds Later handle enqueue_nowait drain_some
handle-Holds k r (tick_arrives tick) h =
    (enqueue-Later k r tick [] h.0, enqueue-IsSealed r tick [] h.1)
handle-Holds k r (writer_turns w) h = (drain_one-Later k r w h.0, drain_one-IsSealed r w h.1)
handle-Holds k r (uploads writes a b c d) h =
    upload-keeps (Holds k) writes a b c d r h (finalize-Holds k writes r h)
handle-Holds k r (discards writes) h =
    discard-keeps (Holds k) writes r h (finalize-Holds k writes r h)

run-Holds : (k : ℕ) (r : SessionRecorder) (es : List Event) → Holds k r → Holds k (run r es)
unfolding run
run-Holds k r [] h = h
run-Holds k r (e ∷ es) h = run-Holds k (handle r e) es (handle-Holds k r e h)

finalize-IsSealed :
    (writes : Tick → Bool) (r : SessionRecorder) → IsSealed r → IsSealed (finalize writes r)
unfolding IsSealed
finalize-IsSealed writes r h c = finalize-queue writes r h

pub handle-IsSealed : (r : SessionRecorder) (e : Event) → IsSealed r → IsSealed (handle r e)
unfolding handle IsSealed enqueue_nowait remove_work_dir drain_some
handle-IsSealed r (tick_arrives tick) h = enqueue-IsSealed r tick [] h
handle-IsSealed r (writer_turns w) h = drain_one-IsSealed r w h
handle-IsSealed r (uploads writes a b c d) h =
    upload-keeps IsSealed writes a b c d r h
      (finalize-IsSealed writes (record r { uploaded = true }) h)
handle-IsSealed r (discards writes) h =
    discard-keeps IsSealed writes r h (finalize-IsSealed writes (record r { uploaded = true }) h)

pub new_recorder-IsSealed : (n : ℕ) → IsSealed (new_recorder n)
unfolding IsSealed new_recorder
new_recorder-IsSealed n c = refl

-- The rows that an upload hands over.
unfoldable pub outcome_rows : Outcome → List Tick
outcome_rows (published rows) = rows
outcome_rows (quarantined rows) = rows
outcome_rows already = []
outcome_rows nothing_recorded = []
outcome_rows build_failed = []
outcome_rows (discarded steps) = []

publish-rows :
    (l b h a : Bool) (rows : List Tick)
    → (l || b) ≡ true
    → outcome_rows (publish l b h a rows) ≡ rows
unfolding publish outcome_rows
publish-rows l b h a [] e = ground arith
publish-rows l b h a (row ∷ rows) e = ground (arith, e)

times-length : (k : ℕ) (ts : List Tick) → times k ts ≤ length ts
unfolding times
times-length k [] = omega arith
times-length k (t ∷ ts) = ground (arith, times-length k ts)

upload-unsent :
    (writes : Tick → Bool) (l b h a : Bool) (r : SessionRecorder)
    → r.uploaded ≡ false
    → let done = finalize writes (record r { uploaded = true }) in
      upload writes l b h a r ≡ (
        remove_work_dir done,
        if done.step_count == 0 then nothing_recorded else publish l b h a done.rows,
      )
unfolding upload
upload-unsent writes l b h a r e =
    let done = finalize writes (record r { uploaded = true }) in
    ap
      (λ u. if u then (r, already) else (
        remove_work_dir done,
        if done.step_count == 0 then nothing_recorded else publish l b h a done.rows,
      ))
      e

-- What an upload hands over of a step that is in one place.
handed_over :
    (k : ℕ) (l b h a : Bool) (done : SessionRecorder)
    → IsStaged done
    → done.queue ≡ []
    → seen k done.steps_seen ≡ true
    → (l || b) ≡ true
    → times k (
          outcome_rows
            (if done.step_count == 0 then nothing_recorded else publish l b h a done.rows))
        + times k (remove_work_dir done).failed
      ≡ 1
unfolding times remove_work_dir
handed_over k l b h a done staged drained known builds =
    let one : times k done.rows + times k done.failed ≡ 1 =
      omega (arith, staged.once k, ap (times k) drained, ap one_if known) in
    let counted : 0 < done.step_count =
      omega (arith, one, staged.counted, times-length k done.rows, times-length k done.failed) in
    let some_steps : (done.step_count == 0) ≡ false = ground (arith, counted) in
    let rows = publish-rows l b h a done.rows builds in
    let handed =
      ap (λ t. times k (outcome_rows (if t then nothing_recorded else publish l b h a done.rows)))
        some_steps
      ∙ ap (times k) rows in
    omega (arith, one, handed)

-- A step that was seen is in one place when the recorder is uploaded.
pub seen-outcome :
    (k : ℕ) (r : SessionRecorder) (later : List Event) (writes : Tick → Bool)
    (live_sealed rebuilt has_sink sink_accepts : Bool)
    → IsKept r
    → IsSealed r
    → seen k r.steps_seen ≡ true
    → (run r later).uploaded ≡ false
    → (live_sealed || rebuilt) ≡ true
    → let after = upload writes live_sealed rebuilt has_sink sink_accepts (run r later) in
      times k (outcome_rows after.1) + times k after.0.failed ≡ 1
unfolding Holds Later IsSealed
seen-outcome k r later writes l b h a kept sealed known unsent builds =
    let last = run r later in
    let flagged = record last { uploaded = true } in
    let held = run-Holds k r later (known, sealed) in
    let staged = uploaded-IsStaged last (run-IsKept r later kept unsent) in
    rw (upload-unsent writes l b h a last unsent) (
      handed_over k l b h a (finalize writes flagged) (finalize-IsStaged writes flagged staged)
        (finalize-queue writes flagged held.1) (finalize-Later k writes flagged held.0) builds)
