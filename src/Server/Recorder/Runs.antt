-- ===== src/Server/Recorder/Runs.antt =====
-- Whole lives of a recorder: what `enqueue` answers, and where an accepted tick is at the end.
use interlatent.Base.{
  ℕ, ◌<◌, Bool, true, false, List, [], ◌∷◌, length, if◌then◌else◌, ◌≡◌, refl, sym, ◌∙◌, ◌↔◌, arith,
  ◌⊎◌,
}
use interlatent.Server.Recorder.{
  Tick, SessionRecorder, new_recorder, queue_maxsize, seen, build_item, note_enqueued, note_refused,
  put_item, enqueue_nowait, enqueue, drain_one, drain_some, finalize, discard, upload, Outcome,
  writer_only, drain_from, drain_all, remove_work_dir, note_cameras,
}
use interlatent.Server.Recorder.Staging.{
  IsStaged, new_recorder-IsStaged, enqueue-IsStaged, drain_one-IsStaged, if_either,
}

-- What can happen to a recorder that serves inference: its ticks come by `enqueue_nowait`, which
-- does not wait, and each of the events is one step of the event loop.
pub data Event : Type 0 where
  tick_arrives : (tick : Tick) → Event
  writer_turns : (written : Bool) → Event
  uploads : (writes : Tick → Bool) (live_sealed rebuilt has_sink sink_accepts : Bool) → Event
  discards : (writes : Tick → Bool) → Event

unfoldable pub handle : SessionRecorder → Event → SessionRecorder
handle r (tick_arrives tick) = (enqueue_nowait r tick).0
handle r (writer_turns written) = drain_one r written
handle r (uploads writes live_sealed rebuilt has_sink sink_accepts) =
    (upload writes live_sealed rebuilt has_sink sink_accepts r).0
handle r (discards writes) = (discard writes r).0

unfoldable pub run : SessionRecorder → List Event → SessionRecorder
unfolding handle
run r [] = r
run r (e ∷ es) = run (handle r e) es

either :
    (Q : SessionRecorder × Outcome → Type 0) (b : Bool) (x y : SessionRecorder × Outcome)
    → Q x
    → Q y
    → Q (if b then x else y)
either Q true x y p q = p
either Q false x y p q = q

flagged :
    (b : Bool) (r : SessionRecorder) (x : SessionRecorder × Outcome) (y : Outcome)
    → r.uploaded ≡ b
    → x.0.uploaded ≡ true
    → (if b then (r, y) else x).0.uploaded ≡ true
flagged true r x y p q = p
flagged false r x y p q = q

pub upload-keeps :
    (Q : SessionRecorder → Type 0) (writes : Tick → Bool) (a b c d : Bool) (r : SessionRecorder)
    → Q r
    → Q (remove_work_dir (finalize writes (record r { uploaded = true })))
    → Q (upload writes a b c d r).0
unfolding upload
upload-keeps Q writes a b c d r p q = either (λ x. Q x.0) r.uploaded _ _ p q

pub discard-keeps :
    (Q : SessionRecorder → Type 0) (writes : Tick → Bool) (r : SessionRecorder)
    → Q r
    → Q (remove_work_dir (finalize writes (record r { uploaded = true })))
    → Q (discard writes r).0
unfolding discard
discard-keeps Q writes r p q = either (λ x. Q x.0) r.uploaded _ _ p q

pub uploaded-IsStaged : (r : SessionRecorder) → IsStaged r → IsStaged (record r { uploaded = true })
uploaded-IsStaged r h = record {
  once = h.once;
  counted = h.counted;
  short = h.short;
  capped = h.capped;
}

-- The staging directory holds what it should until the recorder is uploaded or discarded.
abbrev pub IsKept : SessionRecorder → Type 0
IsKept r = r.uploaded ≡ false → IsStaged r

drain_from-uploaded :
    (q : List Tick) (r : SessionRecorder) (w : Bool) → (drain_from q r w).uploaded ≡ r.uploaded
unfolding drain_from
drain_from-uploaded [] r w = refl
drain_from-uploaded (t ∷ q) r true = refl
drain_from-uploaded (t ∷ q) r false = refl

drain_one-uploaded : (r : SessionRecorder) (w : Bool) → (drain_one r w).uploaded ≡ r.uploaded
unfolding drain_one
drain_one-uploaded r w =
    if_either (λ s. s.uploaded ≡ r.uploaded) r.closed r _ refl (drain_from-uploaded r.queue r w)

drain_some-uploaded :
    (r : SessionRecorder) (ws : List Bool) → (drain_some r ws).uploaded ≡ r.uploaded
unfolding drain_some
drain_some-uploaded r [] = refl
drain_some-uploaded r (w ∷ ws) = drain_some-uploaded (drain_one r w) ws ∙ drain_one-uploaded r w

drain_all-uploaded :
    (writes : Tick → Bool) (q : List Tick) (r : SessionRecorder)
    → (drain_all writes q r).uploaded ≡ r.uploaded
unfolding drain_all
drain_all-uploaded writes [] r = refl
drain_all-uploaded writes (t ∷ q) r =
    drain_all-uploaded writes q (drain_from (t ∷ q) r (writes t))
    ∙ drain_from-uploaded (t ∷ q) r (writes t)

finalize-uploaded :
    (writes : Tick → Bool) (r : SessionRecorder) → (finalize writes r).uploaded ≡ r.uploaded
unfolding finalize
finalize-uploaded writes r =
    if_either (λ s. s.uploaded ≡ r.uploaded) r.closed r _ refl
      (drain_all-uploaded writes r.queue (record r { closed = true }))

enqueue-uploaded :
    (r : SessionRecorder) (tick : Tick) (outcomes : List Bool)
    → (enqueue r tick (writer_only outcomes)).0.uploaded ≡ r.uploaded
unfolding enqueue put_item build_item note_refused note_enqueued
enqueue-uploaded r tick outcomes = ground (
  arith,
  drain_some-uploaded (record r { camera_names = note_cameras tick.cameras r.camera_names })
      outcomes,
)

pub enqueue-IsKept :
    (r : SessionRecorder) (tick : Tick) (outcomes : List Bool)
    → IsKept r
    → IsKept (enqueue r tick (writer_only outcomes)).0
enqueue-IsKept r tick outcomes h unsent =
    enqueue-IsStaged r tick outcomes (h (sym (enqueue-uploaded r tick outcomes) ∙ unsent))

-- An upload and a discard leave the flag up.
upload-uploaded :
    (writes : Tick → Bool) (a b c d : Bool) (r : SessionRecorder)
    → (upload writes a b c d r).0.uploaded ≡ true
unfolding upload remove_work_dir
upload-uploaded writes a b c d r =
    flagged r.uploaded r _ _ refl (finalize-uploaded writes (record r { uploaded = true }))

discard-uploaded :
    (writes : Tick → Bool) (r : SessionRecorder) → (discard writes r).0.uploaded ≡ true
unfolding discard remove_work_dir
discard-uploaded writes r =
    flagged r.uploaded r _ _ refl (finalize-uploaded writes (record r { uploaded = true }))

pub handle-IsKept : (r : SessionRecorder) (e : Event) → IsKept r → IsKept (handle r e)
unfolding handle enqueue_nowait drain_some
handle-IsKept r (tick_arrives tick) h = enqueue-IsKept r tick [] h
handle-IsKept r (writer_turns written) h =
    λ unsent. drain_one-IsStaged r written (h (sym (drain_one-uploaded r written) ∙ unsent))
handle-IsKept r (uploads writes a b c d) h = λ unsent. cc (upload-uploaded writes a b c d r, unsent)
handle-IsKept r (discards writes) h = λ unsent. cc (discard-uploaded writes r, unsent)

pub run-IsKept : (r : SessionRecorder) (es : List Event) → IsKept r → IsKept (run r es)
unfolding run
run-IsKept r [] h = h
run-IsKept r (e ∷ es) h = run-IsKept (handle r e) es (handle-IsKept r e h)

-- Whatever happens to a new recorder that serves inference, until it is uploaded or discarded each
-- step that it has seen is staged, lost by a failed write, or queued exactly once, no other step is,
-- the three add up to the steps counted, the queue holds at most `queue_maxsize` ticks and the steps
-- stay within the bound.
pub run_recorder-IsStaged :
    (bound : ℕ) (es : List Event)
    → (run (new_recorder bound) es).uploaded ≡ false
    → IsStaged (run (new_recorder bound) es)
run_recorder-IsStaged bound es unsent =
    run-IsKept (new_recorder bound) es (λ e. new_recorder-IsStaged bound) unsent

-- `enqueue_nowait` answers true exactly if the recorder is open and either has the step already or
-- has room in the queue and below the bound of steps; if it answers false then the staged rows, the
-- queue and the steps seen are as before.
pub enqueue_nowait-answer :
    (r : SessionRecorder) (tick : Tick)
    → (((enqueue_nowait r tick).1 ≡ true) ↔ (
        (r.closed ≡ false)
        × ((seen tick.step r.steps_seen ≡ true)
            ⊎ ((r.step_count < r.max_steps) × (length r.queue < queue_maxsize)))))
      × ((enqueue_nowait r tick).1 ≡ false
          → ((enqueue_nowait r tick).0.rows ≡ r.rows)
            × ((enqueue_nowait r tick).0.queue ≡ r.queue)
            × ((enqueue_nowait r tick).0.steps_seen ≡ r.steps_seen))
unfolding enqueue_nowait enqueue put_item build_item drain_some note_refused note_enqueued
enqueue_nowait-answer r tick = (
  (λ p. ground (arith, p), λ p. ground (arith, p)),
  λ p. (ground (arith, p), ground (arith, p), ground (arith, p)),
)
