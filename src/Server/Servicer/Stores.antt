-- ===== src/Server/Servicer/Stores.antt =====
-- Every recorder of a servicer is in order, whatever it is asked.
use interlatent.Base.{
  ℕ, String, string_key, or_else, Bool, true, false, ◌&&◌, Option, none, some, List, [], ◌∷◌, ◌≡◌,
  refl, sym, ◌∙◌, subst, arith, Bool-cases, Option-cases, inl, inr, ℕ_discrete, get_elem?,
}
use interlatent.Base.Dict.{Dict, ℕ_key, get, put, get-put}
use interlatent.Server.Recorder.{
  Tick, SessionRecorder, new_recorder, enqueue, writer_only, drain_some, enqueue_nowait,
  max_steps_per_session,
}
use interlatent.Server.Recorder.Staging.{new_recorder-IsStaged}
use interlatent.Server.Recorder.Runs as Runs
use interlatent.Server.Recorder.Runs.{IsKept}
use interlatent.Server.Recorder.Accepted.{
  IsSealed, new_recorder-IsSealed, handle-IsSealed, enqueue-IsSealed,
}
use interlatent.Server.Servicer.{
  SessionState, InferenceServicer, OpenSessionRequest, supersede_episode_session, attach_recorder,
  truthy, register, open_session,
}
use interlatent.Server.Servicer.Requests.{
  Observation, offer, offer_all, recorder_of, note_ticks, record_tick, record_ticks, infer_one,
}
use interlatent.Server.Servicer.Collecting.{
  World, publish_recorder, run_task, collect, stale, idle_gc,
}
use interlatent.Server.Servicer.Publishing.{
  Event, opens, closes, tick_arrives, ticks_arrive, infers, task_runs, collects, or_same, handle,
  run,
}
use interlatent.Server.Servicer.Untouched.{
  supersede-recorders, collect-recorders, reconcile_status-recorders, close_session-recorders,
}

unfoldable pub IsInOrder : SessionRecorder → Type 0
IsInOrder r = IsKept r × IsSealed r

handled-IsInOrder :
    (r : SessionRecorder) (e : Runs.Event) → IsInOrder r → IsInOrder (Runs.handle r e)
unfolding IsInOrder
handled-IsInOrder r e h = (Runs.handle-IsKept r e h.0, handle-IsSealed r e h.1)

pub enqueue-IsInOrder :
    (r : SessionRecorder) (tick : Tick) (outcomes : List Bool)
    → IsInOrder r
    → IsInOrder (enqueue r tick (writer_only outcomes)).0
unfolding IsInOrder
enqueue-IsInOrder r tick outcomes h =
    (Runs.enqueue-IsKept r tick outcomes h.0, enqueue-IsSealed r tick outcomes h.1)

publish_recorder-IsInOrder :
    (w : World) (is_upload : Bool) (r : SessionRecorder)
    → IsInOrder r
    → IsInOrder (publish_recorder w is_upload r)
unfolding publish_recorder Runs.handle
publish_recorder-IsInOrder w true r h =
    handled-IsInOrder r (Runs.uploads w.writes w.live_sealed w.rebuilt w.has_sink w.sink_accepts) h
publish_recorder-IsInOrder w false r h = handled-IsInOrder r (Runs.discards w.writes) h

offer-IsInOrder :
    (b : Bool) (outcomes : Tick → List Bool) (r : SessionRecorder) (tick : Tick)
    → IsInOrder r
    → IsInOrder (offer b outcomes r tick).0
unfolding offer enqueue_nowait drain_some
offer-IsInOrder true outcomes r tick h = enqueue-IsInOrder r tick (outcomes tick) h
offer-IsInOrder false outcomes r tick h = enqueue-IsInOrder r tick [] h

offer_all-IsInOrder :
    (b : Bool) (outcomes : Tick → List Bool) (r : SessionRecorder) (ticks : List Tick)
    → IsInOrder r
    → IsInOrder (offer_all b outcomes r ticks).0
unfolding offer_all
offer_all-IsInOrder b outcomes r [] h = h
offer_all-IsInOrder b outcomes r (tick ∷ ticks) h =
    let first = offer-IsInOrder b outcomes r tick h in
    elim (Bool-cases (offer b outcomes r tick).1) [
      | inl e ↦ rw e (offer_all-IsInOrder b outcomes (offer b outcomes r tick).0 ticks first)
      | inr e ↦ rw e first
    ]

-- All recorders that the store holds.
unfoldable pub AllInOrder : Dict ℕ SessionRecorder → Type 0
AllInOrder store = (h : ℕ) (r : SessionRecorder) → get h store ≡ some r → IsInOrder r

put-AllInOrder :
    (k : ℕ) (r : SessionRecorder) (store : Dict ℕ SessionRecorder)
    → IsInOrder r
    → AllInOrder store
    → AllInOrder (put k r store)
unfolding AllInOrder
put-AllInOrder k r store o all h x e = elim (ℕ_discrete k h) [
  | yes p ↦ subst IsInOrder (ground (arith, p, e, get-put k h r store)) o
  | no p ↦ all h x (ground (arith, p, e, get-put k h r store))
]

module _ {V : Type 0} where
  attach_recorder-AllInOrder :
      (lower : String → String) (has_sink : Bool) (metadata : Dict String String)
      (s : InferenceServicer V) (found : Option ℕ)
      → AllInOrder s.recorders
      → AllInOrder (attach_recorder lower has_sink metadata (s, found)).0.recorders
  unfolding attach_recorder IsInOrder
  attach_recorder-AllInOrder lower has_sink metadata s (some h) all = all
  attach_recorder-AllInOrder lower has_sink metadata s none all =
      elim (Bool-cases (truthy lower (get "record" metadata) && has_sink)) [
        | inl e ↦
            rw (e, attach_recorder)
              (put-AllInOrder s.next_handle (new_recorder max_steps_per_session) s.recorders
                (
                  (λ unsent. new_recorder-IsStaged max_steps_per_session),
                  new_recorder-IsSealed max_steps_per_session,
                )
                all)
        | inr e ↦ rw (e, attach_recorder) all
      ]

  recorder_of-stored :
      (sid : String) (s : InferenceServicer V) (found : SessionState × ℕ × SessionRecorder)
      → recorder_of sid s ≡ some found
      → get found.1 s.recorders ≡ some found.2
  unfolding recorder_of
  recorder_of-stored sid s found e = ground (arith, e)

  open_session-AllInOrder :
      (lower : String → String) (now : ℕ) (sid : String) (chunk_size : ℕ) (has_sink : Bool)
      (request : OpenSessionRequest) (s : InferenceServicer V)
      → AllInOrder s.recorders
      → AllInOrder (open_session lower now sid chunk_size has_sink request s).recorders
  unfolding open_session register supersede_episode_session
  open_session-AllInOrder lower now sid chunk_size has_sink request s all =
      let episode = or_else (get "episode_id" request.metadata) sid in
      let loaded = record s { warmup_warning = none } in
      let older = supersede_episode_session episode sid loaded in
      attach_recorder-AllInOrder lower has_sink request.metadata older.0 older.1 (
        subst AllInOrder (sym (supersede-recorders (get episode s.by_episode) episode sid loaded))
          all)

  record_tick-AllInOrder :
      (now : ℕ) (tick : Tick) (s : InferenceServicer V)
      → AllInOrder s.recorders
      → AllInOrder (record_tick now tick s).0.recorders
  unfolding record_tick note_ticks enqueue_nowait drain_some AllInOrder
  record_tick-AllInOrder now tick s all = elim (Option-cases (recorder_of tick.session_id s)) [
    | inl e ↦ rw (e, record_tick) all
    | inr (found, e) ↦
        rw (e, record_tick)
          (put-AllInOrder found.1 (enqueue_nowait found.2 tick).0 s.recorders
            (enqueue-IsInOrder found.2 tick []
              (all found.1 found.2 (recorder_of-stored tick.session_id s found e)))
            all)
  ]

  pub record_ticks-AllInOrder :
      (now : ℕ) (outcomes : Tick → List Bool) (ticks : List Tick) (s : InferenceServicer V)
      → AllInOrder s.recorders
      → AllInOrder (record_ticks now outcomes ticks s).0.recorders
  unfolding record_ticks note_ticks AllInOrder
  record_ticks-AllInOrder now outcomes [] s all = all
  record_ticks-AllInOrder now outcomes (tick ∷ ticks) s all =
      elim (Option-cases (recorder_of tick.session_id s)) [
        | inl e ↦ rw (e, record_ticks) all
        | inr (found, e) ↦
            rw (e, record_ticks)
              (put-AllInOrder found.1
                (offer_all s.record_backpressure outcomes found.2 (tick ∷ ticks)).0 s.recorders
                (offer_all-IsInOrder s.record_backpressure outcomes found.2 (tick ∷ ticks)
                  (all found.1 found.2 (recorder_of-stored tick.session_id s found e)))
                all)
      ]

  run_task-AllInOrder :
      (w : World) (i : ℕ) (s : InferenceServicer V)
      → AllInOrder s.recorders
      → AllInOrder (run_task w i s).recorders
  unfolding run_task AllInOrder
  run_task-AllInOrder w i s all = elim (Option-cases (get_elem? s.tasks i)) [
    | inl e ↦ rw (e, run_task) all
    | inr (task, e) ↦ elim (Bool-cases task.ended) [
      | inl d ↦ rw (e, d, run_task) all
      | inr d ↦ elim (Option-cases (get task.handle s.recorders)) [
        | inl g ↦ rw (e, d, g, run_task) all
        | inr (r, g) ↦
            rw (e, d, g, run_task)
              (put-AllInOrder task.handle (publish_recorder w task.is_upload r) s.recorders
                (publish_recorder-IsInOrder w task.is_upload r (all task.handle r g)) all)
      ]
    ]
  ]

module _ {V P : Type 0} where
  infer_one-recorders :
      (has_nan : V → Bool) (forward : String → P → Option (List V) → List V) (now : ℕ)
      (obs : Observation P) (s : InferenceServicer V)
      → (or_same s (infer_one has_nan forward now obs s)).recorders ≡ s.recorders
  unfolding infer_one
  infer_one-recorders has_nan forward now obs s =
      elim (Option-cases (get obs.session_id s.sessions)) [
        | inl e ↦ rw (e, infer_one) refl
        | inr (state, e) ↦ rw (e, infer_one) refl
      ]

  handle-AllInOrder :
      (s : InferenceServicer V) (e : Event V P)
      → AllInOrder s.recorders
      → AllInOrder (handle s e).recorders
  unfolding handle idle_gc
  handle-AllInOrder s (opens lower now sid chunk_size has_sink request) all =
      open_session-AllInOrder lower now sid chunk_size has_sink request s all
  handle-AllInOrder s (closes sid) all = subst AllInOrder (sym (close_session-recorders sid s)) all
  handle-AllInOrder s (tick_arrives now tick) all = record_tick-AllInOrder now tick s all
  handle-AllInOrder s (ticks_arrive now outcomes ticks) all =
      record_ticks-AllInOrder now outcomes ticks s all
  handle-AllInOrder s (infers has_nan forward now obs) all =
      subst AllInOrder (sym (infer_one-recorders has_nan forward now obs s)) all
  handle-AllInOrder s (task_runs w i) all = run_task-AllInOrder w i s all
  handle-AllInOrder s (collects now) all =
      let sids = stale now s.idle_timeout s.sessions in
      subst AllInOrder
        (sym (reconcile_status-recorders (collect sids s) ∙ collect-recorders sids s)) all

  pub run-AllInOrder :
      (s : InferenceServicer V) (es : List (Event V P))
      → AllInOrder s.recorders
      → AllInOrder (run s es).recorders
  unfolding run
  run-AllInOrder s [] all = all
  run-AllInOrder s (e ∷ es) all = run-AllInOrder (handle s e) es (handle-AllInOrder s e all)

pub empty-AllInOrder : AllInOrder []
unfolding AllInOrder get
empty-AllInOrder h r e = ground (arith, e)
