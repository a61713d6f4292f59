-- ===== src/Server/Servicer/Publishing.antt =====
-- Each recorder is published by one task at most, whatever requests arrive and whenever tasks run.
use interlatent.Base.{
  ℕ, zero, suc, String, string_key, Bool, Option, none, some, List, [], ◌∷◌, ◌≡◌, refl, ◌∙◌, arith,
  Bool-cases, Option-cases, inl, inr, get_elem?,
}
use interlatent.Base.Dict.{ℕ_key, get, put}
use interlatent.Server.Recorder.{Tick, SessionRecorder}
use interlatent.Server.ChunkBuffer.{InMemoryChunkBuffer}
use interlatent.Server.Servicer.{
  new_servicer, SessionState, Task, InferenceServicer, OpenSessionRequest, open_session,
  close_session,
}
use interlatent.Server.Servicer.Requests.{
  Observation, Action, recorder_of, note_ticks, record_tick, record_ticks, infer_one,
}
use interlatent.Server.Servicer.Collecting.{
  World, end_task, run_task, reconcile_status, collect, stale, idle_gc,
}
use interlatent.Server.Servicer.Ownership.{held, tasked, IsOwned, put-IsOwned, empty-IsOwned}
use interlatent.Server.Servicer.Ending.{
  IsSound, SameOwners, same-IsSound, collect-IsSound, close_session-IsSound, open_session-IsSound,
}

tasked-end_task : (h i : ℕ) (ts : List Task) → tasked h (end_task i ts) ≡ tasked h ts
unfolding tasked end_task
tasked-end_task h i [] = refl
tasked-end_task h zero (t ∷ ts) = refl
tasked-end_task h (suc i) (t ∷ ts) = ground (arith, tasked-end_task h i ts)

module _ {V : Type 0} where
  recorder_of-get :
      (sid : String) (s : InferenceServicer V) (found : SessionState × ℕ × SessionRecorder)
      → recorder_of sid s ≡ some found
      → get sid s.sessions ≡ some found.0
  unfolding recorder_of
  recorder_of-get sid s found e = ground (arith, e)

  touch-IsSound :
      (sid : String) (now : ℕ) (state : SessionState) (s : InferenceServicer V)
      → get sid s.sessions ≡ some state
      → IsSound s
      → IsOwned (put sid (record state { last_infer = now }) s.sessions) s.tasks s.next_handle
  unfolding IsSound held
  touch-IsSound sid now state s e o =
      put-IsOwned sid (record state { last_infer = now }) s.sessions s.tasks s.next_handle
        (ground (arith, e)) o

  record_tick-IsSound :
      (now : ℕ) (tick : Tick) (s : InferenceServicer V)
      → IsSound s
      → IsSound (record_tick now tick s).0
  unfolding record_tick note_ticks IsSound
  record_tick-IsSound now tick s o = elim (Option-cases (recorder_of tick.session_id s)) [
    | inl e ↦ rw (e, record_tick) o
    | inr (found, e) ↦
        rw (e, record_tick)
          (touch-IsSound tick.session_id now found.0 s (recorder_of-get tick.session_id s found e)
            o)
  ]

  record_ticks-IsSound :
      (now : ℕ) (outcomes : Tick → List Bool) (ticks : List Tick) (s : InferenceServicer V)
      → IsSound s
      → IsSound (record_ticks now outcomes ticks s).0
  unfolding record_ticks note_ticks IsSound
  record_ticks-IsSound now outcomes [] s o = o
  record_ticks-IsSound now outcomes (tick ∷ ticks) s o =
      elim (Option-cases (recorder_of tick.session_id s)) [
        | inl e ↦ rw (e, record_ticks) o
        | inr (found, e) ↦
            rw (e, record_ticks)
              (touch-IsSound tick.session_id now found.0 s
                (recorder_of-get tick.session_id s found e) o)
      ]

  run_task-IsSound :
      (w : World) (i : ℕ) (s : InferenceServicer V) → IsSound s → IsSound (run_task w i s)
  unfolding run_task IsSound
  run_task-IsSound w i s o = elim (Option-cases (get_elem? s.tasks i)) [
    | inl e ↦ rw (e, run_task) o
    | inr (task, e) ↦ elim (Bool-cases task.ended) [
      | inl d ↦ rw (e, d, run_task) o
      | inr d ↦ elim (Option-cases (get task.handle s.recorders)) [
        | inl g ↦ rw (e, d, g, run_task) o
        | inr (r, g) ↦
            rw (e, d, g, run_task)
              (record {
                one_session = o.one_session;
                no_task = λ a h p. tasked-end_task h i s.tasks ∙ o.no_task a h p;
                known = o.known;
                one_task = λ h. omega (arith, tasked-end_task h i s.tasks, o.one_task h);
                unborn = λ h p. tasked-end_task h i s.tasks ∙ o.unborn h p;
              })
      ]
    ]
  ]

  reconcile_status-SameOwners : (s : InferenceServicer V) → SameOwners (reconcile_status s) s
  unfolding reconcile_status SameOwners
  reconcile_status-SameOwners s = (ground arith, ground arith, ground arith)

  idle_gc-IsSound : (now : ℕ) (s : InferenceServicer V) → IsSound s → IsSound (idle_gc now s)
  unfolding idle_gc
  idle_gc-IsSound now s o =
      same-IsSound _ _
        (reconcile_status-SameOwners (collect (stale now s.idle_timeout s.sessions) s))
        (collect-IsSound (stale now s.idle_timeout s.sessions) s o)

-- What can happen to a servicer; the answers are left aside. `P` is the type of payloads.
pub data Event (V P : Type 0) : Type 0 where
  opens :
      (lower : String → String) (now : ℕ) (session_id : String) (chunk_size : ℕ) (has_sink : Bool)
      (request : OpenSessionRequest)
      → Event V P
  closes : (session_id : String) → Event V P
  tick_arrives : (now : ℕ) (tick : Tick) → Event V P
  ticks_arrive : (now : ℕ) (outcomes : Tick → List Bool) (ticks : List Tick) → Event V P
  infers :
      (has_nan : V → Bool) (forward : String → P → Option (List V) → List V) (now : ℕ)
      (obs : Observation P)
      → Event V P
  task_runs : (w : World) (i : ℕ) → Event V P
  collects : (now : ℕ) → Event V P

abbrev pub or_same :
    {V : Type 0}
    → InferenceServicer V
    → Option (InferenceServicer V × List (Action V))
    → InferenceServicer V
or_same s none = s
or_same s (some answer) = answer.0

module _ {V P : Type 0} where
  unfoldable pub handle : InferenceServicer V → Event V P → InferenceServicer V
  handle s (opens lower now session_id chunk_size has_sink request) =
      open_session lower now session_id chunk_size has_sink request s
  handle s (closes session_id) = close_session session_id s
  handle s (tick_arrives now tick) = (record_tick now tick s).0
  handle s (ticks_arrive now outcomes ticks) = (record_ticks now outcomes ticks s).0
  handle s (infers has_nan forward now obs) = or_same s (infer_one has_nan forward now obs s)
  handle s (task_runs w i) = run_task w i s
  handle s (collects now) = idle_gc now s

  unfoldable pub run : InferenceServicer V → List (Event V P) → InferenceServicer V
  unfolding handle
  run s [] = s
  run s (e ∷ es) = run (handle s e) es

  infer_one-IsSound :
      (has_nan : V → Bool) (forward : String → P → Option (List V) → List V) (now : ℕ)
      (obs : Observation P) (s : InferenceServicer V)
      → IsSound s
      → IsSound (or_same s (infer_one has_nan forward now obs s))
  unfolding infer_one IsSound
  infer_one-IsSound has_nan forward now obs s o =
      elim (Option-cases (get obs.session_id s.sessions)) [
        | inl e ↦ rw (e, infer_one) o
        | inr (state, e) ↦ rw (e, infer_one) (touch-IsSound obs.session_id now state s e o)
      ]

  handle-IsSound : (s : InferenceServicer V) (e : Event V P) → IsSound s → IsSound (handle s e)
  unfolding handle
  handle-IsSound s (opens lower now session_id chunk_size has_sink request) o =
      open_session-IsSound lower now session_id chunk_size has_sink request s o
  handle-IsSound s (closes session_id) o = close_session-IsSound session_id s o
  handle-IsSound s (tick_arrives now tick) o = record_tick-IsSound now tick s o
  handle-IsSound s (ticks_arrive now outcomes ticks) o = record_ticks-IsSound now outcomes ticks s o
  handle-IsSound s (infers has_nan forward now obs) o =
      infer_one-IsSound has_nan forward now obs s o
  handle-IsSound s (task_runs w i) o = run_task-IsSound w i s o
  handle-IsSound s (collects now) o = idle_gc-IsSound now s o

  run-IsSound : (s : InferenceServicer V) (es : List (Event V P)) → IsSound s → IsSound (run s es)
  unfolding run
  run-IsSound s [] o = o
  run-IsSound s (e ∷ es) o = run-IsSound (handle s e) es (handle-IsSound s e o)

-- Whatever a new servicer is asked, whenever its tasks run and its idle collector turns: no recorder is
-- held by two sessions, a recorder for which a task was started is held by no session, and for no recorder
-- more than one task is started.
pub run_servicer-IsOwned :
    {V P : Type 0}
    → (buf : InMemoryChunkBuffer V) (context_steps idle_timeout now : ℕ) (backpressure : Bool)
    → (warning : Option String) (es : List (Event V P))
    → IsOwned
        (run (new_servicer buf context_steps idle_timeout now backpressure warning) es).sessions
        (run (new_servicer buf context_steps idle_timeout now backpressure warning) es).tasks
        (run (new_servicer buf context_steps idle_timeout now backpressure warning) es).next_handle
unfolding IsSound new_servicer
run_servicer-IsOwned buf context_steps idle_timeout now backpressure warning es =
    run-IsSound (new_servicer buf context_steps idle_timeout now backpressure warning) es
      empty-IsOwned
