-- ===== src/Server/Servicer/Examples.antt =====
-- A session of one episode: a node records three ticks, comes back and closes.
use interlatent.Base.{
  ℕ, String, Bool, true, false, none, some, List, [], ◌∷◌, length, take, get_elem?, ◌≡◌, ◌<◌, ◌↔◌,
  ◌⊎◌, refl, ap, ite, string_key, string_discrete, or_else, is_blank, strip, ℕ_discrete,
}
use interlatent.Base.Dict.{get, put, ℕ_key}
use interlatent.Server.ChunkBuffer.{InMemoryChunkBuffer}
use interlatent.Server.Recorder.{
  Tick, SessionRecorder, new_recorder, max_steps_per_session, queue_maxsize, enqueue,
  enqueue_nowait, drain_from, seen, build_item, put_item, note_cameras, note_enqueued, drain_some,
  drain_one, reusable,
}
use interlatent.Server.Recorder.Staging.{IsStaged, new_recorder-IsStaged}
use interlatent.Server.Recorder.Runs.{
  Event, tick_arrives, writer_turns, run, handle, run_recorder-IsStaged, enqueue_nowait-answer,
}
use interlatent.Server.Servicer.{
  InferenceServicer, OpenSessionRequest, new_servicer, new_session, open_session,
}
use interlatent.Server.Servicer.Publishing as Publishing
use interlatent.Server.Servicer.Ownership.{IsOwned, held}
use interlatent.Server.Servicer.Requests.{offer_all, recorder_of, record_ticks}
use interlatent.Server.Servicer.Publishing.{
  closes, opens, ticks_arrive, collects, run_servicer-IsOwned,
}
use interlatent.Server.Servicer.Reconnect.{open_session-inherits}
use interlatent.Server.Servicer.Ticks.{record_ticks-accepted}

abbrev tick_at : ℕ → Tick
tick_at step = record {
  session_id = "g1";
  step = step;
  control_timestamp = 100;
  control_source = "teleop";
  cameras = "wrist" ∷ [];
  body = 1 ∷ 2 ∷ [];
}

abbrev always : Tick → Bool
always tick = true

abbrev at_once : Tick → List Bool
at_once tick = []

abbrev as_is : String → String
as_is word = word

run_recorder-IsStaged_example :
    IsStaged (run (new_recorder 5) (tick_arrives (tick_at 0) ∷ writer_turns false ∷ []))
unfolding run handle enqueue_nowait enqueue seen build_item put_item note_cameras drain_some
    drain_one drain_from note_enqueued new_recorder
run_recorder-IsStaged_example =
    run_recorder-IsStaged 5 (tick_arrives (tick_at 0) ∷ writer_turns false ∷ []) refl

enqueue_nowait-answer_example :
    (((enqueue_nowait (new_recorder 5) (tick_at 0)).1 ≡ true) ↔ (
      ((new_recorder 5).closed ≡ false)
      × ((seen 0 (new_recorder 5).steps_seen ≡ true)
          ⊎ (((new_recorder 5).step_count < (new_recorder 5).max_steps)
              × (length (new_recorder 5).queue < queue_maxsize)))))
    × ((enqueue_nowait (new_recorder 5) (tick_at 0)).1 ≡ false
        → ((enqueue_nowait (new_recorder 5) (tick_at 0)).0.rows ≡ (new_recorder 5).rows)
          × ((enqueue_nowait (new_recorder 5) (tick_at 0)).0.queue ≡ (new_recorder 5).queue)
          × ((enqueue_nowait (new_recorder 5) (tick_at 0)).0.steps_seen
              ≡ (new_recorder 5).steps_seen))
enqueue_nowait-answer_example = enqueue_nowait-answer (new_recorder 5) (tick_at 0)

abbrev before : List Event
before = tick_arrives (tick_at 0) ∷ []

abbrev accepted : SessionRecorder
accepted = (enqueue_nowait (run (new_recorder 5) before) (tick_at 1)).0

abbrev request : OpenSessionRequest
request = record {
  payload_codec = "";
  min_execution_horizon = 0;
  metadata = ("record", "true") ∷ ("episode_id", "e1") ∷ [];
}

abbrev buffer : InMemoryChunkBuffer ℕ
buffer = record { max_chunks_per_session = 8; data_of = [] }

abbrev opened : InferenceServicer ℕ
opened = open_session as_is 10 "g1" 8 true request (new_servicer buffer 32 60 0 false none)

abbrev events : List (Publishing.Event ℕ ℕ)
events =
    opens as_is 10 "g1" 8 true request
    ∷ ticks_arrive 11 at_once (tick_at 0 ∷ tick_at 1 ∷ [])
    ∷ opens as_is 12 "g2" 8 true request
    ∷ closes "g2"
    ∷ []

run_servicer-IsOwned_example :
    IsOwned
      (Publishing.run (new_servicer buffer 32 60 0 false none) events).sessions
      (Publishing.run (new_servicer buffer 32 60 0 false none) events).tasks
      (Publishing.run (new_servicer buffer 32 60 0 false none) events).next_handle
run_servicer-IsOwned_example = run_servicer-IsOwned buffer 32 60 0 false none events

open_session-inherits_example :
    (held "g2" (open_session as_is 12 "g2" 8 true request opened).sessions ≡ some 0)
    × (held "g1" (open_session as_is 12 "g2" 8 true request opened).sessions ≡ none)
    × ((open_session as_is 12 "g2" 8 true request opened).tasks ≡ opened.tasks)
    × ((open_session as_is 12 "g2" 8 true request opened).recorders ≡ opened.recorders)
    × (get "e1" (open_session as_is 12 "g2" 8 true request opened).by_episode ≡ some "g2")
unfolding recorder_of get open_session put new_servicer string_discrete strip ℕ_discrete held
    reusable is_blank new_recorder or_else
open_session-inherits_example =
    open_session-inherits as_is 12 "g2" 8 true request opened "g1" 0
      (new_recorder max_steps_per_session)
      (λ p. let q : true ≡ false = ap (λ s. ite (string_discrete s "g1") true false) p in cc q)
      (record { indexed = refl; named = refl; holds = refl; stored = refl; open_still = refl })

record_ticks-accepted_example :
    (after : SessionRecorder) × (get 0
        (record_ticks 11 at_once (tick_at 0 ∷ tick_at 0 ∷ []) opened).0.recorders
      ≡ some after)
    × IsStaged after
    × ((i : ℕ) (x : Tick)
        → i < (record_ticks 11 at_once (tick_at 0 ∷ tick_at 0 ∷ []) opened).1
        → get_elem? (tick_at 0 ∷ tick_at 0 ∷ []) i ≡ some x
        → seen x.step after.steps_seen ≡ true)
    × ((record_ticks 11 at_once (tick_at 0 ∷ tick_at 0 ∷ []) opened).1 < 2
        → (x : Tick) × (get_elem?
              (tick_at 0 ∷ tick_at 0 ∷ [])
              (record_ticks 11 at_once (tick_at 0 ∷ tick_at 0 ∷ []) opened).1
            ≡ some x)
          × ((enqueue_nowait
                (offer_all false at_once (new_recorder max_steps_per_session) (
                  take
                    (record_ticks 11 at_once (tick_at 0 ∷ tick_at 0 ∷ []) opened).1
                    (tick_at 0 ∷ tick_at 0 ∷ []))).0
                x).1
              ≡ false))
unfolding recorder_of get open_session put new_servicer string_discrete strip ℕ_discrete
record_ticks-accepted_example =
    record_ticks-accepted 11 at_once (tick_at 0) (tick_at 0 ∷ []) opened
      (new_session as_is 10 "g1" 8 request (some 0)) 0 (new_recorder max_steps_per_session) refl
      refl (new_recorder-IsStaged max_steps_per_session)
