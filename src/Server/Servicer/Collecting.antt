-- ===== src/Server/Servicer/Collecting.antt =====
-- The tasks that publish recorders, the idle collector, and the status that the box reports.
use interlatent.Base.{
  ℕ, zero, suc, ◌-◌, String, string_key, Bool, true, false, not, ◌&&◌, ◌||◌, Option, none, some,
  List, [], ◌∷◌, ◌++◌, ltb, if◌then◌else◌, get_elem?,
}
use interlatent.Base.Dict.{Dict, ℕ_key, get, put}
use interlatent.Server.Recorder.{Tick, SessionRecorder, upload, discard, no_steps}
use interlatent.Server.Servicer.{
  SessionState, Task, Activity, uploading, running, ready, InferenceServicer, forget_session,
  spawn_upload,
}

-- What the outside does to an upload or discard: which rows can be written, and whether the live
-- dataset is sealed, the rebuild works, there is a sink and the sink accepts.
pub record World : Type 0 where
  pub writes : Tick → Bool
  pub live_sealed : Bool
  pub rebuilt : Bool
  pub has_sink : Bool
  pub sink_accepts : Bool

unfoldable pub publish_recorder : World → Bool → SessionRecorder → SessionRecorder
publish_recorder w is_upload r =
    if is_upload
    then (upload w.writes w.live_sealed w.rebuilt w.has_sink w.sink_accepts r).0
    else (discard w.writes r).0

unfoldable pub end_task : ℕ → List Task → List Task
end_task i [] = []
end_task zero (t ∷ ts) = record t { ended = true } ∷ ts
end_task (suc i) (t ∷ ts) = t ∷ end_task i ts

-- `_reportable_uploads` is not empty.
unfoldable pub any_reportable : List Task → Bool
any_reportable [] = false
any_reportable (t ∷ ts) = (t.reportable && not t.ended) || any_reportable ts

abbrev pub same_activity : Activity → Option Activity → Bool
same_activity a none = false
same_activity uploading (some uploading) = true
same_activity running (some running) = true
same_activity ready (some ready) = true
same_activity uploading (some running) = false
same_activity uploading (some ready) = false
same_activity running (some uploading) = false
same_activity running (some ready) = false
same_activity ready (some uploading) = false
same_activity ready (some running) = false

-- The sessions that were silent for longer than the limit.
unfoldable pub stale : ℕ → ℕ → Dict String SessionState → List String
stale now limit [] = []
stale now limit ((sid, state) ∷ sessions) =
    let rest = stale now limit sessions in
    if ltb limit (now - state.last_infer) then sid ∷ rest else rest

unfoldable pub activity_now : List Task → Dict String SessionState → Activity
unfolding any_reportable
activity_now tasks sessions =
    if any_reportable tasks then uploading else elim sessions [ [] ↦ ready | e ∷ es ↦ running ]

module _ {V : Type 0} where
  -- A task runs to its end.
  unfoldable pub run_task : World → ℕ → InferenceServicer V → InferenceServicer V
  unfolding publish_recorder end_task
  run_task w i s = elim (get_elem? s.tasks i) [
    | none ↦ s
    | some task ↦ if task.ended then s else (elim (get task.handle s.recorders) [
      | none ↦ s
      | some r ↦ record s {
        tasks = end_task i s.tasks;
        recorders = put task.handle (publish_recorder w task.is_upload r) s.recorders;
      }
    ])
  ]

  unfoldable pub reconcile_status : InferenceServicer V → InferenceServicer V
  unfolding activity_now
  reconcile_status s =
      if same_activity (activity_now s.tasks s.sessions) s.last_reported_status
      then s
      else record s {
        last_reported_status = some (activity_now s.tasks s.sessions);
        reports = (activity_now s.tasks s.sessions, s.warmup_warning) ∷ s.reports;
      }

  -- What becomes of the recorder of a session that was collected.
  unfoldable pub retire : SessionState → InferenceServicer V → InferenceServicer V
  retire state s = elim state.recorder [
    | none ↦ s
    | some handle ↦ elim (get handle s.recorders) [
      | none ↦ s
      | some r ↦
          if no_steps r
          then record s {
            tasks =
                s.tasks
                ++ record { handle = handle; is_upload = false; reportable = false; ended = false }
                  ∷ [];
          }
          else spawn_upload state s
    ]
  ]

  unfoldable pub collect : List String → InferenceServicer V → InferenceServicer V
  unfolding retire
  collect [] s = s
  collect (sid ∷ sids) s = elim (get sid s.sessions) [
    | none ↦ collect sids s
    | some state ↦ collect sids (retire state (forget_session sid s))
  ]

  -- One turn of `_idle_gc_loop`. Unlike the other paths that end a session, it leaves the entry in
  -- `_by_episode`.
  unfoldable pub idle_gc : ℕ → InferenceServicer V → InferenceServicer V
  unfolding collect reconcile_status stale
  idle_gc now s = reconcile_status (collect (stale now s.idle_timeout s.sessions) s)
