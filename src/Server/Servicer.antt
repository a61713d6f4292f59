-- ===== src/Server/Servicer.antt =====
-- transport.py, `InferenceServicer`: sessions, their recorders, and the tasks that publish them.
-- Recorders and tasks are objects that several parts refer to, so a recorder has a handle, and a task
-- an index in the list of all tasks. A request is one step, also where the handler awaits. The
-- policy's runtime is a function from the prior actions to the actions, and loading it is an
-- argument, as are the new session's id, `lower`, and whether a destination for datasets is found.
pub mod Requests
pub mod Collecting
pub mod Ownership
pub mod Ending
pub mod Publishing
mod Examples
pub mod Ticks
pub mod Untouched
pub mod Stores
pub mod Reconnect
use interlatent.Base.{
  ℕ, zero, suc, ◌+◌, ◌-◌, ◌/◌, max, String, string_discrete, string_key, strip, or_else, is_blank,
  Bool, true, false, not, ◌&&◌, ◌||◌, Option, none, some, List, [], ◌∷◌, ◌++◌, length, ltb, leb,
  ◌==◌, if◌then◌else◌, ite,
}
use interlatent.Base.Dict.{ℕ_key, Dict, get, put, remove}
use interlatent.Server.ChunkBuffer.{InMemoryChunkBuffer, drop_session}
use interlatent.Server.Recorder.{
  SessionRecorder, new_recorder, max_steps_per_session, no_steps, reusable,
}

pub record SessionState : Type 0 where
  pub payload_codec : String
  pub chunk_size : ℕ
  pub min_execution_horizon : ℕ
  pub synchronous : Bool
  -- the handle of the recorder
  pub recorder : Option ℕ
  pub last_infer : ℕ
  -- an upload was started for this session
  pub upload_task : Bool
  pub episode_id : String
  pub robot_kind : String

-- A task that uploads, or discards, what the recorder with this handle holds.
pub record Task : Type 0 where
  pub handle : ℕ
  pub is_upload : Bool
  pub reportable : Bool
  pub ended : Bool

pub data Activity : Type 0 where
  uploading : Activity
  running : Activity
  ready : Activity

pub record InferenceServicer (V : Type 0) : Type 0 where
  pub buf : InMemoryChunkBuffer V
  pub sessions : Dict String SessionState
  pub next_step : Dict String ℕ
  pub last_engaged_at : ℕ
  pub context_steps : ℕ
  pub idle_timeout : ℕ
  pub record_backpressure : Bool
  -- `_lingering_uploads` and `_reportable_uploads` are the uploads of these that have not ended.
  pub tasks : List Task
  pub by_episode : Dict String String
  pub last_reported_status : Option Activity
  pub warmup_warning : Option String
  -- the reports made to the box, newest first
  pub reports : List (Activity × Option String)
  pub recorders : Dict ℕ SessionRecorder
  pub next_handle : ℕ

pub record OpenSessionRequest : Type 0 where
  pub payload_codec : String
  pub min_execution_horizon : ℕ
  pub metadata : Dict String String

unfoldable pub truthy : (String → String) → Option String → Bool
truthy lower none = false
truthy lower (some value) =
    let word = lower (strip value) in
    ite (string_discrete word "1") true (
      ite (string_discrete word "true") true
        (ite (string_discrete word "yes") true (ite (string_discrete word "on") true false)))

abbrev pub number_or : ℕ → ℕ → ℕ
number_or zero default = default
number_or (suc n) default = suc n

unfoldable pub new_session :
    (String → String) → ℕ → String → ℕ → OpenSessionRequest → Option ℕ → SessionState
unfolding truthy
new_session lower now session_id chunk_size request recorder = record {
  payload_codec = or_else (some request.payload_codec) "raw_f32";
  chunk_size = chunk_size;
  min_execution_horizon = number_or request.min_execution_horizon (max (chunk_size / 4) 1);
  synchronous = truthy lower (get "synchronous" request.metadata);
  recorder = recorder;
  last_infer = now;
  upload_task = false;
  episode_id = or_else (get "episode_id" request.metadata) session_id;
  robot_kind = strip (or_else (get "robot_kind" request.metadata) "");
}

module _ {V : Type 0} where
  -- `__init__`
  unfoldable pub new_servicer :
      InMemoryChunkBuffer V → ℕ → ℕ → ℕ → Bool → Option String → InferenceServicer V
  new_servicer buf context_steps idle_timeout now backpressure warning = record {
    buf = buf;
    sessions = [];
    next_step = [];
    last_engaged_at = now;
    context_steps = context_steps;
    idle_timeout = idle_timeout;
    record_backpressure = backpressure;
    tasks = [];
    by_episode = [];
    last_reported_status = none;
    warmup_warning = warning;
    reports = [];
    recorders = [];
    next_handle = 0;
  }

  unfoldable pub drop_episode_index : String → String → InferenceServicer V → InferenceServicer V
  drop_episode_index episode_id session_id s =
      if not (is_blank episode_id)
      then elim (get episode_id s.by_episode) [
        | none ↦ s
        | some held ↦
            ite (string_discrete held session_id)
              (record s { by_episode = remove episode_id s.by_episode }) s
      ]
      else s

  -- Takes a session out of the tables that are keyed by its id.
  unfoldable pub forget_session : String → InferenceServicer V → InferenceServicer V
  forget_session session_id s = record s {
    sessions = remove session_id s.sessions;
    next_step = remove session_id s.next_step;
    buf = drop_session s.buf session_id;
  }

  -- The recorder that the new session goes on with.
  unfoldable pub inherited : InferenceServicer V → Option SessionState → Option ℕ
  inherited s none = none
  inherited s (some old) = elim old.recorder [
    | none ↦ none
    | some handle ↦ elim (get handle s.recorders) [
      | none ↦ none
      | some r ↦ if reusable r then some handle else none
    ]
  ]

  unfoldable pub supersede :
      Option String → String → String → InferenceServicer V → InferenceServicer V × Option ℕ
  unfolding forget_session drop_episode_index inherited
  supersede none episode_id new_session_id s = (s, none)
  supersede (some old_sid) episode_id new_session_id s =
      if is_blank old_sid
      then (s, none)
      else ite (string_discrete old_sid new_session_id) (s, none)
          (
            drop_episode_index episode_id old_sid (forget_session old_sid s),
            inherited s (get old_sid s.sessions),
          )

  unfoldable pub supersede_episode_session :
      String → String → InferenceServicer V → InferenceServicer V × Option ℕ
  unfolding supersede
  supersede_episode_session episode_id new_session_id s =
      supersede (get episode_id s.by_episode) episode_id new_session_id s

  -- The inherited recorder, or a new one if the metadata asks for it and has a destination.
  unfoldable pub attach_recorder :
      (String → String)
      → Bool
      → Dict String String
      → InferenceServicer V × Option ℕ
      → InferenceServicer V × Option ℕ
  unfolding truthy
  attach_recorder lower has_sink metadata (s, some handle) = (s, some handle)
  attach_recorder lower has_sink metadata (s, none) =
      if truthy lower (get "record" metadata) && has_sink
      then (
        record s {
          recorders = put s.next_handle (new_recorder max_steps_per_session) s.recorders;
          next_handle = s.next_handle + 1;
        },
        some s.next_handle,
      )
      else (s, none)

  -- Enters the session with the recorder that was found for it.
  unfoldable pub register : String → SessionState → InferenceServicer V → InferenceServicer V
  register session_id state s = record s {
    sessions = put session_id state s.sessions;
    next_step = put session_id 0 s.next_step;
    by_episode = put state.episode_id session_id s.by_episode;
  }

  -- `OpenSession`, once the policy is loaded with the given chunk size; a failed load raises before
  -- anything changes.
  unfoldable pub open_session :
      (String → String)
      → ℕ
      → String
      → ℕ
      → Bool
      → OpenSessionRequest
      → InferenceServicer V
      → InferenceServicer V
  unfolding supersede_episode_session attach_recorder new_session register
  open_session lower now session_id chunk_size has_sink request s =
      let episode = or_else (get "episode_id" request.metadata) session_id in
      let found =
        attach_recorder lower has_sink request.metadata
          (supersede_episode_session episode session_id (record s { warmup_warning = none })) in
      register session_id (new_session lower now session_id chunk_size request found.1) found.0

  -- `_spawn_upload`, for a session that was taken out of the table.
  unfoldable pub spawn_upload : SessionState → InferenceServicer V → InferenceServicer V
  spawn_upload state s = elim state.recorder [
    | none ↦ s
    | some handle ↦ if state.upload_task then s else (elim (get handle s.recorders) [
      | none ↦ s
      | some r ↦ record s {
        tasks =
            s.tasks
            ++ record {
              handle = handle;
              is_upload = true;
              reportable = not (no_steps r);
              ended = false;
            }
              ∷ [];
      }
    ])
  ]

  unfoldable pub close_session : String → InferenceServicer V → InferenceServicer V
  unfolding forget_session drop_episode_index spawn_upload
  close_session session_id s =
      let left = forget_session session_id s in
      elim (get session_id s.sessions) [
        | none ↦ left
        | some state ↦ spawn_upload state (drop_episode_index state.episode_id session_id left)
      ]
