-- ===== src/Server/Recorder.antt =====
-- recorder.py, `SessionRecorder`: the staging of one episode's ticks. `enqueue` says yes once a tick
-- is in the queue; the writer takes the ticks off it, one after another, and writes their rows and
-- frames. Whether a write succeeds is an argument. The prefix of the cameras' names, which the
-- transport adds and the recorder takes off, is left out, and so is logging.
pub mod Staging
pub mod Runs
pub mod Accepted
pub mod Waiting
use interlatent.Base.{
  ℕ, zero, suc, ◌+◌, ◌-◌, String, string_discrete, Bool, true, false, not, ◌&&◌, ◌||◌, Option, none,
  some, List, [], ◌∷◌, ◌++◌, length, ltb, leb, ◌==◌, if◌then◌else◌, ite,
}

abbrev pub queue_maxsize : ℕ
queue_maxsize = 64

abbrev pub max_steps_per_session : ℕ
max_steps_per_session = 108000

-- A tick as it comes off the wire; `body` is its state, action and images.
pub record Tick : Type 0 where
  pub session_id : String
  pub step : ℕ
  pub control_timestamp : ℕ
  pub control_source : String
  pub cameras : List String
  pub body : List ℕ

pub record SessionRecorder : Type 0 where
  pub queue : List Tick
  -- the rows in `steps.jsonl`, each with its frames, oldest first
  pub rows : List Tick
  -- the ticks whose write failed
  pub failed : List Tick
  pub closed : Bool
  pub uploaded : Bool
  pub max_steps : ℕ
  pub step_count : ℕ
  pub dropped : ℕ
  pub steps_seen : List ℕ
  pub dedup_acked : ℕ
  pub camera_names : List String
  pub first_ts : Option ℕ
  pub last_ts : Option ℕ
  pub teleop_steps : ℕ

unfoldable pub new_recorder : ℕ → SessionRecorder
new_recorder max_steps = record {
  queue = [];
  rows = [];
  failed = [];
  closed = false;
  uploaded = false;
  max_steps = max_steps;
  step_count = 0;
  dropped = 0;
  steps_seen = [];
  dedup_acked = 0;
  camera_names = [];
  first_ts = none;
  last_ts = none;
  teleop_steps = 0;
}

-- `step in self._steps_seen`
unfoldable pub seen : ℕ → List ℕ → Bool
seen step [] = false
seen step (n ∷ ns) = n == step || seen step ns

unfoldable pub has_camera : String → List String → Bool
has_camera cam [] = false
has_camera cam (c ∷ cs) = ite (string_discrete c cam) true (has_camera cam cs)

-- New cameras in the order of their first appearance.
unfoldable pub note_cameras : List String → List String → List String
note_cameras [] known = known
note_cameras (cam ∷ cams) known =
    note_cameras cams (if has_camera cam known then known else known ++ cam ∷ [])

unfoldable pub is_human : String → Bool
is_human source =
    ite (string_discrete source "teleop") true
      (ite (string_discrete source "intervention") true false)

-- `_build_item`: the recorder with the cameras noted, unless it takes no more steps.
unfoldable pub build_item : SessionRecorder → Tick → Option SessionRecorder
build_item r tick =
    if r.closed
    then none
    else (if leb r.max_steps r.step_count
        then none
        else some (record r { camera_names = note_cameras tick.cameras r.camera_names }))

abbrev pub or_now : Option ℕ → ℕ → Option ℕ
or_now none now = some now
or_now (some earlier) now = some earlier

unfoldable pub note_enqueued : SessionRecorder → Tick → SessionRecorder
note_enqueued r tick = record r {
  step_count = r.step_count + 1;
  steps_seen = tick.step ∷ r.steps_seen;
  teleop_steps = if is_human tick.control_source then r.teleop_steps + 1 else r.teleop_steps;
  first_ts = or_now r.first_ts tick.control_timestamp;
  last_ts = some tick.control_timestamp;
}

unfoldable pub note_refused : SessionRecorder → SessionRecorder
note_refused r = record r { dropped = r.dropped + 1 }

-- `self._queue.put_nowait(item)` and what follows it.
unfoldable pub put_item : SessionRecorder → Tick → SessionRecorder × Bool
put_item r tick =
    if leb queue_maxsize (length r.queue)
    then (note_refused r, false)
    else (note_enqueued (record r { queue = r.queue ++ tick ∷ [] }) tick, true)

-- The writer's next tick, if the queue holds one.
unfoldable pub drain_from : List Tick → SessionRecorder → Bool → SessionRecorder
drain_from [] r written = r
drain_from (tick ∷ rest) r written =
    if written
    then record r { queue = rest; rows = r.rows ++ tick ∷ [] }
    else record r { queue = rest; failed = tick ∷ r.failed }

-- One turn of the drain loop; `written` says whether `_write_one` raised nothing. The loop ends
-- with `finalize`, and what is put in the queue later stays there.
unfoldable pub drain_one : SessionRecorder → Bool → SessionRecorder
unfolding drain_from
drain_one r written = if r.closed then r else drain_from r.queue r written

unfoldable pub drain_some : SessionRecorder → List Bool → SessionRecorder
drain_some r [] = r
drain_some r (written ∷ outcomes) = drain_some (drain_one r written) outcomes

-- `enqueue`: `during` is what the writer and other handlers do to the recorder while the call waits
-- in `self._queue.put(item)`; the time is up if there is no room then. Neither the flag nor the
-- steps seen are looked at again after the wait.
unfoldable pub enqueue :
    SessionRecorder → Tick → (SessionRecorder → SessionRecorder) → SessionRecorder × Bool
unfolding put_item
enqueue r tick during =
    if not r.closed && seen tick.step r.steps_seen
    then (record r { dedup_acked = r.dedup_acked + 1 }, true)
    else elim (build_item r tick) [ none ↦ (r, false) | some noted ↦ put_item (during noted) tick ]

-- A wait in which only the writer runs: it takes a tick for each of the outcomes.
abbrev pub writer_only : List Bool → SessionRecorder → SessionRecorder
writer_only outcomes r = drain_some r outcomes

-- `enqueue_nowait` asks for the room at once.
unfoldable pub enqueue_nowait : SessionRecorder → Tick → SessionRecorder × Bool
unfolding enqueue
enqueue_nowait r tick = enqueue r tick (λ now. now)

-- `finalize` awaits the drain task, which takes what is in the queue, tick after tick; `writes` says
-- which ticks can be written. The first argument is the queue.
unfoldable pub drain_all : (Tick → Bool) → List Tick → SessionRecorder → SessionRecorder
unfolding drain_from
drain_all writes [] r = r
drain_all writes (tick ∷ rest) r = drain_all writes rest (drain_from (tick ∷ rest) r (writes tick))

unfoldable pub finalize : (Tick → Bool) → SessionRecorder → SessionRecorder
finalize writes r = if r.closed then r else drain_all writes r.queue (record r { closed = true })

-- What becomes of the built dataset and the working directory.
pub data Outcome : Type 0 where
  -- it was uploaded or discarded before
  already : Outcome
  -- the working directory is removed, and nothing is published
  nothing_recorded : Outcome
  -- the rebuild raised or gave no episode: the working directory is removed
  build_failed : Outcome
  published : (rows : List Tick) → Outcome
  -- the dataset is moved out of the working directory
  quarantined : (rows : List Tick) → Outcome
  discarded : (steps : ℕ) → Outcome

-- `shutil.rmtree(self.work_dir)`: the staged rows and frames are deleted.
unfoldable pub remove_work_dir : SessionRecorder → SessionRecorder
remove_work_dir r = record r { rows = [] }

unfoldable pub discard : (Tick → Bool) → SessionRecorder → SessionRecorder × Outcome
discard writes r =
    if r.uploaded
    then (r, already)
    else (let done = finalize writes (record r { uploaded = true }) in
        (remove_work_dir done, discarded done.step_count))

-- The lanes of `upload`, from the sealed live dataset or the staged rows to the sink.
unfoldable pub publish : Bool → Bool → Bool → Bool → List Tick → Outcome
publish live_sealed rebuilt has_sink sink_accepts [] =
    if live_sealed
    then (if has_sink && sink_accepts then published [] else quarantined [])
    else build_failed
publish live_sealed rebuilt has_sink sink_accepts (row ∷ rows) =
    if live_sealed || rebuilt
    then (if has_sink && sink_accepts then published (row ∷ rows) else quarantined (row ∷ rows))
    else build_failed

-- Every lane ends with the removal of the working directory.
-- The live builder is not part of the model: a dataset that it seals stands for the staged rows.
-- Whether it sealed its dataset, the rebuild raised nothing, there is a sink, and the
-- sink raised nothing, are arguments.
unfoldable pub upload :
    (Tick → Bool) → Bool → Bool → Bool → Bool → SessionRecorder → SessionRecorder × Outcome
upload writes live_sealed rebuilt has_sink sink_accepts r =
    if r.uploaded
    then (r, already)
    else (let done = finalize writes (record r { uploaded = true }) in
        (
          remove_work_dir done,
          if done.step_count == 0
              then nothing_recorded
              else publish live_sealed rebuilt has_sink sink_accepts done.rows,
        ))

unfoldable pub no_steps : SessionRecorder → Bool
no_steps r = r.step_count == 0

-- Whether a reconnecting session can go on with this recorder.
unfoldable pub reusable : SessionRecorder → Bool
reusable r = not r.closed && not r.uploaded
