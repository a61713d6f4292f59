-- ===== src/Server/Recorder/Waiting.antt =====
-- What becomes of a tick that waits for room in the queue while the recorder is finalized.
use interlatent.Base.{ℕ, ◌+◌, true, ◌≡◌}
use interlatent.Server.Recorder.{SessionRecorder}
use interlatent.Server.Recorder.Staging.{times}

-- The recorder is closed, and the step is neither staged nor lost by a failed write.
pub record IsLost (k : ℕ) (r : SessionRecorder) : Type 0 where
  pub closed : r.closed ≡ true
  pub nowhere : times k r.rows + times k r.failed ≡ 0
