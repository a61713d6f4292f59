-- ===== src/Recording/Durable.antt =====
-- From the robot's disk to the rows of the episode.
use interlatent.Base.Dict.{Dict, ℕ_key}
use interlatent.Client.TickSpool.Keeping as Keeping
use interlatent.Server.Recorder.Runs as Runs
