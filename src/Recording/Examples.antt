-- ===== src/Recording/Examples.antt =====
-- One tick, journaled, sent and deleted.
use interlatent.Base.{ℕ, String, Bool, true, false, List, [], ◌∷◌, string_key}
use interlatent.Base.Dict.{ℕ_key}
use interlatent.Client.TickSpool.{open_spool}
use interlatent.Client.TickSpool.Keeping.{Call, appends, run, step}
use interlatent.Client.Uplink.{DrtcClient}
use interlatent.Server.Recorder.{Tick}
use interlatent.Server.ChunkBuffer.{InMemoryChunkBuffer}
use interlatent.Server.Servicer.Publishing as Publishing
use interlatent.Server.Servicer.Publishing.{opens}
use interlatent.Server.Recorder.Runs as Runs

abbrev journaled : List Call
journaled = appends (7 ∷ 7 ∷ []) true ∷ []

abbrev client : DrtcClient
client = record {
  is_open = true;
  spool = run (open_spool [] 1000 0) journaled;
  rec_batch_max_ticks = 4;
  rec_captured = 1;
  rec_refused = 0;
  rec_sent = 0;
  rec_batch_unsupported = false;
}

abbrev parse : List ℕ → Tick
parse bytes = record {
  session_id = "g1";
  step = 3;
  control_timestamp = 100;
  control_source = "policy";
  cameras = [];
  body = bytes;
}

abbrev readable : ℕ → Bool
readable seq = true

abbrev at_once : Tick → List Bool
at_once tick = []

abbrev as_is : String → String
as_is word = word

abbrev opening : List (Publishing.Event ℕ ℕ)
opening =
    opens as_is 10 "g1" 8 true
      (record { payload_codec = ""; min_execution_horizon = 0; metadata = ("record", "true") ∷ [] })
    ∷ []

abbrev buffer : InMemoryChunkBuffer ℕ
buffer = record { max_chunks_per_session = 8; data_of = [] }
