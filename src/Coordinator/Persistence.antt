-- ===== src/Coordinator/Persistence.antt =====
-- state.py, `_load` and `_persist`: the state file. A document that is written reads back as it
-- was, and `os.replace` makes a write all or nothing.
use interlatent.Base.{some, [], get_or}
use interlatent.Base.Json.{end}
use interlatent.Coordinator.Data.{
  State, Document, File, missing, unreadable, not_a_dict, document, Coordinator,
}

unfoldable pub initial : State
initial = record {
  keys = [];
  gpus = [];
  nodes = [];
  sessions = [];
  environments = [];
  recordings = [];
  recording = end;
  teleop_tokens = [];
}

-- The document that `json.dumps(self._state)` writes.
unfoldable pub dump : State → Document
dump s = record {
  keys = some s.keys;
  gpus = some s.gpus;
  nodes = some s.nodes;
  sessions = some s.sessions;
  environments = some s.environments;
  recordings = some s.recordings;
  recording = some s.recording;
  teleop_tokens = some s.teleop_tokens;
}

-- `self._state.update(loaded)`
unfoldable pub update : State → Document → State
update s d = record {
  keys = get_or d.keys s.keys;
  gpus = get_or d.gpus s.gpus;
  nodes = get_or d.nodes s.nodes;
  sessions = get_or d.sessions s.sessions;
  environments = get_or d.environments s.environments;
  recordings = get_or d.recordings s.recordings;
  recording = get_or d.recording s.recording;
  teleop_tokens = get_or d.teleop_tokens s.teleop_tokens;
}

unfoldable pub load : File → State
unfolding initial update
load missing = initial
load unreadable = initial
load not_a_dict = initial
load (document d) = update initial d

-- `Coordinator(state_path)`: liveness and telemetry are not persisted.
unfoldable pub start : File → Coordinator
start file = record { state = load file; file = file; last_seen = []; telemetry = []; wakes = 0 }

unfoldable pub persist : Coordinator → Coordinator
unfolding dump
persist c = record c { file = document (dump c.state) }
