-- ===== src/Lib.antt =====
-- The control plane, the node's inference client and daemon, the teleop relay and the inference server
-- of Interlatent.
--
-- A node (a robot) runs an inference client that asks a box (a GPU server) for chunks of actions and
-- executes them one by one. The coordinator pairs nodes, registers boxes, assigns sessions to both
-- and hands out credentials; nodes learn of their assignment by long polls. A browser takes over by
-- teleop, through a relay that copies datagrams and streams between the two sides of a session.
--
-- Coordinator/ follows packages/sdk/src/interlatent/coordinator/state.py, coordinator/auth.py and
-- routing.py: Data has the records, Credentials, Nodes, Boxes, Environments, Sessions, Teleop and
-- Poll have the methods of `Coordinator` under their names, Persistence has `_load` and `_persist`, Crash has
-- the writes of `_persist` one by one,
-- and Routing has the registry of route methods. Server has the routes and the authorisation of
-- server.py, on the segments of a path. A method is a function from the coordinator to the
-- coordinator and its answer; one that raises answers `err`. The lock makes a method one step, so
-- that a history is a list of calls (History); `create_teleop_recording` takes the lock several times, and its
-- assignment is a step of its own. A long poll is a list of the states that its rounds
-- see. Times and random texts are arguments, and sha256 is a parameter of which nothing is assumed.
-- Client/ActionSchedule follows packages/sdk/src/interlatent/inference/client/merge.py. Client/TickSpool
-- follows spool.py beside it: the index in memory and the files, where a crash keeps the files only;
-- whether a write or a read succeeds is an argument, and an `unlink` succeeds. Client/Cooldown follows
-- cooldown.py. Client/Uplink follows the recording half of controller.py and Client/ControlLoop its
-- control half with sender.py and receiver.py, where a step of the control thread is three steps, between
-- which the sender's thread may merge and open the gate; a dispatch reads the schedule at once, and the
-- estimated latency is an argument. Recording puts
-- Client/Uplink and Server/Servicer together: the bytes of a tick are parsed by a function of which
-- nothing is assumed.
-- Behaviors/ follows packages/sdk/src/interlatent/behaviors/arbitration.py: the lock files are process
-- ids, which ids are alive is an argument, and a claim has two halves.
-- Node/ follows packages/sdk/src/interlatent/node/daemon.py: which control loop runs for which assignment;
-- the environment, the disk's pressure and what becomes of a connection are arguments.
-- Server/ follows chunk_buffer.py and schedule.py of packages/server/src/interlatent_server/server/:
-- a row of actions is opaque but for the test that it holds a NaN. Server/Recorder follows recorder.py
-- there: whether a tick can be written is an argument, and a write that fails loses the tick. What happens
-- during the wait of `enqueue` is an argument; Recorder/Runs has the recorders that do not wait.
-- Server/Servicer follows transport.py: recorders are shared, so sessions and tasks name them by
-- handles; a handler is one step, also where
-- `record_backpressure` makes it wait, and a task runs to its end at any later step. Loading a policy, its
-- forward pass, `str.lower` and the outcomes of an upload are arguments.
-- Relay/ follows relay_core.py (Registry, Streams) and relay.py (Connection) of
-- packages/sdk/src/interlatent/coordinator/: a peer is an opaque handle, what is sent is a list of
-- effects, and whether an outgoing stream could be opened is an argument.
-- Base/ has Python's dictionaries, texts and JSON objects.
--
-- The numbers are unbounded, as Python's are; frame rates are whole numbers here. No function takes
-- fuel: each loop of the code runs over a list or a dictionary, and recurses on it; a poll recurses on
-- its rounds, and answers once one of them reaches the deadline; the sender recurses on the answers of
-- its calls, which the environment gives.
--
-- Not modelled: the bodies of the HTTP handlers, the operator's key file, the sweep of
-- finished streams in aioquic's private tables, the age-based collection of chunks, the robot's control loop,
-- the robot adapters, the policy backends, the live encoder and the sinks of datasets.
pub mod Base
pub mod Client
pub mod Coordinator
pub mod Relay
pub mod Server
pub mod Node
pub mod Recording
pub mod Behaviors
