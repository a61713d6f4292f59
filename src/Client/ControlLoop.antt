-- ===== src/Client/ControlLoop.antt =====
-- controller.py (`DRTCClient.step` and `_send`), sender.py and receiver.py of
-- packages/sdk/src/interlatent/inference/client/: the control loop asks for chunks, and the sender's
-- thread, one request at a time, fetches and merges them. `step` reads the depth of the schedule,
-- decides, and takes an action under no common lock: these are three steps here, between which the
-- sender may do anything. The estimated latency in steps, the clocks
-- and the answers are arguments. The telemetry of jitter and queue minima is left out.
pub mod Flights
pub mod Races
mod Examples
use interlatent.Base.{
  ℕ, zero, suc, ◌+◌, max, String, Bool, true, false, not, ◌&&◌, Option, none, some, List, [], ◌∷◌,
  ◌++◌, length, ltb, leb, ◌==◌, if◌then◌else◌, or_else,
}
use interlatent.Base.Dict.{Dict, ℕ_key, put, remove}
use interlatent.Client.ActionSchedule.{
  ScheduledAction, ActionSchedule, empty, queue_depth, pop_next, merge, next_action_step,
  scheduled_spans,
}
use interlatent.Client.Cooldown.{Cooldown, new_cooldown, tick, arm, ready}

pub record PendingObservation (P : Type 0) : Type 0 where
  pub payload : P
  pub payload_codec : String
  pub inference_delay : ℕ

pub record Observation (P : Type 0) : Type 0 where
  pub control_timestamp : ℕ
  pub next_action_step : ℕ
  pub payload : P
  pub payload_codec : String
  pub inference_delay : ℕ
  pub scheduled_spans : List (ℕ × ℕ)

-- Where the sender's thread is.
pub data Sender (P : Type 0) : Type 0 where
  idle : Sender P
  -- in `Infer`
  awaiting : (msg : Observation P) → Sender P
  -- in `on_chunk`, after the merge
  merged : Sender P

-- Where the control thread is.
pub data Control : Type 0 where
  between_steps : Control
  -- it has read the depth
  sampled : (depth : ℕ) → Control
  -- it has sent an observation, or has not
  decided : Control

pub record ControlLoop (V P : Type 0) : Type 0 where
  pub synchronous : Bool
  pub min_execution_horizon : ℕ
  pub codec : String
  pub schedule : ActionSchedule V
  pub cooldown : Cooldown
  -- the last time of `ControlClock`
  pub last_stamp : ℕ
  pub sent_at : Dict ℕ ℕ
  pub in_flight : Bool
  pub control : Control
  pub outbox : List (PendingObservation P)
  pub sender : Sender P
  pub stat_none : ℕ
  pub stat_wait : ℕ
  pub stat_infer : ℕ
  pub stat_chunk : ℕ

module _ {V P : Type 0} where
  unfoldable pub new_loop : Bool → ℕ → String → ℕ → ControlLoop V P
  new_loop synchronous min_execution_horizon codec now = record {
    synchronous = synchronous;
    min_execution_horizon = min_execution_horizon;
    codec = codec;
    schedule = empty;
    cooldown = new_cooldown 2;
    last_stamp = now;
    sent_at = [];
    in_flight = false;
    control = between_steps;
    outbox = [];
    sender = idle;
    stat_none = 0;
    stat_wait = 0;
    stat_infer = 0;
    stat_chunk = 0;
  }

  unfoldable pub should_send : ℕ → ℕ → ControlLoop V P → Bool
  should_send depth delay c =
      if c.synchronous
      then depth == 0 && not c.in_flight
      else ltb depth (delay + c.min_execution_horizon) && ready c.cooldown

  -- Closes the gate, or arms the cooldown, and hands the observation to the sender.
  unfoldable pub submit : ℕ → P → Option String → ControlLoop V P → ControlLoop V P
  submit delay payload codec c = record c {
    in_flight = if c.synchronous then true else c.in_flight;
    cooldown =
        if c.synchronous
        then c.cooldown
        else arm c.cooldown (if ltb 0 delay then delay else c.min_execution_horizon);
    outbox =
        c.outbox
        ++ record {
          payload = payload;
          payload_codec = or_else codec c.codec;
          inference_delay = delay;
        }
          ∷ [];
  }

  unfoldable pub pop_action : ControlLoop V P → ControlLoop V P × Option V
  pop_action c =
      let popped = pop_next c.schedule in
      elim popped.1 [
        | none ↦
            if c.synchronous && c.in_flight
            then (record c { stat_wait = c.stat_wait + 1; schedule = popped.0 }, none)
            else (record c { stat_none = c.stat_none + 1; schedule = popped.0 }, none)
        | some action ↦ (record c { schedule = popped.0 }, some action.vector)
      ]

  -- `step`, up to the decision
  unfoldable pub begin_step : ControlLoop V P → ControlLoop V P
  begin_step c = elim c.control [
    | between_steps ↦ record c {
      cooldown = tick c.cooldown;
      control = sampled (queue_depth c.schedule);
    }
    | sampled depth ↦ c
    | decided ↦ c
  ]

  -- The decision, for the latency that is estimated now, and the hand-over to the sender. The gate is
  -- closed by this thread only.
  unfoldable pub decide : ℕ → P → Option String → ControlLoop V P → ControlLoop V P
  unfolding should_send submit
  decide delay payload codec c = elim c.control [
    | between_steps ↦ c
    | sampled depth ↦
        record (if should_send depth delay c then submit delay payload codec c else c) {
          control = decided;
        }
    | decided ↦ c
  ]

  -- `step`, from the decision to the return
  unfoldable pub end_step : ControlLoop V P → ControlLoop V P × Option V
  unfolding pop_action
  end_step c = elim c.control [
    | between_steps ↦ (c, none)
    | sampled depth ↦ (c, none)
    | decided ↦ let popped = pop_action c in (record popped.0 { control = between_steps }, popped.1)
  ]

  -- `ControlClock.tick`
  abbrev pub next_stamp : ControlLoop V P → ℕ → ℕ
  next_stamp c now = if leb now c.last_stamp then c.last_stamp + 1 else now

  -- `_dispatch`, and `_send` up to the RPC; `now` and `wall` are what the clocks show.
  unfoldable pub dispatch_next : ℕ → ℕ → ControlLoop V P → ControlLoop V P
  dispatch_next now wall c = elim c.sender [
    | idle ↦ elim c.outbox [
      | [] ↦ c
      | item ∷ rest ↦ record c {
        outbox = rest;
        last_stamp = next_stamp c now;
        sent_at = put (next_stamp c now) wall c.sent_at;
        stat_infer = c.stat_infer + 1;
        sender = awaiting (record {
          control_timestamp = next_stamp c now;
          next_action_step = next_action_step c.schedule;
          payload = item.payload;
          payload_codec = item.payload_codec;
          inference_delay = item.inference_delay;
          scheduled_spans = scheduled_spans c.schedule;
        });
      }
    ]
    | awaiting msg ↦ c
    | merged ↦ c
  ]

  -- The RPC raises.
  unfoldable pub infer_fails : ControlLoop V P → ControlLoop V P
  infer_fails c = elim c.sender [
    | idle ↦ c
    | awaiting msg ↦ record c {
      sent_at = remove msg.control_timestamp c.sent_at;
      in_flight = false;
      sender = idle;
    }
    | merged ↦ c
  ]

  -- `on_chunk` up to the callback, for a chunk with the given stamp
  unfoldable pub receive : ℕ → List (ScheduledAction V) → ControlLoop V P → ControlLoop V P
  receive stamp actions c = elim c.sender [
    | idle ↦ c
    | awaiting msg ↦ record c {
      sent_at = remove stamp c.sent_at;
      stat_chunk = c.stat_chunk + 1;
      schedule = (merge c.schedule actions).0;
      sender = merged;
    }
    | merged ↦ c
  ]

  -- The callback, `self._in_flight.clear()`
  unfoldable pub clear_gate : ControlLoop V P → ControlLoop V P
  clear_gate c = elim c.sender [
    | idle ↦ c
    | awaiting msg ↦ c
    | merged ↦ record c { in_flight = false; sender = idle }
  ]

  -- `_run` logs an exception of `_dispatch`, whether it is raised before the RPC or in `on_chunk`,
  -- and takes the next observation: the gate stays as it is. The entry of `sent_at`, which serves the
  -- estimate of the latency only, is left here; `on_chunk` may have taken it.
  unfoldable pub dispatch_raises : ControlLoop V P → ControlLoop V P
  dispatch_raises c = elim c.sender [
    | idle ↦ elim c.outbox [ [] ↦ c | item ∷ rest ↦ record c { outbox = rest } ]
    | awaiting msg ↦ record c { sender = idle }
    | merged ↦ c
  ]
