-- ===== src/Client/ControlLoop/Examples.antt =====
-- One request of the sequential mode, from the step that fires it to the open gate.
use interlatent.Base.{ℕ, true, none, List, [], ◌∷◌, refl}
use interlatent.Client.ActionSchedule.{queue_depth}
use interlatent.Client.ControlLoop.{Observation, ControlLoop, new_loop, awaiting, dispatch_raises}
use interlatent.Client.ControlLoop.Races.{IsStuck, dispatch_raises-IsStuck}
use interlatent.Client.ControlLoop.Flights.{
  Event, begins_step, decides, ends_step, dispatches, receives, clears, run, IsSingle,
  run_loop-IsSingle,
}

abbrev events : List (Event ℕ ℕ)
events =
    begins_step
    ∷ decides 0 5 none
    ∷ ends_step
    ∷ dispatches 10 11
    ∷ receives 10 (record { action_step = 0; control_timestamp = 10; vector = 7 } ∷ [])
    ∷ begins_step
    ∷ decides 1 6 none
    ∷ ends_step
    ∷ clears
    ∷ []

run_loop-IsSingle_example : IsSingle (run (new_loop true 12 "raw_f32" 0) events)
run_loop-IsSingle_example = run_loop-IsSingle 12 "raw_f32" 0 events

abbrev sent_msg : Observation ℕ
sent_msg = record {
  control_timestamp = 10;
  next_action_step = 0;
  payload = 5;
  payload_codec = "raw_f32";
  inference_delay = 0;
  scheduled_spans = [];
}

-- The request of the first step is with the sender.
abbrev sent_one : ControlLoop ℕ ℕ
sent_one = record (new_loop true 12 "raw_f32" 0) {
  schedule = record { slots = []; cursor = 0; merge_floor_ts = 0 };
  in_flight = true;
  sender = awaiting sent_msg;
}

dispatch_raises-IsStuck_example : IsStuck (run (dispatch_raises sent_one) events)
unfolding new_loop queue_depth
dispatch_raises-IsStuck_example =
    dispatch_raises-IsStuck sent_one sent_msg events refl refl refl refl
