-- ===== src/Node/Daemon/Examples.antt =====
-- A session that moves to another box.
use interlatent.Base.{
  String, string_discrete, is_blank, or_else, true, false, some, none, List, [], ◌∷◌, ◌≡◌, refl,
}
use interlatent.Node.Daemon.{
  Payload, connects, new_daemon, resolve_endpoint, converge, thread_ends, end_at, stop_active_loop,
  stop_active, stop_at, forget_assignment, assign, start_loop, is_same, same_id, is_active,
}
use interlatent.Node.Daemon.Tracking.{
  Event, polls, ends, run, handle, IsTracked, run_daemon-IsTracked,
}
use interlatent.Node.Daemon.Settling.{Serves, converge-Serves}

abbrev at : String → Payload
at endpoint = record { id = "s1"; drtc_endpoint = endpoint; route_address = "" }

abbrev events : List Event
events =
    polls "" false false connects (some (at "box1:50051"))
    ∷ ends 0
    ∷ polls "" true false connects none
    ∷ []

run_daemon-IsTracked_example : IsTracked (run (new_daemon "") events)
run_daemon-IsTracked_example = run_daemon-IsTracked "" events

converge-Serves_example :
    Serves ""
      (at "box2:50051")
      (converge "" false false connects (some (at "box2:50051")) (run (new_daemon "") events))
    × ((converge "" false false connects (some (at "box2:50051")) (
          converge "" false false connects
            (some (at "box2:50051"))
            (run (new_daemon "") events))).loops
        ≡ (converge "" false false connects
            (some (at "box2:50051"))
            (run (new_daemon "") events)).loops)
unfolding resolve_endpoint or_else is_blank run handle converge thread_ends end_at stop_active_loop
    stop_active stop_at forget_assignment assign start_loop is_same same_id is_active new_daemon
    string_discrete
converge-Serves_example =
    converge-Serves "" false (at "box2:50051") (run (new_daemon "") events)
      (run_daemon-IsTracked "" events) (λ i l a e. cc a) refl
