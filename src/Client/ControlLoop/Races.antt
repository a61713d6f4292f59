-- ===== src/Client/ControlLoop/Races.antt =====
-- The sequential mode where the gate and the schedule do not go together: an exception in the
-- sender, and a depth that is read before a merge.
use interlatent.Base.{true, List, [], ◌∷◌, ◌≡◌, arith}
use interlatent.Client.ControlLoop.{
  Observation, ControlLoop, idle, awaiting, should_send, submit, pop_action, begin_step, decide,
  end_step, dispatch_next, infer_fails, receive, clear_gate, dispatch_raises,
}
use interlatent.Client.ControlLoop.Flights.{Event, handle, run}

module _ {V P : Type 0} where
  -- The gate is closed and nothing is out that would open it.
  pub record IsStuck (c : ControlLoop V P) : Type 0 where
    pub sequential : c.synchronous ≡ true
    pub closed : c.in_flight ≡ true
    pub nothing_queued : c.outbox ≡ []
    pub nothing_sent : c.sender ≡ idle

  handle-IsStuck : (c : ControlLoop V P) (e : Event V P) → IsStuck c → IsStuck (handle c e)
  unfolding handle begin_step decide end_step should_send submit pop_action dispatch_next
      infer_fails receive clear_gate dispatch_raises
  handle-IsStuck c e h = record {
    sequential = ground (arith, h.sequential, h.closed, h.nothing_queued, h.nothing_sent);
    closed = ground (arith, h.sequential, h.closed, h.nothing_queued, h.nothing_sent);
    nothing_queued = ground (arith, h.sequential, h.closed, h.nothing_queued, h.nothing_sent);
    nothing_sent = ground (arith, h.sequential, h.closed, h.nothing_queued, h.nothing_sent);
  }

  run-IsStuck : (c : ControlLoop V P) (es : List (Event V P)) → IsStuck c → IsStuck (run c es)
  unfolding run
  run-IsStuck c [] h = h
  run-IsStuck c (e ∷ es) h = run-IsStuck (handle c e) es (handle-IsStuck c e h)

-- In the sequential mode, if the sender's thread raises while the answer to the only request is with
-- it, before the gate is opened, then the gate stays closed whatever follows, and no observation is
-- handed over or sent again.
pub dispatch_raises-IsStuck :
    {V P : Type 0}
    → (c : ControlLoop V P) (msg : Observation P) (es : List (Event V P)) → c.synchronous ≡ true
    → c.in_flight ≡ true
    → c.outbox ≡ []
    → c.sender ≡ awaiting msg
    → IsStuck (run (dispatch_raises c) es)
unfolding dispatch_raises
dispatch_raises-IsStuck c msg es m g o s = run-IsStuck (dispatch_raises c) es (record {
  sequential = ground (arith, m, s);
  closed = ground (arith, g, s);
  nothing_queued = ground (arith, o, s);
  nothing_sent = ground (arith, s);
})
