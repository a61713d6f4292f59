-- ===== src/Client/ControlLoop/Flights.antt =====
-- How many requests are out, and what they find when they come back.
use interlatent.Base.{
  ℕ, ◌+◌, ◌≤◌, String, Bool, true, false, Option, List, [], ◌∷◌, ◌++◌, length, length-append,
  or_else, if◌then◌else◌, ◌≡◌, refl, arith, Bool-cases, inl, inr,
}
use interlatent.Base.Dict.{ℕ_key}
use interlatent.Client.ActionSchedule.{ScheduledAction}
use interlatent.Client.Cooldown.{Cooldown}
use interlatent.Client.ControlLoop.{
  ControlLoop, Sender, idle, awaiting, merged, Control, between_steps, sampled, decided, new_loop,
  should_send, submit, pop_action, begin_step, decide, end_step, dispatch_raises, dispatch_next,
  infer_fails, receive, clear_gate,
}

abbrev pub busy : {P : Type 0} → Sender P → ℕ
busy idle = 0
busy (awaiting msg) = 1
busy merged = 1

-- 1 before the chunk is merged
abbrev pub unmerged : {P : Type 0} → Sender P → ℕ
unmerged idle = 0
unmerged (awaiting msg) = 1
unmerged merged = 0

abbrev pub one_if : Bool → ℕ
one_if true = 1
one_if false = 0

length-last : {A : Type 0} (xs : List A) (x : A) → length (xs ++ x ∷ []) ≡ length xs + 1
length-last xs x = omega (arith, length-append xs (x ∷ []))

-- What can happen to the loop.
pub data Event (V P : Type 0) : Type 0 where
  begins_step : Event V P
  decides : (delay : ℕ) (payload : P) (codec : Option String) → Event V P
  ends_step : Event V P
  dispatches : (now wall : ℕ) → Event V P
  fails : Event V P
  receives : (stamp : ℕ) (actions : List (ScheduledAction V)) → Event V P
  clears : Event V P
  raises : Event V P

module _ {V P : Type 0} where
  unfoldable pub handle : ControlLoop V P → Event V P → ControlLoop V P
  handle c begins_step = begin_step c
  handle c (decides delay payload codec) = decide delay payload codec c
  handle c ends_step = (end_step c).0
  handle c (dispatches now wall) = dispatch_next now wall c
  handle c fails = infer_fails c
  handle c (receives stamp actions) = receive stamp actions c
  handle c clears = clear_gate c
  handle c raises = dispatch_raises c

  unfoldable pub run : ControlLoop V P → List (Event V P) → ControlLoop V P
  unfolding handle
  run c [] = c
  run c (e ∷ es) = run (handle c e) es

  -- In the sequential mode one request at most is queued or with the sender, and the gate is closed
  -- then.
  pub record IsSingle (c : ControlLoop V P) : Type 0 where
    pub sequential : c.synchronous ≡ true
    pub gated : length c.outbox + busy c.sender ≤ one_if c.in_flight

  pop_action-IsSingle : (c : ControlLoop V P) → IsSingle c → IsSingle (pop_action c).0
  unfolding pop_action
  pop_action-IsSingle c h = record {
    sequential = ground (arith, h.sequential);
    gated = ground (arith, h.gated);
  }

  submit-IsSingle :
      (depth delay : ℕ) (payload : P) (codec : Option String) (c : ControlLoop V P)
      → should_send depth delay c ≡ true
      → IsSingle c
      → IsSingle (submit delay payload codec c)
  unfolding should_send submit
  submit-IsSingle depth delay payload codec c sends h = record {
    sequential = h.sequential;
    gated = ground (
      arith,
      sends,
      h.sequential,
      h.gated,
      length-last c.outbox (record {
        payload = payload;
        payload_codec = or_else codec c.codec;
        inference_delay = delay;
      }),
    );
  }

  -- Where the control thread is and what the cooldown shows do not matter.
  control-IsSingle :
      (c : ControlLoop V P) (cooldown : Cooldown) (control : Control)
      → IsSingle c
      → IsSingle (record c { cooldown = cooldown; control = control })
  control-IsSingle c cooldown control h = record { sequential = h.sequential; gated = h.gated }

  begin_step-IsSingle : (c : ControlLoop V P) → IsSingle c → IsSingle (begin_step c)
  unfolding begin_step
  begin_step-IsSingle c h = record {
    sequential = ground (arith, h.sequential);
    gated = ground (arith, h.gated);
  }

  decide-IsSingle :
      (delay : ℕ) (payload : P) (codec : Option String) (c : ControlLoop V P)
      → IsSingle c
      → IsSingle (decide delay payload codec c)
  unfolding decide
  decide-IsSingle delay payload codec c h = at c.control
    where
      next : ℕ → ControlLoop V P
      next depth = if should_send depth delay c then submit delay payload codec c else c

      keeps : (depth : ℕ) → IsSingle (next depth)
      keeps depth = elim (Bool-cases (should_send depth delay c)) [
        | inl e ↦ rw e (submit-IsSingle depth delay payload codec c e h)
        | inr e ↦ rw e h
      ]

      at :
          (k : Control)
          → IsSingle (elim k [
            | between_steps ↦ c
            | sampled depth ↦ record (next depth) { control = decided }
            | decided ↦ c
          ])
      at between_steps = h
      at (sampled depth) = control-IsSingle (next depth) (next depth).cooldown decided (keeps depth)
      at decided = h

  end_step-IsSingle : (c : ControlLoop V P) → IsSingle c → IsSingle (end_step c).0
  unfolding end_step
  end_step-IsSingle c h = record {
    sequential = ground (arith, h.sequential, (pop_action-IsSingle c h).sequential);
    gated = ground (arith, h.gated, (pop_action-IsSingle c h).gated);
  }

  dispatch_next-IsSingle :
      (now wall : ℕ) (c : ControlLoop V P) → IsSingle c → IsSingle (dispatch_next now wall c)
  unfolding dispatch_next
  dispatch_next-IsSingle now wall c h = record {
    sequential = ground (arith, h.sequential);
    gated = ground (arith, h.gated);
  }

  infer_fails-IsSingle : (c : ControlLoop V P) → IsSingle c → IsSingle (infer_fails c)
  unfolding infer_fails
  infer_fails-IsSingle c h = record {
    sequential = ground (arith, h.sequential);
    gated = ground (arith, h.gated);
  }

  receive-IsSingle :
      (stamp : ℕ) (actions : List (ScheduledAction V)) (c : ControlLoop V P)
      → IsSingle c
      → IsSingle (receive stamp actions c)
  unfolding receive
  receive-IsSingle stamp actions c h = record {
    sequential = ground (arith, h.sequential);
    gated = ground (arith, h.gated);
  }

  clear_gate-IsSingle : (c : ControlLoop V P) → IsSingle c → IsSingle (clear_gate c)
  unfolding clear_gate
  clear_gate-IsSingle c h = record {
    sequential = ground (arith, h.sequential);
    gated = ground (arith, h.gated);
  }

  dispatch_raises-IsSingle : (c : ControlLoop V P) → IsSingle c → IsSingle (dispatch_raises c)
  unfolding dispatch_raises
  dispatch_raises-IsSingle c h = record {
    sequential = ground (arith, h.sequential);
    gated = ground (arith, h.gated);
  }

  handle-IsSingle : (c : ControlLoop V P) (e : Event V P) → IsSingle c → IsSingle (handle c e)
  unfolding handle
  handle-IsSingle c begins_step h = begin_step-IsSingle c h
  handle-IsSingle c (decides delay payload codec) h = decide-IsSingle delay payload codec c h
  handle-IsSingle c ends_step h = end_step-IsSingle c h
  handle-IsSingle c (dispatches now wall) h = dispatch_next-IsSingle now wall c h
  handle-IsSingle c fails h = infer_fails-IsSingle c h
  handle-IsSingle c (receives stamp actions) h = receive-IsSingle stamp actions c h
  handle-IsSingle c clears h = clear_gate-IsSingle c h
  handle-IsSingle c raises h = dispatch_raises-IsSingle c h

  run-IsSingle_from :
      (c : ControlLoop V P) (es : List (Event V P)) → IsSingle c → IsSingle (run c es)
  unfolding run
  run-IsSingle_from c [] h = h
  run-IsSingle_from c (e ∷ es) h = run-IsSingle_from (handle c e) es (handle-IsSingle c e h)

-- However the parts of the steps, requests, answers and failures follow each other in a loop that
-- was made for the sequential mode: one request at most is queued or with the sender, and while one
-- is, the gate is closed.
pub run_loop-IsSingle :
    {V P : Type 0}
    → (min_execution_horizon : ℕ) (codec : String) (now : ℕ) (es : List (Event V P))
    → IsSingle (run (new_loop true min_execution_horizon codec now) es)
unfolding new_loop
run_loop-IsSingle min_execution_horizon codec now es =
    run-IsSingle_from (new_loop true min_execution_horizon codec now) es
      (record { sequential = refl; gated = omega arith })
