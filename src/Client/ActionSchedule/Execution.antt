-- ===== src/Client/ActionSchedule/Execution.antt =====
-- What the robot executes: the actions that a history of calls pops off the schedule.
use interlatent.Client.ActionSchedule.Sorting.{Ascends, sorted-Ascends}
use interlatent.Client.ActionSchedule.Validity.{
  IsValid, IsKeyed, remove-IsKeyed, merge-IsValid, pop_next-IsValid, pop_due-IsValid, flush-IsValid,
}
use interlatent.Client.ActionSchedule.Join.{merge-same}
use interlatent.Base.Dict.{Dict, ℕ_key, get, remove, get-remove}
use interlatent.Base.{
  ℕ, ◌+◌, ◌≤◌, ◌<◌, ◌≡◌, refl, sym, ap, subst, Option, none, some, List, [], ◌∷◌, ◌++◌, arith, All,
  Option-cases, inl, inr,
}
use interlatent.Client.ActionSchedule.{
  ScheduledAction, ActionSchedule, merge, pop_next, pop_due, flush, pop_steps, advance, sorted,
  steps_up_to, steps,
}

pub data Call (V : Type 0) : Type 0 where
  merges : List (ScheduledAction V) → Call V
  pops_next : Call V
  pops_due : ℕ → Call V
  flushes : Option ℕ → Call V

module _ {V : Type 0} where
  abbrev pub executed : Option (ScheduledAction V) → List (ScheduledAction V)
  executed none = []
  executed (some a) = a ∷ []

  -- The schedule after a call, and the actions that it hands to the robot.
  pub step : ActionSchedule V → Call V → ActionSchedule V × List (ScheduledAction V)
  step s (merges xs) = ((merge s xs).0, [])
  step s pops_next = ((pop_next s).0, executed (pop_next s).1)
  step s (pops_due up_to) = pop_due s up_to
  step s (flushes barrier) = ((flush s barrier).0, [])

  pub run : ActionSchedule V → List (Call V) → ActionSchedule V × List (ScheduledAction V)
  run s [] = (s, [])
  run s (c ∷ cs) = let (s', out) = step s c in let (last, more) = run s' cs in (last, out ++ more)

module _ {V : Type 0} where
  -- Every call keeps the schedule valid.
  pub step-IsValid : (s : ActionSchedule V) (c : Call V) → IsValid s → IsValid (step s c).0
  unfolding step
  step-IsValid s (merges xs) v = merge-IsValid s xs v
  step-IsValid s pops_next v = pop_next-IsValid s v
  step-IsValid s (pops_due up_to) v = pop_due-IsValid s up_to v
  step-IsValid s (flushes b) v = flush-IsValid s b

  -- The executed steps rise strictly, from `c` on.
  abbrev pub From : ℕ → List (ScheduledAction V) → Type 0
  From c [] = Unit
  From c (a ∷ out) = (c ≤ a.action_step) × From (a.action_step + 1) out

  From-mono : (c d : ℕ) (out : List (ScheduledAction V)) → c ≤ d → From d out → From c out
  From-mono c d [] l f = tt
  From-mono c d (a ∷ out) l f = (omega arith, f.1)

  pop_steps-From :
      (lo c : ℕ) (ns : List ℕ) (slots : Dict ℕ (ScheduledAction V))
      → IsKeyed slots
      → ((k : ℕ) (a : ScheduledAction V) → get k slots ≡ some a → lo ≤ k → c ≤ k)
      → Ascends lo ns
      → From c (pop_steps ns slots).1
  unfolding pop_steps
  pop_steps-From lo c [] slots v h up = tt
  pop_steps-From lo c (n ∷ ns) slots v h up = elim (Option-cases (get n slots)) [
    | inl e ↦
        rw (e, pop_steps)
          (pop_steps-From n c ns (remove n slots) (remove-IsKeyed n slots v)
            (λ k a q l. ground (arith, h k a, get-remove n k slots)) up.1)
    | inr (a, e) ↦
        rw (e, pop_steps)
          (
            ground (arith, v n a e, h n a e),
            rw (v n a e) (
                pop_steps-From n (n + 1) ns (remove n slots) (remove-IsKeyed n slots v)
                  (λ k b q l. ground (arith, get-remove n k slots)) up.1),
          )
  ]

  -- Where the cursor stands once these have been executed.
  after : ℕ → List (ScheduledAction V) → ℕ
  after c [] = c
  after c (a ∷ out) = after (a.action_step + 1) out

  advance-after :
      (c : ℕ) (out : List (ScheduledAction V)) → From c out → advance c out ≡ after c out
  unfolding advance after
  advance-after c [] f = refl
  advance-after c (a ∷ []) f = omega arith
  advance-after c (a ∷ b ∷ rest) f =
      advance-after c (b ∷ rest) (From-mono c (a.action_step + 1) (b ∷ rest) (omega arith) f.1)

  From-append :
      (c : ℕ) (xs ys : List (ScheduledAction V))
      → From c xs
      → From (after c xs) ys
      → From c (xs ++ ys)
  unfolding after
  From-append c [] ys f g = g
  From-append c (x ∷ xs) ys f g = (f.0, From-append (x.action_step + 1) xs ys f.1 g)

  pop_next-From :
      (s : ActionSchedule V)
      → IsValid s
      → From s.cursor (executed (pop_next s).1)
        × ((pop_next s).0.cursor ≡ after s.cursor (executed (pop_next s).1))
  unfolding pop_next after
  pop_next-From s v = elim (Option-cases (get s.cursor s.slots)) [
    | inl e ↦ rw (e, pop_next) (tt, refl)
    | inr (a, e) ↦
        rw (e, pop_next)
          ((omega (arith, v s.cursor a e), tt), ap (λ n. n + 1) (sym (v s.cursor a e).0))
  ]

  pop_due-From :
      (s : ActionSchedule V) (up_to : ℕ)
      → IsValid s
      → From s.cursor (pop_due s up_to).1
        × ((pop_due s up_to).0.cursor ≡ after s.cursor (pop_due s up_to).1)
  unfolding pop_due
  pop_due-From s up_to v =
      let ns = sorted (steps_up_to up_to (steps s)) in
      let rising =
        pop_steps-From 0 s.cursor ns s.slots (λ k a e. (v k a e).0) (λ k a e _. (v k a e).1)
          (sorted-Ascends (steps_up_to up_to (steps s))) in
      (rising, advance-after s.cursor (pop_steps ns s.slots).1 rising)

  flush-cursor :
      (s : ActionSchedule V) (b : Option ℕ)
      → ((flush s b).0.cursor ≡ s.cursor) × (s.merge_floor_ts ≤ (flush s b).0.merge_floor_ts)
  unfolding flush
  flush-cursor s none = (refl, omega arith)
  flush-cursor s (some b) = (refl, omega arith)

  flush_floor : (s : ActionSchedule V) (b : ℕ) → b ≤ (flush s (some b)).0.merge_floor_ts
  unfolding flush
  flush_floor s b = omega arith

  -- ---------------------------------------------------------------- barriers

  -- Younger than the barrier.
  abbrev pub Younger : ℕ → List (ScheduledAction V) → Type 0
  Younger barrier = All (λ a. barrier < a.control_timestamp)

  Younger-mono : (b c : ℕ) (out : List (ScheduledAction V)) → b ≤ c → Younger c out → Younger b out
  Younger-mono b c [] l y = tt
  Younger-mono b c (a ∷ out) l y = (omega arith, Younger-mono b c out l y.1)

  Younger-append :
      (b : ℕ) (xs ys : List (ScheduledAction V))
      → Younger b xs
      → Younger b ys
      → Younger b (xs ++ ys)
  Younger-append b [] ys h k = k
  Younger-append b (x ∷ xs) ys h k = (h.0, Younger-append b xs ys h.1 k)

  pop_steps-Younger :
      (b : ℕ) (ns : List ℕ) (slots : Dict ℕ (ScheduledAction V))
      → ((k : ℕ) (a : ScheduledAction V) → get k slots ≡ some a → b < a.control_timestamp)
      → Younger b (pop_steps ns slots).1
  unfolding pop_steps
  pop_steps-Younger b [] slots v = tt
  pop_steps-Younger b (n ∷ ns) slots v =
      let ih =
        pop_steps-Younger b ns (remove n slots)
          (λ k a. ground (arith, v k a, get-remove n k slots)) in
      elim (Option-cases (get n slots)) [
        | inl e ↦ rw (e, pop_steps) ih
        | inr (a, e) ↦ rw (e, pop_steps) (v n a e, ih)
      ]

  pop_next-Younger :
      (s : ActionSchedule V)
      → IsValid s
      → Younger s.merge_floor_ts (executed (pop_next s).1)
        × (s.merge_floor_ts ≤ (pop_next s).0.merge_floor_ts)
  unfolding pop_next
  pop_next-Younger s v = elim (Option-cases (get s.cursor s.slots)) [
    | inl e ↦ rw (e, pop_next) (tt, omega arith)
    | inr (a, e) ↦ rw (e, pop_next) (((v s.cursor a e).2, tt), omega arith)
  ]

  pop_due-Younger :
      (s : ActionSchedule V) (up_to : ℕ)
      → IsValid s
      → Younger s.merge_floor_ts (pop_due s up_to).1
        × (s.merge_floor_ts ≤ (pop_due s up_to).0.merge_floor_ts)
  unfolding pop_due
  pop_due-Younger s up_to v =
      (pop_steps-Younger s.merge_floor_ts _ s.slots (λ k a e. (v k a e).2), omega arith)

  step-From :
      (s : ActionSchedule V) (c : Call V)
      → IsValid s
      → From s.cursor (step s c).1 × ((step s c).0.cursor ≡ after s.cursor (step s c).1)
  unfolding step after
  step-From s (merges xs) v = (tt, (merge-same s xs).0)
  step-From s pops_next v = pop_next-From s v
  step-From s (pops_due up_to) v = pop_due-From s up_to v
  step-From s (flushes b) v = (tt, (flush-cursor s b).0)

  -- Whatever the calls, the robot executes the steps in strictly rising order from the cursor on:
  -- none twice, and none that lies behind.
  pub run-From :
      (s : ActionSchedule V) (cs : List (Call V)) → IsValid s → From s.cursor (run s cs).1
  unfolding run
  run-From s [] v = tt
  run-From s (c ∷ cs) v =
      let here = step-From s c v in
      From-append s.cursor (step s c).1 (run (step s c).0 cs).1 here.0 (
        subst (λ k. From k (run (step s c).0 cs).1) here.1
          (run-From (step s c).0 cs (step-IsValid s c v)))

  step-Younger :
      (s : ActionSchedule V) (c : Call V)
      → IsValid s
      → Younger s.merge_floor_ts (step s c).1 × (s.merge_floor_ts ≤ (step s c).0.merge_floor_ts)
  unfolding step
  step-Younger s (merges xs) v = (tt, omega (arith, (merge-same s xs).1))
  step-Younger s pops_next v = pop_next-Younger s v
  step-Younger s (pops_due up_to) v = pop_due-Younger s up_to v
  step-Younger s (flushes b) v = (tt, (flush-cursor s b).1)

  run-Younger :
      (s : ActionSchedule V) (cs : List (Call V))
      → IsValid s
      → Younger s.merge_floor_ts (run s cs).1
  unfolding run
  run-Younger s [] v = tt
  run-Younger s (c ∷ cs) v =
      let here = step-Younger s c v in
      Younger-append _ (step s c).1 (run (step s c).0 cs).1 here.0
        (Younger-mono _ _ _ here.1 (run-Younger (step s c).0 cs (step-IsValid s c v)))

  -- After a flush with a barrier, nothing that was computed at or before the barrier is executed,
  -- also if it is merged only later.
  pub flush-Younger :
      (s : ActionSchedule V) (barrier_ts : ℕ) (cs : List (Call V))
      → Younger barrier_ts (run (flush s (some barrier_ts)).0 cs).1
  flush-Younger s barrier_ts cs =
      Younger-mono barrier_ts _ _ (flush_floor s barrier_ts)
        (run-Younger (flush s (some barrier_ts)).0 cs (flush-IsValid s (some barrier_ts)))
