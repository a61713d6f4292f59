-- ===== src/Client/ActionSchedule/Examples.antt =====
-- A schedule of two chunks, of which the second was computed one step later.
use interlatent.Base.{ℕ, String, ◌≡◌, refl, some, List, [], ◌∷◌, arith}
use interlatent.Base.Dict.{ℕ_key, get}
use interlatent.Client.ActionSchedule.{
  ScheduledAction, ActionSchedule, empty, merge, flush, sorted, steps, scheduled_spans,
}
use interlatent.Client.ActionSchedule.Join.{merge_comm, merge_tie}
use interlatent.Client.ActionSchedule.Validity.{IsValid, empty-IsValid}
use interlatent.Client.ActionSchedule.Spans.{expand, expand-scheduled_spans}
use interlatent.Client.ActionSchedule.Execution.{
  Call, merges, pops_next, pops_due, flushes, From, Younger, step, run, run-From, flush-Younger,
  step-IsValid,
}

abbrev action : ℕ → ℕ → String → ScheduledAction String
action k ts v = record { action_step = k; control_timestamp = ts; vector = v }

abbrev first : List (ScheduledAction String)
first = action 0 1 "a0" ∷ action 1 1 "a1" ∷ action 2 1 "a2" ∷ []

abbrev second : List (ScheduledAction String)
second = action 1 2 "b1" ∷ action 2 2 "b2" ∷ action 3 2 "b3" ∷ []

abbrev calls : List (Call String)
calls = merges first ∷ pops_next ∷ merges second ∷ pops_due 2 ∷ flushes (some 2) ∷ pops_next ∷ []

abbrev queued : ActionSchedule String
queued = (merge empty first).0

run-From_example : From 0 (run empty calls).1
unfolding empty
run-From_example = run-From empty calls empty-IsValid

step-IsValid_example : IsValid (step empty (merges first)).0
step-IsValid_example = step-IsValid empty (merges first) empty-IsValid

flush-Younger_example : Younger 1 (run (flush queued (some 1)).0 calls).1
flush-Younger_example = flush-Younger queued 1 calls

merge_comm_example :
    get 2 (merge (merge empty first).0 second).0.slots
    ≡ get 2 (merge (merge empty second).0 first).0.slots
merge_comm_example =
    merge_comm empty first second
      (
        (
          (λ p q. absurd (omega (arith, q))),
          ((λ p q. absurd (omega (arith, q))), ((λ p q. absurd (omega (arith, q))), tt)),
        ),
        (
          (
            (λ p q. absurd (omega (arith, q))),
            ((λ p q. absurd (omega (arith, q))), ((λ p q. absurd (omega (arith, q))), tt)),
          ),
          (
            (
              (λ p q. absurd (omega (arith, q))),
              ((λ p q. absurd (omega (arith, q))), ((λ p q. absurd (omega (arith, q))), tt)),
            ),
            tt,
          ),
        ),
      )
      2

merge_tie_example :
    (get 4 (merge (merge empty (action 4 1 "x" ∷ [])).0 (action 4 1 "y" ∷ [])).0.slots
      ≡ some (action 4 1 "x"))
    × (get 4 (merge (merge empty (action 4 1 "y" ∷ [])).0 (action 4 1 "x" ∷ [])).0.slots
        ≡ some (action 4 1 "y"))
unfolding empty get
merge_tie_example =
    merge_tie empty (action 4 1 "x") (action 4 1 "y") refl refl (omega arith) (omega arith) refl

expand-scheduled_spans_example : expand (scheduled_spans queued) ≡ sorted (steps queued)
expand-scheduled_spans_example = expand-scheduled_spans queued
