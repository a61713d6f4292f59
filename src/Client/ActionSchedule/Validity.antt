-- ===== src/Client/ActionSchedule/Validity.antt =====
-- What holds of the queued actions: each under its own step, not yet executed, past the barrier.
use interlatent.Client.ActionSchedule.Sorting.{All-sorted, sorted-All, All-steps_up_to}
use interlatent.Base.Dict.{Dict, ℕ_key, get, remove, get-put, get-remove}
use interlatent.Base.{
  ℕ, ◌+◌, ◌≤◌, ◌<◌, ◌≡◌, ◌≢◌, Option, none, some, List, [], ◌∷◌, arith, All, Option-cases, inl, inr,
  map,
}
use interlatent.Client.ActionSchedule.{
  ScheduledAction, ActionSchedule, empty, is_newer, admits, install, merge_from, merge, pop_next,
  pop_due, flush, pop_steps, advance, sorted, steps_up_to, steps,
}

module _ {V : Type 0} where
  -- Every queued action stands under its own step, is not executed yet, and is younger than the
  -- last barrier.
  abbrev pub IsValid : ActionSchedule V → Type 0
  IsValid s =
      (k : ℕ) (a : ScheduledAction V)
      → get k s.slots ≡ some a
      → (a.action_step ≡ k) × (s.cursor ≤ k) × (s.merge_floor_ts < a.control_timestamp)

  pub empty-IsValid : IsValid empty
  unfolding empty get
  empty-IsValid k a e = ground arith

  install-IsValid :
      (s : ActionSchedule V) (b : ScheduledAction V) → IsValid s → IsValid (install s b).0
  unfolding install admits is_newer
  install-IsValid s b v k a e = ground (arith, v k a, get-put b.action_step k b s.slots)

  merge_from-IsValid :
      (n : ℕ) (s : ActionSchedule V) (xs : List (ScheduledAction V))
      → IsValid s
      → IsValid (merge_from n s xs).0
  unfolding merge_from
  merge_from-IsValid n s [] v = v
  merge_from-IsValid n s (x ∷ xs) v =
      merge_from-IsValid (n + (install s x).1) (install s x).0 xs (install-IsValid s x v)

  pub pop_next-IsValid : (s : ActionSchedule V) → IsValid s → IsValid (pop_next s).0
  unfolding pop_next
  pop_next-IsValid s v k a = ground (arith, v k a, get-remove s.cursor k s.slots)

  pub flush-IsValid : (s : ActionSchedule V) (b : Option ℕ) → IsValid (flush s b).0
  unfolding flush get
  flush-IsValid s none k a e = ground arith
  flush-IsValid s (some b) k a e = ground arith

  -- ---------------------------------------------------------------- pop_due

  get-pop_steps :
      (ns : List ℕ) (slots : Dict ℕ (ScheduledAction V)) (k : ℕ) (a : ScheduledAction V)
      → get k (pop_steps ns slots).0 ≡ some a
      → (get k slots ≡ some a) × All (λ n. n ≢ k) ns
  unfolding pop_steps
  get-pop_steps [] slots k a e = (e, tt)
  get-pop_steps (n ∷ ns) slots k a e =
      ground (arith, get-pop_steps ns (remove n slots) k a, get-remove n k slots)

  steps_up_to-bound :
      (slots : Dict ℕ (ScheduledAction V)) (bound k : ℕ) (a : ScheduledAction V)
      → get k slots ≡ some a
      → All (λ n. n ≢ k) (steps_up_to bound (map (λ e. e.0) slots))
      → bound < k
  unfolding steps_up_to get
  steps_up_to-bound [] bound k a e h = cc
  steps_up_to-bound ((j, b) ∷ slots) bound k a e h =
      ground (arith, steps_up_to-bound slots bound k a)

  -- The steps that `pop_due` removes are due, so the cursor passes nothing that stays.
  Due : ℕ → List (ScheduledAction V) → Type 0
  Due bound = All (λ a. a.action_step ≤ bound)

  abbrev pub IsKeyed : Dict ℕ (ScheduledAction V) → Type 0
  IsKeyed slots = (k : ℕ) (a : ScheduledAction V) → get k slots ≡ some a → a.action_step ≡ k

  pub remove-IsKeyed :
      (n : ℕ) (slots : Dict ℕ (ScheduledAction V)) → IsKeyed slots → IsKeyed (remove n slots)
  remove-IsKeyed n slots v k a = ground (arith, v k a, get-remove n k slots)

  pop_steps-Due :
      (bound : ℕ) (ns : List ℕ) (slots : Dict ℕ (ScheduledAction V))
      → IsKeyed slots
      → All (λ n. n ≤ bound) ns
      → Due bound (pop_steps ns slots).1
  unfolding pop_steps Due
  pop_steps-Due bound [] slots v h = tt
  pop_steps-Due bound (n ∷ ns) slots v h =
      let ih = pop_steps-Due bound ns (remove n slots) (remove-IsKeyed n slots v) h.1 in
      elim (Option-cases (get n slots)) [
        | inl e ↦ rw (e, pop_steps) ih
        | inr (a, e) ↦ rw (e, pop_steps) (omega (arith, v n a e), ih)
      ]

  advance-le :
      (bound cursor m : ℕ) (out : List (ScheduledAction V))
      → Due bound out
      → cursor ≤ m
      → bound < m
      → advance cursor out ≤ m
  unfolding advance Due
  advance-le bound cursor m [] d h l = h
  advance-le bound cursor m (a ∷ []) d h l = omega arith
  advance-le bound cursor m (a ∷ b ∷ rest) d h l = advance-le bound cursor m (b ∷ rest) d.1 h l

  pub pop_due-IsValid : (s : ActionSchedule V) (up_to : ℕ) → IsValid s → IsValid (pop_due s up_to).0
  unfolding pop_due steps
  pop_due-IsValid s up_to v k a e =
      let ns = sorted (steps_up_to up_to (steps s)) in
      let kept = get-pop_steps ns s.slots k a e in
      let due =
        pop_steps-Due up_to ns s.slots (λ j b q. (v j b q).0)
          (sorted-All (λ n. n ≤ up_to) _ (All-steps_up_to up_to (steps s))) in
      let later = steps_up_to-bound s.slots up_to k a kept.0 (All-sorted (λ n. n ≢ k) _ kept.1) in
      let old = v k a kept.0 in
      (old.0, advance-le up_to s.cursor k (pop_steps ns s.slots).1 due old.1 later, old.2)

  pub merge-IsValid :
      (s : ActionSchedule V) (xs : List (ScheduledAction V)) → IsValid s → IsValid (merge s xs).0
  unfolding merge
  merge-IsValid s xs v = merge_from-IsValid 0 s xs v
