-- ===== src/Client/ActionSchedule.antt =====
-- packages/sdk/src/interlatent/inference/client/merge.py: the last-write-wins action schedule.
-- Steps and control timestamps are unbounded numbers; an action's vector is any type `V`.
-- A method returns the new schedule and its result. The lock makes each method one step.
pub mod Join
pub mod Spans
mod Examples
pub mod Sorting
pub mod Validity
pub mod Execution
use interlatent.Base.{
  ℕ, suc, ◌+◌, max, Bool, true, false, not, ◌&&◌, Option, none, some, List, [], ◌∷◌, map, ltb, leb,
  ◌==◌, if◌then◌else◌, length,
}
use interlatent.Base.Dict.{Dict, ℕ_key, get, put, remove, values}

pub record ScheduledAction {ℓ} (V : Type ℓ) : Type ℓ where
  pub action_step : ℕ
  pub control_timestamp : ℕ
  pub vector : V

pub record ActionSchedule (V : Type 0) : Type 0 where
  pub slots : Dict ℕ (ScheduledAction V)
  pub cursor : ℕ
  pub merge_floor_ts : ℕ

-- `sorted` of a list of steps
unfoldable pub insert_sorted : ℕ → List ℕ → List ℕ
insert_sorted n [] = n ∷ []
insert_sorted n (m ∷ ms) = let rest = insert_sorted n ms in if leb n m then n ∷ m ∷ ms else m ∷ rest

unfoldable pub sorted : List ℕ → List ℕ
unfolding insert_sorted
sorted [] = []
sorted (n ∷ ns) = insert_sorted n (sorted ns)

pub steps_up_to : ℕ → List ℕ → List ℕ
steps_up_to bound [] = []
steps_up_to bound (n ∷ ns) =
    let rest = steps_up_to bound ns in if leb n bound then n ∷ rest else rest

module _ {V : Type 0} where
  pub empty : ActionSchedule V
  empty = record { slots = []; cursor = 0; merge_floor_ts = 0 }

  -- Does an action beat the one that is queued for its step?
  pub is_newer : Option (ScheduledAction V) → ScheduledAction V → Bool
  is_newer none a = true
  is_newer (some cur) a = ltb cur.control_timestamp a.control_timestamp

  pub admits : ActionSchedule V → ScheduledAction V → Bool
  admits s a = not (ltb a.action_step s.cursor) && not (leb a.control_timestamp s.merge_floor_ts)

  -- The body of the loop in `merge`: the new schedule, and how many actions went in.
  pub install : ActionSchedule V → ScheduledAction V → ActionSchedule V × ℕ
  unfolding is_newer admits
  install s a =
      if admits s a && is_newer (get a.action_step s.slots) a
      then (record s { slots = put a.action_step a s.slots }, 1)
      else (s, 0)

  pub merge_from : ℕ → ActionSchedule V → List (ScheduledAction V) → ActionSchedule V × ℕ
  unfolding install
  merge_from installed s [] = (s, installed)
  merge_from installed s (a ∷ rest) =
      let (s', n) = install s a in merge_from (installed + n) s' rest

  unfoldable pub merge : ActionSchedule V → List (ScheduledAction V) → ActionSchedule V × ℕ
  unfolding merge_from
  merge = merge_from 0

  unfoldable pub pop_next : ActionSchedule V → ActionSchedule V × Option (ScheduledAction V)
  pop_next s = elim (get s.cursor s.slots) [
    | none ↦ (s, none)
    | some a ↦ (record s { slots = remove s.cursor s.slots; cursor = s.cursor + 1 }, some a)
  ]

  pub steps : ActionSchedule V → List ℕ
  steps s = map (λ e. e.0) s.slots

  -- `self._data.pop(s)` for each step; a step that is not queued cannot be in the list.
  pub pop_steps :
      List ℕ → Dict ℕ (ScheduledAction V) → Dict ℕ (ScheduledAction V) × List (ScheduledAction V)
  pop_steps [] slots = (slots, [])
  pop_steps (n ∷ ns) slots =
      let (left, out) = pop_steps ns (remove n slots) in
      elim (get n slots) [ none ↦ (left, out) | some a ↦ (left, a ∷ out) ]

  pub advance : ℕ → List (ScheduledAction V) → ℕ
  advance cursor [] = cursor
  advance cursor (a ∷ []) = max cursor (a.action_step + 1)
  advance cursor (a ∷ b ∷ rest) = advance cursor (b ∷ rest)

  pub pop_due : ActionSchedule V → ℕ → ActionSchedule V × List (ScheduledAction V)
  unfolding sorted steps_up_to steps pop_steps advance
  pop_due s up_to =
      let (left, out) = pop_steps (sorted (steps_up_to up_to (steps s))) s.slots in
      (record s { slots = left; cursor = advance s.cursor out }, out)

  unfoldable pub queue_depth : ActionSchedule V → ℕ
  queue_depth s = length s.slots

  unfoldable pub next_action_step : ActionSchedule V → ℕ
  next_action_step s = s.cursor

  pub flush : ActionSchedule V → Option ℕ → ActionSchedule V × ℕ
  flush s none = (record s { slots = [] }, length s.slots)
  flush s (some barrier_ts) =
      (record s { slots = []; merge_floor_ts = max s.merge_floor_ts barrier_ts }, length s.slots)

-- The loop of `scheduled_spans`, from a run that is open at `lo` and reaches `hi`.
pub spans_from : ℕ → ℕ → List ℕ → List (ℕ × ℕ)
spans_from lo hi [] = (lo, hi) ∷ []
spans_from lo hi (n ∷ ns) =
    let longer = spans_from lo n ns in
    let closed = (lo, hi) ∷ spans_from n n ns in if n == hi + 1 then longer else closed

unfoldable pub spans_of : List ℕ → List (ℕ × ℕ)
unfolding spans_from
spans_of [] = []
spans_of (n ∷ ns) = spans_from n n ns

pub scheduled_spans : {V : Type 0} → ActionSchedule V → List (ℕ × ℕ)
unfolding sorted steps spans_of
scheduled_spans s = spans_of (sorted (steps s))
