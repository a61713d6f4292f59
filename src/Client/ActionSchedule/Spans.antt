-- ===== src/Client/ActionSchedule/Spans.antt =====
-- The run-length form of the queued steps, which the node sends with each observation.
use interlatent.Base.{
  ℕ, zero, suc, ◌+◌, ◌-◌, ◌≤◌, ◌≡◌, refl, ap, ◌∙◌, List, [], ◌∷◌, ◌++◌, arith, ◌==◌, Bool-cases,
  inl, inr, Bool, false, ◌||◌, map, is_some,
}
use interlatent.Client.ActionSchedule.{
  spans_from, spans_of, ScheduledAction, ActionSchedule, scheduled_spans, sorted, insert_sorted,
  steps,
}
use interlatent.Base.Dict.{Dict, ℕ_key, get}
use mathlib.Core.List.{append_assoc}

-- The steps from `lo` on, `more` after the first.
unfoldable pub from_to : ℕ → ℕ → List ℕ
from_to lo zero = lo ∷ []
from_to lo (suc more) = lo ∷ from_to (lo + 1) more

unfoldable pub expand : List (ℕ × ℕ) → List ℕ
unfolding from_to
expand [] = []
expand ((lo, hi) ∷ spans) = from_to lo (hi - lo) ++ expand spans

from_to-suc : (lo more : ℕ) → from_to lo (suc more) ≡ from_to lo more ++ (lo + suc more) ∷ []
unfolding from_to
from_to-suc lo zero = refl
from_to-suc lo (suc more) = ground (arith, from_to-suc (lo + 1) more)

from_to-next :
    (lo hi n : ℕ) → lo ≤ hi → n ≡ hi + 1 → from_to lo (n - lo) ≡ from_to lo (hi - lo) ++ n ∷ []
from_to-next lo hi n h e =
    let more : n - lo ≡ suc (hi - lo) = omega arith in
    let last : lo + suc (hi - lo) ≡ n = omega arith in rw more (from_to-suc lo (hi - lo) ∙ rw last)

from_to_self : (n : ℕ) → from_to n (n - n) ≡ n ∷ []
unfolding from_to
from_to_self n = let none_more : n - n ≡ 0 = omega arith in rw none_more

expand-spans_from :
    (lo hi : ℕ) (ns : List ℕ) → lo ≤ hi → expand (spans_from lo hi ns) ≡ from_to lo (hi - lo) ++ ns
unfolding expand spans_from
expand-spans_from lo hi [] h = refl
expand-spans_from lo hi (n ∷ ns) h = elim (Bool-cases (n == hi + 1)) [
  | inl e ↦
      rw (e, spans_from)
        (expand-spans_from lo n ns (ground arith)
          ∙ ap (λ l. l ++ ns) (from_to-next lo hi n h (ground arith))
          ∙ append_assoc (from_to lo (hi - lo)) (n ∷ []) ns)
  | inr e ↦
      rw (e, spans_from)
        (ap (◌++◌ (from_to lo (hi - lo)))
          (expand-spans_from n n ns (omega arith) ∙ ap (λ l. l ++ ns) (from_to_self n)))
]

expand-spans_of : (ns : List ℕ) → expand (spans_of ns) ≡ ns
unfolding spans_of expand
expand-spans_of [] = refl
expand-spans_of (n ∷ ns) =
    expand-spans_from n n ns (omega arith) ∙ ap (λ l. l ++ ns) (from_to_self n)

-- The spans name every queued step once, in order.
pub expand-scheduled_spans :
    {V : Type 0} (s : ActionSchedule V) → expand (scheduled_spans s) ≡ sorted (steps s)
unfolding scheduled_spans
expand-scheduled_spans s = expand-spans_of (sorted (steps s))

unfoldable pub contains : ℕ → List ℕ → Bool
contains k [] = false
contains k (n ∷ ns) = n == k || contains k ns

contains-insert_sorted :
    (k n : ℕ) (ns : List ℕ) → contains k (insert_sorted n ns) ≡ (n == k || contains k ns)
unfolding contains insert_sorted
contains-insert_sorted k n [] = refl
contains-insert_sorted k n (m ∷ ns) = ground (arith, contains-insert_sorted k n ns)

pub contains-sorted : (k : ℕ) (ns : List ℕ) → contains k (sorted ns) ≡ contains k ns
unfolding contains sorted
contains-sorted k [] = refl
contains-sorted k (n ∷ ns) =
    contains-insert_sorted k n (sorted ns) ∙ ap (λ b. n == k || b) (contains-sorted k ns)

contains-steps :
    {V : Type 0} (k : ℕ) (slots : Dict ℕ (ScheduledAction V))
    → contains k (map (λ e. e.0) slots) ≡ is_some (get k slots)
unfolding contains get
contains-steps k [] = refl
contains-steps k ((j, a) ∷ slots) = ground (arith, contains-steps k slots)

-- A step lies in the spans that are sent exactly when an action is queued for it.
pub contains-scheduled_spans :
    {V : Type 0} (s : ActionSchedule V) (k : ℕ)
    → contains k (expand (scheduled_spans s)) ≡ is_some (get k s.slots)
unfolding steps
contains-scheduled_spans s k =
    rw (expand-scheduled_spans s) (contains-sorted k (steps s) ∙ contains-steps k s.slots)
