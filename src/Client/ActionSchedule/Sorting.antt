-- ===== src/Client/ActionSchedule/Sorting.antt =====
-- Sorting the queued steps.
use interlatent.Base.{ℕ, ◌≤◌, List, [], ◌∷◌, arith, All}
use interlatent.Client.ActionSchedule.{sorted, insert_sorted, steps_up_to}

All-insert_sorted :
    (P : ℕ → Type 0) (n : ℕ) (ns : List ℕ) → All P (insert_sorted n ns) → P n × All P ns
unfolding insert_sorted
All-insert_sorted P n [] h = h
All-insert_sorted P n (m ∷ ns) h = ground (arith, All-insert_sorted P n ns)

pub All-sorted : (P : ℕ → Type 0) (ns : List ℕ) → All P (sorted ns) → All P ns
unfolding sorted
All-sorted P [] h = tt
All-sorted P (n ∷ ns) h =
    let both = All-insert_sorted P n (sorted ns) h in (both.0, All-sorted P ns both.1)

insert_sorted-All :
    (P : ℕ → Type 0) (n : ℕ) (ns : List ℕ) → P n → All P ns → All P (insert_sorted n ns)
unfolding insert_sorted
insert_sorted-All P n [] p h = (p, tt)
insert_sorted-All P n (m ∷ ns) p h = ground (arith, insert_sorted-All P n ns)

pub sorted-All : (P : ℕ → Type 0) (ns : List ℕ) → All P ns → All P (sorted ns)
unfolding sorted
sorted-All P [] h = tt
sorted-All P (n ∷ ns) h = insert_sorted-All P n (sorted ns) h.0 (sorted-All P ns h.1)

pub All-steps_up_to : (bound : ℕ) (ns : List ℕ) → All (λ n. n ≤ bound) (steps_up_to bound ns)
unfolding steps_up_to
All-steps_up_to bound [] = tt
All-steps_up_to bound (n ∷ ns) = ground (arith, All-steps_up_to bound ns)

-- Ascending from `lo`, repetitions allowed.
abbrev pub Ascends : ℕ → List ℕ → Type 0
Ascends lo [] = Unit
Ascends lo (n ∷ ns) = (lo ≤ n) × Ascends n ns

Ascends-mono : {lo hi : ℕ} (ns : List ℕ) → lo ≤ hi → Ascends hi ns → Ascends lo ns
Ascends-mono [] l h = tt
Ascends-mono (n ∷ ns) l h = (omega arith, h.1)

insert_sorted-Ascends :
    (lo n : ℕ) (ns : List ℕ) → lo ≤ n → Ascends lo ns → Ascends lo (insert_sorted n ns)
unfolding insert_sorted
insert_sorted-Ascends lo n [] l h = (l, tt)
insert_sorted-Ascends lo n (m ∷ ns) l h = ground (arith, insert_sorted-Ascends m n ns)

pub sorted-Ascends : (ns : List ℕ) → Ascends 0 (sorted ns)
unfolding sorted
sorted-Ascends [] = tt
sorted-Ascends (n ∷ ns) = insert_sorted-Ascends 0 n (sorted ns) (omega arith) (sorted-Ascends ns)
