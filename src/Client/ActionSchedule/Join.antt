-- ===== src/Client/ActionSchedule/Join.antt =====
-- Merging seen one step at a time, and what the network may do to chunks: repeat and reorder them.
use interlatent.Base.{
  ℕ, ◌+◌, ◌≤◌, ◌<◌, ◌≡◌, refl, sym, ap, subst, ◌∙◌, Bool, true, Option, none, some, List, [], ◌∷◌,
  arith, All, ltb, leb, ◌==◌, if◌then◌else◌, not, ◌&&◌,
}
use native.Mathlib.Nat.{add-zero}
use interlatent.Base.Dict.{ℕ_key, get, get-put}
use interlatent.Client.ActionSchedule.{
  ScheduledAction, ActionSchedule, is_newer, admits, install, merge_from, merge,
}

module _ {V : Type 0} where
  -- What one action does to the entry of step `k`, below `cursor` and `floor` nothing.
  pub join_at :
      ℕ → ℕ → ℕ → Option (ScheduledAction V) → ScheduledAction V → Option (ScheduledAction V)
  unfolding is_newer
  join_at cursor floor k o a =
      if (a.action_step == k)
        && not (ltb k cursor)
        && not (leb a.control_timestamp floor)
        && is_newer o a
      then some a
      else o

  pub join_all :
      ℕ → ℕ → ℕ → Option (ScheduledAction V) → List (ScheduledAction V) → Option (ScheduledAction V)
  unfolding join_at
  join_all cursor floor k o [] = o
  join_all cursor floor k o (a ∷ rest) = join_all cursor floor k (join_at cursor floor k o a) rest

  get-install :
      (s : ActionSchedule V) (a : ScheduledAction V) (k : ℕ)
      → get k (install s a).0.slots ≡ join_at s.cursor s.merge_floor_ts k (get k s.slots) a
  unfolding install join_at
  get-install s a k = ground (arith, get-put a.action_step k a s.slots)

  pub cursor-install :
      (s : ActionSchedule V) (a : ScheduledAction V)
      → ((install s a).0.cursor ≡ s.cursor) × ((install s a).0.merge_floor_ts ≡ s.merge_floor_ts)
  unfolding install
  cursor-install s a = ground arith

  pub merge_from-same :
      (n : ℕ) (s : ActionSchedule V) (xs : List (ScheduledAction V))
      → ((merge_from n s xs).0.cursor ≡ s.cursor)
        × ((merge_from n s xs).0.merge_floor_ts ≡ s.merge_floor_ts)
  unfolding merge_from
  merge_from-same n s [] = (refl, refl)
  merge_from-same n s (a ∷ rest) =
      let ih = merge_from-same (n + (install s a).1) (install s a).0 rest in
      let here = cursor-install s a in (ih.0 ∙ here.0, ih.1 ∙ here.1)

  pub merge-same :
      (s : ActionSchedule V) (xs : List (ScheduledAction V))
      → ((merge s xs).0.cursor ≡ s.cursor) × ((merge s xs).0.merge_floor_ts ≡ s.merge_floor_ts)
  unfolding merge
  merge-same s xs = merge_from-same 0 s xs

  get-merge_from :
      (n : ℕ) (s : ActionSchedule V) (xs : List (ScheduledAction V)) (k : ℕ)
      → get k (merge_from n s xs).0.slots ≡ join_all s.cursor s.merge_floor_ts k (get k s.slots) xs
  unfolding merge_from join_all
  get-merge_from n s [] k = refl
  get-merge_from n s (a ∷ rest) k =
      let same_bounds = cursor-install s a in
      get-merge_from (n + (install s a).1) (install s a).0 rest k
      ∙ rw (get-install s a k, same_bounds.0, same_bounds.1)

  -- A merge joins the incoming actions into each step's entry, one after the other.
  pub get-merge :
      (s : ActionSchedule V) (xs : List (ScheduledAction V)) (k : ℕ)
      → get k (merge s xs).0.slots ≡ join_all s.cursor s.merge_floor_ts k (get k s.slots) xs
  unfolding merge
  get-merge s xs k = get-merge_from 0 s xs k

  -- Two actions for one step with one timestamp are one action.
  abbrev pub Agree : ScheduledAction V → ScheduledAction V → Type 0
  Agree a b = a.action_step ≡ b.action_step → a.control_timestamp ≡ b.control_timestamp → a ≡ b

  join_at_comm :
      (c f k : ℕ) (o : Option (ScheduledAction V)) (a b : ScheduledAction V)
      → Agree a b
      → join_at c f k (join_at c f k o a) b ≡ join_at c f k (join_at c f k o b) a
  unfolding join_at
  join_at_comm c f k none a b h = ground arith
  join_at_comm c f k (some x) a b h = ground arith

  join_all-join_at :
      (c f k : ℕ) (o : Option (ScheduledAction V)) (a : ScheduledAction V)
      (ys : List (ScheduledAction V))
      → All (Agree a) ys
      → join_all c f k (join_at c f k o a) ys ≡ join_at c f k (join_all c f k o ys) a
  unfolding join_all
  join_all-join_at c f k o a [] h = refl
  join_all-join_at c f k o a (b ∷ ys) h =
      ap (λ x. join_all c f k x ys) (join_at_comm c f k o a b h.0)
      ∙ join_all-join_at c f k (join_at c f k o b) a ys h.1

  join_all_comm :
      (c f k : ℕ) (o : Option (ScheduledAction V)) (xs ys : List (ScheduledAction V))
      → All (λ a. All (Agree a) ys) xs
      → join_all c f k (join_all c f k o xs) ys ≡ join_all c f k (join_all c f k o ys) xs
  unfolding join_all
  join_all_comm c f k o [] ys h = refl
  join_all_comm c f k o (a ∷ xs) ys h =
      join_all_comm c f k (join_at c f k o a) xs ys h.1
      ∙ ap (λ x. join_all c f k x xs) (join_all-join_at c f k o a ys h.0)

  get-merge_twice :
      (s : ActionSchedule V) (xs ys : List (ScheduledAction V)) (k : ℕ)
      → get k (merge (merge s xs).0 ys).0.slots
        ≡ join_all s.cursor s.merge_floor_ts k
            (join_all s.cursor s.merge_floor_ts k (get k s.slots) xs)
            ys
  unfolding merge
  get-merge_twice s xs ys k =
      let kept = merge_from-same 0 s xs in
      subst
        (λ t. get k (merge (merge s xs).0 ys).0.slots ≡ join_all s.cursor s.merge_floor_ts k t ys)
        (get-merge s xs k) (rw (get-merge (merge s xs).0 ys k, kept.0, kept.1))

  -- Two chunks may arrive in either order: every step then holds the same action, provided that
  -- actions of the two for one step with one timestamp are one action.
  pub merge_comm :
      (s : ActionSchedule V) (xs ys : List (ScheduledAction V))
      → All (λ a. All (Agree a) ys) xs
      → (k : ℕ) → get k (merge (merge s xs).0 ys).0.slots ≡ get k (merge (merge s ys).0 xs).0.slots
  merge_comm s xs ys h k =
      get-merge_twice s xs ys k
      ∙ join_all_comm s.cursor s.merge_floor_ts k (get k s.slots) xs ys h
      ∙ sym (get-merge_twice s ys xs k)

  -- On a tie between two different actions the first to arrive stays, so the order shows.
  pub merge_tie :
      (s : ActionSchedule V) (a b : ScheduledAction V)
      → a.action_step ≡ b.action_step
      → a.control_timestamp ≡ b.control_timestamp
      → s.cursor ≤ a.action_step
      → s.merge_floor_ts < a.control_timestamp
      → get a.action_step s.slots ≡ none
      → (get a.action_step (merge (merge s (a ∷ [])).0 (b ∷ [])).0.slots ≡ some a)
        × (get a.action_step (merge (merge s (b ∷ [])).0 (a ∷ [])).0.slots ≡ some b)
  unfolding join_all join_at
  merge_tie s a b p q l y e = (
    get-merge_twice s (a ∷ []) (b ∷ []) a.action_step ∙ ground arith,
    get-merge_twice s (b ∷ []) (a ∷ []) a.action_step ∙ ground arith,
  )

  -- ---------------------------------------------------------------- repeated delivery

  refuses : ActionSchedule V → ScheduledAction V → Bool
  refuses s a = not (admits s a && is_newer (get a.action_step s.slots) a)

  install-refuses :
      (s : ActionSchedule V) (a : ScheduledAction V) → refuses (install s a).0 a ≡ true
  unfolding refuses install is_newer admits
  install-refuses s a = ground (arith, get-put a.action_step a.action_step a s.slots)

  refuses-install :
      (s : ActionSchedule V) (a b : ScheduledAction V)
      → refuses s a ≡ true
      → refuses (install s b).0 a ≡ true
  unfolding refuses install is_newer admits
  refuses-install s a b h = ground (arith, get-put b.action_step a.action_step b s.slots)

  refuses-merge_from :
      (n : ℕ) (s : ActionSchedule V) (a : ScheduledAction V) (ys : List (ScheduledAction V))
      → refuses s a ≡ true
      → refuses (merge_from n s ys).0 a ≡ true
  unfolding merge_from
  refuses-merge_from n s a [] h = h
  refuses-merge_from n s a (b ∷ ys) h =
      refuses-merge_from (n + (install s b).1) (install s b).0 a ys (refuses-install s a b h)

  merge_from-refuses :
      (n : ℕ) (s : ActionSchedule V) (xs : List (ScheduledAction V))
      → All (λ a. refuses (merge_from n s xs).0 a ≡ true) xs
  unfolding merge_from
  merge_from-refuses n s [] = tt
  merge_from-refuses n s (a ∷ xs) = (
    refuses-merge_from _ (install s a).0 a xs (install-refuses s a),
    merge_from-refuses (n + (install s a).1) (install s a).0 xs,
  )

  install_refused :
      (s : ActionSchedule V) (a : ScheduledAction V) → refuses s a ≡ true → install s a ≡ (s, 0)
  unfolding refuses install
  install_refused s a h = ground arith

  merge_from_refused :
      (n : ℕ) (s : ActionSchedule V) (xs : List (ScheduledAction V))
      → All (λ a. refuses s a ≡ true) xs
      → merge_from n s xs ≡ (s, n)
  unfolding merge_from
  merge_from_refused n s [] h = refl
  merge_from_refused n s (a ∷ xs) h =
      rw (install_refused s a h.0) (merge_from_refused (n + 0) s xs h.1 ∙ rw add-zero)

  -- A chunk that is delivered again changes nothing, and installs nothing.
  pub merge_idem :
      (s : ActionSchedule V) (xs : List (ScheduledAction V))
      → merge (merge s xs).0 xs ≡ ((merge s xs).0, 0)
  unfolding merge
  merge_idem s xs = merge_from_refused 0 (merge s xs).0 xs (merge_from-refuses 0 s xs)
