-- ===== src/Coordinator/Answers.antt =====
-- What a long poll answers, and when.
use interlatent.Base.{
  ℕ, String, ◌≡◌, ◌≤◌, ◌++◌, true, false, some, List, [], ◌∷◌, arith, dec_le, Bool-cases, inl, inr,
  ◌⊎◌,
}
use interlatent.Coordinator.Nodes.{assigned}
use interlatent.Coordinator.Poll.{Sight, poll_loop, has_changed, assignment_envelope}

-- The first round at which the assignment differs from what the node knows, or the time is up.
pub data EndsAt (node_id id endpoint : String) (deadline : ℕ) : List Sight → Sight → Type 0 where
  here :
      {s : Sight} {later : List Sight}
      → (has_changed id endpoint (assigned s.state node_id) ≡ true) ⊎ (deadline ≤ s.time)
      → EndsAt node_id id endpoint deadline (s ∷ later) s
  there :
      {s t : Sight} {later : List Sight}
      → has_changed id endpoint (assigned s.state node_id) ≡ false
      → ¬ (deadline ≤ s.time)
      → EndsAt node_id id endpoint deadline later t
      → EndsAt node_id id endpoint deadline (s ∷ later) t

-- The poll answers at that round, with the assignment seen there, and says whether it changed.
pub poll_loop-EndsAt :
    (node_id id endpoint : String) (deadline : ℕ) (sights : List Sight) (s : Sight)
    → EndsAt node_id id endpoint deadline sights s
    → poll_loop node_id id endpoint deadline sights
      ≡ some (
          assignment_envelope
            (has_changed id endpoint (assigned s.state node_id))
            (assigned s.state node_id))
unfolding poll_loop
poll_loop-EndsAt node_id id endpoint deadline _ t (here (inl h)) = rw h
poll_loop-EndsAt node_id id endpoint deadline _ t (here (inr h)) = ground arith
poll_loop-EndsAt node_id id endpoint deadline _ t (there {later = later} h k e) =
    ground (arith, poll_loop-EndsAt node_id id endpoint deadline later t e)

-- A poll that is watched until its deadline answers.
pub poll_loop_total :
    (node_id id endpoint : String) (deadline : ℕ) (sights : List Sight) (last : Sight)
    → deadline ≤ last.time
    → (s : Sight) × EndsAt node_id id endpoint deadline (sights ++ last ∷ []) s
poll_loop_total node_id id endpoint deadline [] last h = (last, here (inr h))
poll_loop_total node_id id endpoint deadline (s ∷ later) last h =
    elim (Bool-cases (has_changed id endpoint (assigned s.state node_id))) [
      | inl changed ↦ (s, here (inl changed))
      | inr same ↦ elim (dec_le deadline s.time) [
        | yes late ↦ (s, here (inr late))
        | no early ↦
            let (t, e) = poll_loop_total node_id id endpoint deadline later last h in
            (t, there same early e)
      ]
    ]

-- A long poll always answers: watched until its deadline, at the first round at which what the node
-- is to do differs from what it knows, or the time is up, with the assignment that it sees then.
pub poll_answers :
    (node_id id endpoint : String) (deadline : ℕ) (sights : List Sight) (last : Sight)
    → deadline ≤ last.time
    → (s : Sight) × EndsAt node_id id endpoint deadline (sights ++ last ∷ []) s
      × (poll_loop node_id id endpoint deadline (sights ++ last ∷ [])
          ≡ some (
              assignment_envelope
                (has_changed id endpoint (assigned s.state node_id))
                (assigned s.state node_id)))
poll_answers node_id id endpoint deadline sights last h =
    let (s, e) = poll_loop_total node_id id endpoint deadline sights last h in
    (s, e, poll_loop-EndsAt node_id id endpoint deadline (sights ++ last ∷ []) s e)
