-- ===== src/Server/Painting.antt =====
-- The client's spans, as the server reads them: what a request can be painted onto.
use interlatent.Base.{
  ℕ, zero, suc, ◌+◌, ◌-◌, ◌≤◌, ◌<◌, String, Bool, true, ◌&&◌, ◌||◌, none, List, [], ◌∷◌, ◌++◌,
  is_some, leb, ◌≡◌, refl, sym, ◌∙◌, arith, Option-cases, Bool-cases, inl, inr,
}
use interlatent.Base.Dict.{get, ℕ_key}
use interlatent.Client.ActionSchedule.{ActionSchedule, next_action_step, scheduled_spans}
use interlatent.Client.ActionSchedule.Validity.{IsValid}
use interlatent.Client.ActionSchedule.Spans.{from_to, expand, contains, contains-scheduled_spans}
use interlatent.Server.ChunkBuffer.{InMemoryChunkBuffer, claims, claims_all, reconstruct}

contains-append :
    (k : ℕ) (xs ys : List ℕ) → contains k (xs ++ ys) ≡ (contains k xs || contains k ys)
unfolding contains
contains-append k [] ys = refl
contains-append k (x ∷ xs) ys = ground (arith, contains-append k xs ys)

contains-from_to : (k lo more : ℕ) → contains k (from_to lo more) ≡ (leb lo k && leb k (lo + more))
unfolding contains from_to
contains-from_to k lo zero = ground arith
contains-from_to k lo (suc more) = ground (arith, contains-from_to k (lo + 1) more)

claims-expand :
    (spans : List (ℕ × ℕ)) (k : ℕ) → claims spans k ≡ true → contains k (expand spans) ≡ true
unfolding claims expand contains
claims-expand [] k h = ground (arith, h)
claims-expand ((lo, hi) ∷ spans) k h = ground (
  arith,
  h,
  contains-append k (from_to lo (hi - lo)) (expand spans),
  contains-from_to k lo (hi - lo),
  claims-expand spans k,
)

-- A client only claims steps that it has not executed yet.
claims-scheduled_spans :
    {V : Type 0} (s : ActionSchedule V) (k : ℕ)
    → IsValid s
    → claims (scheduled_spans s) k ≡ true
    → next_action_step s ≤ k
unfolding next_action_step
claims-scheduled_spans s k v h =
    let queued : is_some (get k s.slots) ≡ true =
      sym (contains-scheduled_spans s k) ∙ claims-expand (scheduled_spans s) k h in
    elim (Option-cases (get k s.slots)) [
      | inl e ↦ ground (arith, queued, e)
      | inr (a, e) ↦ ground (arith, v k a e)
    ]

claims_all-first :
    (spans : List (ℕ × ℕ)) (start n : ℕ)
    → 0 < n
    → claims_all spans start n ≡ true
    → claims spans start ≡ true
unfolding claims_all
claims_all-first spans start zero h e = ground (arith, h)
claims_all-first spans start (suc n) h e = ground (arith, e)

-- A request of the client's own schedule is never painted onto prior actions: the server asks for
-- the steps before the next one, and the client's spans only name steps from the next one on.
pub reconstruct-scheduled_spans :
    {U V : Type 0} (has_nan : V → Bool) (buf : InMemoryChunkBuffer V) (session_id : String)
    (s : ActionSchedule U) (context_steps : ℕ)
    → IsValid s
    → reconstruct has_nan buf session_id (next_action_step s) (scheduled_spans s) context_steps
      ≡ none
unfolding reconstruct
reconstruct-scheduled_spans has_nan buf session_id s context_steps v =
    let next = next_action_step s in
    let start = next - context_steps in
    elim (Bool-cases (leb context_steps 0 || leb next 0)) [
      | inl p ↦ rw (p, reconstruct) refl
      | inr p ↦ elim (Bool-cases (claims_all (scheduled_spans s) start (next - start))) [
        | inr q ↦ rw (p, q, reconstruct) refl
        | inl q ↦
            let early : start < next = ground (arith, p) in
            let late : next ≤ start = claims-scheduled_spans s start v (
              claims_all-first (scheduled_spans s) start (next - start) (omega (arith, early)) q) in
            ground (arith, early, late)
      ]
    ]
