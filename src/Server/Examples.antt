-- ===== src/Server/Examples.antt =====
-- Two overlapping chunks of a session, between which another session has one.
use interlatent.Base.{ℕ, String, Bool, false, ◌-◌, none, List, [], ◌∷◌, ltb, if◌then◌else◌, ◌≡◌}
use interlatent.Client.ActionSchedule.{ActionSchedule, empty, next_action_step, scheduled_spans}
use interlatent.Client.ActionSchedule.Validity.{empty-IsValid}
use interlatent.Client.ActionSchedule.Execution.{merges, pops_next, step, step-IsValid}
use interlatent.Server.ChunkBuffer.{
  StoredChunk, InMemoryChunkBuffer, last, all_set, lookup_steps, reconstruct,
}
use interlatent.Server.Rows.{newest, cells_of}
use interlatent.Server.Appending.{append_all, chunks_of, lookup_steps-append_all}
use interlatent.Server.Painting.{reconstruct-scheduled_spans}

abbrev stored : ℕ → List ℕ → StoredChunk ℕ
stored start rows = record {
  start_step = start;
  control_timestamp = start;
  actions = rows;
  created_at = 0;
}

abbrev arrivals : List (String × StoredChunk ℕ)
arrivals =
    ("s", stored 0 (1 ∷ 2 ∷ 3 ∷ [])) ∷ ("t", stored 0 (9 ∷ [])) ∷ ("s", stored 2 (4 ∷ 5 ∷ [])) ∷ []

abbrev new_buffer : InMemoryChunkBuffer ℕ
new_buffer = record { max_chunks_per_session = 8; data_of = [] }

abbrev never : ℕ → Bool
never v = false

abbrev popped : ActionSchedule ℕ
popped =
    (step
      (step empty (
        merges (
          record { action_step = 0; control_timestamp = 1; vector = 1 }
          ∷ record { action_step = 1; control_timestamp = 1; vector = 2 }
          ∷ []))).0
      pops_next).0

lookup_steps-append_all_example : lookup_steps never (append_all new_buffer arrivals) "s" 1 4 ≡ (
    if ltb 1 4
    then all_set never (cells_of (newest (last 8 (chunks_of "s" arrivals)) (λ t. none)) 1 (4 - 1))
    else none)
lookup_steps-append_all_example = lookup_steps-append_all never 8 arrivals "s" 1 4

reconstruct-scheduled_spans_example :
    reconstruct never
      (append_all new_buffer arrivals)
      "s"
      (next_action_step popped)
      (scheduled_spans popped)
      32
    ≡ none
reconstruct-scheduled_spans_example =
    reconstruct-scheduled_spans never (append_all new_buffer arrivals) "s" popped 32 (
      step-IsValid _ pops_next (
        step-IsValid empty
          (merges (
            record { action_step = 0; control_timestamp = 1; vector = 1 }
            ∷ record { action_step = 1; control_timestamp = 1; vector = 2 }
            ∷ []))
          empty-IsValid))
