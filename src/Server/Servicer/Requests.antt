-- ===== src/Server/Servicer/Requests.antt =====
-- The handlers of a running session: ticks for its recorder, and observations for its policy.
use interlatent.Base.{
  ℕ, zero, suc, ◌+◌, String, string_key, or_else, Bool, false, ◌||◌, Option, none, some, List, [],
  ◌∷◌, if◌then◌else◌,
}
use interlatent.Base.Dict.{ℕ_key, get, put}
use interlatent.Server.ChunkBuffer.{StoredChunk, append, reconstruct}
use interlatent.Server.Recorder.{
  Tick, SessionRecorder, enqueue, writer_only, enqueue_nowait, is_human,
}
use interlatent.Server.Servicer.{SessionState, InferenceServicer}

pub record Observation (P : Type 0) : Type 0 where
  pub session_id : String
  pub next_action_step : ℕ
  pub scheduled_spans : List (ℕ × ℕ)
  pub control_timestamp : ℕ
  pub payload_codec : String
  pub payload : P

pub record Action (V : Type 0) : Type 0 where
  pub action_step : ℕ
  pub control_timestamp : ℕ
  pub vector : V

-- The rows of a chunk, number_actions from the given step.
unfoldable pub number_actions : {V : Type 0} → ℕ → ℕ → List V → List (Action V)
number_actions step stamp [] = []
number_actions step stamp (v ∷ vs) =
    record { action_step = step; control_timestamp = stamp; vector = v }
    ∷ number_actions (step + 1) stamp vs

-- The recorder's answer to a tick. A server that only records, `record_backpressure`, waits for room:
-- `outcomes` says what the writer does during the wait, in which no other handler runs here.
unfoldable pub offer : Bool → (Tick → List Bool) → SessionRecorder → Tick → SessionRecorder × Bool
offer backpressure outcomes r tick =
    if backpressure then enqueue r tick (writer_only (outcomes tick)) else enqueue_nowait r tick

-- The loop of `RecordTicks`: up to the first tick that is refused, counting those before it.
unfoldable pub offer_all :
    Bool → (Tick → List Bool) → SessionRecorder → List Tick → SessionRecorder × ℕ
unfolding offer
offer_all backpressure outcomes r [] = (r, 0)
offer_all backpressure outcomes r (tick ∷ ticks) =
    let answer = offer backpressure outcomes r tick in
    let rest = offer_all backpressure outcomes answer.0 ticks in
    if answer.1 then (rest.0, rest.1 + 1) else (answer.0, 0)

-- Of the ticks that were handed to the recorder, whether a human drove one.
unfoldable pub engaged : ℕ → List Tick → Bool
engaged n [] = false
engaged zero (tick ∷ ticks) = is_human tick.control_source
engaged (suc n) (tick ∷ ticks) = is_human tick.control_source || engaged n ticks

module _ {V : Type 0} where
  -- The recorder of a session, with its handle.
  unfoldable pub recorder_of :
      String → InferenceServicer V → Option (SessionState × ℕ × SessionRecorder)
  recorder_of session_id s = elim (get session_id s.sessions) [
    | none ↦ none
    | some state ↦ elim state.recorder [
      | none ↦ none
      | some handle ↦ elim (get handle s.recorders) [
        | none ↦ none
        | some r ↦ some (state, handle, r)
      ]
    ]
  ]

  -- `_prepare_tick` for the ticks that were handed over, and the recorder as it is after them.
  unfoldable pub note_ticks :
      ℕ
      → String
      → SessionState
      → ℕ
      → SessionRecorder
      → Bool
      → InferenceServicer V
      → InferenceServicer V
  note_ticks now session_id state handle r human s = record s {
    sessions = put session_id (record state { last_infer = now }) s.sessions;
    recorders = put handle r s.recorders;
    last_engaged_at = if human then now else s.last_engaged_at;
  }

  -- `RecordTick`; the answer is `ok`.
  unfoldable pub record_tick : ℕ → Tick → InferenceServicer V → InferenceServicer V × Bool
  unfolding recorder_of note_ticks
  record_tick now tick s = elim (recorder_of tick.session_id s) [
    | none ↦ (s, false)
    | some (state, handle, r) ↦
        let answer = enqueue_nowait r tick in
        (
          note_ticks now tick.session_id state handle answer.0 (is_human tick.control_source) s,
          answer.1,
        )
  ]

  -- `RecordTicks`: all ticks go to the session of the first one; the answer is `accepted`.
  unfoldable pub record_ticks :
      ℕ → (Tick → List Bool) → List Tick → InferenceServicer V → InferenceServicer V × ℕ
  unfolding recorder_of note_ticks offer_all engaged
  record_ticks now outcomes [] s = (s, 0)
  record_ticks now outcomes (tick ∷ ticks) s = elim (recorder_of tick.session_id s) [
    | none ↦ (s, 0)
    | some (state, handle, r) ↦
        let answer = offer_all s.record_backpressure outcomes r (tick ∷ ticks) in
        (
          note_ticks now tick.session_id state handle answer.0 (engaged answer.1 (tick ∷ ticks)) s,
          answer.1,
        )
  ]

  -- `_infer_one`: nothing for an unknown session, which raises. `forward` decodes the payload with
  -- the codec and runs the policy on it and on the prior actions, which may be missing.
  unfoldable pub infer_one :
      {P : Type 0}
      → (has_nan : V → Bool) (forward : String → P → Option (List V) → List V) (now : ℕ)
      → Observation P
      → InferenceServicer V
      → Option (InferenceServicer V × List (Action V))
  unfolding number_actions
  infer_one has_nan forward now obs s = elim (get obs.session_id s.sessions) [
    | none ↦ none
    | some state ↦
        let context =
          reconstruct has_nan s.buf obs.session_id obs.next_action_step obs.scheduled_spans
            s.context_steps in
        let actions =
          forward (or_else (some obs.payload_codec) state.payload_codec) obs.payload context in
        let chunk : StoredChunk V = record {
          start_step = obs.next_action_step;
          control_timestamp = obs.control_timestamp;
          actions = actions;
          created_at = now;
        } in
        some (
          record s {
            buf = append s.buf obs.session_id chunk;
            sessions = put obs.session_id (record state { last_infer = now }) s.sessions;
          },
          number_actions obs.next_action_step obs.control_timestamp actions,
        )
  ]
