-- ===== src/Server/ChunkBuffer.antt =====
-- chunk_buffer.py and schedule.py: the recent raw action chunks of each session, and the run of
-- actions that the next chunk is painted onto. A row of actions is opaque but for the test that it
-- holds a NaN, and the rows of one session are of one width. The ends of ranges are exclusive here,
-- since `start_step + len(actions) - 1` may be -1.
use interlatent.Base.{
  ℕ, zero, suc, ◌+◌, ◌-◌, max, min, String, string_key, Bool, true, false, Option, none, some, List,
  [], ◌∷◌, ◌++◌, length, take, drop, replicate, ◌&&◌, ◌||◌, ltb, leb, if◌then◌else◌,
}
use interlatent.Base.Dict.{Dict, get, put, remove}

pub record StoredChunk (V : Type 0) : Type 0 where
  pub start_step : ℕ
  pub control_timestamp : ℕ
  pub actions : List V
  pub created_at : ℕ

pub record InMemoryChunkBuffer (V : Type 0) : Type 0 where
  pub max_chunks_per_session : ℕ
  pub data_of : Dict String (List (StoredChunk V))

module _ {V : Type 0} where
  abbrev pub or_empty : Option (List V) → List V
  or_empty none = []
  or_empty (some xs) = xs

  -- `list(q)[-n:]`, for n of at least 1
  unfoldable pub last : ℕ → List V → List V
  last n xs = drop (length xs - n) xs

  -- `out[0 : len(sl)] = sl`
  unfoldable pub overlay : List V → List (Option V) → List (Option V)
  overlay [] out = out
  overlay (v ∷ vs) [] = []
  overlay (v ∷ vs) (cell ∷ out) = some v ∷ overlay vs out

  -- `out[offset : offset + len(sl)] = sl`
  unfoldable pub write_at : ℕ → List V → List (Option V) → List (Option V)
  write_at zero sl out = overlay sl out
  write_at (suc offset) sl [] = []
  write_at (suc offset) sl (cell ∷ out) = cell ∷ write_at offset sl out

  -- The rows, unless one is still unset or holds a NaN.
  unfoldable pub all_set : (V → Bool) → List (Option V) → Option (List V)
  all_set has_nan [] = some []
  all_set has_nan (none ∷ cells) = none
  all_set has_nan (some v ∷ cells) =
      let rest = all_set has_nan cells in
      if has_nan v then none else elim rest [ none ↦ none | some vs ↦ some (v ∷ vs) ]

  -- One turn of the loop: the offset and the slice, if the chunk overlaps the range.
  unfoldable pub piece : ℕ → ℕ → StoredChunk V → Option (ℕ × List V)
  piece start end c =
      let lo = max start c.start_step in
      let hi = min end (c.start_step + length c.actions) in
      if ltb lo hi
      then some (lo - start, take (hi - lo) (drop (lo - c.start_step) c.actions))
      else none

  unfoldable pub pieces : ℕ → ℕ → List (StoredChunk V) → List (ℕ × List V)
  pieces start end [] = []
  pieces start end (c ∷ cs) = elim (piece start end c) [
    | none ↦ pieces start end cs
    | some p ↦ p ∷ pieces start end cs
  ]

  unfoldable pub write_all : List (ℕ × List V) → List (Option V) → List (Option V)
  write_all [] out = out
  write_all ((offset, sl) ∷ ps) out = write_all ps (write_at offset sl out)

  -- From `if out_dim is None` on, for a range of `needed` steps
  unfoldable pub fill : (V → Bool) → ℕ → List (ℕ × List V) → Option (List V)
  fill has_nan needed [] = none
  fill has_nan needed (p ∷ ps) = all_set has_nan (write_all (p ∷ ps) (replicate needed none))

  -- `_stitch`, with the exclusive end
  unfoldable pub stitch : (V → Bool) → List (StoredChunk V) → ℕ → ℕ → Option (List V)
  stitch has_nan chunks start end =
      if ltb start end then fill has_nan (end - start) (pieces start end chunks) else none

module _ {V : Type 0} where
  -- `deque(maxlen=n)`: appending to a full one drops its oldest.
  unfoldable pub append : InMemoryChunkBuffer V → String → StoredChunk V → InMemoryChunkBuffer V
  append buf session_id chunk =
      let q = or_empty (get session_id buf.data_of) in
      record buf {
        data_of = put session_id (last buf.max_chunks_per_session (q ++ chunk ∷ [])) buf.data_of;
      }

  unfoldable pub recent : InMemoryChunkBuffer V → String → ℕ → List (StoredChunk V)
  recent buf session_id n = last n (or_empty (get session_id buf.data_of))

  unfoldable pub lookup_steps :
      (V → Bool) → InMemoryChunkBuffer V → String → ℕ → ℕ → Option (List V)
  lookup_steps has_nan buf session_id start end =
      stitch has_nan (recent buf session_id buf.max_chunks_per_session) start end

  unfoldable pub drop_session : InMemoryChunkBuffer V → String → InMemoryChunkBuffer V
  drop_session buf session_id = record buf { data_of = remove session_id buf.data_of }

-- The steps that the client says it has.
unfoldable pub claims : List (ℕ × ℕ) → ℕ → Bool
claims [] k = false
claims ((lo, hi) ∷ spans) k = (leb lo k && leb k hi) || claims spans k

-- `all(s in client_steps for s in range(start, start + n))`
unfoldable pub claims_all : List (ℕ × ℕ) → ℕ → ℕ → Bool
claims_all spans start zero = true
claims_all spans start (suc n) = claims spans start && claims_all spans (suc start) n

module _ {V : Type 0} where
  -- `reconstruct`: the prior actions, which run up to the step before `next_action_step`
  unfoldable pub reconstruct :
      (V → Bool) → InMemoryChunkBuffer V → String → ℕ → List (ℕ × ℕ) → ℕ → Option (List V)
  reconstruct has_nan buf session_id next_action_step spans context_steps =
      let start = next_action_step - context_steps in
      if leb context_steps 0 || leb next_action_step 0
      then none
      else (if claims_all spans start (next_action_step - start)
          then lookup_steps has_nan buf session_id start next_action_step
          else none)
