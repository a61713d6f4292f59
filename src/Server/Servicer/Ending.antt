-- ===== src/Server/Servicer/Ending.antt =====
-- Opening, closing and collecting sessions keeps every recorder with one owner.
use interlatent.Base.{
  ℕ, ◌+◌, String, string_discrete, string_key, Bool, Option, none, some, List, [], ◌∷◌, ite, ◌≡◌,
  subst, arith, Bool-cases, Option-cases, inl, inr, is_blank, ◌&&◌, or_else,
}
use interlatent.Base.Dict.{Dict, ℕ_key, get}
use interlatent.Server.Recorder.{no_steps}
use interlatent.Server.Servicer.{
  SessionState, InferenceServicer, OpenSessionRequest, forget_session, drop_episode_index,
  inherited, supersede, supersede_episode_session, attach_recorder, truthy, new_session, register,
  open_session, spawn_upload, close_session,
}
use interlatent.Server.Servicer.Collecting.{retire, collect}
use interlatent.Server.Servicer.Ownership.{
  held, IsOwned, IsFree, remove-IsOwned, remove-IsFree, task-IsOwned, enter-IsOwned, next-IsFree,
  next-IsOwned,
}

module _ {V : Type 0} where
  unfoldable pub IsSound : InferenceServicer V → Type 0
  IsSound s = IsOwned s.sessions s.tasks s.next_handle

  unfoldable pub MayTake : Option ℕ → InferenceServicer V → Type 0
  MayTake o s = (h : ℕ) → o ≡ some h → IsFree h s.sessions s.tasks s.next_handle

  -- Two servicers with the same sessions and tasks.
  unfoldable pub SameOwners : InferenceServicer V → InferenceServicer V → Type 0
  SameOwners s t = (s.sessions ≡ t.sessions) × (s.tasks ≡ t.tasks) × (s.next_handle ≡ t.next_handle)

  pub same-IsSound : (s t : InferenceServicer V) → SameOwners s t → IsSound t → IsSound s
  unfolding SameOwners IsSound
  same-IsSound s t e o = rw (e.0, e.1, e.2) o

  same-MayTake :
      (o : Option ℕ) (s t : InferenceServicer V) → SameOwners s t → MayTake o t → MayTake o s
  unfolding SameOwners MayTake
  same-MayTake o s t e m = rw (e.0, e.1, e.2) m

  drop_episode_index-SameOwners :
      (episode_id session_id : String) (s : InferenceServicer V)
      → SameOwners (drop_episode_index episode_id session_id s) s
  unfolding drop_episode_index SameOwners
  drop_episode_index-SameOwners episode_id session_id s = (ground arith, ground arith, ground arith)

  forget_session-IsSound :
      (sid : String) (s : InferenceServicer V) → IsSound s → IsSound (forget_session sid s)
  unfolding forget_session IsSound
  forget_session-IsSound sid s o = remove-IsOwned sid s.sessions s.tasks s.next_handle o

  -- What a session held may be taken once it is out of the table.
  forget_session-MayTake :
      (sid : String) (state : SessionState) (s : InferenceServicer V)
      → get sid s.sessions ≡ some state
      → IsSound s
      → MayTake state.recorder (forget_session sid s)
  unfolding forget_session IsSound MayTake held
  forget_session-MayTake sid state s e o h p =
      remove-IsFree sid h s.sessions s.tasks s.next_handle (ground (arith, e, p)) o

  inherited-held :
      (sid : String) (s : InferenceServicer V) (h : ℕ)
      → inherited s (get sid s.sessions) ≡ some h
      → held sid s.sessions ≡ some h
  unfolding inherited held
  inherited-held sid s h p = ground (arith, p)

  inherited-MayTake :
      (sid : String) (s : InferenceServicer V)
      → IsSound s
      → MayTake (inherited s (get sid s.sessions)) (forget_session sid s)
  unfolding forget_session IsSound MayTake
  inherited-MayTake sid s o h p =
      remove-IsFree sid h s.sessions s.tasks s.next_handle (inherited-held sid s h p) o

  -- The servicer is sound, and the handle may be taken.
  unfoldable pub IsOffer : InferenceServicer V × Option ℕ → Type 0
  IsOffer found = IsSound found.0 × MayTake found.1 found.0

  none-MayTake : (s : InferenceServicer V) → MayTake none s
  unfolding MayTake
  none-MayTake s h p = ground (arith, p)

  ite-IsOffer :
      {P : Type 0} (d : Dec P) (x y : InferenceServicer V × Option ℕ)
      → IsOffer x
      → IsOffer y
      → IsOffer (ite d x y)
  ite-IsOffer (yes p) x y a b = a
  ite-IsOffer (no p) x y a b = b

  supersede-IsOffer :
      (old : Option String) (episode_id sid : String) (s : InferenceServicer V)
      → IsSound s
      → IsOffer (supersede old episode_id sid s)
  unfolding supersede IsOffer
  supersede-IsOffer none episode_id sid s o = (o, none-MayTake s)
  supersede-IsOffer (some old) episode_id sid s o = elim (Bool-cases (is_blank old)) [
    | inl e ↦ rw (e, supersede) (o, none-MayTake s)
    | inr e ↦
        let same = drop_episode_index-SameOwners episode_id old (forget_session old s) in
        rw (e, supersede)
          (ite-IsOffer (string_discrete old sid) _ _ (o, none-MayTake s)
            (
              same-IsSound _ _ same (forget_session-IsSound old s o),
              same-MayTake _ _ _ same (inherited-MayTake old s o),
            ))
  ]

  attach_recorder-IsOffer :
      (lower : String → String) (has_sink : Bool) (metadata : Dict String String)
      (s : InferenceServicer V) (found : Option ℕ)
      → IsOffer (s, found)
      → IsOffer (attach_recorder lower has_sink metadata (s, found))
  unfolding attach_recorder IsOffer MayTake IsSound
  attach_recorder-IsOffer lower has_sink metadata s (some h) o = o
  attach_recorder-IsOffer lower has_sink metadata s none o =
      elim (Bool-cases (truthy lower (get "record" metadata) && has_sink)) [
        | inl e ↦
            rw (e, attach_recorder)
              (
                next-IsOwned s.sessions s.tasks s.next_handle o.0,
                λ h p.
                    subst (λ k. IsFree k s.sessions s.tasks (s.next_handle + 1)) (ground (arith, p))
                      (next-IsFree s.sessions s.tasks s.next_handle o.0),
              )
        | inr e ↦ rw (e, attach_recorder) o
      ]

  spawn_upload-IsSound :
      (state : SessionState) (s : InferenceServicer V)
      → MayTake state.recorder s
      → IsSound s
      → IsSound (spawn_upload state s)
  unfolding spawn_upload IsSound MayTake
  spawn_upload-IsSound state s m o = elim (Option-cases state.recorder) [
    | inl e ↦ rw (e, spawn_upload) o
    | inr (h, e) ↦ elim (Bool-cases state.upload_task) [
      | inl u ↦ rw (e, u, spawn_upload) o
      | inr u ↦ elim (Option-cases (get h s.recorders)) [
        | inl g ↦ rw (e, u, g, spawn_upload) o
        | inr (r, g) ↦
            rw (e, u, g, spawn_upload) (task-IsOwned _ s.sessions s.tasks s.next_handle (m h e) o)
      ]
    ]
  ]

  retire-IsSound :
      (state : SessionState) (s : InferenceServicer V)
      → MayTake state.recorder s
      → IsSound s
      → IsSound (retire state s)
  unfolding retire IsSound MayTake
  retire-IsSound state s m o = elim (Option-cases state.recorder) [
    | inl e ↦ rw (e, retire) o
    | inr (h, e) ↦ elim (Option-cases (get h s.recorders)) [
      | inl g ↦ rw (e, g, retire) o
      | inr (r, g) ↦ elim (Bool-cases (no_steps r)) [
        | inl n ↦ rw (e, g, n, retire) (task-IsOwned _ s.sessions s.tasks s.next_handle (m h e) o)
        | inr n ↦ rw (e, g, n, retire) (spawn_upload-IsSound state s m o)
      ]
    ]
  ]

  pub collect-IsSound :
      (sids : List String) (s : InferenceServicer V) → IsSound s → IsSound (collect sids s)
  unfolding collect
  collect-IsSound [] s o = o
  collect-IsSound (sid ∷ sids) s o = elim (Option-cases (get sid s.sessions)) [
    | inl e ↦ rw (e, collect) (collect-IsSound sids s o)
    | inr (state, e) ↦
        rw (e, collect)
          (collect-IsSound sids _ (
            retire-IsSound state (forget_session sid s) (forget_session-MayTake sid state s e o)
              (forget_session-IsSound sid s o)))
  ]

  pub close_session-IsSound :
      (sid : String) (s : InferenceServicer V) → IsSound s → IsSound (close_session sid s)
  unfolding close_session
  close_session-IsSound sid s o = elim (Option-cases (get sid s.sessions)) [
    | inl e ↦ rw (e, close_session) (forget_session-IsSound sid s o)
    | inr (state, e) ↦
        let same = drop_episode_index-SameOwners state.episode_id sid (forget_session sid s) in
        rw (e, close_session)
          (spawn_upload-IsSound state _
            (same-MayTake _ _ _ same (forget_session-MayTake sid state s e o))
            (same-IsSound _ _ same (forget_session-IsSound sid s o)))
  ]

  register-IsSound :
      (sid : String) (state : SessionState) (s : InferenceServicer V)
      → MayTake state.recorder s
      → IsSound s
      → IsSound (register sid state s)
  unfolding register IsSound MayTake
  register-IsSound sid state s m o = enter-IsOwned sid state s.sessions s.tasks s.next_handle m o

  pub open_session-IsSound :
      (lower : String → String) (now : ℕ) (sid : String) (chunk_size : ℕ) (has_sink : Bool)
      (request : OpenSessionRequest) (s : InferenceServicer V)
      → IsSound s
      → IsSound (open_session lower now sid chunk_size has_sink request s)
  unfolding open_session IsOffer supersede_episode_session new_session IsSound
  open_session-IsSound lower now sid chunk_size has_sink request s o =
      let episode = or_else (get "episode_id" request.metadata) sid in
      let older = supersede_episode_session episode sid (record s { warmup_warning = none }) in
      let found = attach_recorder-IsOffer lower has_sink request.metadata older.0 older.1 (
        supersede-IsOffer (get episode s.by_episode) episode sid
          (record s { warmup_warning = none }) o) in
      register-IsSound sid _ _ found.1 found.0
