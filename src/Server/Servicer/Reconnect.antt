-- ===== src/Server/Servicer/Reconnect.antt =====
-- A node that comes back in the middle of an episode.
use interlatent.Base.{
  ℕ, String, string_discrete, string_key, Bool, true, false, none, some, if_neg, ◌≡◌, ◌≢◌, ap, ◌∙◌,
  arith, is_blank, or_else,
}
use interlatent.Base.Dict.{Dict, ℕ_key, get, put, remove}
use interlatent.Base.Dict.Laws.{get-put_self}
use interlatent.Server.Recorder.{SessionRecorder, reusable}
use interlatent.Server.Servicer.{
  SessionState, InferenceServicer, OpenSessionRequest, forget_session, drop_episode_index,
  inherited, supersede, supersede_episode_session, attach_recorder, new_session, register,
  open_session,
}
use interlatent.Server.Servicer.Ownership.{held, held-put, held-remove}

held_entered :
    (sid : String) (v : SessionState) (d : Dict String SessionState)
    → held sid (put sid v d) ≡ v.recorder
held_entered sid v d = ground (arith, held-put sid sid v d)

held_left :
    (old_sid sid : String) (v : SessionState) (d e : Dict String SessionState)
    → old_sid ≢ sid
    → d ≡ remove old_sid e
    → held old_sid (put sid v d) ≡ none
held_left old_sid sid v d e ne q =
    ground (arith, held-put sid old_sid v d, ap (held old_sid) q, held-remove old_sid old_sid e, ne)

module _ {V : Type 0} where
  -- The session that the id of a reconnecting node's episode points to.
  pub record IsLive (s : InferenceServicer V) (episode old_sid : String) (h : ℕ)
      (r : SessionRecorder) : Type 0 where
    pub indexed : get episode s.by_episode ≡ some old_sid
    pub named : is_blank old_sid ≡ false
    pub holds : held old_sid s.sessions ≡ some h
    pub stored : get h s.recorders ≡ some r
    pub open_still : reusable r ≡ true

  inherited-live :
      (s : InferenceServicer V) (old_sid : String) (h : ℕ) (r : SessionRecorder)
      → held old_sid s.sessions ≡ some h
      → get h s.recorders ≡ some r
      → reusable r ≡ true
      → inherited s (get old_sid s.sessions) ≡ some h
  unfolding inherited held
  inherited-live s old_sid h r p q u = ground (arith, p, q, u)

  drop_episode_index-sessions :
      (episode old_sid : String) (s : InferenceServicer V)
      → (drop_episode_index episode old_sid s).sessions ≡ s.sessions
  unfolding drop_episode_index
  drop_episode_index-sessions episode old_sid s = ground arith

  drop_episode_index-recorders :
      (episode old_sid : String) (s : InferenceServicer V)
      → (drop_episode_index episode old_sid s).recorders ≡ s.recorders
  unfolding drop_episode_index
  drop_episode_index-recorders episode old_sid s = ground arith

  drop_episode_index-tasks :
      (episode old_sid : String) (s : InferenceServicer V)
      → (drop_episode_index episode old_sid s).tasks ≡ s.tasks
  unfolding drop_episode_index
  drop_episode_index-tasks episode old_sid s = ground arith

  supersede-some :
      (s : InferenceServicer V) (episode old_sid sid : String) (h : ℕ)
      → old_sid ≢ sid
      → is_blank old_sid ≡ false
      → inherited s (get old_sid s.sessions) ≡ some h
      → supersede (some old_sid) episode sid s
        ≡ (drop_episode_index episode old_sid (forget_session old_sid s), some h)
  unfolding supersede
  supersede-some s episode old_sid sid h ne named e =
      rw (named, e) (if_neg (string_discrete old_sid sid) ne _ _)

  supersede-live :
      (s : InferenceServicer V) (episode old_sid sid : String) (h : ℕ) (r : SessionRecorder)
      → old_sid ≢ sid
      → IsLive s episode old_sid h r
      → supersede_episode_session episode sid s
        ≡ (drop_episode_index episode old_sid (forget_session old_sid s), some h)
  unfolding supersede_episode_session
  supersede-live s episode old_sid sid h r ne l =
      ap (λ o. supersede o episode sid s) l.indexed
      ∙ supersede-some s episode old_sid sid h ne l.named
          (inherited-live s old_sid h r l.holds l.stored l.open_still)

  -- An `OpenSession` for an episode whose recorder is still open: the new session holds that
  -- recorder, the old one is gone, no task was started, the recorders are as they were, and the
  -- episode leads to the new session.
  pub open_session-inherits :
      (lower : String → String) (now : ℕ) (sid : String) (chunk_size : ℕ) (has_sink : Bool)
      (request : OpenSessionRequest) (s : InferenceServicer V) (old_sid : String) (h : ℕ)
      (r : SessionRecorder)
      → old_sid ≢ sid
      → IsLive s (or_else (get "episode_id" request.metadata) sid) old_sid h r
      → (held sid (open_session lower now sid chunk_size has_sink request s).sessions ≡ some h)
        × (held old_sid (open_session lower now sid chunk_size has_sink request s).sessions ≡ none)
        × ((open_session lower now sid chunk_size has_sink request s).tasks ≡ s.tasks)
        × ((open_session lower now sid chunk_size has_sink request s).recorders ≡ s.recorders)
        × (get
              (or_else (get "episode_id" request.metadata) sid)
              (open_session lower now sid chunk_size has_sink request s).by_episode
            ≡ some sid)
  unfolding open_session attach_recorder register new_session forget_session
  open_session-inherits lower now sid chunk_size has_sink request s old_sid h r ne l =
      let episode = or_else (get "episode_id" request.metadata) sid in
      let loaded = record s { warmup_warning = none } in
      let out : supersede_episode_session episode sid loaded
          ≡ (drop_episode_index episode old_sid (forget_session old_sid loaded), some h) =
        supersede-live loaded episode old_sid sid h r ne (record {
          indexed = l.indexed;
          named = l.named;
          holds = l.holds;
          stored = l.stored;
          open_still = l.open_still;
        }) in
      rw (out) (
        held_entered _ _ _,
        held_left old_sid sid _ _ s.sessions ne
            (drop_episode_index-sessions episode old_sid (forget_session old_sid loaded)),
        drop_episode_index-tasks episode old_sid (forget_session old_sid loaded),
        drop_episode_index-recorders episode old_sid (forget_session old_sid loaded),
        get-put_self _ _ _,
      )
