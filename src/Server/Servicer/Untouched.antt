-- ===== src/Server/Servicer/Untouched.antt =====
-- The handlers that leave the recorders as they are.
use interlatent.Base.{
  String, string_key, Option, none, some, List, [], ◌∷◌, ◌≡◌, refl, ◌∙◌, arith, Option-cases, inl,
  inr,
}
use interlatent.Base.Dict.{ℕ_key, get}
use interlatent.Server.Servicer.{
  SessionState, InferenceServicer, forget_session, drop_episode_index, supersede, spawn_upload,
  close_session,
}
use interlatent.Server.Servicer.Collecting.{reconcile_status, retire, collect}

module _ {V : Type 0} where
  pub drop_episode_index-recorders :
      (episode_id sid : String) (s : InferenceServicer V)
      → (drop_episode_index episode_id sid s).recorders ≡ s.recorders
  unfolding drop_episode_index
  drop_episode_index-recorders episode_id sid s = ground arith

  pub supersede-recorders :
      (old : Option String) (episode_id sid : String) (s : InferenceServicer V)
      → (supersede old episode_id sid s).0.recorders ≡ s.recorders
  unfolding supersede forget_session
  supersede-recorders none episode_id sid s = refl
  supersede-recorders (some old) episode_id sid s =
      ground (arith, drop_episode_index-recorders episode_id old (forget_session old s))

  pub spawn_upload-recorders :
      (state : SessionState) (s : InferenceServicer V)
      → (spawn_upload state s).recorders ≡ s.recorders
  unfolding spawn_upload
  spawn_upload-recorders state s = ground arith

  pub retire-recorders :
      (state : SessionState) (s : InferenceServicer V) → (retire state s).recorders ≡ s.recorders
  unfolding retire
  retire-recorders state s = ground (arith, spawn_upload-recorders state s)

  pub forget_session-recorders :
      (sid : String) (s : InferenceServicer V) → (forget_session sid s).recorders ≡ s.recorders
  unfolding forget_session
  forget_session-recorders sid s = refl

  pub collect-recorders :
      (sids : List String) (s : InferenceServicer V) → (collect sids s).recorders ≡ s.recorders
  unfolding collect
  collect-recorders [] s = refl
  collect-recorders (sid ∷ sids) s = elim (Option-cases (get sid s.sessions)) [
    | inl e ↦ rw (e, collect) (collect-recorders sids s)
    | inr (state, e) ↦
        rw (e, collect)
          (collect-recorders sids (retire state (forget_session sid s))
            ∙ retire-recorders state (forget_session sid s)
            ∙ forget_session-recorders sid s)
  ]

  pub reconcile_status-recorders :
      (s : InferenceServicer V) → (reconcile_status s).recorders ≡ s.recorders
  unfolding reconcile_status
  reconcile_status-recorders s = ground arith

  pub close_session-recorders :
      (sid : String) (s : InferenceServicer V) → (close_session sid s).recorders ≡ s.recorders
  unfolding close_session
  close_session-recorders sid s = elim (Option-cases (get sid s.sessions)) [
    | inl e ↦ rw (e, close_session) (forget_session-recorders sid s)
    | inr (state, e) ↦
        rw (e, close_session)
          (spawn_upload-recorders state
              (drop_episode_index state.episode_id sid (forget_session sid s))
            ∙ drop_episode_index-recorders state.episode_id sid (forget_session sid s)
            ∙ forget_session-recorders sid s)
  ]
