-- ===== src/Coordinator/Tokens.antt =====
-- Teleop tokens: what the relay lets in.
use Prim.Native.String.{◌++◌ as ◌++ˢ◌}
use interlatent.Base.{
  ℕ, String, string_key, string_discrete, ◌≡◌, ◌≢◌, refl, ◌∙◌, true, false, Option, none, some,
  if_pos, arith, is_blank,
}
use interlatent.Base.Dict.{get}
use interlatent.Base.Dict.Laws.{Each-get, drop_where-Each, get-put_self}
use interlatent.Coordinator.Data.{TeleopToken, Coordinator, ok, err, bad_role}
use interlatent.Coordinator.Credentials.{hash_key}
use interlatent.Coordinator.Revocation.{is_blank-append}
use interlatent.Coordinator.Teleop.{
  accepted, is_role, knows_session, record_token, mint_teleop_token, verify_teleop_token,
  revoke_teleop_tokens, of_session,
}

module _ (sha256 : String → String) where
  -- A token that is let in was recorded for this session and this role.
  verified_record :
      (c : Coordinator) (token session_id role : String)
      → verify_teleop_token sha256 c token session_id role ≡ accepted
      → (t : TeleopToken) × (get (hash_key sha256 token) c.state.teleop_tokens ≡ some t)
        × (t.session_id ≡ session_id)
        × (t.role ≡ role)
  unfolding verify_teleop_token
  verified_record c token session_id role e =
      by_record (get (hash_key sha256 token) c.state.teleop_tokens) refl
    where
      by_record :
          (o : Option TeleopToken)
          → get (hash_key sha256 token) c.state.teleop_tokens ≡ o
          → (t : TeleopToken) × (get (hash_key sha256 token) c.state.teleop_tokens ≡ some t)
            × (t.session_id ≡ session_id)
            × (t.role ≡ role)
      by_record none q = ground arith
      by_record (some t) q = (t, q, ground arith, ground arith)

  -- One token opens one session in one role.
  pub verify_unique :
      (c : Coordinator) (token s r s' r' : String)
      → verify_teleop_token sha256 c token s r ≡ accepted
      → verify_teleop_token sha256 c token s' r' ≡ accepted
      → (s ≡ s') × (r ≡ r')
  verify_unique c token s r s' r' e f =
      let (t, q, a, b) = verified_record c token s r e in
      let (t', q', a', b') = verified_record c token s' r' f in (cc, cc)

  -- After a revocation no token opens the session.
  pub verify-revoke :
      (c : Coordinator) (token session_id role : String)
      → verify_teleop_token sha256 (revoke_teleop_tokens c session_id) token session_id role
        ≢ accepted
  unfolding revoke_teleop_tokens of_session
  verify-revoke c token session_id role e =
      let (t, q, a, b) = verified_record _ token session_id role e in
      let kept =
        Each-get (λ k x. of_session session_id x ≡ false) (hash_key sha256 token) t _
          (drop_where-Each (of_session session_id) c.state.teleop_tokens) q in
      cc (if_pos (string_discrete t.session_id session_id) a true false, kept)

  verify_recorded :
      (c : Coordinator) (token session_id role : String) (now : ℕ)
      → is_blank token ≡ false
      → verify_teleop_token sha256
          (record_token sha256 c token session_id role now)
          token
          session_id
          role
        ≡ accepted
  unfolding verify_teleop_token record_token
  verify_recorded c token session_id role now h =
      rw
        (
          h,
          get-put_self (hash_key sha256 token)
              (record { session_id = session_id; role = role; created = now })
              c.state.teleop_tokens,
        )
        (if_pos (string_discrete session_id session_id) refl _ _
          ∙ if_pos (string_discrete role role) refl _ _)

  -- For a role that exists and a session that is known, minting answers a token, which then opens
  -- this session in this role.
  pub verify-mint :
      (c : Coordinator) (session_id role random : String) (now : ℕ)
      → is_role role ≡ true
      → knows_session c.state session_id ≡ true
      → (d : Coordinator) × (token : String) × (mint_teleop_token sha256 c session_id role random
            now
          ≡ ok (d, some token))
        × (verify_teleop_token sha256 d token session_id role ≡ accepted)
  unfolding mint_teleop_token
  verify-mint c session_id role random now p k =
      let token = ◌++ˢ◌ "iltel_" random in
      (
        record_token sha256 c token session_id role now,
        token,
        rw (p, k),
        verify_recorded c token session_id role now (is_blank-append "i" "ltel_" random),
      )

  -- Another role is an error, and for an unknown session no token is made and nothing changes.
  pub mint_refuses :
      (c : Coordinator) (session_id role random : String) (now : ℕ)
      → (is_role role ≡ false
          → mint_teleop_token sha256 c session_id role random now ≡ err (bad_role role))
        × (is_role role ≡ true
            → knows_session c.state session_id ≡ false
            → mint_teleop_token sha256 c session_id role random now ≡ ok (c, none))
  unfolding mint_teleop_token
  mint_refuses c session_id role random now = (λ p. rw p, λ p k. rw (p, k))
