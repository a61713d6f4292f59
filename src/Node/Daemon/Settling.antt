-- ===== src/Node/Daemon/Settling.antt =====
-- What an assignment that can be served comes to.
use interlatent.Base.{
  ℕ, String, is_blank, Bool, true, false, Option, none, some, length, get_elem?, if◌then◌else◌, ◌≡◌,
  refl, sym, subst, ap, ◌∙◌, arith, Bool-cases, Option-cases, inl, inr,
}
use interlatent.Node.Daemon.{
  Payload, ControlLoopHandle, NodeDaemon, connects, resolve_endpoint, same_id, is_active,
  stop_active, stop_active_loop, start_loop, assign, is_same, converge,
}
use interlatent.Node.Daemon.Tracking.{IsTracked, get_elem?-at_last}

-- A loop for the session, at the endpoint that it resolves to, is active: it was not told to stop and its
-- thread has not ended.
unfoldable pub Serves : String → Payload → NodeDaemon → Type 0
Serves env session d =
    (i : ℕ) × (l : ControlLoopHandle) × (d.active ≡ some i)
    × (get_elem? d.loops i ≡ some l)
    × (l.session_id ≡ session.id)
    × (l.endpoint ≡ resolve_endpoint env session d)
    × (l.stop_flag ≡ false)
    × (l.ended ≡ false)

-- The thread of the active loop, if there is one, has not ended.
abbrev pub IsRunning : NodeDaemon → Type 0
IsRunning d =
    (i : ℕ) (l : ControlLoopHandle)
    → d.active ≡ some i
    → get_elem? d.loops i ≡ some l
    → l.ended ≡ false

eq_of_same_id : (a b : String) → same_id a b ≡ true → a ≡ b
unfolding same_id
eq_of_same_id a b e = ground (arith, e)

same_id_refl : (a : String) → same_id a a ≡ true
unfolding same_id
same_id_refl a = ground arith

stop_active-drtc_url : (a : Option ℕ) (d : NodeDaemon) → (stop_active a d).drtc_url ≡ d.drtc_url
unfolding stop_active
stop_active-drtc_url none d = refl
stop_active-drtc_url (some i) d = refl

resolve_endpoint-stop_active :
    (env : String) (session : Payload) (a : Option ℕ) (d : NodeDaemon)
    → resolve_endpoint env session (stop_active a d) ≡ resolve_endpoint env session d
unfolding resolve_endpoint stop_active
resolve_endpoint-stop_active env session none d = refl
resolve_endpoint-stop_active env session (some i) d = refl

same-Serves :
    (env : String) (session : Payload) (d : NodeDaemon)
    → is_same env session d ≡ true
    → IsTracked d
    → IsRunning d
    → Serves env session d
unfolding is_same Serves
same-Serves env session d e h runs = elim (Option-cases d.active) [
  | inl n ↦ ground (arith, e, n, is_active)
  | inr (i, a) ↦
      let found = h.tracked i a in
      (
        i,
        found.0,
        a,
        found.1,
        found.2 ∙ sym (eq_of_same_id session.id d.known_session_id (ground (arith, e))),
        found.3
            ∙ sym (
                eq_of_same_id (resolve_endpoint env session d) d.active_endpoint
                  (ground (arith, e))),
        found.4,
        runs i found.0 a found.1,
      )
]

assign-Serves :
    (env : String) (is_recording : Bool) (session : Payload) (d : NodeDaemon)
    → is_blank (resolve_endpoint env session d) ≡ false
    → Serves env session (assign env false is_recording connects session d)
      × (is_same env session (assign env false is_recording connects session d) ≡ true)
unfolding assign Serves resolve_endpoint is_same
assign-Serves env is_recording session d e =
    rw (e, start_loop)
      ((length d.loops, _, refl, get_elem?-at_last d.loops _, refl, refl, refl, refl), ground arith)

converge-again :
    (env : String) (is_recording : Bool) (session : Payload) (c : NodeDaemon)
    → is_same env session c ≡ true
    → (converge env false is_recording connects (some session) c).loops ≡ c.loops
unfolding converge
converge-again env is_recording session c e = rw e refl

noted-Serves :
    (env : String) (session : Payload) (d : NodeDaemon) (endpoint : String)
    → Serves env session d
    → Serves env session (record d { known_endpoint = endpoint })
unfolding Serves resolve_endpoint
noted-Serves env session d endpoint h = h

noted-is_same :
    (env : String) (session : Payload) (d : NodeDaemon) (endpoint : String)
    → is_same env session d ≡ true
    → is_same env session (record d { known_endpoint = endpoint }) ≡ true
unfolding is_same resolve_endpoint
noted-is_same env session d endpoint e = e

converge-same :
    (env : String) (is_recording : Bool) (session : Payload) (d : NodeDaemon)
    → is_same env session d ≡ true
    → converge env false is_recording connects (some session) d
      ≡ record d { known_endpoint = session.drtc_endpoint }
unfolding converge
converge-same env is_recording session d same =
    ap
      (λ b.
        if b
        then record d { known_endpoint = session.drtc_endpoint }
        else assign env false is_recording connects session (stop_active_loop d))
      same

converge-other :
    (env : String) (is_recording : Bool) (session : Payload) (d : NodeDaemon)
    → is_same env session d ≡ false
    → converge env false is_recording connects (some session) d
      ≡ assign env false is_recording connects session (stop_active_loop d)
unfolding converge
converge-other env is_recording session d other =
    ap
      (λ b.
        if b
        then record d { known_endpoint = session.drtc_endpoint }
        else assign env false is_recording connects session (stop_active_loop d))
      other

resolve_endpoint-stop_active_loop :
    (env : String) (session : Payload) (d : NodeDaemon)
    → resolve_endpoint env session (stop_active_loop d) ≡ resolve_endpoint env session d
unfolding stop_active_loop
resolve_endpoint-stop_active_loop env session d =
    resolve_endpoint-stop_active env session d.active d

-- The state after one poll serves the session, and is left by the next.
settled :
    (env : String) (is_recording : Bool) (session : Payload) (d c : NodeDaemon)
    → converge env false is_recording connects (some session) d ≡ c
    → Serves env session c
    → is_same env session c ≡ true
    → Serves env session (converge env false is_recording connects (some session) d)
      × ((converge env false is_recording connects
            (some session)
            (converge env false is_recording connects (some session) d)).loops
          ≡ (converge env false is_recording connects (some session) d).loops)
settled env is_recording session d c once served same =
    subst
      (λ x.
        Serves env session x
        × ((converge env false is_recording connects (some session) x).loops ≡ x.loops))
      (sym once) (served, converge-again env is_recording session c same)

-- Where the daemon's record is in order, the thread of its active loop has not ended, the disk is not under pressure, the session resolves to an address
-- and the connection works, a loop that was not told to stop and has not ended serves the session at that address after one poll, and the
-- same answer once more starts and stops no loop.
pub converge-Serves :
    (env : String) (is_recording : Bool) (session : Payload) (d : NodeDaemon)
    → IsTracked d
    → IsRunning d
    → is_blank (resolve_endpoint env session d) ≡ false
    → Serves env session (converge env false is_recording connects (some session) d)
      × ((converge env false is_recording connects
            (some session)
            (converge env false is_recording connects (some session) d)).loops
          ≡ (converge env false is_recording connects (some session) d).loops)
converge-Serves env is_recording session d h runs e = elim (Bool-cases (is_same env session d)) [
  | inl same ↦
      settled env is_recording session d (record d { known_endpoint = session.drtc_endpoint })
        (converge-same env is_recording session d same)
        (noted-Serves env session d session.drtc_endpoint (same-Serves env session d same h runs))
        (noted-is_same env session d session.drtc_endpoint same)
  | inr other ↦
      let served =
        assign-Serves env is_recording session (stop_active_loop d)
          (ap is_blank (resolve_endpoint-stop_active_loop env session d) ∙ e) in
      settled env is_recording session d
        (assign env false is_recording connects session (stop_active_loop d))
        (converge-other env is_recording session d other) served.0 served.1
]
