-- ===== src/Node/Daemon/Tracking.antt =====
-- Which loops may still move the robot.
use interlatent.Base.{
  ℕ, zero, suc, String, is_blank, Bool, true, false, ◌&&◌, Option, none, some, List, [], ◌∷◌, ◌++◌,
  length, get_elem?, ◌≡◌, ◌≢◌, refl, sym, ap, ◌∙◌, arith, Bool-cases, inl, inr, ◌⊎◌,
}
use interlatent.Node.Daemon.{
  Payload, ControlLoopHandle, NodeDaemon, Connection, refused, raises, connects, new_daemon,
  resolve_endpoint, same_id, is_active, stop_at, stop_active, stop_active_loop, forget_assignment,
  start_loop, assign, is_same, converge, end_at, thread_ends,
}

-- Each loop but the active one was told to stop, and the active one was not, and is that of the session and the endpoint
-- that the daemon takes itself to serve.
pub record IsTracked (d : NodeDaemon) : Type 0 where
  pub others :
      (i : ℕ) (l : ControlLoopHandle)
      → get_elem? d.loops i ≡ some l
      → (l.stop_flag ≡ true) ⊎ (d.active ≡ some i)
  pub tracked :
      (i : ℕ)
      → d.active ≡ some i
      → (l : ControlLoopHandle) × (get_elem? d.loops i ≡ some l)
        × (l.session_id ≡ d.known_session_id)
        × (l.endpoint ≡ d.active_endpoint)
        × (l.stop_flag ≡ false)

get_elem?-stop_at :
    (i j : ℕ) (ls : List ControlLoopHandle) (l : ControlLoopHandle)
    → get_elem? (stop_at i ls) j ≡ some l
    → (l.stop_flag ≡ true) ⊎ ((i ≢ j) × (get_elem? ls j ≡ some l))
unfolding stop_at
get_elem?-stop_at i j [] l e = ground (arith, e)
get_elem?-stop_at zero zero (m ∷ ls) l e = inl (ground (arith, e))
get_elem?-stop_at zero (suc j) (m ∷ ls) l e = inr (λ p. omega (arith, p), e)
get_elem?-stop_at (suc i) zero (m ∷ ls) l e = inr (λ p. omega (arith, p), e)
get_elem?-stop_at (suc i) (suc j) (m ∷ ls) l e = elim (get_elem?-stop_at i j ls l e) [
  | inl s ↦ inl s
  | inr (n, f) ↦ inr (λ p. n (omega (arith, p)), f)
]

-- No loop is active, and all were told to stop.
unfoldable pub IsIdle : NodeDaemon → Type 0
IsIdle d =
    (d.active ≡ none)
    × ((i : ℕ) (l : ControlLoopHandle) → get_elem? d.loops i ≡ some l → l.stop_flag ≡ true)

stop_active-IsIdle :
    (a : Option ℕ) (d : NodeDaemon) → d.active ≡ a → IsTracked d → IsIdle (stop_active a d)
unfolding stop_active IsIdle
stop_active-IsIdle none d e h =
    (e, λ i l p. elim (h.others i l p) [ inl s ↦ s | inr a ↦ ground (arith, a, e) ])
stop_active-IsIdle (some k) d e h = (
  refl,
  λ i l p. elim (get_elem?-stop_at k i d.loops l p) [
    | inl s ↦ s
    | inr (n, f) ↦ elim (h.others i l f) [ inl s ↦ s | inr a ↦ ground (arith, a, e, n) ]
  ],
)

pub stop_active_loop-IsIdle : (d : NodeDaemon) → IsTracked d → IsIdle (stop_active_loop d)
unfolding stop_active_loop
stop_active_loop-IsIdle d h = stop_active-IsIdle d.active d refl h

idle-IsTracked : (d : NodeDaemon) → IsIdle d → IsTracked d
unfolding IsIdle
idle-IsTracked d h = record {
  others = λ i l p. inl (h.1 i l p);
  tracked = λ i p. ground (arith, p, h.0);
}

get_elem?-last :
    (ls : List ControlLoopHandle) (x l : ControlLoopHandle) (i : ℕ)
    → get_elem? (ls ++ x ∷ []) i ≡ some l
    → (get_elem? ls i ≡ some l) ⊎ (i ≡ length ls)
get_elem?-last [] x l zero e = inr refl
get_elem?-last [] x l (suc i) e = inl e
get_elem?-last (m ∷ ls) x l zero e = inl e
get_elem?-last (m ∷ ls) x l (suc i) e = elim (get_elem?-last ls x l i e) [
  | inl f ↦ inl f
  | inr f ↦ inr (ap suc f)
]

pub get_elem?-at_last :
    (ls : List ControlLoopHandle) (x : ControlLoopHandle)
    → get_elem? (ls ++ x ∷ []) (length ls) ≡ some x
get_elem?-at_last [] x = refl
get_elem?-at_last (m ∷ ls) x = get_elem?-at_last ls x

-- A loop that is started next to none.
started-IsTracked :
    (d : NodeDaemon) (x : ControlLoopHandle) (endpoint : String)
    → x.stop_flag ≡ false
    → IsIdle d
    → IsTracked (record d {
      active = some (length d.loops);
      loops = d.loops ++ x ∷ [];
      known_session_id = x.session_id;
      known_endpoint = endpoint;
      active_endpoint = x.endpoint;
    })
unfolding IsIdle
started-IsTracked d x endpoint runs h = record {
  others = λ i l p. elim (get_elem?-last d.loops x l i p) [
    | inl e ↦ inl (h.1 i l e)
    | inr e ↦ inr (ap some (sym e))
  ];
  tracked = λ i p. (
    x,
    ap (get_elem? (d.loops ++ x ∷ [])) (ground (arith, p)) ∙ get_elem?-at_last d.loops x,
    refl,
    refl,
    runs,
  );
}

assign-IsTracked :
    (env : String) (pressure is_recording : Bool) (connection : Connection) (session : Payload)
    (d : NodeDaemon)
    → IsIdle d
    → IsTracked (assign env pressure is_recording connection session d)
unfolding assign forget_assignment IsIdle
assign-IsTracked env true is_recording connection session d h = idle-IsTracked _ h
assign-IsTracked env false is_recording refused session d h = idle-IsTracked _ h
assign-IsTracked env false is_recording raises session d h =
    elim (Bool-cases (is_blank (resolve_endpoint env session d))) [
      | inl e ↦ rw (e, start_loop) (idle-IsTracked _ h)
      | inr e ↦ rw (e, start_loop) (idle-IsTracked _ h)
    ]
assign-IsTracked env false is_recording connects session d h =
    elim (Bool-cases (is_blank (resolve_endpoint env session d))) [
      | inl e ↦ rw (e, start_loop) (idle-IsTracked _ h)
      | inr e ↦ rw (e, start_loop) (started-IsTracked d _ session.drtc_endpoint refl h)
    ]

pub converge-IsTracked :
    (env : String) (pressure is_recording : Bool) (connection : Connection)
    (session : Option Payload) (d : NodeDaemon)
    → IsTracked d
    → IsTracked (converge env pressure is_recording connection session d)
unfolding converge forget_assignment IsIdle
converge-IsTracked env pressure is_recording connection none d h =
    elim (Bool-cases
      (same_id "" d.known_session_id && is_active d.active && same_id "" d.active_endpoint)) [
        | inl e ↦ rw e (record { others = h.others; tracked = h.tracked })
        | inr e ↦
            rw e (
              idle-IsTracked (forget_assignment (stop_active_loop d)) (stop_active_loop-IsIdle d h))
      ]
converge-IsTracked env pressure is_recording connection (some session) d h =
    elim (Bool-cases (is_same env session d)) [
      | inl e ↦ rw e (record { others = h.others; tracked = h.tracked })
      | inr e ↦ rw e (
          assign-IsTracked env pressure is_recording connection session (stop_active_loop d)
            (stop_active_loop-IsIdle d h))
    ]

-- The end of a thread changes nothing that the daemon looks at.
get_elem?-end_at :
    (i j : ℕ) (ls : List ControlLoopHandle)
    → (get_elem? (end_at i ls) j ≡ get_elem? ls j)
      ⊎ ((m : ControlLoopHandle) × (get_elem? ls j ≡ some m)
          × (get_elem? (end_at i ls) j ≡ some (record m { ended = true })))
unfolding end_at
get_elem?-end_at i j [] = inl refl
get_elem?-end_at zero zero (m ∷ ls) = inr (m, refl, refl)
get_elem?-end_at zero (suc j) (m ∷ ls) = inl refl
get_elem?-end_at (suc i) zero (m ∷ ls) = inl refl
get_elem?-end_at (suc i) (suc j) (m ∷ ls) = get_elem?-end_at i j ls

thread_ends-IsTracked : (i : ℕ) (d : NodeDaemon) → IsTracked d → IsTracked (thread_ends i d)
unfolding thread_ends
thread_ends-IsTracked i d h = record {
  others = λ j l p. elim (get_elem?-end_at i j d.loops) [
    | inl e ↦ h.others j l (sym e ∙ p)
    | inr (m, e, f) ↦ elim (h.others j m e) [
      | inl s ↦ inl (ground (arith, s, f, p))
      | inr a ↦ inr a
    ]
  ];
  tracked = λ j a.
      let found = h.tracked j a in
      elim (get_elem?-end_at i j d.loops) [
        | inl e ↦ (found.0, e ∙ found.1, found.2, found.3, found.4)
        | inr (m, e, f) ↦
            let same : m ≡ found.0 = ground (arith, e, found.1) in
            (
              record m { ended = true },
              f,
              ap (λ x. x.session_id) same ∙ found.2,
              ap (λ x. x.endpoint) same ∙ found.3,
              ap (λ x. x.stop_flag) same ∙ found.4,
            )
      ];
}

-- What can happen to a daemon: an answer to its poll, and the end of a thread.
pub data Event : Type 0 where
  polls :
      (env : String) (pressure is_recording : Bool) (connection : Connection)
      (session : Option Payload)
      → Event
  ends : (i : ℕ) → Event

unfoldable pub handle : NodeDaemon → Event → NodeDaemon
handle d (polls env pressure is_recording connection session) =
    converge env pressure is_recording connection session d
handle d (ends i) = thread_ends i d

unfoldable pub run : NodeDaemon → List Event → NodeDaemon
unfolding handle
run d [] = d
run d (e ∷ es) = run (handle d e) es

handle-IsTracked : (d : NodeDaemon) (e : Event) → IsTracked d → IsTracked (handle d e)
unfolding handle
handle-IsTracked d (polls env pressure is_recording connection session) h =
    converge-IsTracked env pressure is_recording connection session d h
handle-IsTracked d (ends i) h = thread_ends-IsTracked i d h

pub run-IsTracked : (d : NodeDaemon) (es : List Event) → IsTracked d → IsTracked (run d es)
unfolding run
run-IsTracked d [] h = h
run-IsTracked d (e ∷ es) h = run-IsTracked (handle d e) es (handle-IsTracked d e h)

-- Whatever a new daemon polls and whichever threads end: each loop it ever started, but the active one, was
-- told to stop, and the active one, if there is one, is that of the session and the endpoint that
-- the daemon takes itself to serve.
pub run_daemon-IsTracked :
    (drtc_url : String) (es : List Event) → IsTracked (run (new_daemon drtc_url) es)
unfolding new_daemon
run_daemon-IsTracked drtc_url es =
    run-IsTracked (new_daemon drtc_url) es
      (record { others = λ i l p. ground (arith, p); tracked = λ i p. ground (arith, p) })
