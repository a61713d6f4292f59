-- ===== src/Server/Servicer/Ownership.antt =====
-- Who may publish a recorder: one session that holds it, or one task that was started for it.
use interlatent.Base.{
  ℕ, ◌+◌, ◌≤◌, ◌<◌, String, string_discrete, string_key, Option, none, some, List, [], ◌∷◌, ◌++◌,
  ◌==◌, if◌then◌else◌, ite, ◌≡◌, ◌≢◌, refl, sym, ◌∙◌, arith, inl, inr, ◌⊎◌,
}
use interlatent.Base.Dict.{Dict, ℕ_key, get, put, remove, get-put, get-remove}
use interlatent.Server.Servicer.{SessionState, Task}

-- The handle that the session holds, if there is such a session and it holds one.
unfoldable pub held : String → Dict String SessionState → Option ℕ
held sid sessions = elim (get sid sessions) [ none ↦ none | some state ↦ state.recorder ]

-- How many tasks were started for the recorder.
unfoldable pub tasked : ℕ → List Task → ℕ
tasked h [] = 0
tasked h (t ∷ ts) = let rest = tasked h ts in if t.handle == h then rest + 1 else rest

pub tasked-append : (h : ℕ) (ts us : List Task) → tasked h (ts ++ us) ≡ tasked h ts + tasked h us
unfolding tasked
tasked-append h [] us = omega arith
tasked-append h (t ∷ ts) us = ground (arith, tasked-append h ts us)

pub held-put :
    (k j : String) (v : SessionState) (d : Dict String SessionState)
    → held j (put k v d) ≡ ite (string_discrete k j) v.recorder (held j d)
unfolding held
held-put k j v d = ground (arith, get-put k j v d)

pub held-remove :
    (k j : String) (d : Dict String SessionState)
    → held j (remove k d) ≡ ite (string_discrete k j) none (held j d)
unfolding held
held-remove k j d = ground (arith, get-remove k j d)

-- The last argument is the handle that the next recorder gets.
pub record IsOwned (sessions : Dict String SessionState) (tasks : List Task) (next : ℕ)
    : Type 0 where
  pub one_session :
      (a b : String) (h : ℕ) → held a sessions ≡ some h → held b sessions ≡ some h → a ≡ b
  pub no_task : (a : String) (h : ℕ) → held a sessions ≡ some h → tasked h tasks ≡ 0
  pub known : (a : String) (h : ℕ) → held a sessions ≡ some h → h < next
  pub one_task : (h : ℕ) → tasked h tasks ≤ 1
  pub unborn : (h : ℕ) → next ≤ h → tasked h tasks ≡ 0

-- A recorder that neither a session nor a task has.
pub record IsFree (h : ℕ) (sessions : Dict String SessionState) (tasks : List Task) (next : ℕ)
    : Type 0 where
  pub unheld : (a : String) → held a sessions ≢ some h
  pub untasked : tasked h tasks ≡ 0
  pub born : h < next

-- Sessions that end, or go on with the same recorder, leave the others theirs.
pub fewer-IsOwned :
    (d e : Dict String SessionState) (ts : List Task) (n : ℕ)
    → ((a : String) (h : ℕ) → held a e ≡ some h → held a d ≡ some h)
    → IsOwned d ts n
    → IsOwned e ts n
fewer-IsOwned d e ts n f o = record {
  one_session = λ a b h p q. o.one_session a b h (f a h p) (f b h q);
  no_task = λ a h p. o.no_task a h (f a h p);
  known = λ a h p. o.known a h (f a h p);
  one_task = o.one_task;
  unborn = o.unborn;
}

held_before_remove :
    (k a : String) (h : ℕ) (d : Dict String SessionState)
    → held a (remove k d) ≡ some h
    → held a d ≡ some h
held_before_remove k a h d p = ground (arith, p, held-remove k a d)

pub remove-IsOwned :
    (k : String) (d : Dict String SessionState) (ts : List Task) (n : ℕ)
    → IsOwned d ts n
    → IsOwned (remove k d) ts n
remove-IsOwned k d ts n o =
    fewer-IsOwned d (remove k d) ts n (λ a h p. held_before_remove k a h d p) o

pub put-IsOwned :
    (k : String) (v : SessionState) (d : Dict String SessionState) (ts : List Task) (n : ℕ)
    → held k d ≡ v.recorder
    → IsOwned d ts n
    → IsOwned (put k v d) ts n
put-IsOwned k v d ts n e o =
    fewer-IsOwned d (put k v d) ts n (λ a h p. ground (arith, p, e, held-put k a v d)) o

-- The recorder of a session that is taken out is free.
pub remove-IsFree :
    (k : String) (h : ℕ) (d : Dict String SessionState) (ts : List Task) (n : ℕ)
    → held k d ≡ some h
    → IsOwned d ts n
    → IsFree h (remove k d) ts n
remove-IsFree k h d ts n e o = record {
  unheld = λ a p.
      ground (arith, p, held-remove k a d, o.one_session k a h e (held_before_remove k a h d p));
  untasked = o.no_task k h e;
  born = o.known k h e;
}

-- A task may be started for a free recorder.
pub task-IsOwned :
    (t : Task) (d : Dict String SessionState) (ts : List Task) (n : ℕ)
    → IsFree t.handle d ts n
    → IsOwned d ts n
    → IsOwned d (ts ++ t ∷ []) n
unfolding tasked
task-IsOwned t d ts n f o = record {
  one_session = o.one_session;
  no_task = λ a h p. ground (arith, tasked-append h ts (t ∷ []), o.no_task a h p, f.unheld a, p);
  known = o.known;
  one_task = λ h. ground (arith, tasked-append h ts (t ∷ []), o.one_task h, f.untasked);
  unborn = λ h p. ground (arith, tasked-append h ts (t ∷ []), o.unborn h p, f.born, p);
}

held_after_put :
    (k a : String) (v : SessionState) (h : ℕ) (d : Dict String SessionState)
    → held a (put k v d) ≡ some h
    → ((k ≡ a) × (v.recorder ≡ some h)) ⊎ (held a d ≡ some h)
held_after_put k a v h d p = ground (arith, p, held-put k a v d)

-- A session may take a free recorder.
pub enter-IsOwned :
    (k : String) (v : SessionState) (d : Dict String SessionState) (ts : List Task) (n : ℕ)
    → ((h : ℕ) → v.recorder ≡ some h → IsFree h d ts n)
    → IsOwned d ts n
    → IsOwned (put k v d) ts n
enter-IsOwned k v d ts n f o = record {
  one_session = λ a b h p q. elim (held_after_put k a v h d p) [
    | inl x ↦ elim (held_after_put k b v h d q) [
      | inl y ↦ sym x.0 ∙ y.0
      | inr y ↦ absurd ((f h x.1).unheld b y)
    ]
    | inr x ↦ elim (held_after_put k b v h d q) [
      | inl y ↦ absurd ((f h y.1).unheld a x)
      | inr y ↦ o.one_session a b h x y
    ]
  ];
  no_task = λ a h p. elim (held_after_put k a v h d p) [
    | inl x ↦ (f h x.1).untasked
    | inr x ↦ o.no_task a h x
  ];
  known =
      λ a h p. elim (held_after_put k a v h d p) [ inl x ↦ (f h x.1).born | inr x ↦ o.known a h x ];
  one_task = o.one_task;
  unborn = o.unborn;
}

-- A new recorder is free, and its handle is not given again.
pub next-IsFree :
    (d : Dict String SessionState) (ts : List Task) (n : ℕ) → IsOwned d ts n → IsFree n d ts (n + 1)
next-IsFree d ts n o = record {
  unheld = λ a p. omega (arith, o.known a n p);
  untasked = o.unborn n (omega arith);
  born = omega arith;
}

pub next-IsOwned :
    (d : Dict String SessionState) (ts : List Task) (n : ℕ) → IsOwned d ts n → IsOwned d ts (n + 1)
next-IsOwned d ts n o = record {
  one_session = o.one_session;
  no_task = o.no_task;
  known = λ a h p. omega (arith, o.known a h p);
  one_task = o.one_task;
  unborn = λ h p. o.unborn h (omega (arith, p));
}

pub empty-IsOwned : IsOwned [] [] 0
unfolding held tasked get
empty-IsOwned = record {
  one_session = λ a b h p q. ground (arith, p);
  no_task = λ a h p. refl;
  known = λ a h p. ground (arith, p);
  one_task = λ h. omega arith;
  unborn = λ h p. refl;
}
