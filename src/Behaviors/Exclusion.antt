-- ===== src/Behaviors/Exclusion.antt =====
-- One process at a time drives a bus, as long as nobody forces its way.
mod Examples
use interlatent.Base.{
  ℕ, ◌<◌, String, string_key, string_discrete, Bool, true, false, not, ◌&&◌, ◌||◌, Option, none,
  some, List, [], ◌∷◌, ◌==◌, if◌then◌else◌, All, ◌≡◌, ◌≢◌, refl, arith, Option-cases, Bool-cases,
  inl, inr,
}
use interlatent.Base.Dict.{get, put, remove, get-put, get-remove}
use interlatent.Behaviors.Arbitration.{
  Locks, pid_alive, held_by_other, may_acquire, write_lock, acquire_bus_lock, release,
}

-- What a process does to the lock files, whole or, for a claim, in its two halves.
pub data Act : Type 0 where
  acquires : (key : String) (own : ℕ) (serial_conflict : Bool) → Act
  releases : (key : String) (own : ℕ) → Act

abbrev pub actor : Act → ℕ
actor (acquires key own serial_conflict) = own
actor (releases key own) = own

module _ (signalled : ℕ → Bool) where
  unfoldable pub act : Locks → Act → Locks
  act locks (acquires key own serial_conflict) =
      (acquire_bus_lock signalled serial_conflict locks key own false).0
  act locks (releases key own) = release locks key own

  unfoldable pub act_all : Locks → List Act → Locks
  act_all locks [] = locks
  act_all locks (x ∷ xs) = act_all (act locks x) xs

  act-holder :
      (locks : Locks) (key : String) (pid : ℕ) (x : Act)
      → pid_alive signalled pid ≡ true
      → actor x ≢ pid
      → get key locks ≡ some pid
      → get key (act locks x) ≡ some pid
  unfolding act acquire_bus_lock may_acquire held_by_other write_lock release pid_alive
  act-holder locks key pid (acquires other own serial) a n h = elim (string_discrete other key) [
    | yes p ↦ ground (arith, a, n, h, p, get-put other key own locks)
    | no p ↦ ground (arith, h, p, get-put other key own locks)
  ]
  act-holder locks key pid (releases other own) a n h = elim (string_discrete other key) [
    | yes p ↦ ground (arith, a, n, h, p, get-remove other key locks)
    | no p ↦ ground (arith, h, p, get-remove other key locks)
  ]

  -- While a process that holds a bus is alive, other processes that do not force their way leave
  -- it the lock, whatever they claim and release, each in one piece.
  pub act_all-holder :
      (locks : Locks) (key : String) (pid : ℕ) (xs : List Act)
      → pid_alive signalled pid ≡ true
      → All (λ x. actor x ≢ pid) xs
      → get key locks ≡ some pid
      → get key (act_all locks xs) ≡ some pid
  unfolding act_all
  act_all-holder locks key pid [] a n h = h
  act_all-holder locks key pid (x ∷ xs) a n h =
      act_all-holder (act locks x) key pid xs a n.1 (act-holder locks key pid x a n.0 h)
