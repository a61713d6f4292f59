-- ===== src/Behaviors/Exclusion/Examples.antt =====
-- Process 10 holds a bus that process 20 asks for.
use interlatent.Base.{
  ℕ, string_key, string_discrete, Bool, true, false, some, List, [], ◌∷◌, arith, refl, ◌≡◌,
}
use interlatent.Base.Dict.{get}
use interlatent.Behaviors.Arbitration.{Locks, pid_alive}
use interlatent.Behaviors.Exclusion.{Act, acquires, releases, act_all, act_all-holder}

abbrev everyone : ℕ → Bool
everyone pid = true

abbrev held : Locks
held = ("can0", 10) ∷ []

abbrev acts : List Act
acts = acquires "can0" 20 false ∷ releases "can0" 20 ∷ acquires "can1" 20 false ∷ []

act_all-holder_example : get "can0" (act_all everyone held acts) ≡ some 10
unfolding pid_alive get string_discrete
act_all-holder_example =
    act_all-holder everyone held "can0" 10 acts refl (omega arith, (omega arith, (omega arith, tt)))
      refl
