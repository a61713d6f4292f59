-- ===== src/Client/TickSpool/Examples.antt =====
-- Ticks that outlive a crash.
use interlatent.Base.{ℕ, Bool, not, ◌==◌, max, true, false, List, [], ◌∷◌}
use interlatent.Base.Dict.{ℕ_key}
use interlatent.Client.TickSpool.{TickSpool, peek_batch}
use interlatent.Client.TickSpool.Keeping.{Call, appends, acks, peeks, checks_blocked, crashes}
use interlatent.Client.TickSpool.Batches.{IsBatch, peek_batch-IsBatch}

-- Ticks 4 and 5 are due.
abbrev spool : TickSpool
spool = record {
  files = (4, 1 ∷ 2 ∷ []) ∷ (5, 3 ∷ []) ∷ [];
  pending = (4, 2) ∷ (5, 1) ∷ [];
  order = 4 ∷ 5 ∷ [];
  bytes = 3;
  next_seq = 6;
  blocked = false;
  max_bytes = 1024;
  min_free = 0;
}

-- The read of tick 5 raises.
abbrev readable : ℕ → Bool
readable seq = not (seq == 5)

abbrev calls : List Call
calls =
    appends (8 ∷ []) true
    ∷ peeks readable 16 1000
    ∷ acks 5
    ∷ crashes
    ∷ appends [] false
    ∷ checks_blocked 9
    ∷ []

peek_batch-IsBatch_example : IsBatch spool 2 false 0 (max 1 16) (peek_batch readable spool 16 2).1
peek_batch-IsBatch_example = peek_batch-IsBatch readable spool 16 2
