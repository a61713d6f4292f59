-- ===== src/Client/TickSpool.antt =====
-- packages/sdk/src/interlatent/inference/client/spool.py, `TickSpool`: the journal of one session's
-- ticks, its index in memory and its `.tick` files. Whether a write succeeds, and how much disk is
-- free, are arguments; an `unlink` after an acknowledgement succeeds. A tick is a list of bytes.
pub mod Keeping
pub mod Batches
pub mod Ordering
mod Examples
use interlatent.Base.{
  ℕ, zero, suc, ◌+◌, ◌-◌, ◌*◌, max, Bool, true, false, not, ◌&&◌, ◌||◌, Option, none, some, List,
  [], ◌∷◌, ◌++◌, map, sum, length, take, ltb, leb, ◌==◌, if◌then◌else◌,
}
use interlatent.Base.Dict.{Dict, ℕ_key, values, get, put, remove}
use interlatent.Client.ActionSchedule.{sorted}

pub record TickSpool : Type 0 where
  pub files : Dict ℕ (List ℕ)
  pub pending : Dict ℕ ℕ
  pub order : List ℕ
  pub bytes : ℕ
  pub next_seq : ℕ
  pub blocked : Bool
  pub max_bytes : ℕ
  pub min_free : ℕ

-- `(self._order[-1] + 1) if self._order else 0`
unfoldable pub next_after : List ℕ → ℕ
next_after [] = 0
next_after (q ∷ []) = q + 1
next_after (q ∷ r ∷ rest) = next_after (r ∷ rest)

-- The index that is rebuilt from the files.
unfoldable pub open_spool : Dict ℕ (List ℕ) → ℕ → ℕ → TickSpool
open_spool files max_bytes min_free =
    let sizes = map (λ e. (e.0, length e.1)) files in
    let order = sorted (map (λ e. e.0) files) in
    record {
      files = files;
      pending = sizes;
      order = order;
      bytes = sum (values sizes);
      next_seq = next_after order;
      blocked = false;
      max_bytes = max_bytes;
      min_free = min_free;
    }

-- `blocked`, which also remembers its answer: a blocked spool resumes below 8/10 of the cap.
unfoldable pub check_blocked : TickSpool → ℕ → TickSpool × Bool
check_blocked s free =
    let over_cap = leb s.max_bytes s.bytes || (s.blocked && leb (8 * s.max_bytes) (10 * s.bytes)) in
    let now_blocked = over_cap || ltb free s.min_free in
    (record s { blocked = now_blocked }, now_blocked)

-- `written` says whether the tick could be written and renamed.
unfoldable pub append_tick : TickSpool → List ℕ → Bool → TickSpool × Option ℕ
append_tick s payload false = (record s { next_seq = s.next_seq + 1 }, none)
append_tick s payload true = (
  record s {
    files = put s.next_seq payload s.files;
    pending = put s.next_seq (length payload) s.pending;
    order = s.order ++ s.next_seq ∷ [];
    bytes = s.bytes + length payload;
    next_seq = s.next_seq + 1;
  },
  some s.next_seq,
)

-- `deque.remove`, of the first occurrence
unfoldable pub remove_first : ℕ → List ℕ → List ℕ
remove_first q [] = []
remove_first q (r ∷ rest) = let later = remove_first q rest in if q == r then rest else r ∷ later

unfoldable pub forget : TickSpool → ℕ → TickSpool
forget s seq = elim (get seq s.pending) [
  | none ↦ s
  | some size ↦ record s {
    pending = remove seq s.pending;
    bytes = s.bytes - size;
    order = remove_first seq s.order;
  }
]

-- `path.read_bytes()`; `readable` says which reads raise no `OSError` of their own.
unfoldable pub read_tick : (ℕ → Bool) → TickSpool → ℕ → Option (List ℕ)
read_tick readable s seq = if readable seq then get seq s.files else none

-- The loop of `peek_batch`, which forgets each tick whose read raises; `started` says whether the batch holds a tick yet.
unfoldable pub peek_from :
    (ℕ → Bool) → ℕ → Bool → ℕ → List ℕ → TickSpool → TickSpool × List (ℕ × List ℕ)
unfolding read_tick
peek_from readable max_total started total [] s = (s, [])
peek_from readable max_total started total (seq ∷ seqs) s = elim (read_tick readable s seq) [
  | none ↦ peek_from readable max_total started total seqs (forget s seq)
  | some payload ↦
      let (t, out) = peek_from readable max_total true (total + length payload) seqs s in
      if started && ltb max_total (total + length payload)
      then (s, [])
      else (t, (seq, payload) ∷ out)
]

unfoldable pub peek_batch : (ℕ → Bool) → TickSpool → ℕ → ℕ → TickSpool × List (ℕ × List ℕ)
peek_batch readable s max_ticks max_total =
    peek_from readable max_total false 0 (take (max 1 max_ticks) s.order) s

-- An acknowledged tick leaves the index and the disk.
unfoldable pub drop_acked : TickSpool → ℕ → TickSpool
drop_acked s seq = elim (get seq s.pending) [
  | none ↦ record s { files = remove seq s.files }
  | some size ↦ record s {
    files = remove seq s.files;
    pending = remove seq s.pending;
    bytes = s.bytes - size;
  }
]

-- The loop of `ack` over the order that is left.
unfoldable pub ack_from : ℕ → List ℕ → TickSpool → TickSpool
ack_from through_seq [] s = record s { order = [] }
ack_from through_seq (q ∷ rest) s =
    let acked = ack_from through_seq rest (drop_acked s q) in
    if leb q through_seq then acked else record s { order = q ∷ rest }

unfoldable pub ack : TickSpool → ℕ → TickSpool
ack s through_seq = ack_from through_seq s.order s
