-- ===== src/Relay/Streams.antt =====
-- relay_core.py, `StreamForwardTable`: the streams of one connection that are being copied, and
-- those that were refused. A stream's outgoing half is an opaque handle.
use interlatent.Base.{
  ℕ, ◌+◌, ◌-◌, Bool, false, Option, none, some, List, [], is_some, length, drop, leb, ltb,
}
use interlatent.Base.Dict.{Dict, ℕ_key, values, get, put, remove}
use mathlib.Core.List.{map}

abbrev pub max_forwards_per_conn : ℕ
max_forwards_per_conn = 8

abbrev pub max_forward_stream_bytes : ℕ
max_forward_stream_bytes = 262144

abbrev pub max_dropped_tracked : ℕ
max_dropped_tracked = 1024

-- `[out_ref, bytes_so_far]`
pub record Entry (R : Type 0) : Type 0 where
  pub out_ref : R
  pub bytes_so_far : ℕ

pub record StreamForwardTable (R : Type 0) : Type 0 where
  pub active : Dict ℕ (Entry R)
  pub dropped : Dict ℕ Unit

-- `while len(d) > n: d.pop(next(iter(d)))`: the oldest entries go.
unfoldable pub prune : ℕ → Dict ℕ Unit → Dict ℕ Unit
prune n d = drop (length d - n) d

module _ {R : Type 0} where
  abbrev pub empty_table : StreamForwardTable R
  empty_table = record { active = []; dropped = [] }

  abbrev pub ref_of : Option (Entry R) → Option R
  ref_of none = none
  ref_of (some e) = some e.out_ref

  unfoldable pub get_ref : StreamForwardTable R → ℕ → Option R
  get_ref t in_sid = ref_of (get in_sid t.active)

  unfoldable pub can_open : StreamForwardTable R → Bool
  can_open t = ltb (length t.active) max_forwards_per_conn

  unfoldable pub open_ref : StreamForwardTable R → ℕ → R → StreamForwardTable R
  open_ref t in_sid ref = record t {
    active = put in_sid (record { out_ref = ref; bytes_so_far = 0 }) t.active;
  }

  -- The table with the bytes counted, and whether the stream is within its budget.
  unfoldable pub note_bytes : StreamForwardTable R → ℕ → ℕ → StreamForwardTable R × Bool
  note_bytes t in_sid n = elim (get in_sid t.active) [
    | none ↦ (t, false)
    | some e ↦
        let total = e.bytes_so_far + n in
        (
          record t { active = put in_sid (record e { bytes_so_far = total }) t.active },
          leb total max_forward_stream_bytes,
        )
  ]

  unfoldable pub remove_ref : StreamForwardTable R → ℕ → StreamForwardTable R × Option R
  remove_ref t in_sid = (record t { active = remove in_sid t.active }, ref_of (get in_sid t.active))

  unfoldable pub is_dropped : StreamForwardTable R → ℕ → Bool
  is_dropped t in_sid = is_some (get in_sid t.dropped)

  unfoldable pub drop_stream : StreamForwardTable R → ℕ → StreamForwardTable R
  drop_stream t in_sid = record t { dropped = prune max_dropped_tracked (put in_sid tt t.dropped) }

  unfoldable pub forget_dropped : StreamForwardTable R → ℕ → StreamForwardTable R
  forget_dropped t in_sid = record t { dropped = remove in_sid t.dropped }

  unfoldable pub drain : StreamForwardTable R → StreamForwardTable R × List R
  drain t = (empty_table, map (λ e. e.out_ref) (values t.active))

  unfoldable pub active_count : StreamForwardTable R → ℕ
  active_count t = length t.active
