-- ===== src/Snapshot.antt =====
-- crates/core/src/server/read_snapshot.rs: bounded byte snapshots of opened fids. `usize` has 64 bits,
-- so the conversions of a `u64` offset and a `u32` count succeed.
pub mod Bounds
pub mod Reads
use r9p.Base.{
  ℕ, ◌+◌, ◌-◌, ◌^◌, min, Bool, ◌&&◌, ◌||◌, Bytes, [], Option, none, some, length, take, drop, ltb,
  leb, ◌==◌, if◌then◌else◌, Result, ok, err, from_static,
}
use r9p.Base.Map.{Map, lookup, insert, remove, contains_key}

pub record FidReadSnapshots : Type 0 where
  pub snapshots : Map Bytes
  pub snapshot_bytes : ℕ
  pub max_bytes : ℕ

unfoldable pub snapshots_new : ℕ → FidReadSnapshots
snapshots_new max_bytes = record { snapshots = []; snapshot_bytes = 0; max_bytes = max_bytes }

unfoldable pub contains : FidReadSnapshots → ℕ → Bool
contains s fid = contains_key fid s.snapshots

-- `checked_add` and the filter behind it.
unfoldable pub has_room : FidReadSnapshots → Bytes → Bool
has_room s bytes =
    ltb (s.snapshot_bytes + length bytes) (2 ^ 64)
    && leb (s.snapshot_bytes + length bytes) s.max_bytes

unfoldable pub capture : FidReadSnapshots → ℕ → Bytes → Result FidReadSnapshots
capture s fid bytes =
    if contains s fid
    then err (from_static "read snapshot already captured")
    else if has_room s bytes
    then ok (record s {
      snapshots = insert fid bytes s.snapshots;
      snapshot_bytes = s.snapshot_bytes + length bytes;
    })
    else err (from_static "read snapshot capacity exhausted")

-- `bytes[offset..end]`, the end saturated and cut to the length.
abbrev pub slice : Bytes → ℕ → ℕ → Bytes
slice bytes offset end = take (end - offset) (drop offset bytes)

unfoldable pub read_bytes : Bytes → ℕ → ℕ → Bytes
read_bytes bytes offset count =
    if leb (length bytes) offset || count == 0
    then []
    else slice bytes offset (min (min (offset + count) (2 ^ 64 - 1)) (length bytes))

unfoldable pub read_snapshot : FidReadSnapshots → ℕ → ℕ → ℕ → Result Bytes
read_snapshot s fid offset count = elim (lookup fid s.snapshots) [
  | none ↦ err (from_static "unknown fid")
  | some bytes ↦ ok (read_bytes bytes offset count)
]

-- `saturating_sub` is the subtraction of ℕ.
unfoldable pub remove_snapshot : FidReadSnapshots → ℕ → FidReadSnapshots
remove_snapshot s fid = elim (lookup fid s.snapshots) [
  | none ↦ s
  | some bytes ↦ record s {
    snapshots = remove fid s.snapshots;
    snapshot_bytes = s.snapshot_bytes - length bytes;
  }
]

unfoldable pub clear : FidReadSnapshots → FidReadSnapshots
clear s = record s { snapshots = []; snapshot_bytes = 0 }
