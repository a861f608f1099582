-- ===== src/Snapshot/Bounds.antt =====
-- The byte count of the snapshots is exact and within its bound.
use r9p.Base.{
  ℕ, ◌+◌, ◌≤◌, ◌≡◌, refl, ap, subst, Result-cases, ◌==◌, ==_iff, true, false, Bool-cases,
  Option-cases, inl, inr, List, [], ◌∷◌, Bytes, none, some, length, ok, err, arith,
}
use r9p.Base.Map.{Map, lookup, insert, remove, lookup-remove, Distinct, Distinct-insert}
use r9p.Snapshot.{
  FidReadSnapshots, contains, has_room, capture, remove_snapshot, clear, snapshots_new,
}

-- The bytes of all snapshots.
unfoldable pub total : Map Bytes → ℕ
total [] = 0
total ((fid, bytes) ∷ m) = length bytes + total m

pub record IsExact (s : FidReadSnapshots) : Type 0 where
  pub counted : s.snapshot_bytes ≡ total s.snapshots
  pub bounded : s.snapshot_bytes ≤ s.max_bytes
  pub distinct : Distinct s.snapshots

total-insert :
    (fid : ℕ) (bytes : Bytes) (m : Map Bytes)
    → lookup fid m ≡ none
    → total (insert fid bytes m) ≡ total m + length bytes
unfolding total lookup insert
total-insert fid bytes [] e = omega arith
total-insert fid bytes ((j, old) ∷ m) e = ground (arith, total-insert fid bytes m)

remove_missing : (fid : ℕ) (m : Map Bytes) → lookup fid m ≡ none → remove fid m ≡ m
unfolding lookup remove
remove_missing fid [] e = refl
remove_missing fid ((j, old) ∷ m) e = ground (arith, remove_missing fid m)

found_here :
    (fid j : ℕ) (old : Bytes) (m : Map Bytes) {bytes : Bytes}
    → (j == fid) ≡ true
    → lookup fid ((j, old) ∷ m) ≡ some bytes
    → old ≡ bytes
unfolding lookup
found_here fid j old m same e = ground arith

found_later :
    (fid j : ℕ) (old : Bytes) (m : Map Bytes) {bytes : Bytes}
    → (j == fid) ≡ false
    → lookup fid ((j, old) ∷ m) ≡ some bytes
    → lookup fid m ≡ some bytes
unfolding lookup
found_later fid j old m other e = ground arith

total-remove :
    (fid : ℕ) (m : Map Bytes) {bytes : Bytes}
    → Distinct m
    → lookup fid m ≡ some bytes
    → total (remove fid m) + length bytes ≡ total m
unfolding total lookup remove
total-remove fid [] d e = cc
total-remove fid ((j, old) ∷ m) d e = elim (Bool-cases (j == fid)) [
  | inl same ↦
      rw (same, remove)
        (omega (
          arith,
          ap total
              (remove_missing fid m (subst (λ x. lookup x m ≡ none) ((==_iff j fid).0 same) d.0)),
          ap length (found_here fid j old m same e),
        ))
  | inr other ↦
      rw (other, remove) (omega (arith, total-remove fid m d.1 (found_later fid j old m other e)))
]

remove-Distinct : (fid : ℕ) (m : Map Bytes) → Distinct m → Distinct (remove fid m)
unfolding remove
remove-Distinct fid [] d = tt
remove-Distinct fid ((j, old) ∷ m) d = elim (Bool-cases (j == fid)) [
  | inl same ↦ rw (same, remove) (remove-Distinct fid m d.1)
  | inr other ↦
      rw (other, remove) (ground (arith, d.0, lookup-remove fid j m), remove-Distinct fid m d.1)
]

capture_ok :
    (s : FidReadSnapshots) (fid : ℕ) (bytes : Bytes) {s' : FidReadSnapshots}
    → capture s fid bytes ≡ ok s'
    → (lookup fid s.snapshots ≡ none)
      × (s.snapshot_bytes + length bytes ≤ s.max_bytes)
      × (s' ≡ record s {
        snapshots = insert fid bytes s.snapshots;
        snapshot_bytes = s.snapshot_bytes + length bytes;
      })
unfolding capture contains has_room
capture_ok s fid bytes {s' = s'} e = (ground arith, ground arith, ground arith)

capture-IsExact :
    (s : FidReadSnapshots) (fid : ℕ) (bytes : Bytes) {s' : FidReadSnapshots}
    → IsExact s
    → capture s fid bytes ≡ ok s'
    → IsExact s'
capture-IsExact s fid bytes h e =
    let (fresh, room, shape) = capture_ok s fid bytes e in
    rw shape (record {
      counted = omega (arith, h.counted, total-insert fid bytes s.snapshots fresh);
      bounded = room;
      distinct = Distinct-insert fid bytes s.snapshots h.distinct;
    })

remove_snapshot-IsExact :
    (s : FidReadSnapshots) (fid : ℕ) → IsExact s → IsExact (remove_snapshot s fid)
unfolding remove_snapshot
remove_snapshot-IsExact s fid h = elim (Option-cases (lookup fid s.snapshots)) [
  | inl missing ↦ rw (missing, remove_snapshot) h
  | inr (bytes, found) ↦
      rw (found, remove_snapshot)
        (record {
          counted = omega (arith, h.counted, total-remove fid s.snapshots h.distinct found);
          bounded = omega (arith, h.bounded);
          distinct = remove-Distinct fid s.snapshots h.distinct;
        })
]

clear-IsExact : (s : FidReadSnapshots) → IsExact (clear s)
unfolding clear total
clear-IsExact s = record { counted = refl; bounded = omega arith; distinct = tt }

-- The operations that change the store, in any order.
pub data Op : Type 0 where
  captures : ℕ → Bytes → Op
  removes : ℕ → Op
  clears : Op

unfoldable pub apply : FidReadSnapshots → Op → FidReadSnapshots
apply s (captures fid bytes) = elim (capture s fid bytes) [ ok s' ↦ s' | err _ ↦ s ]
apply s (removes fid) = remove_snapshot s fid
apply s clears = clear s

unfoldable pub run : FidReadSnapshots → List Op → FidReadSnapshots
run s [] = s
run s (op ∷ ops) = run (apply s op) ops

apply-IsExact : (s : FidReadSnapshots) (op : Op) → IsExact s → IsExact (apply s op)
unfolding apply
apply-IsExact s (captures fid bytes) h = elim (Result-cases (capture s fid bytes)) [
  | inl (s', good) ↦ rw (good, apply) (capture-IsExact s fid bytes h good)
  | inr (e, bad) ↦ rw (bad, apply) h
]
apply-IsExact s (removes fid) h = remove_snapshot-IsExact s fid h
apply-IsExact s clears h = clear-IsExact s

run_any-IsExact : (s : FidReadSnapshots) (ops : List Op) → IsExact s → IsExact (run s ops)
unfolding run
run_any-IsExact s [] h = h
run_any-IsExact s (op ∷ ops) h = run_any-IsExact (apply s op) ops (apply-IsExact s op h)

-- After any operations on a new store, the byte count is the sum of the snapshots' lengths, at most
-- the bound, and no fid has two snapshots.
pub run-IsExact : (max_bytes : ℕ) (ops : List Op) → IsExact (run (snapshots_new max_bytes) ops)
unfolding snapshots_new total
run-IsExact max_bytes ops =
    run_any-IsExact (snapshots_new max_bytes) ops
      (record { counted = refl; bounded = omega arith; distinct = tt })
