-- ===== src/Tests/Snapshots.antt =====
-- Snapshots: a store of 64 bytes, and reads of its bytes.
use r9p.Base.{[], ◌∷◌, ◌≡◌, take, drop, arith}
use r9p.Snapshot.{snapshots_new, read_bytes}
use r9p.Snapshot.Bounds.{IsExact, run, captures, removes, run-IsExact}
use r9p.Snapshot.Reads.{read_bytes_lem}

run-IsExact_example : IsExact (
    run (snapshots_new 64) (
      captures 7 (1 ∷ 2 ∷ 3 ∷ []) ∷ captures 7 (4 ∷ []) ∷ captures 8 (5 ∷ 6 ∷ []) ∷ removes 7 ∷ []))
run-IsExact_example =
    run-IsExact 64
      (captures 7 (1 ∷ 2 ∷ 3 ∷ []) ∷ captures 7 (4 ∷ []) ∷ captures 8 (5 ∷ 6 ∷ []) ∷ removes 7 ∷ [])

read_bytes_lem_example : read_bytes (1 ∷ 2 ∷ 3 ∷ 4 ∷ []) 1 9 ≡ take 9 (drop 1 (1 ∷ 2 ∷ 3 ∷ 4 ∷ []))
read_bytes_lem_example = read_bytes_lem (1 ∷ 2 ∷ 3 ∷ 4 ∷ []) 1 9 (omega arith)
