-- ===== src/Stat/Directory.antt =====
-- `dirread_chunk`: the part of a directory stream that one read returns. A `u64` position and a
-- `usize` length saturate; a stat is encoded when the loop reaches it.
use r9p.Base.{
  ℕ, ◌+◌, ◌-◌, ◌^◌, min, Bytes, List, [], ◌∷◌, ◌++◌, length, ltb, leb, if◌then◌else◌, Result, ok,
  err,
}
use r9p.Stat.{Stat, encode}

abbrev pub sat_add64 : ℕ → ℕ → ℕ
sat_add64 a b = min (a + b) (2 ^ 64 - 1)

unfoldable pub dirread_loop : List Stat → ℕ → ℕ → Bytes → ℕ → Result Bytes
dirread_loop [] offset limit out position = ok out
dirread_loop (stat ∷ stats) offset limit out position = elim (encode stat) [
  | err e ↦ err e
  | ok encoded ↦
      let next = sat_add64 position (length encoded) in
      let skipped = dirread_loop stats offset limit out next in
      let taken = dirread_loop stats offset limit (out ++ encoded) next in
      if leb next offset
      then skipped
      else if ltb position offset
      then ok out
      else if ltb limit (sat_add64 (length out) (length encoded))
      then ok out
      else taken
]

unfoldable pub dirread_chunk : List Stat → ℕ → ℕ → Result Bytes
dirread_chunk stats offset count = dirread_loop stats offset count [] 0
