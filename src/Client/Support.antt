-- ===== src/Client/Support.antt =====
-- crates/core/src/client_support.rs: checks of the counts that a server reports, a bounded read of one
-- record, and a write in chunks. The closures that read and write once are parameters, over a state
-- of any type.
use r9p.Base.{
  ℕ, zero, suc, ◌+◌, ◌-◌, ◌^◌, true, false, not, Bytes, [], ◌∷◌, ◌++◌, Option, none, some, length,
  take, drop, ltb, leb, ◌==◌, if◌then◌else◌, Result, ok, err, ◌>>=◌, ◌>>◌, ensure, from_static,
}
use r9p.Base.Run.{Run}

unfoldable pub checked_read_data : Bytes → ℕ → Result Bytes
checked_read_data payload requested = do
  ensure (ltb (length payload) (2 ^ 32)) (from_static "read count overflow")
  ensure (leb (length payload) requested)
      (from_static "9P server reported more bytes read than requested")
  ok payload

unfoldable pub checked_write_count : ℕ → ℕ → Result ℕ
checked_write_count count requested = do
  ensure (leb count requested) (from_static "9P server reported more bytes written than requested")
  ok count

unfoldable pub checked_advance_offset : ℕ → ℕ → Result ℕ
checked_advance_offset offset count = do
  ensure (ltb (offset + count) (2 ^ 64)) (from_static "9P offset overflow")
  ok (offset + count)

-- `iter().position(|byte| *byte == delimiter)`.
unfoldable pub position : ℕ → Bytes → Option ℕ
position delimiter [] = none
position delimiter (b ∷ rest) =
    if b == delimiter
    then some 0
    else elim (position delimiter rest) [ none ↦ none | some i ↦ some (suc i) ]

-- What one round of a read decides: the record is complete, or reading goes on at an offset with so
-- many bytes left.
pub data ReadRound : Type 0 where
  complete : Bytes → ReadRound
  continue : ℕ → ℕ → Bytes → ReadRound

-- The round's data, its tests in the order of the source.
unfoldable pub read_round : ℕ → ℕ → ℕ → Bytes → Result Bytes → Result ReadRound
unfolding checked_read_data checked_advance_offset
read_round delimiter offset remaining out answer = do
  received ← answer
  payload ← checked_read_data received remaining
  ensure (not (length payload == 0)) (from_static "9P read reached EOF before the record delimiter")
  elim (position delimiter payload) [
    | some i ↦
        if i + 1 == length payload
        then ok (complete (out ++ payload))
        else err (from_static "9P read returned bytes after the record delimiter")
    | none ↦ do
      offset' ← checked_advance_offset offset (length payload)
      ok (continue offset' (remaining - length payload) (out ++ payload))
  ]

-- What one round of a write decides: the count of this round, the total and the next offset.
unfoldable pub write_round : ℕ → Bytes → ℕ → Result ℕ → Result (ℕ × ℕ × ℕ)
unfolding checked_write_count checked_advance_offset
write_round offset chunk total answer = do
  reported ← answer
  ensure (not (reported == 0)) (from_static "zero-length 9P write progress")
  count ← checked_write_count reported (length chunk)
  ensure (ltb (total + count) (2 ^ 32)) (from_static "aggregate write count overflow")
  offset' ← checked_advance_offset offset count
  ok (count, total + count, offset')

module _ {S : Type 0} where
  -- The loop by fuel, over its variables.
  unfoldable pub read_delimited_loop : (ℕ → ℕ → Run S Bytes) → ℕ → ℕ → ℕ → ℕ → Bytes → Run S Bytes
  read_delimited_loop read_once delimiter zero offset remaining out s = none
  read_delimited_loop read_once delimiter (suc n) offset remaining out s = elim (remaining == 0) [
    | true ↦
        some (err (from_static "9P read reached its byte bound before the record delimiter"), s)
    | false ↦ elim (read_once offset remaining s) [
      | none ↦ none
      | some (answer, s') ↦ elim (read_round delimiter offset remaining out answer) [
        | err e ↦ some (err e, s')
        | ok round ↦ elim round [
          | complete whole ↦ some (ok whole, s')
          | continue offset' remaining' out' ↦
              read_delimited_loop read_once delimiter n offset' remaining' out' s'
        ]
      ]
    ]
  ]

  -- Each round lowers `remaining`, so `count` rounds and one to stop are enough.
  unfoldable pub read_delimited_with : (ℕ → ℕ → Run S Bytes) → ℕ → ℕ → ℕ → Run S Bytes
  read_delimited_with read_once offset count delimiter s =
      if count == 0
      then some (err (from_static "delimiter-terminated 9P read requires a nonzero byte bound"), s)
      else read_delimited_loop read_once delimiter (count + 1) offset count [] s

  -- The loop by fuel, over its variables.
  unfoldable pub write_loop : (ℕ → Bytes → Run S ℕ) → ℕ → ℕ → ℕ → Bytes → ℕ → Run S ℕ
  write_loop write_once most zero offset payload total s = none
  write_loop write_once most (suc n) offset payload total s = elim (length payload == 0) [
    | true ↦ some (ok total, s)
    | false ↦ elim (write_once offset (take most payload) s) [
      | none ↦ none
      | some (answer, s') ↦ elim (write_round offset (take most payload) total answer) [
        | err e ↦ some (err e, s')
        | ok (count, total', offset') ↦ elim (ltb count (length (take most payload))) [
          | true ↦ some (ok total', s')
          | false ↦ write_loop write_once most n offset' (drop count payload) total' s'
        ]
      ]
    ]
  ]

  -- Each round drops a byte at least, so a round for each byte and one to stop are enough.
  unfoldable pub write_in_chunks : (ℕ → Bytes → Run S ℕ) → ℕ → ℕ → Bytes → Run S ℕ
  write_in_chunks write_once max_write_payload offset payload s =
      if length payload == 0
      then write_once offset payload s
      else write_loop write_once max_write_payload (length payload + 1) offset payload 0 s
