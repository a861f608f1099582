-- ===== src/Stat/Decode.antt =====
-- `Stat::decode`, and `decode_dir_entries` on a stream of stat records.
use r9p.Base.{
  ℕ, zero, suc, ◌+◌, Bytes, List, [], ◌∷◌, ◌++◌, length, take, drop, get_or, ltb, leb, ◌==◌, true,
  false, if◌then◌else◌, Option, none, some, Result, ok, err, ◌>>=◌, ◌>>◌, ensure, from_static,
}
use r9p.Wire.{cursor_new, remaining, read_u16, from_le, usize_limit}
use r9p.Stat.{Stat}
use r9p.Stat.Fields.{read_fields}

unfoldable pub decode : Bytes → Result Stat
decode encoded = do
  (size, cursor) ← read_u16 (cursor_new encoded)
  ensure (size == remaining cursor) (from_static "stat size mismatch")
  (stat, cursor) ← read_fields cursor
  ensure (remaining cursor == 0) (from_static "trailing stat bytes")
  ok stat

-- One round of the loop: the entry at `offset`, and the offset behind it.
unfoldable pub next_entry : Bytes → ℕ → Result (Stat × ℕ)
next_entry data' offset = do
  let rest = drop offset data'
  ensure (leb 2 (length rest)) (from_static "truncated directory stat")
  let size = from_le (get_or rest 0 0 ∷ get_or rest 1 0 ∷ [])
  let end = offset + (size + 2)
  ensure (ltb end usize_limit) (from_static "directory stat overflow")
  ensure (leb end (length data')) (from_static "truncated directory stat")
  stat ← decode (take (size + 2) rest)
  ok (stat, end)

-- `while offset < data.len()`. `none` is no value of the source: the fuel ran out.
unfoldable pub decode_dir_loop : ℕ → Bytes → ℕ → List Stat → Option (Result (List Stat))
decode_dir_loop zero data' offset entries =
    if ltb offset (length data') then none else some (ok entries)
decode_dir_loop (suc fuel) data' offset entries = elim (ltb offset (length data')) [
  | true ↦ elim (next_entry data' offset) [
    | ok (stat, end) ↦ decode_dir_loop fuel data' end (entries ++ (stat ∷ []))
    | err e ↦ some (err e)
  ]
  | false ↦ some (ok entries)
]

-- Each round moves the offset by at least two bytes, so `length` rounds are enough.
unfoldable pub decode_dir_entries : Bytes → Option (Result (List Stat))
decode_dir_entries data' = decode_dir_loop (length data') data' 0 []
