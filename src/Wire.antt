-- ===== src/Wire.antt =====
-- crates/core/src/stat.rs, lines 164 to 255: the `push_*` writers and the `Cursor` that reads them
-- back. The cursor keeps the unread bytes `data[position..]` in place of the whole slice; `usize`
-- has 64 bits. A read is a function of the cursor, and its `?` is the bind of `Reader`.
pub mod Reads
use r9p.Base.{
  ℕ, zero, suc, ◌+◌, ◌*◌, ◌/◌, ◌%◌, ◌^◌, Bytes, List, [], ◌∷◌, ◌++◌, length, take, drop, ltb, leb,
  get_or, if◌then◌else◌, Result, ok, err, from_static,
}
use r9p.Qid.{Qid}

-- `value.to_le_bytes()` at a width in bytes, and `from_le_bytes`.
unfoldable pub to_le : ℕ → ℕ → Bytes
to_le zero v = []
to_le (suc w) v = (v % 256) ∷ to_le w (v / 256)

unfoldable pub from_le : Bytes → ℕ
from_le [] = 0
from_le (b ∷ bs) = b + 256 * from_le bs

unfoldable pub push_u8 : Bytes → ℕ → Bytes
push_u8 out value = out ++ (value ∷ [])

unfoldable pub push_u16 : Bytes → ℕ → Bytes
push_u16 out value = out ++ to_le 2 value

unfoldable pub push_u32 : Bytes → ℕ → Bytes
push_u32 out value = out ++ to_le 4 value

unfoldable pub push_u64 : Bytes → ℕ → Bytes
push_u64 out value = out ++ to_le 8 value

unfoldable pub push_qid : Bytes → Qid → Bytes
push_qid out qid = push_u64 (push_u32 (push_u8 out qid.qtype) qid.version) qid.path

unfoldable pub push_string : Bytes → Bytes → Result Bytes
push_string out value =
    if ltb (length value) (2 ^ 16)
    then ok (push_u16 out (length value) ++ value)
    else err (from_static "string too large")

pub record Cursor : Type 0 where
  pub position : ℕ
  pub rest : Bytes

abbrev pub usize_limit : ℕ
usize_limit = 2 ^ 64

abbrev pub Reader {ℓ} : Type ℓ → Type ℓ
Reader A = Cursor → Result (A × Cursor)

infixl 5 ◌>>=◌ ◌>>◌
unfoldable pub ◌>>=◌ {ℓ κ} : {A : Type ℓ} {B : Type κ} → Reader A → (A → Reader B) → Reader B
◌>>=◌ m f c = elim (m c) [ ok (a, c') ↦ f a c' | err e ↦ err e ]

unfoldable pub ◌>>◌ {ℓ} : {B : Type ℓ} → Reader (Unit {0}) → Reader B → Reader B
m >> k = m >>= λ _. k

unfoldable pub return {ℓ} : {A : Type ℓ} → A → Reader A
return a c = ok (a, c)

-- An early `return Err(..)` unless the test holds.
unfoldable pub require {ℓ} : {A : Type ℓ} → Result A → Reader A
require r c = elim r [ ok a ↦ ok (a, c) | err e ↦ err e ]

unfoldable pub cursor_new : Bytes → Cursor
cursor_new bytes = record { position = 0; rest = bytes }

unfoldable pub remaining : Cursor → ℕ
remaining c = length c.rest

unfoldable pub take_bytes : ℕ → Reader Bytes
take_bytes len c =
    if ltb (c.position + len) usize_limit
    then (if leb len (length c.rest)
        then ok (take len c.rest, record { position = c.position + len; rest = drop len c.rest })
        else err (from_static "truncated frame"))
    else err (from_static "frame offset overflow")

unfoldable pub read_u8 : Reader ℕ
read_u8 = do bytes ← take_bytes 1; return (get_or bytes 0 0)

unfoldable pub read_u16 : Reader ℕ
read_u16 = do bytes ← take_bytes 2; return (from_le bytes)

unfoldable pub read_u32 : Reader ℕ
read_u32 = do bytes ← take_bytes 4; return (from_le bytes)

unfoldable pub read_u64 : Reader ℕ
read_u64 = do bytes ← take_bytes 8; return (from_le bytes)

unfoldable pub read_qid : Reader Qid
read_qid = do
  qtype ← read_u8
  version ← read_u32
  path ← read_u64
  return (record { qtype = qtype; version = version; path = path })

unfoldable pub read_string : Reader Bytes
read_string = do len ← read_u16; take_bytes len

-- `for _ in 0..count { items.push(read(cursor)?) }`.
unfoldable pub read_many {ℓ} : {A : Type ℓ} → Reader A → ℕ → Reader (List A)
read_many read zero = return []
read_many read (suc n) = do item ← read; items ← read_many read n; return (item ∷ items)
