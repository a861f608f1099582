-- ===== src/Rpc.antt =====
-- crates/core/src/rpc.rs: the limits on a request that several writes to one fid carry, and the
-- check of one chunk. `usize` has 64 bits, so the conversion of a `u64` offset succeeds.
pub mod Chunks
use r9p.Base.{
  ℕ, ◌+◌, ◌^◌, Bool, not, ◌||◌, Option, none, some, ltb, leb, ◌==◌, if◌then◌else◌, Result, ok, err,
  ◌>>=◌, ◌>>◌, ensure, from_static,
}

pub record RequestLimits : Type 0 where
  pub max_request_bytes : ℕ
  pub max_connection_bytes : ℕ

unfoldable pub limits_new : ℕ → ℕ → Result RequestLimits
limits_new max_request_bytes max_connection_bytes =
    if max_request_bytes == 0
      || (max_connection_bytes == 0 || ltb max_connection_bytes max_request_bytes)
    then err (from_static "invalid RPC request limits")
    else ok (record {
      max_request_bytes = max_request_bytes;
      max_connection_bytes = max_connection_bytes;
    })

pub record RequestChunk : Type 0 where
  pub starts_request : Bool
  pub resulting_request_bytes : ℕ
  pub count : ℕ

-- The bytes that the chunk continues.
unfoldable pub base_bytes : Option ℕ → ℕ → Result ℕ
base_bytes current offset = if offset == 0 then ok 0 else elim current [
  | none ↦ err (from_static "RPC request must begin at offset zero")
  | some bytes ↦ do
    ensure (offset == bytes) (from_static "RPC write offset is not contiguous")
    ok bytes
]

unfoldable pub validate_request_chunk : Option ℕ → ℕ → ℕ → ℕ → RequestLimits → Result RequestChunk
validate_request_chunk current elsewhere offset chunk_bytes limits = do
  base ← base_bytes current offset
  ensure (ltb (base + chunk_bytes) (2 ^ 64)) (from_static "RPC request size overflow")
  ensure (leb (base + chunk_bytes) limits.max_request_bytes) (from_static "RPC request too large")
  ensure (ltb (elsewhere + (base + chunk_bytes)) (2 ^ 64))
      (from_static "RPC connection buffer size overflow")
  ensure (leb (elsewhere + (base + chunk_bytes)) limits.max_connection_bytes)
      (from_static "RPC connection buffer limit exceeded")
  ensure (ltb chunk_bytes (2 ^ 32)) (from_static "RPC request chunk too large")
  ok (record {
    starts_request = offset == 0;
    resulting_request_bytes = base + chunk_bytes;
    count = chunk_bytes;
  })
