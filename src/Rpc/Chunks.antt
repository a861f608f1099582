-- ===== src/Rpc/Chunks.antt =====
-- An accepted chunk continues its request without a gap and within the limits.
use r9p.Base.{
  ℕ, ◌+◌, ◌^◌, ◌<◌, ◌≤◌, ◌≡◌, ◌⊎◌, ◌==◌, Option, none, some, Result-cases, inl, inr, ok, arith,
}
use r9p.Rpc.{RequestLimits, RequestChunk, base_bytes, validate_request_chunk}

-- A chunk that is accepted leaves the bytes of its request: its offset and its length.
pub record Accepted (current : Option ℕ) (elsewhere offset chunk_bytes : ℕ) (limits : RequestLimits)
    (chunk : RequestChunk) : Type 0 where
  pub contiguous : (offset ≡ 0) ⊎ (current ≡ some offset)
  pub resulting : chunk.resulting_request_bytes ≡ offset + chunk_bytes
  pub within_request : chunk.resulting_request_bytes ≤ limits.max_request_bytes
  pub within_connection : elsewhere + chunk.resulting_request_bytes ≤ limits.max_connection_bytes
  pub counted : chunk.count ≡ chunk_bytes

base_contiguous :
    (current : Option ℕ) (offset : ℕ) {base : ℕ}
    → base_bytes current offset ≡ ok base
    → ((offset ≡ 0) ⊎ (current ≡ some offset)) × (base ≡ offset)
unfolding base_bytes
base_contiguous none offset e = ground arith
base_contiguous (some bytes) offset e = ground arith

-- An accepted chunk starts its request or goes on exactly where it ended, and the request then holds
-- the bytes up to the chunk's end, within the limits of the request and of the connection.
pub validate_request_chunk-Accepted :
    (current : Option ℕ) (elsewhere offset chunk_bytes : ℕ) (limits : RequestLimits)
    {chunk : RequestChunk}
    → validate_request_chunk current elsewhere offset chunk_bytes limits ≡ ok chunk
    → Accepted current elsewhere offset chunk_bytes limits chunk
unfolding validate_request_chunk
validate_request_chunk-Accepted current elsewhere offset chunk_bytes limits {chunk = chunk} e =
    elim (Result-cases (base_bytes current offset)) [
      | inr (x, bad) ↦ absurd (ground (arith, bad, e))
      | inl (base, good) ↦
          let (gap, same) = base_contiguous current offset good in
          record {
            contiguous = gap;
            resulting = ground (arith, same, good);
            within_request = ground (arith, same, good);
            within_connection = ground (arith, same, good);
            counted = ground (arith, same, good);
          }
    ]

base_bytes_lem :
    (current : Option ℕ) (offset : ℕ)
    → (offset ≡ 0) ⊎ (current ≡ some offset)
    → base_bytes current offset ≡ ok offset
unfolding base_bytes
base_bytes_lem none offset h = ground arith
base_bytes_lem (some bytes) offset h = ground arith

-- A chunk without a gap and within the limits is accepted, for limits that a `usize` holds and a
-- chunk that a `u32` counts.
pub validate_request_chunk_lem :
    (current : Option ℕ) (elsewhere offset chunk_bytes : ℕ) (limits : RequestLimits)
    → (offset ≡ 0) ⊎ (current ≡ some offset)
    → offset + chunk_bytes ≤ limits.max_request_bytes
    → elsewhere + (offset + chunk_bytes) ≤ limits.max_connection_bytes
    → limits.max_connection_bytes < 2 ^ 64
    → chunk_bytes < 2 ^ 32
    → (chunk : RequestChunk) × (validate_request_chunk current elsewhere offset chunk_bytes limits
        ≡ ok chunk)
      × Accepted current elsewhere offset chunk_bytes limits chunk
unfolding validate_request_chunk
validate_request_chunk_lem current elsewhere offset chunk_bytes limits gap request connection room
      small =
    let chunk : RequestChunk = record {
      starts_request = offset == 0;
      resulting_request_bytes = offset + chunk_bytes;
      count = chunk_bytes;
    } in
    let accepted : validate_request_chunk current elsewhere offset chunk_bytes limits ≡ ok chunk =
      rw (base_bytes_lem current offset gap) (ground arith) in
    (
      chunk,
      accepted,
      validate_request_chunk-Accepted current elsewhere offset chunk_bytes limits accepted,
    )
