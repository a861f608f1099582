-- ===== src/Tests/Chunks.antt =====
-- A request of sixteen bytes at most, on a connection of twenty-four.
use r9p.Base.{◌≡◌, refl, some, inr, ok, false, arith}
use r9p.Rpc.{RequestLimits, RequestChunk, base_bytes, validate_request_chunk}
use r9p.Rpc.Chunks.{Accepted, validate_request_chunk-Accepted, validate_request_chunk_lem}

abbrev small_limits : RequestLimits
small_limits = record { max_request_bytes = 16; max_connection_bytes = 24 }

abbrev second_chunk : RequestChunk
second_chunk = record { starts_request = false; resulting_request_bytes = 14; count = 6 }

validate_request_chunk-Accepted_example : Accepted (some 8) 4 8 6 small_limits second_chunk
unfolding validate_request_chunk base_bytes
validate_request_chunk-Accepted_example =
    validate_request_chunk-Accepted (some 8) 4 8 6 small_limits refl

validate_request_chunk_lem_example :
    (chunk : RequestChunk) × (validate_request_chunk (some 8) 4 8 6 small_limits ≡ ok chunk)
    × Accepted (some 8) 4 8 6 small_limits chunk
validate_request_chunk_lem_example =
    validate_request_chunk_lem (some 8) 4 8 6 small_limits (inr refl) (omega arith) (omega arith)
      (omega arith) (omega arith)
