-- ===== src/Codec.antt =====
-- crates/core/src/codec.rs: protocol variants, size limits and frames. The children encode and
-- decode the bodies of requests and replies, and prove the round trips.
pub mod EncodeRequest
pub mod EncodeResponse
pub mod DecodeRequest
pub mod DecodeResponse
pub mod Frame
pub mod RequestLayout
pub mod ResponseLayout
pub mod RoundTrip
pub mod Bounds
pub mod Stream
pub mod Delivery
pub mod Dialects
use r9p.Base.{
  ℕ, zero, ◌-◌, ◌+◌, ◌^◌, min, Bool, true, false, ◌&&◌, Bytes, bytes, List, [], ◌∷◌, ◌++◌, Option,
  none, some, length, take, drop, get_or, ltb, leb, ◌==◌, beq, if◌then◌else◌, Result, ok, err,
  ◌>>=◌, ◌>>◌, ensure, from_static,
}
use r9p.Referral.{strip_prefix}
use r9p.Wire.{push_u8, push_u16, push_u32, to_le, from_le, Reader, cursor_new, remaining}

abbrev pub frame_header_size : ℕ
frame_header_size = 7

abbrev pub rread_header_size : ℕ
rread_header_size = 11

abbrev pub twrite_header_size : ℕ
twrite_header_size = 23

abbrev pub iounit_header_size : ℕ
iounit_header_size = 24

abbrev pub default_msize : ℕ
default_msize = 8192

abbrev pub min_msize : ℕ
min_msize = 256

abbrev pub max_msize : ℕ
max_msize = 1048576

pub data Variant : Type 0 where
  plain r : Variant

unfoldable pub wire_name : Variant → Bytes
unfolding bytes
wire_name Variant.plain = bytes "9P2000"
wire_name Variant.r = bytes "9P2000.R"

unfoldable pub is_r : Variant → Bool
is_r Variant.plain = false
is_r Variant.r = true

-- `supports_symlinks`, `supports_referrals` and `supports_rename_at` are the same test.
abbrev pub supports_symlinks : Variant → Bool
supports_symlinks = is_r

abbrev pub supports_referrals : Variant → Bool
supports_referrals = is_r

abbrev pub supports_rename_at : Variant → Bool
supports_rename_at = is_r

unfoldable pub plain_request : Bytes → Bool
unfolding wire_name beq strip_prefix
plain_request requested =
    if beq requested (wire_name Variant.plain)
    then true
    else elim (strip_prefix (wire_name Variant.plain) requested) [
      | none ↦ false
      | some [] ↦ false
      | some (b ∷ suffix) ↦ b == b'.'
    ]

unfoldable pub accept : Variant → Bytes → Option Variant
unfolding wire_name beq plain_request
accept variant requested =
    if is_r variant && beq requested (wire_name Variant.r)
    then some Variant.r
    else (if plain_request requested then some Variant.plain else none)

unfoldable pub accept_response : Variant → Bytes → Option Variant
unfolding wire_name beq
accept_response variant response =
    if is_r variant && beq response (wire_name Variant.r)
    then some Variant.r
    else (if beq response (wire_name Variant.plain) then some Variant.plain else none)

-- `saturating_sub` is the subtraction of ℕ.
unfoldable pub clamp_read_count : ℕ → ℕ → ℕ
clamp_read_count msize requested = min requested (msize - rread_header_size)

unfoldable pub max_write_payload : ℕ → ℕ
max_write_payload msize = msize - twrite_header_size

unfoldable pub max_iounit : ℕ → ℕ
max_iounit msize = msize - iounit_header_size

unfoldable pub frame_prefix : ℕ → ℕ → Bytes
frame_prefix message_type tag = push_u16 (push_u8 (push_u32 [] 0) message_type) tag

-- `frame[0..4].copy_from_slice(..)` replaces the four bytes of the size.
unfoldable pub finish_frame : Bytes → Result Bytes
finish_frame frame =
    if ltb (length frame) (2 ^ 32)
    then ok (to_le 4 (length frame) ++ drop 4 frame)
    else err (from_static "frame too large")

unfoldable pub validate_frame_size : Bytes → Result (Unit {0})
validate_frame_size frame = do
  ensure (leb frame_header_size (length frame)) (from_static "truncated frame")
  ensure (ltb (length frame) (2 ^ 32)) (from_static "frame too large")
  ensure (from_le (take 4 frame) == length frame) (from_static "frame size mismatch")

-- The common part of `decode_tmessage` and `decode_rmessage`: the header, the body by the reader of
-- the message type, and no byte behind it.
unfoldable pub decode_frame : {M : Type 0} → (ℕ → ℕ → Reader M) → Bytes → Result M
decode_frame body frame = do
  validate_frame_size frame
  let message_type = get_or frame 4 0
  let tag = from_le (get_or frame 5 0 ∷ get_or frame 6 0 ∷ [])
  (message, cursor) ← body message_type tag (cursor_new (drop frame_header_size frame))
  ensure (remaining cursor == 0) (from_static "trailing frame bytes")
  ok message

-- The last test of `encode_tmessage_checked` and `encode_rmessage_checked`.
unfoldable pub check_msize : Bytes → ℕ → Result Bytes
check_msize frame msize = do
  ensure (ltb (length frame) (2 ^ 32)) (from_static "frame too large")
  ensure (leb (length frame) msize) (from_static "frame exceeds msize")
  ok frame
