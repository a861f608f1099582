-- ===== src/Codec/Frame.antt =====
-- A finished frame around a body: its size, type and tag, and how `decode_frame` takes it apart.
use r9p.Base.{
  ℕ, ◌+◌, ◌^◌, ◌<◌, ◌≡◌, refl, Bytes, [], ◌∷◌, ◌++◌, length, drop, take, get_or, ok, arith,
}
use r9p.Wire.{Reader, to_le, from_le, cursor_new, remaining, push_u8, push_u16, push_u32}
use r9p.Wire.Reads.{Reads, Reads-all, from_le-to_le}
use r9p.Codec.{frame_prefix, finish_frame, validate_frame_size, decode_frame}

-- The wire format: size[4] type[1] tag[2] body.
unfoldable pub frame_bytes : ℕ → ℕ → Bytes → Bytes
frame_bytes message_type tag body =
    to_le 4 (length body + 7) ++ (message_type ∷ (to_le 2 tag ++ body))

pub length-frame_bytes :
    (message_type tag : ℕ) (body : Bytes)
    → length (frame_bytes message_type tag body) ≡ length body + 7
unfolding frame_bytes to_le
length-frame_bytes message_type tag body = omega arith

pub finish_frame_lem :
    (message_type tag : ℕ) (body : Bytes)
    → length body + 7 < 2 ^ 32
    → finish_frame (frame_prefix message_type tag ++ body) ≡ ok (frame_bytes message_type tag body)
unfolding finish_frame frame_prefix push_u8 push_u16 push_u32 frame_bytes to_le
finish_frame_lem message_type tag body h = ground arith

size_lem :
    (message_type tag : ℕ) (body : Bytes)
    → length body + 7 < 2 ^ 32
    → from_le (take 4 (frame_bytes message_type tag body)) ≡ length body + 7
unfolding frame_bytes to_le
size_lem message_type tag body h = from_le-to_le 4 (length body + 7) h

validate_frame_size_lem :
    (message_type tag : ℕ) (body : Bytes)
    → length body + 7 < 2 ^ 32
    → validate_frame_size (frame_bytes message_type tag body) ≡ ok tt
unfolding validate_frame_size
validate_frame_size_lem message_type tag body h =
    ground (arith, length-frame_bytes message_type tag body, size_lem message_type tag body h)

header_lem :
    (message_type tag : ℕ) (body : Bytes)
    → tag < 2 ^ 16
    → let frame = frame_bytes message_type tag body in
      (get_or frame 4 0 ≡ message_type)
      × (from_le (get_or frame 5 0 ∷ get_or frame 6 0 ∷ []) ≡ tag)
      × (drop 7 frame ≡ body)
unfolding frame_bytes to_le
header_lem message_type tag body h = (refl, from_le-to_le 2 tag h, refl)

-- A frame whose body the reader consumes whole decodes to the message.
pub decode_frame_lem :
    {M : Type 0} (read : ℕ → ℕ → Reader M) (message_type tag : ℕ) (body : Bytes) {m : M}
    → tag < 2 ^ 16
    → length body + 7 < 2 ^ 32
    → Reads (read message_type tag) body m
    → decode_frame read (frame_bytes message_type tag body) ≡ ok m
unfolding decode_frame cursor_new remaining
decode_frame_lem read message_type tag body ht h r =
    let (type_eq, tag_eq, rest_eq) = header_lem message_type tag body ht in
    rw
      (
        validate_frame_size_lem message_type tag body h,
        type_eq,
        tag_eq,
        rest_eq,
        Reads-all 0 r (omega arith),
      )
      refl
