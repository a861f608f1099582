-- ===== src/Codec/Bounds.antt =====
-- crates/core/src/codec.rs: the checked encoders against the negotiated message size, and the limits
-- that the codec derives from it.
use r9p.Base.{
  ℕ, ◌+◌, ◌^◌, ◌<◌, ◌≤◌, ◌≡◌, Bytes, [], ◌++◌, length, length-append, ok, err, from_static, arith,
}
use r9p.Wire.{to_le}
use r9p.Wire.Reads.{length-to_le}
use r9p.Message.{TMessage, ttag, tmessage_type, RMessage, rtag, rmessage_type}
use r9p.Codec.{check_msize, clamp_read_count, max_write_payload}
use r9p.Codec.Frame.{frame_bytes, length-frame_bytes}
use r9p.Codec.EncodeRequest.{encode_tmessage_checked}
use r9p.Codec.EncodeResponse.{encode_rmessage_checked}
use r9p.Codec.RequestLayout.{tbody_bytes}
use r9p.Codec.ResponseLayout.{rbody_bytes}
use r9p.Codec.RoundTrip.{IsTMessage, IsRMessage, encode_tmessage_lem, encode_rmessage_lem}

check_msize_fits :
    (frame : Bytes) (msize : ℕ)
    → length frame < 2 ^ 32
    → length frame ≤ msize
    → check_msize frame msize ≡ ok frame
unfolding check_msize
check_msize_fits frame msize small fits = ground arith

check_msize_exceeds :
    (frame : Bytes) (msize : ℕ)
    → length frame < 2 ^ 32
    → msize < length frame
    → check_msize frame msize ≡ err (from_static "frame exceeds msize")
unfolding check_msize
check_msize_exceeds frame msize small over = ground arith

frame_size-small :
    (t tag : ℕ) (body : Bytes) → length body + 7 < 2 ^ 32 → length (frame_bytes t tag body) < 2 ^ 32
frame_size-small t tag body h = omega (arith, length-frame_bytes t tag body)

pub encode_tmessage_checked-fits :
    (m : TMessage) (msize : ℕ)
    → IsTMessage m
    → length (tbody_bytes m) + 7 ≤ msize
    → encode_tmessage_checked m msize ≡ ok (frame_bytes (tmessage_type m) (ttag m) (tbody_bytes m))
unfolding encode_tmessage_checked
encode_tmessage_checked-fits m msize h fits = rw (encode_tmessage_lem m h) (
    check_msize_fits _ msize (frame_size-small _ _ (tbody_bytes m) h.frame_fits)
      (omega (arith, length-frame_bytes (tmessage_type m) (ttag m) (tbody_bytes m))))

pub encode_rmessage_checked-fits :
    (m : RMessage) (msize : ℕ)
    → IsRMessage m
    → length (rbody_bytes m) + 7 ≤ msize
    → encode_rmessage_checked m msize ≡ ok (frame_bytes (rmessage_type m) (rtag m) (rbody_bytes m))
unfolding encode_rmessage_checked
encode_rmessage_checked-fits m msize h fits = rw (encode_rmessage_lem m h) (
    check_msize_fits _ msize (frame_size-small _ _ (rbody_bytes m) h.frame_fits)
      (omega (arith, length-frame_bytes (rmessage_type m) (rtag m) (rbody_bytes m))))

-- A reply that fits the wire but not the message size is refused.
pub encode_rmessage_checked-exceeds :
    (m : RMessage) (msize : ℕ)
    → IsRMessage m
    → msize < length (rbody_bytes m) + 7
    → encode_rmessage_checked m msize ≡ err (from_static "frame exceeds msize")
unfolding encode_rmessage_checked
encode_rmessage_checked-exceeds m msize h over = rw (encode_rmessage_lem m h) (
    check_msize_exceeds _ msize (frame_size-small _ _ (rbody_bytes m) h.frame_fits)
      (omega (arith, length-frame_bytes (rmessage_type m) (rtag m) (rbody_bytes m))))

length-rread :
    (tag : ℕ) (data' : Bytes) → length (rbody_bytes (RMessage.read tag data')) ≡ length data' + 4
length-rread tag data' = omega (
  arith,
  length-append (to_le 4 (length data')) (data' ++ []),
  length-append data' [],
  length-to_le 4 (length data'),
)

length-twrite :
    (tag fid offset : ℕ) (data' : Bytes)
    → length (tbody_bytes (TMessage.write tag fid offset data')) ≡ length data' + 16
unfolding to_le
length-twrite tag fid offset data' = omega (arith, length-append data' [])

-- Whatever count a read asked for, a reply with at most the clamped count of bytes is encoded within
-- the message size; for a `u16` tag and a `u32` message size of at least 11.
pub clamp_read_count-fits :
    (tag msize count : ℕ) (data' : Bytes)
    → tag < 2 ^ 16
    → 11 ≤ msize
    → msize < 2 ^ 32
    → length data' ≤ clamp_read_count msize count
    → (frame : Bytes) × (encode_rmessage_checked (RMessage.read tag data') msize ≡ ok frame)
      × (length frame ≤ msize)
unfolding clamp_read_count rtag
clamp_read_count-fits tag msize count data' small room limit fits =
    let m = RMessage.read tag data' in
    let size = length-rread tag data' in
    (
      frame_bytes (rmessage_type m) (rtag m) (rbody_bytes m),
      encode_rmessage_checked-fits m msize
          (record {
            tag_fits = small;
            fields_fit = omega (arith, fits);
            frame_fits = omega (arith, fits, size);
          })
          (omega (arith, fits, size)),
      omega (arith, fits, size, length-frame_bytes (rmessage_type m) (rtag m) (rbody_bytes m)),
    )

-- A write with at most the largest payload of bytes is encoded within the message size; for fields
-- within their types and a `u32` message size of at least 23.
pub max_write_payload-fits :
    (tag fid offset msize : ℕ) (data' : Bytes)
    → tag < 2 ^ 16
    → fid < 2 ^ 32
    → offset < 2 ^ 64
    → 23 ≤ msize
    → msize < 2 ^ 32
    → length data' ≤ max_write_payload msize
    → (frame : Bytes) × (encode_tmessage_checked (TMessage.write tag fid offset data') msize
        ≡ ok frame)
      × (length frame ≤ msize)
unfolding max_write_payload ttag
max_write_payload-fits tag fid offset msize data' small hf ho room limit fits =
    let m = TMessage.write tag fid offset data' in
    let size = length-twrite tag fid offset data' in
    (
      frame_bytes (tmessage_type m) (ttag m) (tbody_bytes m),
      encode_tmessage_checked-fits m msize
          (record {
            tag_fits = small;
            fields_fit = (hf, ho, omega (arith, fits));
            frame_fits = omega (arith, fits, size);
          })
          (omega (arith, fits, size)),
      omega (arith, fits, size, length-frame_bytes (tmessage_type m) (ttag m) (tbody_bytes m)),
    )
