-- ===== src/Codec/RoundTrip.antt =====
-- Encoding and decoding are inverse: on every message that fits the wire, the encoder succeeds, its
-- frame is the documented layout, and the decoder returns the message.
use r9p.Base.{◌+◌, ◌^◌, ◌<◌, ◌≡◌, Bytes, length, ok}
use r9p.Codec.Frame.{frame_bytes, finish_frame_lem, decode_frame_lem}
use r9p.Message.{TMessage, ttag, tmessage_type, RMessage, rtag, rmessage_type}
use r9p.Codec.EncodeRequest.{encode_tmessage}
use r9p.Codec.DecodeRequest.{decode_tmessage, read_tbody}
use r9p.Codec.RequestLayout.{TFields, tbody_bytes, encode_tbody_lem, read_tbody-Reads}
use r9p.Codec.EncodeResponse.{encode_rmessage}
use r9p.Codec.DecodeResponse.{decode_rmessage, read_rbody}
use r9p.Codec.ResponseLayout.{RFields, rbody_bytes, encode_rbody_lem, read_rbody-Reads}

pub record IsTMessage (m : TMessage) : Type 0 where
  pub tag_fits : ttag m < 2 ^ 16
  pub fields_fit : TFields m
  pub frame_fits : length (tbody_bytes m) + 7 < 2 ^ 32

-- The frame of a request that fits is the documented layout.
pub encode_tmessage_lem :
    (m : TMessage)
    → IsTMessage m
    → encode_tmessage m ≡ ok (frame_bytes (tmessage_type m) (ttag m) (tbody_bytes m))
unfolding encode_tmessage
encode_tmessage_lem m h =
    rw (encode_tbody_lem _ m h.fields_fit)
      (finish_frame_lem (tmessage_type m) (ttag m) (tbody_bytes m) h.frame_fits)

pub decode_tmessage_lem :
    (m : TMessage)
    → IsTMessage m
    → decode_tmessage (frame_bytes (tmessage_type m) (ttag m) (tbody_bytes m)) ≡ ok m
unfolding decode_tmessage
decode_tmessage_lem m h =
    decode_frame_lem read_tbody (tmessage_type m) (ttag m) (tbody_bytes m) h.tag_fits h.frame_fits
      (read_tbody-Reads m h.fields_fit)

-- Every request that fits the wire is encoded, and its frame decodes to the same request.
pub decode-encode_tmessage :
    (m : TMessage)
    → IsTMessage m
    → (frame : Bytes) × (encode_tmessage m ≡ ok frame) × (decode_tmessage frame ≡ ok m)
decode-encode_tmessage m h = (
  frame_bytes (tmessage_type m) (ttag m) (tbody_bytes m),
  encode_tmessage_lem m h,
  decode_tmessage_lem m h,
)

pub record IsRMessage (m : RMessage) : Type 0 where
  pub tag_fits : rtag m < 2 ^ 16
  pub fields_fit : RFields m
  pub frame_fits : length (rbody_bytes m) + 7 < 2 ^ 32

-- The frame of a reply that fits is the documented layout.
pub encode_rmessage_lem :
    (m : RMessage)
    → IsRMessage m
    → encode_rmessage m ≡ ok (frame_bytes (rmessage_type m) (rtag m) (rbody_bytes m))
unfolding encode_rmessage
encode_rmessage_lem m h =
    rw (encode_rbody_lem _ m h.fields_fit)
      (finish_frame_lem (rmessage_type m) (rtag m) (rbody_bytes m) h.frame_fits)

pub decode_rmessage_lem :
    (m : RMessage)
    → IsRMessage m
    → decode_rmessage (frame_bytes (rmessage_type m) (rtag m) (rbody_bytes m)) ≡ ok m
unfolding decode_rmessage
decode_rmessage_lem m h =
    decode_frame_lem read_rbody (rmessage_type m) (rtag m) (rbody_bytes m) h.tag_fits h.frame_fits
      (read_rbody-Reads m h.fields_fit)

-- Every reply that fits the wire is encoded, and its frame decodes to the same reply.
pub decode-encode_rmessage :
    (m : RMessage)
    → IsRMessage m
    → (frame : Bytes) × (encode_rmessage m ≡ ok frame) × (decode_rmessage frame ≡ ok m)
decode-encode_rmessage m h = (
  frame_bytes (rmessage_type m) (rtag m) (rbody_bytes m),
  encode_rmessage_lem m h,
  decode_rmessage_lem m h,
)
