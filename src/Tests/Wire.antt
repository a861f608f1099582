-- ===== src/Tests/Wire.antt =====
-- Messages and directories on the wire.
use r9p.Base.{◌≤◌, ◌≡◌, ◌≢◌, Bytes, [], ◌∷◌, length, none, some, ok, err, from_static, arith}
use r9p.Wire.{to_le}
use r9p.Qid.{Qid}
use r9p.Stat.{Stat}
use r9p.Stat.Directory.{dirread_chunk}
use r9p.Stat.Decode.{decode_dir_entries}
use r9p.Stat.RoundTrip.{IsStat, stat_bytes}
use r9p.Stat.Paging.{stream, Page, dirread_chunk-Page}
use r9p.Stat.Stream.{decode_dir_entries-stream, decode_dir_entries-ne-none}
use r9p.Message.{TMessage, RMessage, ttag, tmessage_type, rtag, rmessage_type}
use r9p.Codec.EncodeRequest.{encode_tmessage, encode_tmessage_checked}
use r9p.Codec.EncodeResponse.{encode_rmessage, encode_rmessage_checked}
use r9p.Codec.DecodeRequest.{decode_tmessage}
use r9p.Codec.DecodeResponse.{decode_rmessage}
use r9p.Codec.{clamp_read_count, max_write_payload}
use r9p.Codec.Frame.{frame_bytes}
use r9p.Codec.RequestLayout.{tbody_bytes}
use r9p.Codec.ResponseLayout.{rbody_bytes}
use r9p.Codec.RoundTrip.{
  IsTMessage, IsRMessage, encode_tmessage_lem, encode_rmessage_lem, decode-encode_tmessage,
  decode-encode_rmessage,
}
use r9p.Codec.Bounds.{
  clamp_read_count-fits, max_write_payload-fits, encode_rmessage_checked-exceeds,
}

abbrev some_qid : Qid
some_qid = record { qtype = 0x80; version = 1; path = 2 }

abbrev some_stat : Stat
some_stat = record {
  kind = 0;
  dev = 0;
  qid = some_qid;
  mode = 0x8000_0000;
  atime = 3;
  mtime = 4;
  length = 0;
  name = b'd' ∷ b'i' ∷ b'r' ∷ [];
  uid = b'g' ∷ [];
  gid = b'g' ∷ [];
  muid = [];
}

some_stat-IsStat : IsStat some_stat
unfolding stat_bytes to_le
some_stat-IsStat = record {
  kind_fits = omega arith;
  dev_fits = omega arith;
  qid_fits = record {
    qtype_fits = omega arith;
    version_fits = omega arith;
    path_fits = omega arith;
  };
  mode_fits = omega arith;
  atime_fits = omega arith;
  mtime_fits = omega arith;
  length_fits = omega arith;
  name_fits = omega arith;
  uid_fits = omega arith;
  gid_fits = omega arith;
  muid_fits = omega arith;
  body_fits = omega arith;
}

abbrev some_walk : TMessage
some_walk = TMessage.walk 5 1 2 ((b'u' ∷ b's' ∷ b'r' ∷ []) ∷ (b'g' ∷ []) ∷ [])

some_walk-IsTMessage : IsTMessage some_walk
unfolding ttag to_le
some_walk-IsTMessage = record {
  tag_fits = omega arith;
  fields_fit = (omega arith, omega arith, omega arith, (omega arith, (omega arith, tt)));
  frame_fits = omega arith;
}

abbrev stat_reply : RMessage
stat_reply = RMessage.stat 5 some_stat

stat_reply-IsRMessage : IsRMessage stat_reply
unfolding rtag to_le stat_bytes
stat_reply-IsRMessage = record {
  tag_fits = omega arith;
  fields_fit = (some_stat-IsStat, omega arith);
  frame_fits = omega arith;
}

encode_tmessage_lem_example :
    encode_tmessage some_walk
    ≡ ok (frame_bytes (tmessage_type some_walk) (ttag some_walk) (tbody_bytes some_walk))
encode_tmessage_lem_example = encode_tmessage_lem some_walk some_walk-IsTMessage

encode_rmessage_lem_example :
    encode_rmessage stat_reply
    ≡ ok (frame_bytes (rmessage_type stat_reply) (rtag stat_reply) (rbody_bytes stat_reply))
encode_rmessage_lem_example = encode_rmessage_lem stat_reply stat_reply-IsRMessage

decode-encode_tmessage_example :
    (frame : Bytes) × (encode_tmessage some_walk ≡ ok frame)
    × (decode_tmessage frame ≡ ok some_walk)
decode-encode_tmessage_example = decode-encode_tmessage some_walk some_walk-IsTMessage

decode-encode_rmessage_example :
    (frame : Bytes) × (encode_rmessage stat_reply ≡ ok frame)
    × (decode_rmessage frame ≡ ok stat_reply)
decode-encode_rmessage_example = decode-encode_rmessage stat_reply stat_reply-IsRMessage

-- A reply with one byte more than the message size leaves room for.
encode_rmessage_checked-exceeds_example :
    encode_rmessage_checked stat_reply 40 ≡ err (from_static "frame exceeds msize")
unfolding to_le stat_bytes
encode_rmessage_checked-exceeds_example =
    encode_rmessage_checked-exceeds stat_reply 40 stat_reply-IsRMessage (omega arith)

clamp_read_count-fits_example :
    (frame : Bytes) × (encode_rmessage_checked (RMessage.read 5 (1 ∷ 2 ∷ 3 ∷ [])) 256 ≡ ok frame)
    × (length frame ≤ 256)
clamp_read_count-fits_example =
    clamp_read_count-fits 5 256 9000 (1 ∷ 2 ∷ 3 ∷ []) (omega arith) (omega arith) (omega arith)
      (unfold clamp_read_count in omega arith)

max_write_payload-fits_example :
    (frame : Bytes) × (encode_tmessage_checked (TMessage.write 5 1 0 (1 ∷ 2 ∷ 3 ∷ [])) 256
      ≡ ok frame)
    × (length frame ≤ 256)
max_write_payload-fits_example =
    max_write_payload-fits 5 1 0 256 (1 ∷ 2 ∷ 3 ∷ []) (omega arith) (omega arith) (omega arith)
      (omega arith) (omega arith) (unfold max_write_payload in omega arith)

-- Directories: a read behind the first of three entries, with room for one.
dirread_chunk-Page_example :
    Page
      (some_stat ∷ some_stat ∷ [])
      80
      []
      (dirread_chunk (some_stat ∷ some_stat ∷ some_stat ∷ []) (length (stream (some_stat ∷ []))) 80)
unfolding stat_bytes to_le
dirread_chunk-Page_example =
    dirread_chunk-Page (some_stat ∷ []) (some_stat ∷ some_stat ∷ []) 80 (some_stat-IsStat, tt)
      (some_stat-IsStat, (some_stat-IsStat, tt)) (omega arith) (omega arith)

decode_dir_entries-stream_example :
    decode_dir_entries (stream (some_stat ∷ some_stat ∷ []))
    ≡ some (ok (some_stat ∷ some_stat ∷ []))
unfolding stat_bytes to_le
decode_dir_entries-stream_example =
    decode_dir_entries-stream (some_stat ∷ some_stat ∷ [])
      (some_stat-IsStat, (some_stat-IsStat, tt)) (omega arith)

decode_dir_entries-ne-none_example : decode_dir_entries (3 ∷ 0 ∷ 1 ∷ []) ≢ none
decode_dir_entries-ne-none_example = decode_dir_entries-ne-none (3 ∷ 0 ∷ 1 ∷ [])
