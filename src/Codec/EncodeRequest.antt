-- ===== src/Codec/EncodeRequest.antt =====
-- crates/core/src/codec.rs, `encode_tmessage`: the body of each request behind its prefix.
use r9p.Base.{
  ℕ, ◌^◌, Bytes, List, [], ◌∷◌, ◌++◌, length, ltb, leb, Result, ok, ◌>>=◌, ◌>>◌, ensure,
  from_static,
}
use r9p.Wire.{push_u8, push_u16, push_u32, push_u64, push_string}
use r9p.Stat.{encode}
use r9p.Message.{TMessage, ttag, tmessage_type, maxwelem}
use r9p.Codec.{frame_prefix, finish_frame, check_msize}

unfoldable pub push_names : Bytes → List Bytes → Result Bytes
push_names frame [] = ok frame
push_names frame (name ∷ names) = do frame ← push_string frame name; push_names frame names

unfoldable pub encode_tbody : Bytes → TMessage → Result Bytes
encode_tbody frame (TMessage.version _ msize version) = push_string (push_u32 frame msize) version
encode_tbody frame (TMessage.auth _ afid uname aname) = do
  frame ← push_string (push_u32 frame afid) uname
  push_string frame aname
encode_tbody frame (TMessage.attach _ fid afid uname aname) = do
  frame ← push_string (push_u32 (push_u32 frame fid) afid) uname
  push_string frame aname
encode_tbody frame (TMessage.flush _ oldtag) = ok (push_u16 frame oldtag)
encode_tbody frame (TMessage.walk _ fid newfid wnames) = do
  ensure (leb (length wnames) maxwelem) (from_static "name too long")
  push_names (push_u16 (push_u32 (push_u32 frame fid) newfid) (length wnames)) wnames
encode_tbody frame (TMessage.open_ _ fid mode) = ok (push_u8 (push_u32 frame fid) mode)
encode_tbody frame (TMessage.create _ fid name perm mode) = do
  frame ← push_string (push_u32 frame fid) name
  ok (push_u8 (push_u32 frame perm) mode)
encode_tbody frame (TMessage.read _ fid offset count) =
    ok (push_u32 (push_u64 (push_u32 frame fid) offset) count)
encode_tbody frame (TMessage.write _ fid offset data') = do
  ensure (ltb (length data') (2 ^ 32)) (from_static "write too large")
  ok (push_u32 (push_u64 (push_u32 frame fid) offset) (length data') ++ data')
encode_tbody frame (TMessage.clunk _ fid) = ok (push_u32 frame fid)
encode_tbody frame (TMessage.remove _ fid) = ok (push_u32 frame fid)
encode_tbody frame (TMessage.stat _ fid) = ok (push_u32 frame fid)
encode_tbody frame (TMessage.wstat _ fid stat) = do
  encoded ← encode stat
  ensure (ltb (length encoded) (2 ^ 16)) (from_static "stat too large")
  ok (push_u16 (push_u32 frame fid) (length encoded) ++ encoded)
encode_tbody frame (TMessage.rename_at _ olddirfid oldname newdirfid newname) = do
  frame ← push_string (push_u32 frame olddirfid) oldname
  push_string (push_u32 frame newdirfid) newname
encode_tbody frame (TMessage.referrals _ fid) = ok (push_u32 frame fid)

unfoldable pub encode_tmessage : TMessage → Result Bytes
encode_tmessage message = do
  frame ← encode_tbody (frame_prefix (tmessage_type message) (ttag message)) message
  finish_frame frame

unfoldable pub encode_tmessage_checked : TMessage → ℕ → Result Bytes
encode_tmessage_checked message msize = do frame ← encode_tmessage message; check_msize frame msize
