-- ===== src/Codec/EncodeResponse.antt =====
-- crates/core/src/codec.rs, `encode_rmessage` and `encode_referral`.
use r9p.Base.{
  ℕ, ◌^◌, Bytes, List, [], ◌∷◌, ◌++◌, length, ltb, leb, Result, ok, ◌>>=◌, ◌>>◌, ensure,
  from_static,
}
use r9p.Wire.{push_u16, push_u32, push_u64, push_qid, push_string}
use r9p.Qid.{Qid}
use r9p.Stat.{encode}
use r9p.Referral.{NamespaceReferral, validate}
use r9p.Message.{RMessage, rtag, rmessage_type, maxwelem}
use r9p.Codec.{frame_prefix, finish_frame, check_msize}

unfoldable pub encode_referral : Bytes → NamespaceReferral → Result Bytes
encode_referral out r = do
  validate r
  out ← push_string out r.mount_path
  out ← push_string out r.endpoint
  out ← push_string out r.uname
  out ← push_string out r.aname
  out ← push_string out r.exported_root
  out ← push_string out r.authority_boundary
  ok (push_u64 (push_u64 out r.generation) r.valid_for_ms)

unfoldable pub push_referrals : Bytes → List NamespaceReferral → Result Bytes
push_referrals out [] = ok out
push_referrals out (r ∷ rs) = do out ← encode_referral out r; push_referrals out rs

unfoldable pub push_qids : Bytes → List Qid → Bytes
push_qids frame [] = frame
push_qids frame (qid ∷ qids) = push_qids (push_qid frame qid) qids

unfoldable pub encode_rbody : Bytes → RMessage → Result Bytes
encode_rbody frame (RMessage.version _ msize version) = push_string (push_u32 frame msize) version
encode_rbody frame (RMessage.auth _ aqid) = ok (push_qid frame aqid)
encode_rbody frame (RMessage.attach _ qid) = ok (push_qid frame qid)
encode_rbody frame (RMessage.error _ ename) = push_string frame ename
encode_rbody frame (RMessage.flush _) = ok frame
encode_rbody frame (RMessage.walk _ qids) = do
  ensure (leb (length qids) maxwelem) (from_static "name too long")
  ok (push_qids (push_u16 frame (length qids)) qids)
encode_rbody frame (RMessage.open_ _ qid iounit) = ok (push_u32 (push_qid frame qid) iounit)
encode_rbody frame (RMessage.create _ qid iounit) = ok (push_u32 (push_qid frame qid) iounit)
encode_rbody frame (RMessage.read _ data') = do
  ensure (ltb (length data') (2 ^ 32)) (from_static "read too large")
  ok (push_u32 frame (length data') ++ data')
encode_rbody frame (RMessage.write _ count) = ok (push_u32 frame count)
encode_rbody frame (RMessage.clunk _) = ok frame
encode_rbody frame (RMessage.remove _) = ok frame
encode_rbody frame (RMessage.stat _ stat) = do
  encoded ← encode stat
  ensure (ltb (length encoded) (2 ^ 16)) (from_static "stat too large")
  ok (push_u16 frame (length encoded) ++ encoded)
encode_rbody frame (RMessage.wstat _) = ok frame
encode_rbody frame (RMessage.rename_at _) = ok frame
encode_rbody frame (RMessage.referrals _ referrals) = do
  ensure (ltb (length referrals) (2 ^ 16)) (from_static "too many namespace referrals")
  push_referrals (push_u16 frame (length referrals)) referrals

unfoldable pub encode_rmessage : RMessage → Result Bytes
encode_rmessage message = do
  frame ← encode_rbody (frame_prefix (rmessage_type message) (rtag message)) message
  finish_frame frame

unfoldable pub encode_rmessage_checked : RMessage → ℕ → Result Bytes
encode_rmessage_checked message msize = do frame ← encode_rmessage message; check_msize frame msize
