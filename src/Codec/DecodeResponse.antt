-- ===== src/Codec/DecodeResponse.antt =====
-- crates/core/src/codec.rs, `decode_rmessage` and `decode_referral`.
use r9p.Base.{ℕ, Bytes, leb, ◌==◌, if◌then◌else◌, Result, err, ensure, from_static}
use r9p.Wire.{
  Reader, ◌>>=◌, ◌>>◌, return, require, take_bytes, read_u16, read_u32, read_u64, read_string,
  read_qid, read_many,
}
use r9p.Stat.Decode.{decode}
use r9p.Referral.{NamespaceReferral, validate}
use r9p.Message.{
  RMessage, maxwelem, rversion, rauth, rattach, rerror, rflush, rwalk, ropen, rcreate, rread,
  rwrite, rclunk, rremove, rstat, rwstat, rrenameat, rreferrals,
}
use r9p.Codec.{decode_frame}

unfoldable pub read_referral : Reader NamespaceReferral
read_referral = do
  mount_path ← read_string
  endpoint ← read_string
  uname ← read_string
  aname ← read_string
  exported_root ← read_string
  authority_boundary ← read_string
  generation ← read_u64
  valid_for_ms ← read_u64
  let referral : NamespaceReferral = record {
    mount_path = mount_path;
    endpoint = endpoint;
    uname = uname;
    aname = aname;
    exported_root = exported_root;
    authority_boundary = authority_boundary;
    generation = generation;
    valid_for_ms = valid_for_ms;
  }
  require (validate referral)
  return referral

abbrev pub read_rversion : ℕ → Reader RMessage
read_rversion tag = do
  msize ← read_u32
  version ← read_string
  return (RMessage.version tag msize version)

abbrev pub read_rauth : ℕ → Reader RMessage
read_rauth tag = do aqid ← read_qid; return (RMessage.auth tag aqid)

abbrev pub read_rattach : ℕ → Reader RMessage
read_rattach tag = do qid ← read_qid; return (RMessage.attach tag qid)

abbrev pub read_rerror : ℕ → Reader RMessage
read_rerror tag = do ename ← read_string; return (RMessage.error tag ename)

abbrev pub read_rwalk : ℕ → Reader RMessage
read_rwalk tag = do
  nwqid ← read_u16
  require (ensure (leb nwqid maxwelem) (from_static "name too long"))
  qids ← read_many read_qid nwqid
  return (RMessage.walk tag qids)

abbrev pub read_ropen : ℕ → Reader RMessage
read_ropen tag = do qid ← read_qid; iounit ← read_u32; return (RMessage.open_ tag qid iounit)

abbrev pub read_rcreate : ℕ → Reader RMessage
read_rcreate tag = do qid ← read_qid; iounit ← read_u32; return (RMessage.create tag qid iounit)

abbrev pub read_rread : ℕ → Reader RMessage
read_rread tag = do count ← read_u32; data' ← take_bytes count; return (RMessage.read tag data')

abbrev pub read_rwrite : ℕ → Reader RMessage
read_rwrite tag = do count ← read_u32; return (RMessage.write tag count)

abbrev pub read_rstat : ℕ → Reader RMessage
read_rstat tag = do
  nstat ← read_u16
  encoded ← take_bytes nstat
  stat ← require (decode encoded)
  return (RMessage.stat tag stat)

abbrev pub read_rreferrals : ℕ → Reader RMessage
read_rreferrals tag = do
  count ← read_u16
  referrals ← read_many read_referral count
  return (RMessage.referrals tag referrals)

unfoldable pub read_rbody : ℕ → ℕ → Reader RMessage
read_rbody message_type tag =
    if message_type == rversion
    then read_rversion tag
    else if message_type == rauth
    then read_rauth tag
    else if message_type == rattach
    then read_rattach tag
    else if message_type == rerror
    then read_rerror tag
    else if message_type == rflush
    then return (RMessage.flush tag)
    else if message_type == rwalk
    then read_rwalk tag
    else if message_type == ropen
    then read_ropen tag
    else if message_type == rcreate
    then read_rcreate tag
    else if message_type == rread
    then read_rread tag
    else if message_type == rwrite
    then read_rwrite tag
    else if message_type == rclunk
    then return (RMessage.clunk tag)
    else if message_type == rremove
    then return (RMessage.remove tag)
    else if message_type == rstat
    then read_rstat tag
    else if message_type == rwstat
    then return (RMessage.wstat tag)
    else if message_type == rrenameat
    then return (RMessage.rename_at tag)
    else if message_type == rreferrals
    then read_rreferrals tag
    else require (err (from_static "unknown message type"))

unfoldable pub decode_rmessage : Bytes → Result RMessage
decode_rmessage = decode_frame read_rbody
