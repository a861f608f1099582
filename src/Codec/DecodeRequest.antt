-- ===== src/Codec/DecodeRequest.antt =====
-- crates/core/src/codec.rs, `decode_tmessage`: one reader for each arm of the match.
use r9p.Base.{ℕ, Bytes, leb, ◌==◌, if◌then◌else◌, Result, err, ensure, from_static}
use r9p.Wire.{
  Reader, ◌>>=◌, ◌>>◌, return, require, take_bytes, read_u8, read_u16, read_u32, read_u64,
  read_string, read_many,
}
use r9p.Stat.Decode.{decode}
use r9p.Message.{
  TMessage, maxwelem, tversion, tauth, tattach, tflush, twalk, topen, tcreate, tread, twrite,
  tclunk, tremove, tstat, twstat, trenameat, treferrals,
}
use r9p.Codec.{decode_frame}

abbrev pub read_tversion : ℕ → Reader TMessage
read_tversion tag = do
  msize ← read_u32
  version ← read_string
  return (TMessage.version tag msize version)

abbrev pub read_tauth : ℕ → Reader TMessage
read_tauth tag = do
  afid ← read_u32
  uname ← read_string
  aname ← read_string
  return (TMessage.auth tag afid uname aname)

abbrev pub read_tattach : ℕ → Reader TMessage
read_tattach tag = do
  fid ← read_u32
  afid ← read_u32
  uname ← read_string
  aname ← read_string
  return (TMessage.attach tag fid afid uname aname)

abbrev pub read_tflush : ℕ → Reader TMessage
read_tflush tag = do oldtag ← read_u16; return (TMessage.flush tag oldtag)

abbrev pub read_twalk : ℕ → Reader TMessage
read_twalk tag = do
  fid ← read_u32
  newfid ← read_u32
  nwname ← read_u16
  require (ensure (leb nwname maxwelem) (from_static "name too long"))
  wnames ← read_many read_string nwname
  return (TMessage.walk tag fid newfid wnames)

abbrev pub read_topen : ℕ → Reader TMessage
read_topen tag = do fid ← read_u32; mode ← read_u8; return (TMessage.open_ tag fid mode)

abbrev pub read_tcreate : ℕ → Reader TMessage
read_tcreate tag = do
  fid ← read_u32
  name ← read_string
  perm ← read_u32
  mode ← read_u8
  return (TMessage.create tag fid name perm mode)

abbrev pub read_tread : ℕ → Reader TMessage
read_tread tag = do
  fid ← read_u32
  offset ← read_u64
  count ← read_u32
  return (TMessage.read tag fid offset count)

abbrev pub read_twrite : ℕ → Reader TMessage
read_twrite tag = do
  fid ← read_u32
  offset ← read_u64
  count ← read_u32
  data' ← take_bytes count
  return (TMessage.write tag fid offset data')

abbrev pub read_tclunk : ℕ → Reader TMessage
read_tclunk tag = do fid ← read_u32; return (TMessage.clunk tag fid)

abbrev pub read_tremove : ℕ → Reader TMessage
read_tremove tag = do fid ← read_u32; return (TMessage.remove tag fid)

abbrev pub read_tstat : ℕ → Reader TMessage
read_tstat tag = do fid ← read_u32; return (TMessage.stat tag fid)

abbrev pub read_twstat : ℕ → Reader TMessage
read_twstat tag = do
  fid ← read_u32
  nstat ← read_u16
  encoded ← take_bytes nstat
  stat ← require (decode encoded)
  return (TMessage.wstat tag fid stat)

abbrev pub read_trenameat : ℕ → Reader TMessage
read_trenameat tag = do
  olddirfid ← read_u32
  oldname ← read_string
  newdirfid ← read_u32
  newname ← read_string
  return (TMessage.rename_at tag olddirfid oldname newdirfid newname)

abbrev pub read_treferrals : ℕ → Reader TMessage
read_treferrals tag = do fid ← read_u32; return (TMessage.referrals tag fid)

unfoldable pub read_tbody : ℕ → ℕ → Reader TMessage
read_tbody message_type tag =
    if message_type == tversion
    then read_tversion tag
    else if message_type == tauth
    then read_tauth tag
    else if message_type == tattach
    then read_tattach tag
    else if message_type == tflush
    then read_tflush tag
    else if message_type == twalk
    then read_twalk tag
    else if message_type == topen
    then read_topen tag
    else if message_type == tcreate
    then read_tcreate tag
    else if message_type == tread
    then read_tread tag
    else if message_type == twrite
    then read_twrite tag
    else if message_type == tclunk
    then read_tclunk tag
    else if message_type == tremove
    then read_tremove tag
    else if message_type == tstat
    then read_tstat tag
    else if message_type == twstat
    then read_twstat tag
    else if message_type == trenameat
    then read_trenameat tag
    else if message_type == treferrals
    then read_treferrals tag
    else require (err (from_static "unknown message type"))

unfoldable pub decode_tmessage : Bytes → Result TMessage
decode_tmessage = decode_frame read_tbody
