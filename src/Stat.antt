-- ===== src/Stat.antt =====
-- crates/core/src/stat.rs: the stat record and its encoder. The children read it back
-- (`Fields`, `Decode`), page directories (`Directory`) and prove the round trips.
pub mod Fields
pub mod Decode
pub mod Directory
pub mod RoundTrip
pub mod Paging
pub mod Stream
use r9p.Base.{
  ℕ, ◌-◌, ◌^◌, Bytes, [], ◌++◌, length, ltb, if◌then◌else◌, Result, ok, err, ◌>>=◌, from_static,
  bytes,
}
use r9p.Qid.{Qid}
use r9p.Wire.{push_u16, push_u32, push_u64, push_qid, push_string}

-- `type_` of the source is `kind`.
pub record Stat : Type 0 where
  pub kind : ℕ
  pub dev : ℕ
  pub qid : Qid
  pub mode : ℕ
  pub atime : ℕ
  pub mtime : ℕ
  pub length : ℕ
  pub name : Bytes
  pub uid : Bytes
  pub gid : Bytes
  pub muid : Bytes

unfoldable pub stat_new : Bytes → Qid → ℕ → Stat
unfolding bytes
stat_new name qid mode = record {
  kind = 0;
  dev = 0;
  qid = qid;
  mode = mode;
  atime = 0;
  mtime = 0;
  length = 0;
  name = name;
  uid = bytes "none";
  gid = bytes "none";
  muid = bytes "none";
}

unfoldable pub null_wstat : Stat
null_wstat = record {
  kind = 2 ^ 16 - 1;
  dev = 2 ^ 32 - 1;
  qid = record { qtype = 2 ^ 8 - 1; version = 2 ^ 32 - 1; path = 2 ^ 64 - 1 };
  mode = 2 ^ 32 - 1;
  atime = 2 ^ 32 - 1;
  mtime = 2 ^ 32 - 1;
  length = 2 ^ 64 - 1;
  name = [];
  uid = [];
  gid = [];
  muid = [];
}

unfoldable pub encode_fields : Stat → Result Bytes
encode_fields s = do
  let head = push_u32 (push_u16 [] s.kind) s.dev
  let times = push_u32 (push_u32 (push_u32 (push_qid head s.qid) s.mode) s.atime) s.mtime
  body ← push_string (push_u64 times s.length) s.name
  body ← push_string body s.uid
  body ← push_string body s.gid
  push_string body s.muid

unfoldable pub encode : Stat → Result Bytes
encode s = do
  body ← encode_fields s
  if ltb (length body) (2 ^ 16)
      then ok (push_u16 [] (length body) ++ body)
      else err (from_static "stat too large")
