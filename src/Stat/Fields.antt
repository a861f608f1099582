-- ===== src/Stat/Fields.antt =====
-- `Stat::decode`, lines 95 to 105: the fields, in the order in which the cursor reads them.
use r9p.Wire.{Reader, ◌>>=◌, return, read_u16, read_u32, read_u64, read_qid, read_string}
use r9p.Stat.{Stat}

unfoldable pub read_fields : Reader Stat
read_fields = do
  kind ← read_u16
  dev ← read_u32
  qid ← read_qid
  mode ← read_u32
  atime ← read_u32
  mtime ← read_u32
  length ← read_u64
  name ← read_string
  uid ← read_string
  gid ← read_string
  muid ← read_string
  return (record {
    kind = kind;
    dev = dev;
    qid = qid;
    mode = mode;
    atime = atime;
    mtime = mtime;
    length = length;
    name = name;
    uid = uid;
    gid = gid;
    muid = muid;
  })
