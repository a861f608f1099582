-- ===== src/Message.antt =====
-- crates/core/src/message.rs: request and reply messages. The first argument of each constructor is
-- the tag; the others are the source's fields in their order. A message name that is a reserved word
-- here, `Open`, is spelled `open_`.
use r9p.Base.{ℕ, ◌-◌, ◌^◌, Bytes, List}
use r9p.Qid.{Qid}
use r9p.Stat.{Stat}
use r9p.Referral.{NamespaceReferral}

abbrev pub notag : ℕ
notag = 2 ^ 16 - 1

abbrev pub maxwelem : ℕ
maxwelem = 16

abbrev pub nofid : ℕ
nofid = 2 ^ 32 - 1

abbrev pub tversion : ℕ
tversion = 100

abbrev pub tauth : ℕ
tauth = 102

abbrev pub tattach : ℕ
tattach = 104

abbrev pub tflush : ℕ
tflush = 108

abbrev pub twalk : ℕ
twalk = 110

abbrev pub topen : ℕ
topen = 112

abbrev pub tcreate : ℕ
tcreate = 114

abbrev pub tread : ℕ
tread = 116

abbrev pub twrite : ℕ
twrite = 118

abbrev pub tclunk : ℕ
tclunk = 120

abbrev pub tremove : ℕ
tremove = 122

abbrev pub tstat : ℕ
tstat = 124

abbrev pub twstat : ℕ
twstat = 126

abbrev pub trenameat : ℕ
trenameat = 74

abbrev pub treferrals : ℕ
treferrals = 200

abbrev pub rversion : ℕ
rversion = 101

abbrev pub rauth : ℕ
rauth = 103

abbrev pub rattach : ℕ
rattach = 105

abbrev pub rerror : ℕ
rerror = 107

abbrev pub rflush : ℕ
rflush = 109

abbrev pub rwalk : ℕ
rwalk = 111

abbrev pub ropen : ℕ
ropen = 113

abbrev pub rcreate : ℕ
rcreate = 115

abbrev pub rread : ℕ
rread = 117

abbrev pub rwrite : ℕ
rwrite = 119

abbrev pub rclunk : ℕ
rclunk = 121

abbrev pub rremove : ℕ
rremove = 123

abbrev pub rstat : ℕ
rstat = 125

abbrev pub rwstat : ℕ
rwstat = 127

abbrev pub rrenameat : ℕ
rrenameat = 75

abbrev pub rreferrals : ℕ
rreferrals = 201

pub data TMessage : Type 0 where
  version : ℕ → ℕ → Bytes → TMessage
  auth : ℕ → ℕ → Bytes → Bytes → TMessage
  attach : ℕ → ℕ → ℕ → Bytes → Bytes → TMessage
  flush : ℕ → ℕ → TMessage
  walk : ℕ → ℕ → ℕ → List Bytes → TMessage
  open_ : ℕ → ℕ → ℕ → TMessage
  create : ℕ → ℕ → Bytes → ℕ → ℕ → TMessage
  read : ℕ → ℕ → ℕ → ℕ → TMessage
  write : ℕ → ℕ → ℕ → Bytes → TMessage
  clunk : ℕ → ℕ → TMessage
  remove : ℕ → ℕ → TMessage
  stat : ℕ → ℕ → TMessage
  wstat : ℕ → ℕ → Stat → TMessage
  rename_at : ℕ → ℕ → Bytes → ℕ → Bytes → TMessage
  referrals : ℕ → ℕ → TMessage

unfoldable pub ttag : TMessage → ℕ
ttag (TMessage.version tag _ _) = tag
ttag (TMessage.auth tag _ _ _) = tag
ttag (TMessage.attach tag _ _ _ _) = tag
ttag (TMessage.flush tag _) = tag
ttag (TMessage.walk tag _ _ _) = tag
ttag (TMessage.open_ tag _ _) = tag
ttag (TMessage.create tag _ _ _ _) = tag
ttag (TMessage.read tag _ _ _) = tag
ttag (TMessage.write tag _ _ _) = tag
ttag (TMessage.clunk tag _) = tag
ttag (TMessage.remove tag _) = tag
ttag (TMessage.stat tag _) = tag
ttag (TMessage.wstat tag _ _) = tag
ttag (TMessage.rename_at tag _ _ _ _) = tag
ttag (TMessage.referrals tag _) = tag

unfoldable pub tmessage_type : TMessage → ℕ
tmessage_type (TMessage.version _ _ _) = tversion
tmessage_type (TMessage.auth _ _ _ _) = tauth
tmessage_type (TMessage.attach _ _ _ _ _) = tattach
tmessage_type (TMessage.flush _ _) = tflush
tmessage_type (TMessage.walk _ _ _ _) = twalk
tmessage_type (TMessage.open_ _ _ _) = topen
tmessage_type (TMessage.create _ _ _ _ _) = tcreate
tmessage_type (TMessage.read _ _ _ _) = tread
tmessage_type (TMessage.write _ _ _ _) = twrite
tmessage_type (TMessage.clunk _ _) = tclunk
tmessage_type (TMessage.remove _ _) = tremove
tmessage_type (TMessage.stat _ _) = tstat
tmessage_type (TMessage.wstat _ _ _) = twstat
tmessage_type (TMessage.rename_at _ _ _ _ _) = trenameat
tmessage_type (TMessage.referrals _ _) = treferrals

pub data RMessage : Type 0 where
  version : ℕ → ℕ → Bytes → RMessage
  auth : ℕ → Qid → RMessage
  attach : ℕ → Qid → RMessage
  error : ℕ → Bytes → RMessage
  flush : ℕ → RMessage
  walk : ℕ → List Qid → RMessage
  open_ : ℕ → Qid → ℕ → RMessage
  create : ℕ → Qid → ℕ → RMessage
  read : ℕ → Bytes → RMessage
  write : ℕ → ℕ → RMessage
  clunk : ℕ → RMessage
  remove : ℕ → RMessage
  stat : ℕ → Stat → RMessage
  wstat : ℕ → RMessage
  rename_at : ℕ → RMessage
  referrals : ℕ → List NamespaceReferral → RMessage

unfoldable pub rtag : RMessage → ℕ
rtag (RMessage.version tag _ _) = tag
rtag (RMessage.auth tag _) = tag
rtag (RMessage.attach tag _) = tag
rtag (RMessage.error tag _) = tag
rtag (RMessage.flush tag) = tag
rtag (RMessage.walk tag _) = tag
rtag (RMessage.open_ tag _ _) = tag
rtag (RMessage.create tag _ _) = tag
rtag (RMessage.read tag _) = tag
rtag (RMessage.write tag _) = tag
rtag (RMessage.clunk tag) = tag
rtag (RMessage.remove tag) = tag
rtag (RMessage.stat tag _) = tag
rtag (RMessage.wstat tag) = tag
rtag (RMessage.rename_at tag) = tag
rtag (RMessage.referrals tag _) = tag

unfoldable pub rmessage_type : RMessage → ℕ
rmessage_type (RMessage.version _ _ _) = rversion
rmessage_type (RMessage.auth _ _) = rauth
rmessage_type (RMessage.attach _ _) = rattach
rmessage_type (RMessage.error _ _) = rerror
rmessage_type (RMessage.flush _) = rflush
rmessage_type (RMessage.walk _ _) = rwalk
rmessage_type (RMessage.open_ _ _ _) = ropen
rmessage_type (RMessage.create _ _ _) = rcreate
rmessage_type (RMessage.read _ _) = rread
rmessage_type (RMessage.write _ _) = rwrite
rmessage_type (RMessage.clunk _) = rclunk
rmessage_type (RMessage.remove _) = rremove
rmessage_type (RMessage.stat _ _) = rstat
rmessage_type (RMessage.wstat _) = rwstat
rmessage_type (RMessage.rename_at _) = rrenameat
rmessage_type (RMessage.referrals _ _) = rreferrals
