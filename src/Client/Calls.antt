-- ===== src/Client/Calls.antt =====
-- The operations of the client as data, so that a theorem can range over them all, and what happens
-- to a client in any order.
use r9p.Base.{ℕ, Bytes, List, [], ◌∷◌}
use r9p.Base.Stateful.{Stateful}
use r9p.Stat.{Stat}
use r9p.Message.{RMessage}
use r9p.Codec.{Variant}
use r9p.Client.{Client, Op, version_request_for, abandon}
use r9p.Client.Ops
use r9p.Client.Receive.{receive}

pub data Call : Type 0 where
  attach : Bytes → Bytes → Call
  walk : ℕ → List Bytes → Call
  open_ : ℕ → ℕ → Call
  read : ℕ → ℕ → ℕ → Call
  write : ℕ → ℕ → Bytes → Call
  create : ℕ → Bytes → ℕ → ℕ → Call
  clunk : ℕ → Call
  remove : ℕ → Call
  stat : ℕ → Call
  wstat : ℕ → Stat → Call
  rename_at : ℕ → Bytes → ℕ → Bytes → Call
  referrals : ℕ → Call
  flush : ℕ → Call

unfoldable pub start : Call → Stateful Client Op
start (attach uname aname) = Ops.attach uname aname
start (walk fid wnames) = Ops.walk fid wnames
start (open_ fid mode) = Ops.open_ fid mode
start (read fid offset count) = Ops.read fid offset count
start (write fid offset payload) = Ops.write fid offset payload
start (create fid name perm mode) = Ops.create fid name perm mode
start (clunk fid) = Ops.clunk fid
start (remove fid) = Ops.remove_file fid
start (stat fid) = Ops.stat fid
start (wstat fid entry) = Ops.wstat fid entry
start (rename_at olddirfid oldname newdirfid newname) =
    Ops.rename_at olddirfid oldname newdirfid newname
start (referrals fid) = Ops.referrals fid
start (flush oldtag) = Ops.flush_op oldtag

pub data Event : Type 0 where
  starts : Call → Event
  receives : RMessage → Event
  versions : ℕ → Variant → Event
  abandons : ℕ → Event

unfoldable pub happens : (ℕ → Bytes) → Client → Event → Client
happens show c (starts call) = (start call c).1
happens show c (receives r) = (receive show r c).1
happens show c (versions msize variant) = (version_request_for msize variant c).1
happens show c (abandons tag) = abandon tag c

unfoldable pub run : (ℕ → Bytes) → Client → List Event → Client
run show c [] = c
run show c (event ∷ events) = run show (happens show c event) events
