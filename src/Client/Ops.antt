-- ===== src/Client/Ops.antt =====
-- crates/core/src/client.rs: the operations. Each allocates a tag, and builds the message.
use r9p.Base.{ℕ, Bytes, List, none, some, not, ◌==◌, ensure, from_static}
use r9p.Base.Map.{insert}
use r9p.Base.Stateful.{Stateful, ◌>>=◌, ◌>>◌, return, lift, modify}
use r9p.Stat.{Stat}
use r9p.Message.{TMessage, notag, nofid}
use r9p.Client.{Client, Op, alloc_tag, alloc_fid}

-- An operation on a fid that exists.
abbrev pub on_fid : ℕ → (ℕ → TMessage) → Stateful Client Op
on_fid fid message = do
  tag ← alloc_tag
  return (record { tag = tag; fid = some fid; message = message tag })

unfoldable pub attach : Bytes → Bytes → Stateful Client Op
attach uname aname = do
  tag ← alloc_tag
  fid ← alloc_fid
  return (record { tag = tag; fid = some fid; message = TMessage.attach tag fid nofid uname aname })

unfoldable pub walk : ℕ → List Bytes → Stateful Client Op
walk fid wnames = do
  tag ← alloc_tag
  newfid ← alloc_fid
  return (record { tag = tag; fid = some newfid; message = TMessage.walk tag fid newfid wnames })

unfoldable pub open_ : ℕ → ℕ → Stateful Client Op
open_ fid mode = on_fid fid (λ tag. TMessage.open_ tag fid mode)

unfoldable pub read : ℕ → ℕ → ℕ → Stateful Client Op
read fid offset count = on_fid fid (λ tag. TMessage.read tag fid offset count)

unfoldable pub write : ℕ → ℕ → Bytes → Stateful Client Op
write fid offset payload = on_fid fid (λ tag. TMessage.write tag fid offset payload)

unfoldable pub create : ℕ → Bytes → ℕ → ℕ → Stateful Client Op
create fid name perm mode = on_fid fid (λ tag. TMessage.create tag fid name perm mode)

unfoldable pub clunk : ℕ → Stateful Client Op
clunk fid = on_fid fid (λ tag. TMessage.clunk tag fid)

unfoldable pub remove_file : ℕ → Stateful Client Op
remove_file fid = on_fid fid (λ tag. TMessage.remove tag fid)

unfoldable pub stat : ℕ → Stateful Client Op
stat fid = on_fid fid (λ tag. TMessage.stat tag fid)

unfoldable pub wstat : ℕ → Stat → Stateful Client Op
wstat fid entry = on_fid fid (λ tag. TMessage.wstat tag fid entry)

unfoldable pub rename_at : ℕ → Bytes → ℕ → Bytes → Stateful Client Op
rename_at olddirfid oldname newdirfid newname =
    on_fid olddirfid (λ tag. TMessage.rename_at tag olddirfid oldname newdirfid newname)

unfoldable pub referrals : ℕ → Stateful Client Op
referrals fid = on_fid fid (λ tag. TMessage.referrals tag fid)

-- The flush of another request, which a reply to it will end.
unfoldable pub flush_op : ℕ → Stateful Client Op
flush_op oldtag = do
  lift (ensure (not (oldtag == notag)) (from_static "invalid tag"))
  tag ← alloc_tag
  modify (λ c. record c { flush_targets = insert tag oldtag c.flush_targets })
  return (record { tag = tag; fid = none; message = TMessage.flush tag oldtag })
