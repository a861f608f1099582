-- ===== src/Client.antt =====
-- crates/core/src/client.rs: the client's side of a connection, with no transport: tags, fids and the
-- requests that wait for a reply. The children are its operations (`Ops`), its replies (`Receive`)
-- and their theorems.
pub mod Ops
pub mod Replies
pub mod Receive
pub mod Support
pub mod Chunks
pub mod Delimited
pub mod Calls
pub mod Tags
pub mod Starts
pub mod Invariant
pub mod Responses
pub mod Finish
pub mod Settles
use r9p.Base.{
  ℕ, ◌+◌, ◌%◌, ◌-◌, ◌^◌, Bool, true, false, zero, suc, Bytes, bytes, [], Option, none, some, ◌==◌,
  if◌then◌else◌, Error, Result, ok, err, from_static,
}
use r9p.Base.Map.{Map, remove}
use r9p.Base.Stateful.{Stateful}
use r9p.Message.{TMessage, notag, nofid}
use r9p.Codec.{Variant, wire_name}
use r9p.Flush.{RequestTable, table_new, is_live, begin, flush, reset}

pub record Client : Type 0 where
  pub msize : ℕ
  pub version : Bytes
  pub requested_msize : Option ℕ
  pub next_tag : ℕ
  pub next_fid : ℕ
  pub pending : RequestTable
  pub flush_targets : Map ℕ

pub record Op : Type 0 where
  pub tag : ℕ
  pub fid : Option ℕ
  pub message : TMessage

unfoldable pub client_new : Client
unfolding bytes table_new
client_new = record {
  msize = r9p.Codec.default_msize;
  version = bytes "9P2000";
  requested_msize = none;
  next_tag = 0;
  next_fid = 1;
  pending = table_new;
  flush_targets = [];
}

unfoldable pub version_request_for : ℕ → Variant → Client → TMessage × Client
unfolding bytes
version_request_for msize variant c = (
  TMessage.version notag msize (wire_name variant),
  record c {
    pending = reset c.pending;
    flush_targets = [];
    version = bytes "unknown";
    requested_msize = some msize;
  },
)

-- `wrapping_add(1)` on a `u16` and on a `u32`.
abbrev pub next_u16 : ℕ → ℕ
next_u16 n = (n + 1) % 2 ^ 16

abbrev pub next_u32 : ℕ → ℕ
next_u32 n = (n + 1) % 2 ^ 32

-- `self.pending.begin(tag)?` and then the tag.
unfoldable pub begin_tag : ℕ → Stateful Client ℕ
begin_tag tag c = elim (begin c.pending tag) [
  | ok (key, pending) ↦ (ok tag, record c { pending = pending })
  | err e ↦ (err e, c)
]

-- `for _ in 0..u16::MAX`, by the rounds left.
unfoldable pub alloc_rounds : ℕ → Stateful Client ℕ
alloc_rounds zero c = (err (from_static "duplicate tag"), c)
alloc_rounds (suc n) c = elim (c.next_tag == notag) [
  | true ↦ alloc_rounds n (record c { next_tag = next_u16 c.next_tag })
  | false ↦ elim (is_live c.pending c.next_tag) [
    | true ↦ alloc_rounds n (record c { next_tag = next_u16 c.next_tag })
    | false ↦ begin_tag c.next_tag (record c { next_tag = next_u16 c.next_tag })
  ]
]

unfoldable pub alloc_tag : Stateful Client ℕ
alloc_tag c = alloc_rounds (2 ^ 16 - 1) c

unfoldable pub alloc_fid : Stateful Client ℕ
alloc_fid c = (
  ok c.next_fid,
  record c { next_fid = if next_u32 c.next_fid == nofid then 1 else next_u32 c.next_fid },
)

unfoldable pub abandon : ℕ → Client → Client
abandon tag c = if tag == notag then record c { requested_msize = none } else record c {
  pending = elim (flush c.pending tag) [ ok (outcome, pending) ↦ pending | err e ↦ c.pending ];
  flush_targets = remove tag c.flush_targets;
}
