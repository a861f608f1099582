-- ===== src/Client/Replies.antt =====
-- crates/core/src/client.rs: what a reply means to the caller.
use r9p.Base.{ℕ, Bytes, List}
use r9p.Qid.{Qid}
use r9p.Stat.{Stat}
use r9p.Referral.{NamespaceReferral}

pub data Completion : Type 0 where
  version : ℕ → Bytes → Completion
  attach : Qid → Completion
  auth : Qid → Completion
  flush : Completion
  walk : List Qid → Completion
  open_ : Qid → ℕ → Completion
  create : Qid → ℕ → Completion
  read : Bytes → Completion
  write : ℕ → Completion
  clunk : Completion
  remove : Completion
  stat : Stat → Completion
  wstat : Completion
  rename_at : Completion
  referrals : List NamespaceReferral → Completion

pub data ClientResponse : Type 0 where
  completion : ℕ → Completion → ClientResponse
  error : ℕ → Bytes → ClientResponse
