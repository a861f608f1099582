-- ===== src/Server/Completing.antt =====
-- What binding a fid keeps, every arm of `complete` keeps.
use r9p.Base.{ℕ, List, [], ◌∷◌, Bytes, Result, ok, err}
use r9p.Qid.{Qid}
use r9p.Codec.{Variant}
use r9p.Session.{Session, FidState, bind_fid, insert_new_fid}
use r9p.Session.Keeps.{
  Keeps, Keeps-bind, Keeps-then, Keeps-return, Keeps-lift, Keeps-fail, Keeps-if, Keeps-get_fid,
}
use r9p.Server.{
  ServerRequestKind, ServerCompletion, ReadData, bytes_read, directory, auth_done, attach_done,
  walk_done, open_done, create_done, read_done, write_done, clunk_done, remove_done, stat_done,
  wstat_done, rename_at_done, referrals_done,
}
use r9p.Server.Keeping.{Keeps-gets, Keeps-negotiated_variant}
use r9p.Server.Complete.{
  complete_auth, complete_attach, complete_walk, complete_open, complete_create, complete_read,
  walk_empty, walk_named, bind_walk, read_payload, advance_directory, apply_kind, apply_completion,
  apply_result,
}

ruleset keeping = (
  Keeps-bind, Keeps-then, Keeps-return, Keeps-lift, Keeps-fail, Keeps-if, Keeps-get_fid, Keeps-gets,
  Keeps-negotiated_variant,
)

module _ (P : Session → Type 0)
    (binds : (fid : ℕ) (state : FidState) → Keeps P (bind_fid fid state))
    (inserts : (fid : ℕ) (state : FidState) → Keeps P (insert_new_fid fid state)) where
  Keeps-read_payload :
      (variant : Variant) (offset count : ℕ) (answer : ReadData)
      → Keeps P (read_payload variant offset count answer)
  unfolding read_payload
  Keeps-read_payload variant offset count (bytes_read bytes) = search keeping depth 30
  Keeps-read_payload variant offset count (directory stats) = search keeping depth 30

  Keeps-walk_named :
      (tag fid newfid : ℕ) (wnames : List Bytes) (qids : List Qid)
      → Keeps P (walk_named tag fid newfid wnames qids)
  unfolding walk_named bind_walk
  Keeps-walk_named tag fid newfid wnames [] = search keeping depth 30
  Keeps-walk_named tag fid newfid wnames (q ∷ qids) = search (keeping, binds, inserts) depth 30

  Keeps-walk_empty : (tag fid newfid : ℕ) (start : Qid) → Keeps P (walk_empty tag fid newfid start)
  unfolding walk_empty
  Keeps-walk_empty tag fid newfid start = search (keeping, inserts) depth 30

  Keeps-apply_kind :
      (tag : ℕ) (variant : Variant) (kind : ServerRequestKind) (completion : ServerCompletion)
      → Keeps P (apply_kind tag variant kind completion)
  unfolding apply_kind complete_auth complete_attach complete_walk complete_open complete_create
      complete_read advance_directory
  Keeps-apply_kind tag variant (ServerRequestKind.auth _ _ _) (auth_done _) =
      search (keeping, inserts) depth 30
  Keeps-apply_kind tag variant (ServerRequestKind.attach _ _ _ _) (attach_done _) =
      search (keeping, inserts) depth 30
  Keeps-apply_kind tag variant (ServerRequestKind.walk _ _ _ _) (walk_done _) =
      search (keeping, Keeps-walk_named, Keeps-walk_empty) depth 30
  Keeps-apply_kind tag variant (ServerRequestKind.open_ _ _ _) (open_done _) =
      search (keeping, binds) depth 30
  Keeps-apply_kind tag variant (ServerRequestKind.create _ _ _ _ _) (create_done _) =
      search (keeping, binds) depth 30
  Keeps-apply_kind tag variant (ServerRequestKind.read _ _ _ _) (read_done _) =
      search (keeping, binds, Keeps-read_payload) depth 30
  Keeps-apply_kind tag variant (ServerRequestKind.write _ _ _ _) (write_done _) =
      search keeping depth 30
  Keeps-apply_kind tag variant (ServerRequestKind.clunk _ _) clunk_done = search keeping depth 30
  Keeps-apply_kind tag variant (ServerRequestKind.remove _ _) remove_done = search keeping depth 30
  Keeps-apply_kind tag variant (ServerRequestKind.stat _ _) (stat_done _) = search keeping depth 30
  Keeps-apply_kind tag variant (ServerRequestKind.wstat _ _ _) wstat_done = search keeping depth 30
  Keeps-apply_kind tag variant (ServerRequestKind.rename_at _ _ _ _ _ _) rename_at_done =
      search keeping depth 30
  Keeps-apply_kind tag variant (ServerRequestKind.referrals _ _) (referrals_done _) =
      search keeping depth 30
  Keeps-apply_kind tag variant kind completion = Keeps-fail _

  pub Keeps-apply_result :
      (tag : ℕ) (kind : ServerRequestKind) (completion : Result ServerCompletion)
      → Keeps P (apply_result tag kind completion)
  unfolding apply_result apply_completion
  Keeps-apply_result tag kind (ok completion) =
      Keeps-bind _ _ Keeps-negotiated_variant
        λ variant. Keeps-apply_kind tag variant kind completion
  Keeps-apply_result tag kind (err e) = Keeps-fail e
