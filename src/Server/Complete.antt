-- ===== src/Server/Complete.antt =====
-- crates/core/src/server/handlers.rs: `Server::complete`, from the backend's answer to the reply.
use r9p.Base.{
  ℕ, ◌+◌, ◌^◌, Bytes, List, [], ◌∷◌, Option, none, some, length, ltb, leb, ◌==◌, if◌then◌else◌,
  Result, ok, err, ensure, from_static,
}
use r9p.Qid.{Qid, is_dir, is_auth, ordwr}
use r9p.Stat.Directory.{dirread_chunk}
use r9p.Referral.{validate}
use r9p.Message.{RMessage}
use r9p.Codec.{Variant}
use r9p.Flush.{finish}
use r9p.Session.{
  Session, M, ◌>>=◌, ◌>>◌, return, lift, fail, fid_new, fid_opened, with_directory_offset, get_fid,
  bind_fid, insert_new_fid, release_reservations,
}
use r9p.Server.{
  OpenFile, ReadData, bytes_read, directory, ServerRequestKind, ServerRequest, ServerCompletion,
  auth_done, attach_done, walk_done, open_done, create_done, read_done, write_done, clunk_done,
  remove_done, stat_done, wstat_done, rename_at_done, referrals_done, take_count, error_reply,
  clamp_iounit, validate_qid_variant, validate_stat_variant, validate_each,
}
use r9p.Server.Arms.{gets, negotiated_variant, no_names}

unfoldable pub complete_auth : ℕ → Variant → ℕ → Qid → M RMessage
complete_auth tag variant afid qid = do
  lift (ensure (is_auth qid) (from_static "authentication not required"))
  lift (validate_qid_variant variant qid)
  insert_new_fid afid (fid_opened qid ordwr)
  return (RMessage.auth tag qid)

unfoldable pub complete_attach : ℕ → Variant → ℕ → Qid → M RMessage
complete_attach tag variant fid qid = do
  lift (validate_qid_variant variant qid)
  insert_new_fid fid (fid_new qid)
  return (RMessage.attach tag qid)

-- `qids[qids.len() - 1]`, for a list that has an element.
unfoldable pub last_qid : Qid → List Qid → Qid
last_qid q [] = q
last_qid q (r ∷ rs) = last_qid r rs

-- Where the walk leads: `fid` itself or a new one.
unfoldable pub bind_walk : ℕ → ℕ → Qid → M (Unit {0})
bind_walk fid newfid qid =
    if newfid == fid then bind_fid fid (fid_new qid) else insert_new_fid newfid (fid_new qid)

unfoldable pub walk_empty : ℕ → ℕ → ℕ → Qid → M RMessage
walk_empty tag fid newfid start = do
  if newfid == fid then return tt else insert_new_fid newfid (fid_new start)
  return (RMessage.walk tag [])

unfoldable pub walk_named : ℕ → ℕ → ℕ → List Bytes → List Qid → M RMessage
walk_named tag fid newfid wnames [] = fail (from_static "file does not exist")
walk_named tag fid newfid wnames (q ∷ qids) = do
  if length (q ∷ qids) == length wnames then bind_walk fid newfid (last_qid q qids) else return tt
  return (RMessage.walk tag (q ∷ qids))

unfoldable pub complete_walk : ℕ → Variant → ℕ → ℕ → Qid → List Bytes → List Qid → M RMessage
complete_walk tag variant fid newfid start wnames qids = do
  lift (ensure (leb (length qids) (length wnames)) (from_static "walk returned too many qids"))
  lift (validate_each (validate_qid_variant variant) qids)
  if no_names wnames then walk_empty tag fid newfid start else walk_named tag fid newfid wnames qids

unfoldable pub complete_open : ℕ → Variant → ℕ → ℕ → OpenFile → M RMessage
complete_open tag variant fid mode opened = do
  lift (validate_qid_variant variant opened.qid)
  bind_fid fid (fid_opened opened.qid mode)
  msize ← gets (λ s. s.msize)
  return (RMessage.open_ tag opened.qid (clamp_iounit msize opened.iounit))

unfoldable pub complete_create : ℕ → Variant → ℕ → ℕ → OpenFile → M RMessage
complete_create tag variant fid mode opened = do
  lift (validate_qid_variant variant opened.qid)
  bind_fid fid (fid_opened opened.qid mode)
  msize ← gets (λ s. s.msize)
  return (RMessage.create tag opened.qid (clamp_iounit msize opened.iounit))

unfoldable pub read_payload : Variant → ℕ → ℕ → ReadData → M Bytes
read_payload variant offset count (bytes_read bytes) = return (take_count bytes count)
read_payload variant offset count (directory stats) = do
  lift (validate_each (validate_stat_variant variant) stats)
  lift (dirread_chunk stats offset count)

-- A directory read moves the fid's offset behind what it returned.
unfoldable pub advance_directory : ℕ → ℕ → ℕ → M (Unit {0})
advance_directory fid offset count = do
  state ← get_fid fid
  lift (ensure (ltb (offset + count) (2 ^ 64)) (from_static "directory offset overflow"))
  bind_fid fid (with_directory_offset state (offset + count))

unfoldable pub complete_read : ℕ → Variant → ℕ → Qid → ℕ → ℕ → ReadData → M RMessage
complete_read tag variant fid qid offset count answer = do
  data' ← read_payload variant offset count answer
  if is_dir qid then advance_directory fid offset (length data') else return tt
  return (RMessage.read tag data')

unfoldable pub apply_kind : ℕ → Variant → ServerRequestKind → ServerCompletion → M RMessage
apply_kind tag variant (ServerRequestKind.auth afid _ _) (auth_done qid) =
    complete_auth tag variant afid qid
apply_kind tag variant (ServerRequestKind.attach fid _ _ _) (attach_done qid) =
    complete_attach tag variant fid qid
apply_kind tag variant (ServerRequestKind.walk fid newfid start wnames) (walk_done qids) =
    complete_walk tag variant fid newfid start wnames qids
apply_kind tag variant (ServerRequestKind.open_ fid _ mode) (open_done opened) =
    complete_open tag variant fid mode opened
apply_kind tag variant (ServerRequestKind.create fid _ _ _ mode) (create_done opened) =
    complete_create tag variant fid mode opened
apply_kind tag variant (ServerRequestKind.read fid qid offset count) (read_done answer) =
    complete_read tag variant fid qid offset count answer
apply_kind tag variant (ServerRequestKind.write _ _ _ data') (write_done count) = do
  lift (ensure (leb count (length data')) (from_static "write completion exceeds request count"))
  return (RMessage.write tag count)
apply_kind tag variant (ServerRequestKind.clunk _ _) clunk_done = return (RMessage.clunk tag)
apply_kind tag variant (ServerRequestKind.remove _ _) remove_done = return (RMessage.remove tag)
apply_kind tag variant (ServerRequestKind.stat _ _) (stat_done stat) = do
  lift (validate_stat_variant variant stat)
  return (RMessage.stat tag stat)
apply_kind tag variant (ServerRequestKind.wstat _ _ _) wstat_done = return (RMessage.wstat tag)
apply_kind tag variant (ServerRequestKind.rename_at _ _ _ _ _ _) rename_at_done =
    return (RMessage.rename_at tag)
apply_kind tag variant (ServerRequestKind.referrals _ _) (referrals_done referrals) = do
  lift (validate_each validate referrals)
  return (RMessage.referrals tag referrals)
apply_kind tag variant _ _ = fail (from_static "completion kind does not match request")

unfoldable pub apply_completion : ℕ → ServerRequestKind → ServerCompletion → M RMessage
apply_completion tag kind completion = do
  variant ← negotiated_variant
  apply_kind tag variant kind completion

-- `completion?` and then its application.
unfoldable pub apply_result : ℕ → ServerRequestKind → Result ServerCompletion → M RMessage
apply_result tag kind (ok completion) = apply_completion tag kind completion
apply_result tag kind (err e) = fail e

abbrev pub reply_of : ℕ → Result RMessage → RMessage
reply_of tag (ok message) = message
reply_of tag (err e) = error_reply tag e

unfoldable pub complete :
    ServerRequest → Result ServerCompletion → Session → Option RMessage × Session
complete request completion s =
    let (live, requests) = finish s.requests request.key in
    let s1 = release_reservations (record s { requests = requests }) request.key in
    let (r, s2) = apply_result request.key.tag request.kind completion s1 in
    if live
    then (some (reply_of request.key.tag r), s2)
    else (none, record s { requests = requests })
