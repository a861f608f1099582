-- ===== src/Server/Arms.antt =====
-- crates/core/src/server/handlers.rs: the arms of `admit_after_begin`, one action each. They touch
-- the session only.
use r9p.Base.{
  ℕ, Bool, true, false, not, ◌&&◌, ◌||◌, Bytes, List, [], ◌∷◌, length, leb, ◌==◌, if◌then◌else◌, ok,
  err, ok_or, ensure, from_static,
}
use r9p.Qid.{is_dir, is_auth}
use r9p.Stat.{Stat}
use r9p.Message.{RMessage, nofid}
use r9p.Codec.{Variant, supports_rename_at, supports_referrals, clamp_read_count, max_write_payload}
use r9p.Flush.{RequestKey, FlushOutcome, finish, flush, cancelled, unknown}
use r9p.Session.{
  Session, M, ◌>>=◌, ◌>>◌, return, lift, is_none, authorize_uname, get_fid, reserve_existing_fid,
  reserve_shared_fid, reserve_new_fid, retire_fid, release_reservations,
}
use r9p.Server.{
  ServerEvent, dispatch, flushed, ServerRequestKind, validate_walk_names, validate_wstat,
  validate_open, validate_create, validate_read, validate_write,
}

-- Reads of the session, and the calls of its request table.
unfoldable pub gets : {A : Type 0} → (Session → A) → M A
gets f s = (ok (f s), s)

unfoldable pub negotiated_variant : M Variant
negotiated_variant s = (ok_or s.variant (from_static "version not negotiated"), s)

unfoldable pub flush_request : ℕ → M FlushOutcome
flush_request oldtag s = elim (flush s.requests oldtag) [
  | ok (outcome, requests) ↦ (ok outcome, record s { requests = requests })
  | err e ↦ (err e, s)
]

-- `requests.finish(key)`, its answer discarded.
unfoldable pub finish_request : RequestKey → M (Unit {0})
finish_request key s = (ok tt, record s { requests = (finish s.requests key).1 })

unfoldable pub release_cancelled : FlushOutcome → M (Unit {0})
release_cancelled unknown s = (ok tt, s)
release_cancelled (cancelled key) s = (ok tt, release_reservations s key)

abbrev pub dispatched : RequestKey → ServerRequestKind → M ServerEvent
dispatched key kind = return (dispatch (record { key = key; kind = kind }))

-- The authentication fid of a `Tattach`, unless it is NOFID.
unfoldable pub claim_auth_fid : RequestKey → ℕ → M (Unit {0})
claim_auth_fid key afid = if afid == nofid then return tt else (do
  auth_state ← get_fid afid
  lift (ensure (is_auth auth_state.qid) (from_static "authentication not required"))
  reserve_existing_fid key afid)

unfoldable pub admit_auth : RequestKey → ℕ → Bytes → Bytes → M ServerEvent
admit_auth key afid uname aname = do
  authorized ← gets (λ s. authorize_uname s uname)
  lift authorized
  lift (ensure (not (afid == nofid)) (from_static "authentication not required"))
  reserve_new_fid key afid
  dispatched key (ServerRequestKind.auth afid uname aname)

unfoldable pub admit_attach : RequestKey → ℕ → ℕ → Bytes → Bytes → M ServerEvent
admit_attach key fid afid uname aname = do
  authorized ← gets (λ s. authorize_uname s uname)
  lift authorized
  claim_auth_fid key afid
  reserve_new_fid key fid
  dispatched key (ServerRequestKind.attach fid afid uname aname)

unfoldable pub admit_flush : RequestKey → ℕ → M ServerEvent
admit_flush key oldtag = do
  outcome ← flush_request oldtag
  release_cancelled outcome
  finish_request key
  return (flushed (RMessage.flush key.tag) outcome)

-- The fids of a walk: one exclusive reservation, or a shared one and a new fid.
unfoldable pub reserve_walk : RequestKey → ℕ → ℕ → M (Unit {0})
reserve_walk key fid newfid =
    if newfid == fid
    then reserve_existing_fid key fid
    else (do reserve_shared_fid key fid; reserve_new_fid key newfid)

abbrev pub no_names : List Bytes → Bool
no_names [] = true
no_names (name ∷ names) = false

unfoldable pub admit_walk : RequestKey → ℕ → ℕ → List Bytes → M ServerEvent
admit_walk key fid newfid wnames = do
  lift (validate_walk_names wnames)
  source ← get_fid fid
  lift (ensure (is_none source.open_mode) (from_static "fid already open"))
  lift (ensure (no_names wnames || is_dir source.qid) (from_static "not a directory"))
  reserve_walk key fid newfid
  dispatched key (ServerRequestKind.walk fid newfid source.qid wnames)

unfoldable pub admit_open : RequestKey → ℕ → ℕ → M ServerEvent
admit_open key fid mode = do
  state ← get_fid fid
  lift (validate_open state mode)
  reserve_existing_fid key fid
  dispatched key (ServerRequestKind.open_ fid state.qid mode)

unfoldable pub admit_create : RequestKey → ℕ → Bytes → ℕ → ℕ → M ServerEvent
admit_create key fid name perm mode = do
  state ← get_fid fid
  lift (validate_create state perm mode)
  reserve_existing_fid key fid
  dispatched key (ServerRequestKind.create fid state.qid name perm mode)

unfoldable pub admit_read : RequestKey → ℕ → ℕ → ℕ → M ServerEvent
admit_read key fid offset count = do
  state ← get_fid fid
  lift (validate_read state offset)
  if is_dir state.qid then reserve_existing_fid key fid else return tt
  msize ← gets (λ s. s.msize)
  dispatched key (ServerRequestKind.read fid state.qid offset (clamp_read_count msize count))

unfoldable pub admit_write : RequestKey → ℕ → ℕ → Bytes → M ServerEvent
admit_write key fid offset data' = do
  msize ← gets (λ s. s.msize)
  lift (ensure (leb (length data') (max_write_payload msize)) (from_static "write exceeds msize"))
  state ← get_fid fid
  lift (validate_write state)
  dispatched key (ServerRequestKind.write fid state.qid offset data')

unfoldable pub admit_clunk : RequestKey → ℕ → M ServerEvent
admit_clunk key fid = do
  state ← retire_fid key fid
  dispatched key (ServerRequestKind.clunk fid state.qid)

unfoldable pub admit_remove : RequestKey → ℕ → M ServerEvent
admit_remove key fid = do
  state ← retire_fid key fid
  dispatched key (ServerRequestKind.remove fid state.qid)

unfoldable pub admit_stat : RequestKey → ℕ → M ServerEvent
admit_stat key fid = do state ← get_fid fid; dispatched key (ServerRequestKind.stat fid state.qid)

unfoldable pub admit_wstat : RequestKey → ℕ → Stat → M ServerEvent
admit_wstat key fid stat = do
  state ← get_fid fid
  variant ← negotiated_variant
  lift (validate_wstat state.qid stat variant)
  reserve_existing_fid key fid
  dispatched key (ServerRequestKind.wstat fid state.qid stat)

-- One shared reservation for each of the two directories, or one for both.
unfoldable pub reserve_directories : RequestKey → ℕ → ℕ → M (Unit {0})
reserve_directories key olddirfid newdirfid = do
  reserve_shared_fid key olddirfid
  if newdirfid == olddirfid then return tt else reserve_shared_fid key newdirfid

unfoldable pub admit_rename_at : RequestKey → ℕ → Bytes → ℕ → Bytes → M ServerEvent
admit_rename_at key olddirfid oldname newdirfid newname = do
  variant ← negotiated_variant
  lift (ensure (supports_rename_at variant) (from_static "renameat requires negotiated 9P2000.R"))
  lift (validate_walk_names (oldname ∷ newname ∷ []))
  olddir ← get_fid olddirfid
  newdir ← get_fid newdirfid
  lift (ensure (is_dir olddir.qid && is_dir newdir.qid) (from_static "not a directory"))
  reserve_directories key olddirfid newdirfid
  dispatched key
      (ServerRequestKind.rename_at olddirfid olddir.qid oldname newdirfid newdir.qid newname)

unfoldable pub admit_referrals : RequestKey → ℕ → M ServerEvent
admit_referrals key fid = do
  variant ← negotiated_variant
  lift (
      ensure (supports_referrals variant)
        (from_static "namespace referrals require negotiated 9P2000.R"))
  state ← get_fid fid
  reserve_shared_fid key fid
  dispatched key (ServerRequestKind.referrals fid state.qid)
