-- ===== src/Server.antt =====
-- crates/core/src/server/types.rs and validation.rs: what the server exchanges with its backend, and
-- the checks on a request that need no session. The children are handlers.rs: `Admit`, `Complete`
-- and `Handle`, and their theorems.
pub mod Arms
pub mod Admit
pub mod Complete
pub mod Handle
pub mod Ensures
pub mod Replies
pub mod Stale
pub mod Once
pub mod Ended
pub mod Answers
pub mod Msize
pub mod Plain
pub mod Iounit
pub mod Keeping
pub mod Completing
pub mod Begun
pub mod FlushArm
pub mod Invariant
pub mod Version
pub mod Atomic
use r9p.Base.{
  ℕ, ◌-◌, ◌^◌, min, Bool, true, false, not, ◌&&◌, ◌||◌, Bytes, List, [], ◌∷◌, Option, none, some,
  length, take, any, all, ltb, leb, beq, ◌==◌, if◌then◌else◌, Error, Result, ok, err, ◌>>=◌, ◌>>◌,
  ensure, from_static,
}
use r9p.Qid.{
  Qid, is_dir, is_auth, is_symlink, has, dmdir, dmsymlink, is_valid, is_directory_mode,
  permits_read, permits_write,
}
use r9p.Stat.{Stat}
use r9p.Referral.{NamespaceReferral, slash}
use r9p.Message.{RMessage, maxwelem, notag}
use r9p.Codec.{Variant, supports_symlinks, max_iounit}
use r9p.Flush.{RequestKey, FlushOutcome}
use r9p.Session.{FidState, is_none}

pub record OpenFile : Type 0 where
  pub qid : Qid
  pub iounit : ℕ

pub data ReadData : Type 0 where
  bytes_read : Bytes → ReadData
  directory : List Stat → ReadData

-- The arguments are the source's fields in their order.
pub data ServerRequestKind : Type 0 where
  auth : ℕ → Bytes → Bytes → ServerRequestKind
  attach : ℕ → ℕ → Bytes → Bytes → ServerRequestKind
  walk : ℕ → ℕ → Qid → List Bytes → ServerRequestKind
  open_ : ℕ → Qid → ℕ → ServerRequestKind
  create : ℕ → Qid → Bytes → ℕ → ℕ → ServerRequestKind
  read : ℕ → Qid → ℕ → ℕ → ServerRequestKind
  write : ℕ → Qid → ℕ → Bytes → ServerRequestKind
  clunk : ℕ → Qid → ServerRequestKind
  remove : ℕ → Qid → ServerRequestKind
  stat : ℕ → Qid → ServerRequestKind
  wstat : ℕ → Qid → Stat → ServerRequestKind
  rename_at : ℕ → Qid → Bytes → ℕ → Qid → Bytes → ServerRequestKind
  referrals : ℕ → Qid → ServerRequestKind

pub record ServerRequest : Type 0 where
  pub key : RequestKey
  pub kind : ServerRequestKind

pub data ServerCompletion : Type 0 where
  auth_done : Qid → ServerCompletion
  attach_done : Qid → ServerCompletion
  walk_done : List Qid → ServerCompletion
  open_done : OpenFile → ServerCompletion
  create_done : OpenFile → ServerCompletion
  read_done : ReadData → ServerCompletion
  write_done : ℕ → ServerCompletion
  clunk_done : ServerCompletion
  remove_done : ServerCompletion
  stat_done : Stat → ServerCompletion
  wstat_done : ServerCompletion
  rename_at_done : ServerCompletion
  referrals_done : List NamespaceReferral → ServerCompletion

pub data ServerEvent : Type 0 where
  reply : RMessage → ServerEvent
  dispatch : ServerRequest → ServerEvent
  flushed : RMessage → FlushOutcome → ServerEvent

abbrev pub bad_wname : Bytes → Bool
bad_wname name =
    beq name []
    || (any (λ b. b == slash) name || (any (λ b. b == 0) name || ltb (2 ^ 16 - 1) (length name)))

unfoldable pub validate_walk_names : List Bytes → Result (Unit {0})
validate_walk_names wnames = do
  ensure (leb (length wnames) maxwelem) (from_static "name too long")
  ensure (not (any bad_wname wnames)) (from_static "bad walk name")

abbrev qid_untouched : Qid → Bool
qid_untouched q = q.qtype == 2 ^ 8 - 1 && (q.version == 2 ^ 32 - 1 && q.path == 2 ^ 64 - 1)

abbrev pub bool_eq : Bool → Bool → Bool
bool_eq true b = b
bool_eq false b = not b

unfoldable pub validate_wstat : Qid → Stat → Variant → Result (Unit {0})
validate_wstat qid s variant = do
  ensure (s.kind == 2 ^ 16 - 1) (from_static "wstat -- attempt to change type")
  ensure (s.dev == 2 ^ 32 - 1) (from_static "wstat -- attempt to change dev")
  ensure (qid_untouched s.qid) (from_static "wstat -- attempt to change qid")
  ensure (s.atime == 2 ^ 32 - 1) (from_static "wstat -- attempt to change atime")
  ensure (beq s.uid []) (from_static "wstat -- attempt to change uid")
  ensure (beq s.muid []) (from_static "wstat -- attempt to change muid")
  ensure (s.mode == 2 ^ 32 - 1 || bool_eq (has s.mode dmdir) (is_dir qid))
      (from_static "wstat -- attempt to change DMDIR bit")
  ensure
      (s.mode == 2 ^ 32 - 1
        || (bool_eq (has s.mode dmsymlink) (is_symlink qid)
            && (not (has s.mode dmsymlink) || supports_symlinks variant)))
      (from_static "wstat -- attempt to change DMSYMLINK bit")
  ensure (not (is_dir qid) || (s.length == 2 ^ 64 - 1 || s.length == 0))
      (from_static "wstat -- attempt to set non-zero directory length")

unfoldable pub take_count : Bytes → ℕ → Bytes
take_count bytes count = if ltb count (length bytes) then take count bytes else bytes

-- Both branches of the source carry the error's own message: where the tag is NOTAG and the message
-- is EBADTAG, the reply names EBADTAG again.
unfoldable pub error_reply : ℕ → Error → RMessage
error_reply tag error = RMessage.error tag error.message

-- handlers.rs: the checks on a fid's state.
unfoldable pub validate_open : FidState → ℕ → Result (Unit {0})
validate_open state open_mode = do
  ensure (is_none state.open_mode) (from_static "fid already open")
  ensure (is_valid open_mode) (from_static "invalid open mode")
  ensure (not (is_dir state.qid) || is_directory_mode open_mode) (from_static "invalid open mode")

unfoldable pub validate_create : FidState → ℕ → ℕ → Result (Unit {0})
validate_create state perm open_mode = do
  ensure (is_none state.open_mode) (from_static "fid already open")
  ensure (is_dir state.qid) (from_static "not a directory")
  ensure (is_valid open_mode) (from_static "invalid open mode")
  ensure (not (has perm dmdir) || is_directory_mode open_mode) (from_static "invalid open mode")

abbrev not_open : Error
not_open = from_static "fid not open for requested operation"

unfoldable pub validate_read : FidState → ℕ → Result (Unit {0})
validate_read state offset = if is_auth state.qid then ok tt else elim state.open_mode [
  | none ↦ err not_open
  | some open_mode ↦ do
    ensure (permits_read open_mode) not_open
    ensure (not (is_dir state.qid) || (offset == 0 || offset == state.directory_offset))
        (from_static "invalid directory offset")
]

unfoldable pub validate_write : FidState → Result (Unit {0})
validate_write state = if is_auth state.qid then ok tt else elim state.open_mode [
  | none ↦ err not_open
  | some open_mode ↦ ensure (not (is_dir state.qid) && permits_write open_mode) not_open
]

unfoldable pub clamp_iounit : ℕ → ℕ → ℕ
clamp_iounit msize iounit = if iounit == 0 then 0 else min iounit (max_iounit msize)

unfoldable pub validate_qid_variant : Variant → Qid → Result (Unit {0})
validate_qid_variant variant qid =
    ensure (not (is_symlink qid) || supports_symlinks variant)
      (from_static "symlink metadata requires negotiated 9P2000.R")

unfoldable pub validate_stat_variant : Variant → Stat → Result (Unit {0})
validate_stat_variant variant s = do
  validate_qid_variant variant s.qid
  ensure (not (has s.mode dmsymlink) || supports_symlinks variant)
      (from_static "symlink metadata requires negotiated 9P2000.R")

-- `for item in &items { check(item)?; }`.
unfoldable pub validate_each {ℓ} :
    {A : Type ℓ} → (A → Result (Unit {0})) → List A → Result (Unit {0})
validate_each check [] = ok tt
validate_each check (x ∷ xs) = do check x; validate_each check xs
