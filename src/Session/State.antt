-- ===== src/Session/State.antt =====
-- crates/core/src/fid.rs, server/config.rs and the types of server/session.rs; and the monad of the
-- session's methods, which keeps the state that a method has reached also when it fails.
use r9p.Base.{
  ℕ, Bool, true, false, ◌&&◌, Bytes, bytes, List, [], ◌∷◌, Option, none, some, Error, Result, ok,
  err,
}
use r9p.Base.Map.{Map}
use r9p.Qid.{Qid}
use r9p.Flush.{RequestKey, RequestTable, table_new}
use r9p.Codec.{Variant, min_msize, default_msize, max_msize, accept, wire_name}

-- `FidState` of fid.rs.
pub record FidState : Type 0 where
  pub qid : Qid
  pub open_mode : Option ℕ
  pub directory_offset : ℕ

abbrev pub fid_new : Qid → FidState
fid_new qid = record { qid = qid; open_mode = none; directory_offset = 0 }

abbrev pub fid_opened : Qid → ℕ → FidState
fid_opened qid mode = record { qid = qid; open_mode = some mode; directory_offset = 0 }

abbrev pub with_directory_offset : FidState → ℕ → FidState
with_directory_offset state offset = record state { directory_offset = offset }

pub record ServerConfig : Type 0 where
  pub default_msize : ℕ
  pub max_msize : ℕ
  pub max_fids : ℕ
  pub max_async_requests : ℕ
  pub variant : Variant
  pub session_uname : Option Bytes

abbrev pub config_default : ServerConfig
config_default = record {
  default_msize = r9p.Codec.default_msize;
  max_msize = r9p.Codec.max_msize;
  max_fids = 4096;
  max_async_requests = 256;
  variant = Variant.plain;
  session_uname = none;
}

pub record FidReservation : Type 0 where
  pub request : RequestKey
  pub new_fid : Bool

pub record FidReservations : Type 0 where
  pub exclusive : Option FidReservation
  pub shared : List RequestKey

abbrev pub is_none {ℓ} : {A : Type ℓ} → Option A → Bool
is_none none = true
is_none (some a) = false

abbrev pub is_nil {ℓ} : {A : Type ℓ} → List A → Bool
is_nil [] = true
is_nil (x ∷ xs) = false

abbrev pub is_empty : FidReservations → Bool
is_empty r = is_none r.exclusive && is_nil r.shared

abbrev pub no_reservations : FidReservations
no_reservations = record { exclusive = none; shared = [] }

pub data VersionNegotiation : Type 0 where
  accepted unknown : VersionNegotiation

pub record Session : Type 0 where
  pub config : ServerConfig
  pub msize : ℕ
  pub version : Bytes
  pub variant : Option Variant
  pub negotiated : Bool
  pub fids : Map FidState
  pub reservations : Map FidReservations
  pub requests : RequestTable

abbrev pub M : Type 0 → Type 0
M A = Session → Result A × Session

abbrev pub resume : {A B : Type 0} → (A → M B) → Result A → M B
resume f (ok a) s = f a s
resume f (err e) s = (err e, s)

infixl 5 ◌>>=◌ ◌>>◌
unfoldable pub ◌>>=◌ : {A B : Type 0} → M A → (A → M B) → M B
◌>>=◌ m f s = let (r, s') = m s in resume f r s'

unfoldable pub ◌>>◌ : {B : Type 0} → M (Unit {0}) → M B → M B
m >> k = m >>= λ _. k

unfoldable pub return : {A : Type 0} → A → M A
return a s = (ok a, s)

unfoldable pub lift : {A : Type 0} → Result A → M A
lift r s = (r, s)

unfoldable pub fail : {A : Type 0} → Error → M A
fail e s = (err e, s)

unfoldable pub session_new : ServerConfig → Session
unfolding bytes table_new
session_new config = record {
  config = config;
  msize = config.default_msize;
  version = bytes "unknown";
  variant = none;
  negotiated = false;
  fids = [];
  reservations = [];
  requests = table_new;
}
