-- ===== src/Session.antt =====
-- crates/core/src/server/session.rs, server/config.rs and fid.rs: the state of one connection. A
-- method that takes `&mut self` and returns `Result` is an action of the monad `M`, which keeps the
-- state that the method has reached also when it fails.
mod State
pub mod Invariant
pub mod Keeps
pub mod Fids
use r9p.Base.{
  ℕ, ◌+◌, ◌^◌, min, Bool, true, false, not, ◌&&◌, ◌||◌, Bytes, bytes, List, [], ◌∷◌, Option, none,
  some, length, any, ltb, leb, beq, ◌==◌, if◌then◌else◌, Error, Result, ok, err, from_static,
}
use r9p.Base.Map.{Map, lookup, insert, remove, contains_key}
use r9p.Qid.{Qid}
use r9p.Flush.{RequestKey, RequestTable, key_eq, table_new, reset}
use r9p.Codec.{Variant, min_msize, default_msize, max_msize, accept, wire_name}
unfoldable pub use State.*

abbrev pub is_new_fid : FidReservations → Bool
is_new_fid r = elim r.exclusive [ none ↦ false | some reservation ↦ reservation.new_fid ]

unfoldable pub count_new : Map FidReservations → ℕ
count_new [] = 0
count_new ((fid, r) ∷ rs) = (if is_new_fid r then 1 else 0) + count_new rs

unfoldable pub fid_count : Session → ℕ
fid_count s = length s.fids + count_new s.reservations

unfoldable pub authorize_uname : Session → Bytes → Result (Unit {0})
authorize_uname s uname = elim s.config.session_uname [
  | none ↦ ok tt
  | some authenticated ↦
      if beq authenticated uname then ok tt else err (from_static "authentication not required")
]

unfoldable pub contains_fid : Session → ℕ → Bool
contains_fid s fid =
    contains_key fid s.fids
    || elim (lookup fid s.reservations) [ none ↦ false | some r ↦ is_new_fid r ]

unfoldable pub invalidate : Session → Session
unfolding bytes
invalidate s = record s {
  fids = [];
  reservations = [];
  requests = reset s.requests;
  msize = min_msize;
  version = bytes "unknown";
  variant = none;
  negotiated = false;
}

unfoldable pub reset_for_version : ℕ → Bytes → M VersionNegotiation
reset_for_version requested_msize version s0 =
    let s = invalidate s0 in
    if ltb requested_msize min_msize
    then (err (from_static "version: message size too small"), s)
    else elim (accept s.config.variant version) [
      | some agreed ↦ (
        ok accepted,
        record s {
          msize = min requested_msize s.config.max_msize;
          version = wire_name agreed;
          variant = some agreed;
          negotiated = true;
        },
      )
      | none ↦ (ok unknown, s)
    ]

-- `ensure_available`: no exclusive reservation.
unfoldable pub is_available : Session → ℕ → Bool
is_available s fid = elim (lookup fid s.reservations) [ none ↦ true | some r ↦ is_none r.exclusive ]

unfoldable pub is_unreserved : Session → ℕ → Bool
is_unreserved s fid = elim (lookup fid s.reservations) [ none ↦ true | some r ↦ is_empty r ]

unfoldable pub bind_fid : ℕ → FidState → M (Unit {0})
bind_fid fid state s =
    if not (is_unreserved s fid)
    then (err (from_static "fid busy"), s)
    else (if not (contains_key fid s.fids) && leb s.config.max_fids (length s.fids)
        then (err (from_static "fid limit exceeded"), s)
        else (ok tt, record s { fids = insert fid state s.fids }))

unfoldable pub insert_new_fid : ℕ → FidState → M (Unit {0})
insert_new_fid fid state s =
    if contains_key fid s.fids
    then (err (from_static "fid already in use"), s)
    else bind_fid fid state s

unfoldable pub retire_fid : RequestKey → ℕ → M FidState
retire_fid request fid s =
    if not (is_unreserved s fid)
    then (err (from_static "fid busy"), s)
    else elim (lookup fid s.fids) [
      | none ↦ (err (from_static "unknown fid"), s)
      | some state ↦ (
        ok state,
        record s {
          fids = remove fid s.fids;
          reservations =
              insert fid
                (record {
                  exclusive = some (record { request = request; new_fid = false });
                  shared = [];
                })
                s.reservations;
        },
      )
    ]

unfoldable pub get_fid : ℕ → M FidState
get_fid fid s =
    if is_available s fid
    then elim (lookup fid s.fids) [
      | none ↦ (err (from_static "unknown fid"), s)
      | some state ↦ (ok state, s)
    ]
    else (err (from_static "fid busy"), s)

-- `reservations.entry(fid).or_default()`, read.
abbrev pub entry_of : Session → ℕ → FidReservations
entry_of s fid = elim (lookup fid s.reservations) [ none ↦ no_reservations | some r ↦ r ]

unfoldable pub reserve_existing_fid : RequestKey → ℕ → M (Unit {0})
reserve_existing_fid request fid s =
    if not (contains_key fid s.fids)
    then (err (from_static "unknown fid"), s)
    else (if not (is_empty (entry_of s fid)) then (err (from_static "fid busy"), s) else (
      ok tt,
      record s {
        reservations =
            insert fid
              (record {
                exclusive = some (record { request = request; new_fid = false });
                shared = (entry_of s fid).shared;
              })
              s.reservations;
      },
    ))

unfoldable pub reserve_shared_fid : RequestKey → ℕ → M (Unit {0})
reserve_shared_fid request fid s =
    if not (contains_key fid s.fids)
    then (err (from_static "unknown fid"), s)
    else (if not (is_none (entry_of s fid).exclusive) then (err (from_static "fid busy"), s) else (
      ok tt,
      record s {
        reservations =
            insert fid
              (record {
                exclusive = (entry_of s fid).exclusive;
                shared =
                    if any (key_eq request) (entry_of s fid).shared
                    then (entry_of s fid).shared
                    else request ∷ (entry_of s fid).shared;
              })
              s.reservations;
      },
    ))

unfoldable pub reserve_new_fid : RequestKey → ℕ → M (Unit {0})
reserve_new_fid request fid s =
    if contains_fid s fid || contains_key fid s.reservations
    then (err (from_static "fid already in use"), s)
    else (if leb s.config.max_fids (fid_count s)
        then (err (from_static "fid limit exceeded"), s)
        else (
          ok tt,
          record s {
            reservations =
                insert fid
                  (record {
                    exclusive = some (record { request = request; new_fid = true });
                    shared = [];
                  })
                  s.reservations;
          },
        ))

unfoldable pub remove_key : RequestKey → List RequestKey → List RequestKey
remove_key request [] = []
remove_key request (k ∷ ks) =
    let rest = remove_key request ks in if key_eq k request then rest else k ∷ rest

-- What `release_reservations` makes of one entry.
unfoldable pub released : RequestKey → FidReservations → FidReservations
released request r = record {
  exclusive = elim r.exclusive [
    | none ↦ none
    | some reservation ↦ if key_eq reservation.request request then none else some reservation
  ];
  shared = remove_key request r.shared;
}

-- The loop over `values_mut` and the `retain` behind it.
unfoldable pub release_all : RequestKey → Map FidReservations → Map FidReservations
release_all request [] = []
release_all request ((fid, r) ∷ rs) =
    let rest = release_all request rs in
    if is_empty (released request r) then rest else (fid, released request r) ∷ rest

unfoldable pub release_reservations : Session → RequestKey → Session
release_reservations s request = record s { reservations = release_all request s.reservations }
