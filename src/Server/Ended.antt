-- ===== src/Server/Ended.antt =====
-- What the end of a request leaves of a session, described apart from how it is released.
use r9p.Base.{
  ℕ, ◌≡◌, refl, true, false, ◌||◌, Bool, Bool-cases, inl, inr, none, some, [], ◌∷◌, List, any,
  if◌then◌else◌, ◌==◌, arith,
}
use r9p.Base.Map.{Map, lookup, lookup-remove}
use r9p.Flush.{RequestKey, key_eq, finish}
use r9p.Session.{
  Session, FidReservations, is_empty, remove_key, released, release_all, release_reservations,
}
use r9p.Server.Stale.{concluded}

-- The entry of a fid names the request.
abbrev pub names : RequestKey → FidReservations → Bool
names key r =
    elim r.exclusive [ none ↦ false | some reservation ↦ key_eq reservation.request key ]
    || any (key_eq key) r.shared

-- The request holds a reservation of the fid.
abbrev pub holds : RequestKey → ℕ → Map FidReservations → Bool
holds key fid rs = elim (lookup fid rs) [ none ↦ false | some r ↦ names key r ]

-- The request is live no more and holds no fid; fids, other live requests, their reservations and what was
-- negotiated are as before.
pub record IsEnded (key : RequestKey) (s s' : Session) : Type 0 where
  pub same_config : s'.config ≡ s.config
  pub same_fids : s'.fids ≡ s.fids
  pub same_msize : s'.msize ≡ s.msize
  pub same_version : s'.version ≡ s.version
  pub same_variant : s'.variant ≡ s.variant
  pub same_negotiated : s'.negotiated ≡ s.negotiated
  pub live :
      (tag : ℕ)
      → lookup tag s'.requests.live ≡ (if key.tag == tag then none else lookup tag s.requests.live)
  pub freed : (fid : ℕ) → holds key fid s'.reservations ≡ false
  pub kept :
      (other : RequestKey) (fid : ℕ)
      → key_eq other key ≡ false
      → holds other fid s.reservations ≡ true
      → holds other fid s'.reservations ≡ true

any-remove_key_same :
    (key : RequestKey) (ks : List RequestKey) → any (key_eq key) (remove_key key ks) ≡ false
unfolding remove_key
any-remove_key_same key [] = refl
any-remove_key_same key (k ∷ ks) = ground (arith, any-remove_key_same key ks)

any-remove_key_other :
    (key other : RequestKey) (ks : List RequestKey)
    → key_eq other key ≡ false
    → any (key_eq other) (remove_key key ks) ≡ any (key_eq other) ks
unfolding remove_key
any-remove_key_other key other [] h = refl
any-remove_key_other key other (k ∷ ks) h = ground (arith, any-remove_key_other key other ks)

names-released_same : (key : RequestKey) (r : FidReservations) → names key (released key r) ≡ false
unfolding released
names-released_same key r = ground (arith, any-remove_key_same key r.shared)

names-released_other :
    (key other : RequestKey) (r : FidReservations)
    → key_eq other key ≡ false
    → names other r ≡ true
    → (names other (released key r) ≡ true) × (is_empty (released key r) ≡ false)
unfolding released
names-released_other key other r h e = (
  ground (arith, any-remove_key_other key other r.shared h),
  ground (arith, any-remove_key_other key other r.shared h),
)

freed-release_all :
    (key : RequestKey) (fid : ℕ) (rs : Map FidReservations)
    → holds key fid (release_all key rs) ≡ false
unfolding release_all lookup released
freed-release_all key fid [] = refl
freed-release_all key fid ((j, r) ∷ rs) = elim (Bool-cases (is_empty (released key r))) [
  | inl gone ↦ rw (gone, release_all) (freed-release_all key fid rs)
  | inr stays ↦ elim (Bool-cases (j == fid)) [
    | inl here ↦ rw (stays, here, release_all) (names-released_same key r)
    | inr there ↦ rw (stays, there, release_all) (freed-release_all key fid rs)
  ]
]

kept-release_all :
    (key other : RequestKey) (fid : ℕ) (rs : Map FidReservations)
    → key_eq other key ≡ false
    → holds other fid rs ≡ true
    → holds other fid (release_all key rs) ≡ true
unfolding release_all lookup released
kept-release_all key other fid [] h e = e
kept-release_all key other fid ((j, r) ∷ rs) h e = elim (Bool-cases (j == fid)) [
  | inl here ↦
      let (named, stays) = names-released_other key other r h (ground (arith, here, e)) in
      rw (stays, here, release_all) named
  | inr there ↦
      let rest = kept-release_all key other fid rs h (ground (arith, there, e)) in
      elim (Bool-cases (is_empty (released key r))) [
        | inl gone ↦ rw (gone, release_all) rest
        | inr stays ↦ rw (stays, there, release_all) rest
      ]
]

pub concluded-IsEnded :
    (key : RequestKey) (s : Session)
    → (finish s.requests key).0 ≡ true
    → IsEnded key s (concluded key s)
unfolding release_reservations finish
concluded-IsEnded key s live = record {
  same_config = refl;
  same_fids = refl;
  same_msize = refl;
  same_version = refl;
  same_variant = refl;
  same_negotiated = refl;
  live = λ tag. ground (arith, lookup-remove key.tag tag s.requests.live);
  freed = λ fid. freed-release_all key fid s.reservations;
  kept = λ other fid h e. kept-release_all key other fid s.reservations h e;
}
