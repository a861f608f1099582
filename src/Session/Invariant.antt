-- ===== src/Session/Invariant.antt =====
-- The invariant of a session: its table is well formed, the fids are within their limit, every
-- reservation belongs to a live request, and a fid that is reserved as new is not bound.
use r9p.Base.{
  ℕ, ◌≤◌, ◌≡◌, refl, subst, true, false, Bool-cases, Option, none, some, inl, inr, List, [], ◌∷◌,
  All, length, ◌==◌, if◌then◌else◌, arith,
}
use r9p.Base.Map.{Map, lookup, remove, lookup-remove, Distinct}
use r9p.Flush.{RequestKey, RequestTable, key_eq}
use r9p.Flush.Laws.{IsTable}
use r9p.Session.{
  Session, FidReservation, FidReservations, is_new_fid, is_empty, released, release_all, remove_key,
}

abbrev pub IsLive : Map RequestKey → RequestKey → Type 0
IsLive live key = lookup key.tag live ≡ some key

abbrev pub HeldExclusive : Map RequestKey → Option FidReservation → Type 0
HeldExclusive live none = Unit {0}
HeldExclusive live (some reservation) = IsLive live reservation.request

-- Every request that an entry names is live.
abbrev pub Held : Map RequestKey → FidReservations → Type 0
Held live r = HeldExclusive live r.exclusive × All (IsLive live) r.shared

pub record Inv (s : Session) : Type 0 where
  pub table : IsTable s.requests
  pub fids_bounded : length s.fids ≤ s.config.max_fids
  pub distinct : Distinct s.reservations
  pub held :
      (j : ℕ) (r : FidReservations) → lookup j s.reservations ≡ some r → Held s.requests.live r
  pub unbound :
      (j : ℕ) (r : FidReservations)
      → lookup j s.reservations ≡ some r
      → is_new_fid r ≡ true
      → lookup j s.fids ≡ none

-- Releasing a request.
lookup-release_none :
    (key : RequestKey) (j : ℕ) (rs : Map FidReservations)
    → lookup j rs ≡ none
    → lookup j (release_all key rs) ≡ none
unfolding lookup release_all
lookup-release_none key j [] e = refl
lookup-release_none key j ((i, r) ∷ rs) e = ground (arith, lookup-release_none key j rs)

release_all-Distinct :
    (key : RequestKey) (rs : Map FidReservations) → Distinct rs → Distinct (release_all key rs)
unfolding release_all
release_all-Distinct key [] d = tt
release_all-Distinct key ((i, r) ∷ rs) d = elim (Bool-cases (is_empty (released key r))) [
  | inl gone ↦ rw (gone, release_all) (release_all-Distinct key rs d.1)
  | inr stays ↦
      rw (stays, release_all) (lookup-release_none key i rs d.0, release_all-Distinct key rs d.1)
]

lookup-release :
    (key : RequestKey) (j : ℕ) (rs : Map FidReservations) (r' : FidReservations)
    → Distinct rs
    → lookup j (release_all key rs) ≡ some r'
    → (r : FidReservations) × (lookup j rs ≡ some r) × (r' ≡ released key r)
unfolding lookup release_all
lookup-release key j [] r' d e = cc
lookup-release key j ((i, r) ∷ rs) r' d e = elim (Bool-cases (i == j)) [
  | inl same ↦ (r, ground arith, ground (arith, lookup-release_none key j rs, d.0))
  | inr other ↦
      let (q, found, shape) = lookup-release key j rs r' d.1 (ground arith) in
      (q, ground arith, shape)
]

other-IsLive :
    (live : Map RequestKey) (key k : RequestKey)
    → IsLive live key
    → IsLive live k
    → key_eq k key ≡ false
    → IsLive (remove key.tag live) k
other-IsLive live key k hk h ne = ground (arith, lookup-remove key.tag k.tag live)

others-IsLive :
    (live : Map RequestKey) (key : RequestKey) (ks : List RequestKey)
    → IsLive live key
    → All (IsLive live) ks
    → All (IsLive (remove key.tag live)) (remove_key key ks)
unfolding remove_key
others-IsLive live key [] hk h = tt
others-IsLive live key (k ∷ ks) hk h = elim (Bool-cases (key_eq k key)) [
  | inl same ↦ rw (same, remove_key) (others-IsLive live key ks hk h.1)
  | inr other ↦
      rw (other, remove_key)
        (other-IsLive live key k hk h.0 other, others-IsLive live key ks hk h.1)
]

released-Held :
    (live : Map RequestKey) (key : RequestKey) (r : FidReservations)
    → IsLive live key
    → Held live r
    → Held (remove key.tag live) (released key r)
unfolding released
released-Held live key r hk h = (go r.exclusive h.0, others-IsLive live key r.shared hk h.1)
  where
    go :
        (x : Option FidReservation)
        → HeldExclusive live x
        → HeldExclusive (remove key.tag live) (elim x as (λ _. Option FidReservation) [
          | none ↦ none
          | some reservation ↦ if key_eq reservation.request key then none else some reservation
        ])
    go none e = tt
    go (some reservation) e = elim (Bool-cases (key_eq reservation.request key)) [
      | inl same ↦ rw same tt
      | inr other ↦ rw other (other-IsLive live key reservation.request hk e other)
    ]

released_new :
    (key : RequestKey) (r : FidReservations)
    → is_new_fid (released key r) ≡ true
    → is_new_fid r ≡ true
unfolding released
released_new key r e = ground arith

pub remove-IsTable :
    (t : RequestTable) (tag : ℕ) → IsTable t → IsTable (record t { live = remove tag t.live })
remove-IsTable t tag h = record {
  bounded = h.bounded;
  entries = λ j k l. ground (arith, h.entries j k, lookup-remove tag j t.live);
}

-- Retiring a live request, its reservations released, keeps the invariant.
pub drop_request :
    (s : Session) (key : RequestKey)
    → Inv s
    → IsLive s.requests.live key
    → Inv (record s {
      requests = record {
        next_generation = s.requests.next_generation;
        live = remove key.tag s.requests.live;
      };
      reservations = release_all key s.reservations;
    })
drop_request s key h hk = record {
  table = remove-IsTable s.requests key.tag h.table;
  fids_bounded = h.fids_bounded;
  distinct = release_all-Distinct key s.reservations h.distinct;
  held = λ j r' e.
      let (r, found, shape) = lookup-release key j s.reservations r' h.distinct e in
      rw shape (released-Held s.requests.live key r hk (h.held j r found));
  unbound = λ j r' e new.
      let (r, found, shape) = lookup-release key j s.reservations r' h.distinct e in
      h.unbound j r found (released_new key r (subst (λ x. is_new_fid x ≡ true) shape new));
}
