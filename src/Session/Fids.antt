-- ===== src/Session/Fids.antt =====
-- Each method of the session keeps the invariant, and the request that it serves live.
use r9p.Base.{
  ℕ, ◌≤◌, ◌≡◌, subst, true, false, not, ◌||◌, ◌&&◌, Bool-cases, Option-cases, none, some, inl, inr,
  ◌∷◌, All, length, any, leb, ◌==◌, ==_iff, if◌then◌else◌, arith,
}
use r9p.Base.Map.{
  lookup, insert, remove, contains_key, lookup-insert, lookup-remove, length-insert, length-remove,
  Distinct-insert,
}
use r9p.Flush.{RequestKey, key_eq}
use r9p.Session.{
  Session, FidState, FidReservations, is_new_fid, is_empty, is_none, entry_of, is_unreserved,
  bind_fid, insert_new_fid, retire_fid, reserve_existing_fid, reserve_shared_fid, reserve_new_fid,
  contains_fid, fid_count,
}
use r9p.Session.Keeps.{Holding, Keeps}
use r9p.Session.Invariant.{IsLive, Held, Inv}

-- An entry is filed under `fid`.
file_entry :
    (s : Session) (fid : ℕ) (r : FidReservations)
    → Inv s
    → Held s.requests.live r
    → (is_new_fid r ≡ true → lookup fid s.fids ≡ none)
    → Inv (record s { reservations = insert fid r s.reservations })
file_entry s fid r h held new = record {
  table = h.table;
  fids_bounded = h.fids_bounded;
  distinct = Distinct-insert fid r s.reservations h.distinct;
  held = λ j q e. elim (Bool-cases (fid == j)) [
    | inl same ↦
        subst (Held s.requests.live) (ground (arith, lookup-insert fid j r s.reservations)) held
    | inr other ↦ h.held j q (ground (arith, lookup-insert fid j r s.reservations))
  ];
  unbound = λ j q e is. elim (Bool-cases (fid == j)) [
    | inl same ↦
        subst (λ x. lookup x s.fids ≡ none) ((==_iff fid j).0 same)
          (new (ground (arith, lookup-insert fid j r s.reservations)))
    | inr other ↦ h.unbound j q (ground (arith, lookup-insert fid j r s.reservations)) is
  ];
}

entry_of-Held : (s : Session) (fid : ℕ) → Inv s → Held s.requests.live (entry_of s fid)
entry_of-Held s fid h = elim (Option-cases (lookup fid s.reservations)) [
  | inl e ↦ rw (e, entry_of) (tt, tt)
  | inr (r, e) ↦ rw (e, entry_of) (h.held fid r e)
]

-- A fid is unbound, or bound.
shrink_fids : (s : Session) (fid : ℕ) → Inv s → Inv (record s { fids = remove fid s.fids })
shrink_fids s fid h = record {
  table = h.table;
  fids_bounded = omega (arith, h.fids_bounded, length-remove fid s.fids);
  distinct = h.distinct;
  held = h.held;
  unbound = λ j r e new. ground (arith, lookup-remove fid j s.fids, h.unbound j r e new);
}

unreserved-not-new :
    (s : Session) (fid : ℕ) (r : FidReservations)
    → is_unreserved s fid ≡ true
    → lookup fid s.reservations ≡ some r
    → is_new_fid r ≡ false
unfolding is_unreserved
unreserved-not-new s fid r free e = ground arith

extend_fids :
    (s : Session) (fid : ℕ) (state : FidState)
    → Inv s
    → is_unreserved s fid ≡ true
    → length (insert fid state s.fids) ≤ s.config.max_fids
    → Inv (record s { fids = insert fid state s.fids })
extend_fids s fid state h free room = record {
  table = h.table;
  fids_bounded = room;
  distinct = h.distinct;
  held = h.held;
  unbound = λ j r e new. elim (Bool-cases (fid == j)) [
    | inr other ↦ ground (arith, lookup-insert fid j state s.fids, h.unbound j r e new)
    | inl same ↦ absurd (
        ground (
          arith,
          unreserved-not-new s j r
              (subst (λ x. is_unreserved s x ≡ true) ((==_iff fid j).0 same) free) e,
        ))
  ];
}

module _ (key : RequestKey) where
  pub Keeps-reserve_existing_fid : (fid : ℕ) → Keeps (Holding key) (reserve_existing_fid key fid)
  unfolding reserve_existing_fid
  Keeps-reserve_existing_fid fid = record {
    after = λ s h. elim (Bool-cases (contains_key fid s.fids)) [
      | inr missing ↦ rw (missing, reserve_existing_fid) h
      | inl bound ↦ elim (Bool-cases (is_empty (entry_of s fid))) [
        | inr busy ↦ rw (bound, busy, reserve_existing_fid) h
        | inl free ↦
            rw (bound, free, reserve_existing_fid)
              (file_entry s fid _ h.0 (h.1, (entry_of-Held s fid h.0).1) (λ new. cc), h.1)
      ]
    ];
  }

  shared-Held :
      (s : Session) (fid : ℕ)
      → Holding key s
      → All (IsLive s.requests.live) (
          if any (key_eq key) (entry_of s fid).shared
          then (entry_of s fid).shared
          else key ∷ (entry_of s fid).shared)
  shared-Held s fid h = elim (Bool-cases (any (key_eq key) (entry_of s fid).shared)) [
    | inl old ↦ rw old (entry_of-Held s fid h.0).1
    | inr new ↦ rw new (h.1, (entry_of-Held s fid h.0).1)
  ]

  pub Keeps-reserve_shared_fid : (fid : ℕ) → Keeps (Holding key) (reserve_shared_fid key fid)
  unfolding reserve_shared_fid
  Keeps-reserve_shared_fid fid = record {
    after = λ s h. elim (Bool-cases (contains_key fid s.fids)) [
      | inr missing ↦ rw (missing, reserve_shared_fid) h
      | inl bound ↦ elim (Bool-cases (is_none (entry_of s fid).exclusive)) [
        | inr busy ↦ rw (bound, busy, reserve_shared_fid) h
        | inl free ↦
            rw (bound, free, reserve_shared_fid)
              (
                file_entry s fid _ h.0 ((entry_of-Held s fid h.0).0, shared-Held s fid h)
                    (λ new. ground arith),
                h.1,
              )
      ]
    ];
  }

  unbound_of :
      (s : Session) (fid : ℕ)
      → (contains_fid s fid || contains_key fid s.reservations) ≡ false
      → lookup fid s.fids ≡ none
  unfolding contains_fid
  unbound_of s fid free = ground arith

  pub Keeps-reserve_new_fid : (fid : ℕ) → Keeps (Holding key) (reserve_new_fid key fid)
  unfolding reserve_new_fid
  Keeps-reserve_new_fid fid = record {
    after = λ s h. elim (Bool-cases (contains_fid s fid || contains_key fid s.reservations)) [
      | inl taken ↦ rw (taken, reserve_new_fid) h
      | inr free ↦ elim (Bool-cases (leb s.config.max_fids (fid_count s))) [
        | inl full ↦ rw (free, full, reserve_new_fid) h
        | inr room ↦
            rw (free, room, reserve_new_fid)
              (file_entry s fid _ h.0 (h.1, tt) (λ new. unbound_of s fid free), h.1)
      ]
    ];
  }

  pub Keeps-retire_fid : (fid : ℕ) → Keeps (Holding key) (retire_fid key fid)
  unfolding retire_fid
  Keeps-retire_fid fid = record {
    after = λ s h. elim (Bool-cases (is_unreserved s fid)) [
      | inr busy ↦ rw (busy, retire_fid) h
      | inl free ↦ elim (Option-cases (lookup fid s.fids)) [
        | inl missing ↦ rw (free, missing, retire_fid) h
        | inr (state, bound) ↦
            rw (free, bound, retire_fid)
              (
                file_entry (record s { fids = remove fid s.fids }) fid _ (shrink_fids s fid h.0)
                    (h.1, tt) (λ new. cc),
                h.1,
              )
      ]
    ];
  }

pub Keeps-bind_fid : (fid : ℕ) (state : FidState) → Keeps Inv (bind_fid fid state)
unfolding bind_fid
Keeps-bind_fid fid state = record {
  after = λ s h. elim (Bool-cases (is_unreserved s fid)) [
    | inr busy ↦ rw (busy, bind_fid) h
    | inl free ↦
        elim (Bool-cases (not (contains_key fid s.fids) && leb s.config.max_fids (length s.fids))) [
          | inl full ↦ rw (free, full, bind_fid) h
          | inr room ↦
              rw (free, room, bind_fid)
                (extend_fids s fid state h free
                  (ground (arith, length-insert fid state s.fids, h.fids_bounded)))
        ]
  ];
}

pub Keeps-insert_new_fid : (fid : ℕ) (state : FidState) → Keeps Inv (insert_new_fid fid state)
unfolding insert_new_fid
Keeps-insert_new_fid fid state = record {
  after = λ s h. elim (Bool-cases (contains_key fid s.fids)) [
    | inl taken ↦ rw (taken, insert_new_fid) h
    | inr free ↦ rw (free, insert_new_fid) ((Keeps-bind_fid fid state).after s h)
  ];
}
