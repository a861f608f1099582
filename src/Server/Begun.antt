-- ===== src/Server/Begun.antt =====
-- The session between the beginning of a request and its end, flushes included: which steps of the
-- request table keep the invariant.
use r9p.Base.{
  ℕ, ◌≡◌, ◌≢◌, sym, ◌∙◌, subst, true, false, Bool-cases, Option, none, some, inl, inr, List, [],
  ◌∷◌, All, ◌==◌, ==_iff, ok, arith,
}
use r9p.Base.Map.{Map, lookup, remove, lookup-remove}
use r9p.Flush.{RequestKey, RequestTable, cancelled, unknown, begin, finish, flush}
use r9p.Flush.Laws.{IsTable, begin_lem, begin-IsTable, finish-IsTable, flush-IsTable}
use r9p.Session.{Session, FidReservation, FidReservations, release_reservations, release_all}
use r9p.Session.Invariant.{IsLive, HeldExclusive, Held, Inv, drop_request, remove-IsTable}
use r9p.Session.Keeps.{Holding}
use r9p.Server.Stale.{concluded}

-- A key that may be held in one table may be held in another.
Held-mono :
    (live live' : Map RequestKey) (r : FidReservations)
    → ((k : RequestKey) → IsLive live k → IsLive live' k)
    → Held live r
    → Held live' r
Held-mono live live' r f h = (go r.exclusive h.0, all r.shared h.1)
  where
    go : (x : Option FidReservation) → HeldExclusive live x → HeldExclusive live' x
    go none e = tt
    go (some reservation) e = f reservation.request e

    all : (ks : List RequestKey) → All (IsLive live) ks → All (IsLive live') ks
    all [] hs = tt
    all (k ∷ ks) hs = (f k hs.0, all ks hs.1)

-- The invariant with another table in which every live request is still live.
with_requests :
    (s : Session) (t : RequestTable)
    → Inv s
    → IsTable t
    → ((k : RequestKey) → IsLive s.requests.live k → IsLive t.live k)
    → Inv (record s { requests = t })
with_requests s t h table f = record {
  table = table;
  fids_bounded = h.fids_bounded;
  distinct = h.distinct;
  held = λ j r e. Held-mono s.requests.live t.live r f (h.held j r e);
  unbound = h.unbound;
}

pub begin-Holding :
    (s : Session) (tag : ℕ) {key : RequestKey} {t : RequestTable}
    → Inv s
    → begin s.requests tag ≡ ok (key, t)
    → Holding key (record s { requests = t })
begin-Holding s tag {key = key} {t = t} h e = (
  with_requests s t h (begin-IsTable s.requests tag h.table e)
      (λ k l. ground (arith, begin_lem s.requests tag k.tag e)),
  ground (arith, begin_lem s.requests tag tag e),
)

finish_live :
    (t : RequestTable) (key : RequestKey)
    → IsLive t.live key
    → finish t key ≡ (true, record t { live = remove key.tag t.live })
unfolding finish
finish_live t key h = ground (arith, h)

-- A live request that is finished, its reservations released, leaves the invariant.
pub concluded-Inv : (s : Session) (key : RequestKey) → Holding key s → Inv (concluded key s)
unfolding release_reservations
concluded-Inv s key h = rw (finish_live s.requests key h.1) (drop_request s key h.0 h.1)

-- A request that the table begins, and that no reservation names, can be finished at once.
pub unheld-Inv :
    (s : Session) (t : RequestTable) (key : RequestKey)
    → Inv s
    → IsTable t
    → lookup key.tag s.requests.live ≡ none
    → ((k : RequestKey) → k.tag ≢ key.tag → IsLive s.requests.live k → IsLive t.live k)
    → Inv (record s { requests = (finish t key).1 })
unfolding finish
unheld-Inv s t key h table fresh f =
    with_requests s (finish t key).1 h (finish-IsTable t key table)
      (λ k l. ground (arith, fresh, f k, lookup-remove key.tag k.tag t.live))

flush_cancelled :
    (t : RequestTable) (oldtag : ℕ) {other : RequestKey} {t' : RequestTable}
    → flush t oldtag ≡ ok (cancelled other, t')
    → (lookup oldtag t.live ≡ some other) × (t' ≡ record t { live = remove oldtag t.live })
unfolding flush
flush_cancelled t oldtag f = (ground arith, ground arith)

finish_missing :
    (t : RequestTable) (key : RequestKey) → lookup key.tag t.live ≡ none → finish t key ≡ (false, t)
unfolding finish
finish_missing t key e = ground arith

-- A flush of its own request: the key goes, and finishing it once more does nothing.
own_flush-Inv :
    (s : Session) (key : RequestKey)
    → Holding key s
    → Inv (record s {
      requests = (finish (record s.requests { live = remove key.tag s.requests.live }) key).1;
      reservations = release_all key s.reservations;
    })
own_flush-Inv s key h =
    rw
      (finish_missing (record s.requests { live = remove key.tag s.requests.live }) key
        (ground (arith, lookup-remove key.tag key.tag s.requests.live)))
      (drop_request s key h.0 h.1)

-- A flush of another request.
other_flush-Inv :
    (s : Session) (tag : ℕ) {key other : RequestKey} {t : RequestTable}
    → Inv s
    → begin s.requests tag ≡ ok (key, t)
    → lookup other.tag t.live ≡ some other
    → other.tag ≢ key.tag
    → Inv (record s {
      requests = (finish (record t { live = remove other.tag t.live }) key).1;
      reservations = release_all other s.reservations;
    })
other_flush-Inv s tag {key = key} {other = other} {t = t} h b l ne =
    unheld-Inv
      (record s {
        requests = record s.requests { live = remove other.tag s.requests.live };
        reservations = release_all other s.reservations;
      })
      (record t { live = remove other.tag t.live }) key
      (drop_request s other h (ground (arith, begin_lem s.requests tag other.tag b)))
      (remove-IsTable t other.tag (begin-IsTable s.requests tag h.table b))
      (ground (
        arith,
        begin_lem s.requests tag key.tag b,
        lookup-remove other.tag key.tag s.requests.live,
      ))
      (λ k n m. ground (
        arith,
        begin_lem s.requests tag k.tag b,
        lookup-remove other.tag k.tag s.requests.live,
        lookup-remove other.tag k.tag t.live,
      ))

same_key :
    (t : RequestTable) {oldtag : ℕ} {key other : RequestKey}
    → lookup oldtag t.live ≡ some other
    → lookup key.tag t.live ≡ some key
    → oldtag ≡ key.tag
    → other ≡ key
same_key t l k e = ground arith

pub cancelled-Inv :
    (s : Session) (tag oldtag : ℕ) {key other : RequestKey} {t t' : RequestTable}
    → Inv s
    → begin s.requests tag ≡ ok (key, t)
    → flush t oldtag ≡ ok (cancelled other, t')
    → Inv
        (record s { requests = (finish t' key).1; reservations = release_all other s.reservations })
cancelled-Inv s tag oldtag {key = key} {other = other} {t = t} {t' = t'} h b f =
    let holding = begin-Holding s tag h b in
    let (l, shape) = flush_cancelled t oldtag f in
    let same : other.tag ≡ oldtag = (holding.0.table.entries oldtag other l).0 in
    let key_live : lookup key.tag t.live ≡ some key = holding.1 in
    rw (shape, sym same)
      (elim (Bool-cases (other.tag == key.tag)) [
        | inl own ↦
            rw (same_key t l key_live (sym same ∙ (==_iff other.tag key.tag).0 own))
              (own_flush-Inv (record s { requests = t }) key holding)
        | inr another ↦
            other_flush-Inv s tag h b (subst (λ x. lookup x t.live ≡ some other) (sym same) l)
              (ground arith)
      ])

pub unknown-Inv :
    (s : Session) (tag oldtag : ℕ) {key : RequestKey} {t t' : RequestTable}
    → Inv s
    → begin s.requests tag ≡ ok (key, t)
    → flush t oldtag ≡ ok (unknown, t')
    → Inv (record s { requests = (finish t' key).1 })
unfolding flush
unknown-Inv s tag oldtag {key = key} {t = t} {t' = t'} h b f =
    unheld-Inv s t' key h (flush-IsTable t oldtag (begin-IsTable s.requests tag h.table b) f)
      (ground (arith, begin_lem s.requests tag tag b))
      (λ k ne l. ground (arith, begin_lem s.requests tag k.tag b))
