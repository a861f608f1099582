-- ===== src/Server/Stale.antt =====
-- The two cases of `complete`: a request that is still live, and one that was flushed or reset away.
use r9p.Base.{
  ℕ, ◌≡◌, ap, Bool, true, false, none, some, Result, ok, arith, List, length, ◌+◌, ◌<◌, ◌^◌,
}
use r9p.Flush.{RequestKey, RequestTable, cancelled, finish, flush}
use r9p.Flush.Laws.{Op, run, IsTable, flushed_never_finishes}
use r9p.Session.{Session, release_reservations}
use r9p.Server.{ServerRequest, ServerCompletion}
use r9p.Server.Complete.{apply_result, complete, reply_of}

-- The session in which the answer of a live request is applied.
abbrev pub concluded : RequestKey → Session → Session
concluded key s = release_reservations (record s { requests = (finish s.requests key).1 }) key

pub complete_live :
    (request : ServerRequest) (completion : Result ServerCompletion) (s : Session)
    → (finish s.requests request.key).0 ≡ true
    → let (r, s') =
        apply_result request.key.tag request.kind completion (concluded request.key s) in
      complete request completion s ≡ (some (reply_of request.key.tag r), s')
unfolding complete
complete_live request completion s live = rw (live, complete)

pub finish_stale :
    (t : RequestTable) (key : RequestKey) → (finish t key).0 ≡ false → (finish t key).1 ≡ t
unfolding finish
finish_stale t key e = ground arith

-- The completion of a request that is no longer live gives no reply and changes nothing.
pub complete_stale :
    (request : ServerRequest) (completion : Result ServerCompletion) (s : Session)
    → (finish s.requests request.key).0 ≡ false
    → complete request completion s ≡ (none, s)
unfolding complete
complete_stale request completion s stale =
    rw (stale, finish_stale s.requests request.key stale, complete)

-- Once a flush has cancelled a request, no later completion of it answers the client or touches the
-- session, whatever its request table has been through, the reuse of the tag included; provided the
-- table was well formed and its generations do not reach 2 ^ 64.
pub complete_flushed :
    (request : ServerRequest) (completion : Result ServerCompletion) (s : Session)
    (t t' : RequestTable) (tag : ℕ) (ops : List Op)
    → IsTable t
    → t.next_generation + length ops + 1 < 2 ^ 64
    → flush t tag ≡ ok (cancelled request.key, t')
    → s.requests ≡ run t' ops
    → complete request completion s ≡ (none, s)
complete_flushed request completion s t t' tag ops h room e now =
    complete_stale request completion s (
      rw now (
        ap (λ (p : Bool × RequestTable). p.0)
          (flushed_never_finishes t t' tag request.key ops h room e)))
