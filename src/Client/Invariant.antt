-- ===== src/Client/Invariant.antt =====
-- The invariant of the client, which every operation, reply, version request and abandonment keeps.
use r9p.Base.{
  ℕ, ◌^◌, ◌<◌, ◌≤◌, ◌≡◌, inl, inr, refl, Bool-cases, Result-cases, Bytes, List, [], ◌∷◌, ◌==◌, ok,
  err, Error, Option-cases, arith,
}
use r9p.Base.Map.{lookup, lookup-insert}
use r9p.Base.Stateful.{
  Stateful, Keeps, Keeps-bind, Keeps-then, Keeps-return, Keeps-lift, Keeps-modify, ◌>>=◌, ◌>>◌,
}
use r9p.Message.{TMessage, RMessage, notag, nofid}
use r9p.Flush.{RequestKey, RequestTable, FlushOutcome, next_u64, is_live, begin, flush}
use r9p.Flush.Laws.{IsTable, flush-IsTable, reset-IsTable}
use r9p.Client.{Client, client_new, version_request_for, alloc_tag, alloc_fid, abandon}
use r9p.Client.Ops
use r9p.Client.Calls.{Call, start, Event, happens, run}
use r9p.Client.Receive
use r9p.Client.Replies.{ClientResponse}
use r9p.Client.Tags.{IsFree}
use r9p.Client.Starts.{alloc_bind, taken}

-- The counters are in range, no fid to come is 0 or NOFID, and each pending request is filed under its own
-- tag, which is not NOTAG.
pub record IsClient (c : Client) : Type 0 where
  pub next_tag_small : c.next_tag < 2 ^ 16
  pub next_fid_positive : 1 ≤ c.next_fid
  pub next_fid_small : c.next_fid < nofid
  pub pending_IsTable : IsTable c.pending

taken-IsTable :
    (tag : ℕ) (c : Client) → IsFree c tag → IsTable c.pending → IsTable (taken tag c).pending
taken-IsTable tag c free t = record {
  bounded = omega (arith, t.bounded);
  entries = λ j k l. ground (
    arith,
    free.ordinary,
    t.entries j k,
    t.bounded,
    lookup-insert tag j (record { tag = tag; generation = c.pending.next_generation })
        c.pending.live,
  );
}

taken-IsClient :
    (tag : ℕ) (c : Client) → IsFree c tag → tag < 2 ^ 16 → IsClient c → IsClient (taken tag c)
taken-IsClient tag c free small h = record {
  next_tag_small = omega arith;
  next_fid_positive = h.next_fid_positive;
  next_fid_small = h.next_fid_small;
  pending_IsTable = taken-IsTable tag c free h.pending_IsTable;
}

alloc_tag-Keeps :
    {A : Type 0} (k : ℕ → Stateful Client A)
    → ((tag : ℕ) → Keeps IsClient (k tag))
    → Keeps IsClient (alloc_tag >>= k)
alloc_tag-Keeps k hk = record {
  after = λ c h.
      alloc_bind (λ r. IsClient r.1) k c h.next_tag_small
        (λ next small. record {
          next_tag_small = small;
          next_fid_positive = h.next_fid_positive;
          next_fid_small = h.next_fid_small;
          pending_IsTable = h.pending_IsTable;
        })
        (λ tag free small. (hk tag).after (taken tag c) (taken-IsClient tag c free small h));
}

alloc_fid-Keeps : Keeps IsClient alloc_fid
unfolding alloc_fid
alloc_fid-Keeps = record {
  after = λ c h. record {
    next_tag_small = h.next_tag_small;
    next_fid_positive = ground (arith, h.next_fid_positive);
    next_fid_small = ground (arith, h.next_fid_small);
    pending_IsTable = h.pending_IsTable;
  };
}

on_fid-Keeps : (fid : ℕ) (message : ℕ → TMessage) → Keeps IsClient (Ops.on_fid fid message)
on_fid-Keeps fid message = alloc_tag-Keeps _ (λ tag. Keeps-return _)

start-Keeps : (call : Call) → Keeps IsClient (start call)
unfolding start Ops.attach Ops.walk Ops.open_ Ops.read Ops.write Ops.create Ops.clunk
    Ops.remove_file Ops.stat Ops.wstat Ops.rename_at Ops.referrals Ops.flush_op
start-Keeps (Call.attach uname aname) =
    alloc_tag-Keeps _ (λ tag. Keeps-bind _ _ alloc_fid-Keeps (λ fid. Keeps-return _))
start-Keeps (Call.walk fid wnames) =
    alloc_tag-Keeps _ (λ tag. Keeps-bind _ _ alloc_fid-Keeps (λ fid. Keeps-return _))
start-Keeps (Call.open_ fid mode) = on_fid-Keeps _ _
start-Keeps (Call.read fid offset count) = on_fid-Keeps _ _
start-Keeps (Call.write fid offset payload) = on_fid-Keeps _ _
start-Keeps (Call.create fid name perm mode) = on_fid-Keeps _ _
start-Keeps (Call.clunk fid) = on_fid-Keeps _ _
start-Keeps (Call.remove fid) = on_fid-Keeps _ _
start-Keeps (Call.stat fid) = on_fid-Keeps _ _
start-Keeps (Call.wstat fid entry) = on_fid-Keeps _ _
start-Keeps (Call.rename_at olddirfid oldname newdirfid newname) = on_fid-Keeps _ _
start-Keeps (Call.referrals fid) = on_fid-Keeps _ _
start-Keeps (Call.flush oldtag) = Keeps-then _ _ (Keeps-lift _) (
    alloc_tag-Keeps _ (λ tag.
      Keeps-then _ _
        (Keeps-modify _ (λ c h. record {
          next_tag_small = h.next_tag_small;
          next_fid_positive = h.next_fid_positive;
          next_fid_small = h.next_fid_small;
          pending_IsTable = h.pending_IsTable;
        }))
        (Keeps-return _)))

-- Only the pending requests change, and stay a table.
with_pending :
    (c : Client) {c' : Client}
    → c'.next_tag ≡ c.next_tag
    → c'.next_fid ≡ c.next_fid
    → IsTable c'.pending
    → IsClient c
    → IsClient c'
with_pending c et ef t h = record {
  next_tag_small = omega (arith, h.next_tag_small);
  next_fid_positive = omega (arith, h.next_fid_positive);
  next_fid_small = omega (arith, h.next_fid_small);
  pending_IsTable = t;
}

flush_pending-Keeps : (tag : ℕ) → Keeps IsClient (Receive.flush_pending tag)
unfolding Receive.flush_pending
flush_pending-Keeps tag = record {
  after = λ c h. elim (Result-cases (flush c.pending tag)) [
    | inl ((outcome, pending), e) ↦
        rw (e, Receive.flush_pending)
          (with_pending c refl refl (flush-IsTable c.pending tag h.pending_IsTable e) h)
    | inr (x, e) ↦ rw (e, Receive.flush_pending) h
  ];
}

-- What a flush whose error is discarded leaves pending.
discarded :
    (t : RequestTable) (tag : ℕ)
    → IsTable t
    → IsTable
        (elim (flush t tag) as (λ _. RequestTable) [ ok (outcome, pending) ↦ pending | err e ↦ t ])
discarded t tag h = elim (Result-cases (flush t tag)) [
  | inl ((outcome, pending), e) ↦ rw e (flush-IsTable t tag h e)
  | inr (x, e) ↦ rw e h
]

drop_target-IsClient : (tag : ℕ) (c : Client) → IsClient c → IsClient (Receive.drop_target tag c)
unfolding Receive.drop_target
drop_target-IsClient tag c h = elim (Option-cases (lookup tag c.flush_targets)) [
  | inl missing ↦ rw (missing, Receive.drop_target) h
  | inr (oldtag, found) ↦
      rw (found, Receive.drop_target)
        (with_pending c refl refl (discarded c.pending oldtag h.pending_IsTable) h)
]

abandon-IsClient : (tag : ℕ) (c : Client) → IsClient c → IsClient (abandon tag c)
unfolding abandon
abandon-IsClient tag c h = elim (Bool-cases (tag == notag)) [
  | inl reserved ↦ rw (reserved, abandon) (with_pending c refl refl h.pending_IsTable h)
  | inr ordinary ↦
      rw (ordinary, abandon)
        (with_pending c refl refl (discarded c.pending tag h.pending_IsTable) h)
]

finish_tag-Keeps : (tag : ℕ) → Keeps IsClient (Receive.finish_tag tag)
unfolding Receive.finish_tag
finish_tag-Keeps tag = Keeps-bind _ _ (flush_pending-Keeps tag) (λ outcome. Keeps-lift _)

take_requested_msize-Keeps : (e : Error) → Keeps IsClient (Receive.take_requested_msize e)
unfolding Receive.take_requested_msize
take_requested_msize-Keeps e = record {
  after = λ c h. with_pending c refl refl h.pending_IsTable h;
}

end_error-Keeps : (tag : ℕ) → Keeps IsClient (Receive.end_error tag)
unfolding Receive.end_error
end_error-Keeps tag = elim (Bool-cases (tag == notag)) [
  | inl reserved ↦ rw reserved (Keeps-bind _ _ (take_requested_msize-Keeps _) (λ _. Keeps-return _))
  | inr ordinary ↦ rw ordinary (finish_tag-Keeps tag)
]

module _ (show : ℕ → Bytes) where
  check_iounit-Keeps : (iounit : ℕ) → Keeps IsClient (Receive.check_iounit show iounit)
  unfolding Receive.check_iounit
  check_iounit-Keeps iounit = record { after = λ c h. h }

  finish_with-Keeps :
      (tag : ℕ) (k : Stateful Client ClientResponse)
      → Keeps IsClient k
      → Keeps IsClient (Receive.finish_tag tag >> k)
  finish_with-Keeps tag k hk = Keeps-then _ _ (finish_tag-Keeps tag) hk

  receive-Keeps : (r : RMessage) → Keeps IsClient (Receive.receive show r)
  unfolding Receive.receive Receive.receive_version Receive.forget_flush
  receive-Keeps (RMessage.version tag msize version) = Keeps-then _ _ (Keeps-lift _) (
      Keeps-bind _ _ (take_requested_msize-Keeps _) (λ requested. Keeps-then _ _ (Keeps-lift _) (
        Keeps-then _ _
          (Keeps-modify _
            (λ c h. with_pending c refl refl (reset-IsTable c.pending h.pending_IsTable) h))
          (Keeps-return _))))
  receive-Keeps (RMessage.error tag ename) = Keeps-then _ _ (end_error-Keeps tag) (
      Keeps-then _ _ (Keeps-modify _ (λ c h. with_pending c refl refl h.pending_IsTable h))
        (Keeps-return _))
  receive-Keeps (RMessage.flush tag) =
      finish_with-Keeps tag _
        (Keeps-then _ _ (Keeps-modify _ (drop_target-IsClient tag)) (Keeps-return _))
  receive-Keeps (RMessage.open_ tag qid iounit) =
      finish_with-Keeps tag _ (Keeps-then _ _ (check_iounit-Keeps iounit) (Keeps-return _))
  receive-Keeps (RMessage.create tag qid iounit) =
      finish_with-Keeps tag _ (Keeps-then _ _ (check_iounit-Keeps iounit) (Keeps-return _))
  receive-Keeps (RMessage.attach tag qid) = finish_with-Keeps tag _ (Keeps-return _)
  receive-Keeps (RMessage.auth tag aqid) = finish_with-Keeps tag _ (Keeps-return _)
  receive-Keeps (RMessage.walk tag qids) = finish_with-Keeps tag _ (Keeps-return _)
  receive-Keeps (RMessage.read tag payload) = finish_with-Keeps tag _ (Keeps-return _)
  receive-Keeps (RMessage.write tag count) = finish_with-Keeps tag _ (Keeps-return _)
  receive-Keeps (RMessage.clunk tag) = finish_with-Keeps tag _ (Keeps-return _)
  receive-Keeps (RMessage.remove tag) = finish_with-Keeps tag _ (Keeps-return _)
  receive-Keeps (RMessage.stat tag entry) = finish_with-Keeps tag _ (Keeps-return _)
  receive-Keeps (RMessage.wstat tag) = finish_with-Keeps tag _ (Keeps-return _)
  receive-Keeps (RMessage.rename_at tag) = finish_with-Keeps tag _ (Keeps-return _)
  receive-Keeps (RMessage.referrals tag entries) = finish_with-Keeps tag _ (Keeps-return _)

  happens-IsClient : (c : Client) (event : Event) → IsClient c → IsClient (happens show c event)
  unfolding happens version_request_for
  happens-IsClient c (Event.starts call) h = (start-Keeps call).after c h
  happens-IsClient c (Event.receives r) h = (receive-Keeps r).after c h
  happens-IsClient c (Event.versions msize variant) h =
      with_pending c refl refl (reset-IsTable c.pending h.pending_IsTable) h
  happens-IsClient c (Event.abandons tag) h = abandon-IsClient tag c h

  run_any-IsClient : (c : Client) (events : List Event) → IsClient c → IsClient (run show c events)
  unfolding run
  run_any-IsClient c [] h = h
  run_any-IsClient c (event ∷ events) h =
      run_any-IsClient (happens show c event) events (happens-IsClient c event h)

client_new-IsClient : IsClient client_new
unfolding client_new r9p.Flush.table_new lookup
client_new-IsClient = record {
  next_tag_small = omega arith;
  next_fid_positive = omega arith;
  next_fid_small = omega arith;
  pending_IsTable = record { bounded = omega arith; entries = λ j k l. ground arith };
}

-- After any operations, replies, version requests and abandoned requests of a new client, in any order, its
-- counters are in range, the next fid is neither 0 nor NOFID, and each pending request is filed under its own
-- tag, which is not NOTAG.
pub run-IsClient : (show : ℕ → Bytes) (events : List Event) → IsClient (run show client_new events)
run-IsClient show events = run_any-IsClient show client_new events client_new-IsClient
