-- ===== src/Client/Receive.antt =====
-- crates/core/src/client.rs: `Client::receive`. The text of a number in an error message is the
-- standard library's: a parameter.
use r9p.Base.{
  ℕ, not, ◌&&◌, ◌||◌, Bytes, bytes, ◌++◌, [], none, some, ltb, ◌==◌, if◌then◌else◌, Error, Result,
  ok, err, ok_or, ensure, from_static,
}
use r9p.Base.Map.{lookup, remove}
use r9p.Base.Stateful.{Stateful, ◌>>=◌, ◌>>◌, return, lift, modify}
use r9p.Message.{RMessage, notag}
use r9p.Codec.{min_msize, max_iounit}
use r9p.Flush.{FlushOutcome, cancelled, unknown, flush, reset}
use r9p.Client.{Client}
use r9p.Client.Replies.{Completion, ClientResponse}

-- `self.pending.flush(tag)`, its outcome.
unfoldable pub flush_pending : ℕ → Stateful Client FlushOutcome
flush_pending tag c = elim (flush c.pending tag) [
  | ok (outcome, pending) ↦ (ok outcome, record c { pending = pending })
  | err e ↦ (err e, c)
]

abbrev pub ended : FlushOutcome → Result (Unit {0})
ended (cancelled _) = ok tt
ended unknown = err (from_static "unknown response tag")

unfoldable pub finish_tag : ℕ → Stateful Client (Unit {0})
finish_tag tag = do outcome ← flush_pending tag; lift (ended outcome)

-- `self.requested_msize.take().ok_or_else(|| e)`.
unfoldable pub take_requested_msize : Error → Stateful Client ℕ
take_requested_msize e c = (ok_or c.requested_msize e, record c { requested_msize = none })

unfoldable pub forget_flush : ℕ → Stateful Client (Unit {0})
forget_flush tag = modify (λ c. record c { flush_targets = remove tag c.flush_targets })

-- The target of a flush that has been answered is no longer pending; an error is discarded.
unfoldable pub drop_target : ℕ → Client → Client
drop_target tag c = elim (lookup tag c.flush_targets) [
  | none ↦ c
  | some oldtag ↦ record c {
    flush_targets = remove tag c.flush_targets;
    pending = elim (flush c.pending oldtag) [ ok (outcome, pending) ↦ pending | err e ↦ c.pending ];
  }
]

abbrev pub completed : ℕ → Completion → Stateful Client ClientResponse
completed tag c = return (ClientResponse.completion tag c)

-- The replies that only end their request.
abbrev pub finish_with : ℕ → Completion → Stateful Client ClientResponse
finish_with tag c = do finish_tag tag; completed tag c

unfoldable pub end_error : ℕ → Stateful Client (Unit {0})
end_error tag =
    if tag == notag
    then (do requested ← take_requested_msize (from_static "unknown response tag"); return tt)
    else finish_tag tag

module _ (show : ℕ → Bytes) where
  abbrev msize_error : ℕ → ℕ → Error
  msize_error msize requested = record {
    message =
        bytes "invalid negotiated msize "
        ++ (show msize ++ (bytes " for request " ++ show requested));
  }

  unfoldable pub validate_iounit : ℕ → ℕ → Result (Unit {0})
  unfolding bytes
  validate_iounit msize iounit =
      if not (iounit == 0) && ltb (max_iounit msize) iounit
      then err (record {
        message =
            bytes "iounit " ++ (show iounit ++ (bytes " exceeds negotiated msize " ++ show msize));
      })
      else ok tt

  unfoldable pub check_iounit : ℕ → Stateful Client (Unit {0})
  check_iounit iounit c = (validate_iounit c.msize iounit, c)

  unfoldable pub receive_version : ℕ → ℕ → Bytes → Stateful Client ClientResponse
  unfolding bytes
  receive_version tag msize version = do
    lift (ensure (tag == notag) (from_static "Rversion did not use NOTAG"))
    requested ← take_requested_msize (from_static "unsolicited Rversion")
    lift (ensure (not (ltb msize min_msize || ltb requested msize)) (msize_error msize requested))
    modify (λ c. record c {
      msize = msize;
      version = version;
      pending = reset c.pending;
      flush_targets = [];
    })
    completed tag (Completion.version msize version)

  unfoldable pub receive : RMessage → Stateful Client ClientResponse
  receive (RMessage.version tag msize version) = receive_version tag msize version
  receive (RMessage.error tag ename) = do
    end_error tag
    forget_flush tag
    return (ClientResponse.error tag ename)
  receive (RMessage.attach tag qid) = finish_with tag (Completion.attach qid)
  receive (RMessage.auth tag aqid) = finish_with tag (Completion.auth aqid)
  receive (RMessage.flush tag) = do
    finish_tag tag
    modify (drop_target tag)
    completed tag Completion.flush
  receive (RMessage.walk tag qids) = finish_with tag (Completion.walk qids)
  receive (RMessage.open_ tag qid iounit) = do
    finish_tag tag
    check_iounit iounit
    completed tag (Completion.open_ qid iounit)
  receive (RMessage.create tag qid iounit) = do
    finish_tag tag
    check_iounit iounit
    completed tag (Completion.create qid iounit)
  receive (RMessage.read tag payload) = finish_with tag (Completion.read payload)
  receive (RMessage.write tag count) = finish_with tag (Completion.write count)
  receive (RMessage.clunk tag) = finish_with tag Completion.clunk
  receive (RMessage.remove tag) = finish_with tag Completion.remove
  receive (RMessage.stat tag entry) = finish_with tag (Completion.stat entry)
  receive (RMessage.wstat tag) = finish_with tag Completion.wstat
  receive (RMessage.rename_at tag) = finish_with tag Completion.rename_at
  receive (RMessage.referrals tag entries) = finish_with tag (Completion.referrals entries)
