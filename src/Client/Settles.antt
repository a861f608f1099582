-- ===== src/Client/Settles.antt =====
-- What `Client::receive` does with the reply to a pending request, and with any other.
use r9p.Base.{
  ℕ, ◌+◌, ◌^◌, ◌<◌, ◌≤◌, ◌≡◌, ◌≢◌, ◌⊎◌, inl, inr, refl, sym, ap, subst, ◌∙◌, Bool, true, false,
  Bool-cases, Option-cases, ◌==◌, Bytes, [], ◌∷◌, Option, some, none, Error, Result, ok, err,
  from_static, Result-cases, arith,
}
use r9p.Base.Map.{lookup, remove, lookup-remove}
use r9p.Base.Stateful.{Stateful, ◌>>=◌, ◌>>◌, return, modify}
use r9p.Message.{RMessage, rtag, notag}
use r9p.Codec.{max_iounit}
use r9p.Flush.{RequestKey, RequestTable, flush}
use r9p.Client.{Client}
use r9p.Client.Replies.{Completion, ClientResponse}
use r9p.Client.Responses.{IsReply, response_of, FitsIounit}
use r9p.Client.Receive.{
  finish_tag, forget_flush, drop_target, completed, end_error, validate_iounit, check_iounit,
  receive,
}
use r9p.Client.Finish.{
  then_at, settled, not_reserved, finish_tag-none, finish_tag-some, end_error_lem,
}

module _ (show : ℕ → Bytes) where
  -- A reply under a tag that waits for nothing is refused, and changes nothing.
  pub receive_unknown :
      (r : RMessage) (c : Client)
      → IsReply r
      → rtag r ≢ notag
      → lookup (rtag r) c.pending.live ≡ none
      → receive show r c ≡ (err (from_static "unknown response tag"), c)
  unfolding receive rtag
  receive_unknown (RMessage.version _ _ _) c reply ne e = absurd reply
  receive_unknown (RMessage.error tag ename) c reply ne e =
      then_at (end_error tag) _ c
        (end_error_lem tag c (ground arith) ∙ finish_tag-none tag c (ground arith) e)
  receive_unknown (RMessage.flush tag) c reply ne e =
      then_at (finish_tag tag) _ c (finish_tag-none tag c (ground arith) e)
  receive_unknown r c reply ne e =
      then_at (finish_tag (rtag r)) _ c (finish_tag-none (rtag r) c (ground arith) e)

-- A request is answered: its tag is free again, and every other request waits as before, but the one
-- that the reply to a flush ends.
pub record Settled (show : ℕ → Bytes) (r : RMessage) (c : Client) : Type 0 where
  pub accepted : (receive show r c).0 ≡ ok (response_of r)
  pub released : lookup (rtag r) (receive show r c).1.pending.live ≡ none
  pub others :
      (j : ℕ)
      → j ≢ rtag r
      → lookup (rtag r) c.flush_targets ≢ some j
      → lookup j (receive show r c).1.pending.live ≡ lookup j c.pending.live

release_lem : (tag : ℕ) (live : r9p.Base.Map.Map RequestKey) → lookup tag (remove tag live) ≡ none
release_lem tag live = ground (arith, lookup-remove tag tag live)

-- The end of a flush removes at most one more request.
drop_target-lookup :
    (flush_tag tag : ℕ) (c : Client)
    → lookup tag c.pending.live ≡ none
    → lookup tag (drop_target flush_tag c).pending.live ≡ none
unfolding drop_target flush
drop_target-lookup flush_tag tag c e = elim (Option-cases (lookup flush_tag c.flush_targets)) [
  | inl missing ↦ rw (missing, drop_target) e
  | inr (oldtag, found) ↦ rw (found, drop_target) (gone oldtag)
]
  where
    gone :
        (oldtag : ℕ)
        → lookup tag
            (elim (flush c.pending oldtag) as (λ _. RequestTable) [
              | ok (outcome, pending) ↦ pending
              | err x ↦ c.pending
            ]).live
          ≡ none
    gone oldtag = ground (arith, e, lookup-remove oldtag tag c.pending.live)

others_lem :
    (tag j : ℕ) (live : r9p.Base.Map.Map RequestKey)
    → j ≢ tag
    → lookup j (remove tag live) ≡ lookup j live
others_lem tag j live ne = ground (arith, lookup-remove tag j live)

drop_target-others :
    (flush_tag j : ℕ) (c : Client)
    → lookup flush_tag c.flush_targets ≢ some j
    → lookup j (drop_target flush_tag c).pending.live ≡ lookup j c.pending.live
unfolding drop_target flush
drop_target-others flush_tag j c ne = elim (Option-cases (lookup flush_tag c.flush_targets)) [
  | inl missing ↦ rw (missing, drop_target) refl
  | inr (oldtag, found) ↦ rw (found, drop_target) (kept oldtag (λ e. ne (found ∙ ap some e)))
]
  where
    kept :
        (oldtag : ℕ)
        → oldtag ≢ j
        → lookup j
            (elim (flush c.pending oldtag) as (λ _. RequestTable) [
              | ok (outcome, pending) ↦ pending
              | err x ↦ c.pending
            ]).live
          ≡ lookup j c.pending.live
    kept oldtag other = ground (arith, lookup-remove oldtag j c.pending.live)

-- The evidence, from what `receive` yields.
settles :
    (show : ℕ → Bytes) (r : RMessage) (c : Client) {c' : Client}
    → receive show r c ≡ (ok (response_of r), c')
    → lookup (rtag r) c'.pending.live ≡ none
    → ((j : ℕ)
        → j ≢ rtag r
        → lookup (rtag r) c.flush_targets ≢ some j
        → lookup j c'.pending.live ≡ lookup j c.pending.live)
    → Settled show r c
settles show r c e gone kept = record {
  accepted = ap (λ p. p.0) e;
  released = ap (λ p. lookup (rtag r) p.1.pending.live) e ∙ gone;
  others = λ j ne nt. ap (λ p. lookup j p.1.pending.live) e ∙ kept j ne nt;
}

module _ (show : ℕ → Bytes) where
  validate_iounit_fits :
      (msize iounit : ℕ) → iounit ≤ max_iounit msize → validate_iounit show msize iounit ≡ ok tt
  unfolding validate_iounit
  validate_iounit_fits msize iounit h = ground arith

  check_iounit_fits :
      (iounit : ℕ) (c : Client)
      → iounit ≤ max_iounit c.msize
      → check_iounit show iounit c ≡ (ok tt, c)
  unfolding check_iounit
  check_iounit_fits iounit c h = rw (validate_iounit_fits c.msize iounit h) refl

  finish_at :
      {B : Type 0} (k : Stateful Client B) (tag : ℕ) (c : Client) {key : RequestKey}
      → tag ≢ notag
      → lookup tag c.pending.live ≡ some key
      → (finish_tag tag >> k) c ≡ k (settled tag c)
  finish_at k tag c ne e =
      then_at (finish_tag tag) k c (finish_tag-some tag c (not_reserved tag ne) e)

  -- A reply that only ends its request.
  settles_plain :
      (r : RMessage) (k : Completion) (c : Client) {key : RequestKey}
      → response_of r ≡ ClientResponse.completion (rtag r) k
      → receive show r c ≡ (finish_tag (rtag r) >> completed (rtag r) k) c
      → rtag r ≢ notag
      → lookup (rtag r) c.pending.live ≡ some key
      → Settled show r c
  unfolding return
  settles_plain r k c means same ne e =
      settles show r c
        (same
          ∙ finish_at (completed (rtag r) k) (rtag r) c ne e
          ∙ ap (λ x. (ok x, settled (rtag r) c)) (sym means))
        (release_lem (rtag r) c.pending.live)
        (λ j other _. others_lem (rtag r) j c.pending.live other)

  -- A reply with an I/O unit.
  settles_iounit :
      (r : RMessage) (iounit : ℕ) (k : Completion) (c : Client) {key : RequestKey}
      → response_of r ≡ ClientResponse.completion (rtag r) k
      → receive show r c
        ≡ (finish_tag (rtag r) >> (check_iounit show iounit >> completed (rtag r) k)) c
      → iounit ≤ max_iounit c.msize
      → rtag r ≢ notag
      → lookup (rtag r) c.pending.live ≡ some key
      → Settled show r c
  unfolding return
  settles_iounit r iounit k c means same fits ne e =
      settles show r c
        (same
          ∙ finish_at (check_iounit show iounit >> completed (rtag r) k) (rtag r) c ne e
          ∙ then_at (check_iounit show iounit) (completed (rtag r) k) (settled (rtag r) c)
              (check_iounit_fits iounit (settled (rtag r) c) fits)
          ∙ ap (λ x. (ok x, settled (rtag r) c)) (sym means))
        (release_lem (rtag r) c.pending.live)
        (λ j other _. others_lem (rtag r) j c.pending.live other)

  -- The reply to a pending request, its I/O unit within the message size, is accepted as the response
  -- that it means, and its tag is then free again; every other request waits as before, but the target of a flush
  -- that the reply answers.
  pub receive-Settled :
      (r : RMessage) (c : Client) {key : RequestKey}
      → IsReply r
      → rtag r ≢ notag
      → FitsIounit c.msize r
      → lookup (rtag r) c.pending.live ≡ some key
      → Settled show r c
  unfolding receive rtag return modify forget_flush ◌>>◌ ◌>>=◌
  receive-Settled (RMessage.version _ _ _) c reply ne fits e = absurd reply
  receive-Settled (RMessage.error tag ename) c reply ne fits e =
      settles show (RMessage.error tag ename) c
        (then_at (end_error tag) _ c (
          end_error_lem tag c (not_reserved tag ne)
          ∙ finish_tag-some tag c (not_reserved tag ne) e))
        (release_lem tag c.pending.live) (λ j other _. others_lem tag j c.pending.live other)
  receive-Settled (RMessage.flush tag) c reply ne fits e =
      settles show (RMessage.flush tag) c (finish_at _ tag c ne e)
        (drop_target-lookup tag tag (settled tag c) (release_lem tag c.pending.live))
        (λ j other untargeted.
          drop_target-others tag j (settled tag c) untargeted
          ∙ others_lem tag j c.pending.live other)
  receive-Settled (RMessage.open_ tag qid iounit) c reply ne fits e =
      settles_iounit (RMessage.open_ tag qid iounit) iounit (Completion.open_ qid iounit) c refl
        refl fits ne e
  receive-Settled (RMessage.create tag qid iounit) c reply ne fits e =
      settles_iounit (RMessage.create tag qid iounit) iounit (Completion.create qid iounit) c refl
        refl fits ne e
  receive-Settled (RMessage.attach tag qid) c reply ne fits e =
      settles_plain (RMessage.attach tag qid) (Completion.attach qid) c refl refl ne e
  receive-Settled (RMessage.auth tag aqid) c reply ne fits e =
      settles_plain (RMessage.auth tag aqid) (Completion.auth aqid) c refl refl ne e
  receive-Settled (RMessage.walk tag qids) c reply ne fits e =
      settles_plain (RMessage.walk tag qids) (Completion.walk qids) c refl refl ne e
  receive-Settled (RMessage.read tag payload) c reply ne fits e =
      settles_plain (RMessage.read tag payload) (Completion.read payload) c refl refl ne e
  receive-Settled (RMessage.write tag count) c reply ne fits e =
      settles_plain (RMessage.write tag count) (Completion.write count) c refl refl ne e
  receive-Settled (RMessage.clunk tag) c reply ne fits e =
      settles_plain (RMessage.clunk tag) Completion.clunk c refl refl ne e
  receive-Settled (RMessage.remove tag) c reply ne fits e =
      settles_plain (RMessage.remove tag) Completion.remove c refl refl ne e
  receive-Settled (RMessage.stat tag entry) c reply ne fits e =
      settles_plain (RMessage.stat tag entry) (Completion.stat entry) c refl refl ne e
  receive-Settled (RMessage.wstat tag) c reply ne fits e =
      settles_plain (RMessage.wstat tag) Completion.wstat c refl refl ne e
  receive-Settled (RMessage.rename_at tag) c reply ne fits e =
      settles_plain (RMessage.rename_at tag) Completion.rename_at c refl refl ne e
  receive-Settled (RMessage.referrals tag entries) c reply ne fits e =
      settles_plain (RMessage.referrals tag entries) (Completion.referrals entries) c refl refl ne e
