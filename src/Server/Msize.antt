-- ===== src/Server/Msize.antt =====
-- No action of the server on a request but a version changes the message size.
use r9p.Base.{ℕ, ◌≡◌, arith}
use r9p.Message.{TMessage}
use r9p.Flush.{RequestKey, FlushOutcome, cancelled, unknown}
use r9p.Session
use r9p.Session.{Session, M, ◌>>=◌, ◌>>◌, resume, return, fail}
use r9p.Session.Keeps.{
  Keeps, Keeps-bind, Keeps-then, Keeps-return, Keeps-lift, Keeps-fail, Keeps-if, Keeps-get_fid,
}
use r9p.Server.Arms.{
  gets, negotiated_variant, claim_auth_fid, reserve_walk, reserve_directories, flush_request,
  release_cancelled, finish_request, admit_auth, admit_attach, admit_flush, admit_walk, admit_open,
  admit_create, admit_read, admit_write, admit_clunk, admit_remove, admit_stat, admit_wstat,
  admit_rename_at, admit_referrals,
}
use r9p.Server.Admit.{admit_after_begin}

abbrev pub AtMsize : ℕ → Session → Type 0
AtMsize n s = s.msize ≡ n

module _ {n : ℕ} where
  pub Keeps-bind_fid :
      (fid : ℕ) (state : Session.FidState) → Keeps (AtMsize n) (Session.bind_fid fid state)
  unfolding Session.bind_fid
  Keeps-bind_fid fid state = record { after = λ s h. ground (arith, h) }

  Keeps-insert_new_fid :
      (fid : ℕ) (state : Session.FidState) → Keeps (AtMsize n) (Session.insert_new_fid fid state)
  unfolding Session.insert_new_fid Session.bind_fid
  Keeps-insert_new_fid fid state = record { after = λ s h. ground (arith, h) }

  Keeps-retire_fid : (key : RequestKey) (fid : ℕ) → Keeps (AtMsize n) (Session.retire_fid key fid)
  unfolding Session.retire_fid
  Keeps-retire_fid key fid = record { after = λ s h. ground (arith, h) }

  Keeps-reserve_existing_fid :
      (key : RequestKey) (fid : ℕ) → Keeps (AtMsize n) (Session.reserve_existing_fid key fid)
  unfolding Session.reserve_existing_fid
  Keeps-reserve_existing_fid key fid = record { after = λ s h. ground (arith, h) }

  Keeps-reserve_shared_fid :
      (key : RequestKey) (fid : ℕ) → Keeps (AtMsize n) (Session.reserve_shared_fid key fid)
  unfolding Session.reserve_shared_fid
  Keeps-reserve_shared_fid key fid = record { after = λ s h. ground (arith, h) }

  Keeps-reserve_new_fid :
      (key : RequestKey) (fid : ℕ) → Keeps (AtMsize n) (Session.reserve_new_fid key fid)
  unfolding Session.reserve_new_fid
  Keeps-reserve_new_fid key fid = record { after = λ s h. ground (arith, h) }

  Keeps-flush_request : (oldtag : ℕ) → Keeps (AtMsize n) (flush_request oldtag)
  unfolding flush_request
  Keeps-flush_request oldtag = record { after = λ s h. ground (arith, h) }

  Keeps-release_cancelled : (o : FlushOutcome) → Keeps (AtMsize n) (release_cancelled o)
  unfolding release_cancelled Session.release_reservations
  Keeps-release_cancelled (cancelled key) = record { after = λ s h. h }
  Keeps-release_cancelled unknown = record { after = λ s h. h }

  Keeps-finish_request : (key : RequestKey) → Keeps (AtMsize n) (finish_request key)
  unfolding finish_request
  Keeps-finish_request key = record { after = λ s h. h }

  Keeps-gets : {A : Type 0} (f : Session → A) → Keeps (AtMsize n) (gets f)
  unfolding gets
  Keeps-gets f = record { after = λ s h. h }

  pub Keeps-negotiated_variant : Keeps (AtMsize n) negotiated_variant
  unfolding negotiated_variant
  Keeps-negotiated_variant = record { after = λ s h. h }

ruleset keeping = (
  Keeps-bind, Keeps-then, Keeps-return, Keeps-lift, Keeps-fail, Keeps-if, Keeps-get_fid, Keeps-gets,
  Keeps-negotiated_variant, Keeps-reserve_existing_fid, Keeps-reserve_shared_fid,
  Keeps-reserve_new_fid, Keeps-retire_fid, Keeps-bind_fid, Keeps-insert_new_fid,
  Keeps-flush_request, Keeps-release_cancelled, Keeps-finish_request,
)

pub Keeps-admit_after_begin :
    (n : ℕ) (m : TMessage) (key : RequestKey) → Keeps (AtMsize n) (admit_after_begin m key)
unfolding admit_after_begin claim_auth_fid reserve_walk reserve_directories admit_auth admit_attach
    admit_flush admit_walk admit_open admit_create admit_read admit_write admit_clunk admit_remove
    admit_stat admit_wstat admit_rename_at admit_referrals
Keeps-admit_after_begin n (TMessage.version _ _ _) key = Keeps-fail _
Keeps-admit_after_begin n m key = search keeping depth 30
