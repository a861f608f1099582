-- ===== src/Server/Admit.antt =====
-- crates/core/src/server/handlers.rs: `Server::admit`, from a request to an event.
use r9p.Base.{ℕ, ok, err, Bytes, if◌then◌else◌, from_static}
use r9p.Message.{TMessage, RMessage, ttag}
use r9p.Flush.{RequestKey, begin}
use r9p.Session.{Session, M, fail, reset_for_version, release_reservations}
use r9p.Server.{ServerEvent, reply, error_reply}
use r9p.Server.Arms.{
  finish_request, admit_auth, admit_attach, admit_flush, admit_walk, admit_open, admit_create,
  admit_read, admit_write, admit_clunk, admit_remove, admit_stat, admit_wstat, admit_rename_at,
  admit_referrals,
}

-- `Tversion` never gets here: the source marks that arm unreachable.
unfoldable pub admit_after_begin : TMessage → RequestKey → M ServerEvent
admit_after_begin (TMessage.version _ _ _) key = fail (from_static "unreachable")
admit_after_begin (TMessage.auth _ afid uname aname) key = admit_auth key afid uname aname
admit_after_begin (TMessage.attach _ fid afid uname aname) key =
    admit_attach key fid afid uname aname
admit_after_begin (TMessage.flush _ oldtag) key = admit_flush key oldtag
admit_after_begin (TMessage.walk _ fid newfid wnames) key = admit_walk key fid newfid wnames
admit_after_begin (TMessage.open_ _ fid mode) key = admit_open key fid mode
admit_after_begin (TMessage.create _ fid name perm mode) key = admit_create key fid name perm mode
admit_after_begin (TMessage.read _ fid offset count) key = admit_read key fid offset count
admit_after_begin (TMessage.write _ fid offset data') key = admit_write key fid offset data'
admit_after_begin (TMessage.clunk _ fid) key = admit_clunk key fid
admit_after_begin (TMessage.remove _ fid) key = admit_remove key fid
admit_after_begin (TMessage.stat _ fid) key = admit_stat key fid
admit_after_begin (TMessage.wstat _ fid stat) key = admit_wstat key fid stat
admit_after_begin (TMessage.rename_at _ olddirfid oldname newdirfid newname) key =
    admit_rename_at key olddirfid oldname newdirfid newname
admit_after_begin (TMessage.referrals _ fid) key = admit_referrals key fid

-- `finish_with_reply`.
unfoldable pub finish_with_reply : RequestKey → RMessage → Session → ServerEvent × Session
unfolding finish_request
finish_with_reply key message s = (reply message, release_reservations (finish_request key s).1 key)

unfoldable pub admit_version : ℕ → ℕ → Bytes → Session → ServerEvent × Session
admit_version tag msize version s =
    let (r, s') = reset_for_version msize version s in
    elim r [
      | ok negotiation ↦ (reply (RMessage.version tag s'.msize s'.version), s')
      | err e ↦ (reply (error_reply tag e), s')
    ]

-- The session once the request table has begun the request.
unfoldable pub admit_begun : TMessage → RequestKey → Session → ServerEvent × Session
admit_begun message key s =
    let (r, s') = admit_after_begin message key s in
    elim r [
      | ok event ↦ (event, s')
      | err e ↦ finish_with_reply key (error_reply (ttag message) e) s'
    ]

unfoldable pub admit_other : TMessage → Session → ServerEvent × Session
admit_other message s =
    if s.negotiated
    then elim (begin s.requests (ttag message)) [
      | err e ↦ (reply (error_reply (ttag message) e), s)
      | ok (key, requests) ↦ admit_begun message key (record s { requests = requests })
    ]
    else (reply (error_reply (ttag message) (from_static "version not negotiated")), s)

unfoldable pub admit : TMessage → Session → ServerEvent × Session
admit (TMessage.version tag msize version) s = admit_version tag msize version s
admit message s = admit_other message s
