-- ===== src/Server/Replies.antt =====
-- Every request gets the reply that 9P prescribes: the same tag, and the request's own reply type or
-- an error. Here for the events of `admit`; `Answers` has `complete` and `handle`.
use r9p.Base.{ℕ, ◌≡◌, Bool-cases, refl, inl, inr, Bytes, Result, ok, err, arith, Result-cases}
use r9p.Message.{TMessage, ttag, rtag, tmessage_type, rmessage_type}
use r9p.Flush.{RequestKey, begin}
use r9p.Flush.Laws.{begin_lem}
use r9p.Session.{Session, reset_for_version}
use r9p.Server.{ServerEvent, error_reply}
use r9p.Server.Ensures.{
  Concerns, WhenOk, Ensures, Ensures-bind, Ensures-then, Ensures-return, Ensures-fail, ensures,
}
use r9p.Server.Arms.{
  admit_auth, admit_attach, admit_flush, admit_walk, admit_open, admit_create, admit_read,
  admit_write, admit_clunk, admit_remove, admit_stat, admit_wstat, admit_rename_at, admit_referrals,
}
use r9p.Server.Admit.{
  admit_after_begin, admit_begun, admit_other, admit, admit_version, finish_with_reply,
}

admit_after_begin-Concerns :
    (m : TMessage) (key : RequestKey)
    → key.tag ≡ ttag m
    → Ensures (Concerns (tmessage_type m) (ttag m)) (admit_after_begin m key)
unfolding admit_after_begin tmessage_type ttag admit_auth admit_attach admit_flush admit_walk
    admit_open admit_create admit_read admit_write admit_clunk admit_remove admit_stat admit_wstat
    admit_rename_at admit_referrals rtag rmessage_type
admit_after_begin-Concerns (TMessage.version _ _ _) key e = Ensures-fail _
admit_after_begin-Concerns (TMessage.flush _ oldtag) key e =
    Ensures-bind _ _
      λ _. Ensures-then _ _ (Ensures-then _ _ (Ensures-return _ (e, inr (omega arith))))
admit_after_begin-Concerns m key e = search ensures depth 20

admit_begun-Concerns :
    (m : TMessage) (key : RequestKey) (s : Session)
    → key.tag ≡ ttag m
    → Concerns (tmessage_type m) (ttag m) (admit_begun m key s).0
unfolding admit_begun finish_with_reply error_reply rtag rmessage_type
admit_begun-Concerns m key s e =
    go (admit_after_begin m key s).0 ((admit_after_begin-Concerns m key e).after s)
  where
    go :
        (r : Result ServerEvent)
        → WhenOk (Concerns (tmessage_type m) (ttag m)) r
        → Concerns
            (tmessage_type m)
            (ttag m)
            (elim r as (λ _. ServerEvent × Session) [
              | ok event ↦ (event, (admit_after_begin m key s).1)
              | err x ↦ finish_with_reply key (error_reply (ttag m) x) (admit_after_begin m key s).1
            ]).0
    go (ok event) h = h
    go (err x) h = (refl, inl refl)

admit_other-Concerns :
    (m : TMessage) (s : Session) → Concerns (tmessage_type m) (ttag m) (admit_other m s).0
unfolding admit_other error_reply rtag rmessage_type
admit_other-Concerns m s = elim (Bool-cases s.negotiated) [
  | inr off ↦ rw (off, admit_other) (refl, inl refl)
  | inl on ↦ elim (Result-cases (begin s.requests (ttag m))) [
    | inr (x, bad) ↦ rw (on, bad, admit_other) (refl, inl refl)
    | inl ((key, requests), good) ↦
        rw (on, good, admit_other)
          (admit_begun-Concerns m key (record s { requests = requests })
            (begin_lem s.requests (ttag m) 0 good).0)
  ]
]

admit_version-Concerns :
    (tag msize : ℕ) (version : Bytes) (s : Session)
    → Concerns 100 tag (admit_version tag msize version s).0
unfolding admit_version error_reply rtag rmessage_type
admit_version-Concerns tag msize version s =
    elim (Result-cases (reset_for_version msize version s).0) [
      | inl (n, good) ↦ rw (good, admit_version) (refl, inr (omega arith))
      | inr (x, bad) ↦ rw (bad, admit_version) (refl, inl refl)
    ]

-- Whatever the session's state, the event of a request is a reply to that request, or the dispatch
-- of a request of its kind under its tag.
pub admit-Concerns :
    (m : TMessage) (s : Session) → Concerns (tmessage_type m) (ttag m) (admit m s).0
unfolding admit tmessage_type ttag
admit-Concerns (TMessage.version tag msize version) s = admit_version-Concerns tag msize version s
admit-Concerns m s = admit_other-Concerns m s
