-- ===== src/Server/Invariant.antt =====
-- The session's invariant holds from the first connection on, after every step of the server.
use r9p.Base.{
  ℕ, ◌≡◌, refl, sym, ap, ◌∙◌, subst, Bool, true, false, Bool-cases, Option-cases, inl, inr, [],
  Bytes, ltb, if◌then◌else◌, Result, ok, err, Result-cases, arith,
}
use r9p.Base.Map.{lookup}
use r9p.Message.{TMessage, ttag}
use r9p.Flush.{RequestKey, RequestTable, table_new, cancelled, unknown, begin, finish, flush}
use r9p.Flush.Laws.{IsTable, reset-IsTable}
use mathlib.Core.Option.{none-ne-some}
use r9p.Codec.{accept, min_msize}
use r9p.Session.{Session, ServerConfig, session_new, invalidate, reset_for_version, fail}
use r9p.Session.Invariant.{IsLive, Inv}
use r9p.Server.FlushArm.{flush_arm}
use r9p.Server.Begun.{begin-Holding, concluded-Inv, cancelled-Inv, unknown-Inv}
use r9p.Session.Keeps.{Holding}
use r9p.Server.Handle.{FileTree, Server, perform_file_tree_request, answer_event, handle}
use r9p.Server.{ServerEvent, reply, dispatch, flushed, ServerRequest, ServerCompletion, error_reply}
use r9p.Server.Admit.{
  admit_after_begin, finish_with_reply, admit_version, admit_begun, admit_other, admit,
}
use r9p.Server.Complete.{complete}
use r9p.Server.Stale.{concluded, complete_live, complete_stale}
use r9p.Server.Keeping.{IsOrdinary, Keeps-admit_after_begin}
use r9p.Server.Completing.{Keeps-apply_result}
use r9p.Session.Fids.{Keeps-bind_fid, Keeps-insert_new_fid}

cleared-Inv : (s : Session) → IsTable s.requests → s.fids ≡ [] → s.reservations ≡ [] → Inv s
unfolding lookup
cleared-Inv s table no_fids no_reservations = record {
  table = table;
  fids_bounded = rw no_fids (omega arith);
  distinct = rw no_reservations tt;
  held = λ j r e. absurd (none-ne-some r (ap (lookup j) (sym no_reservations) ∙ e));
  unbound = λ j r e n. rw no_fids refl;
}

-- A new session is well formed.
pub session_new-Inv : (config : ServerConfig) → Inv (session_new config)
unfolding session_new table_new lookup
session_new-Inv config =
    cleared-Inv (session_new config)
      (record { bounded = omega arith; entries = λ j k l. absurd (none-ne-some k l) }) refl refl

pub invalidate-Inv : (s : Session) → Inv s → Inv (invalidate s)
unfolding invalidate
invalidate-Inv s h = cleared-Inv (invalidate s) (reset-IsTable s.requests h.table) refl refl

reset_for_version-Inv :
    (msize : ℕ) (version : Bytes) (s : Session) → Inv s → Inv (reset_for_version msize version s).1
unfolding reset_for_version
reset_for_version-Inv msize version s h = elim (Bool-cases (ltb msize min_msize)) [
  | inl small ↦ rw (small, reset_for_version) (invalidate-Inv s h)
  | inr large ↦ elim (Option-cases (accept (invalidate s).config.variant version)) [
    | inl refused ↦ rw (large, refused, reset_for_version) (invalidate-Inv s h)
    | inr (v, agreed) ↦
        rw (large, agreed, reset_for_version)
          (cleared-Inv _ (invalidate-Inv s h).table (unfold invalidate in refl)
            (unfold invalidate in refl))
  ]
]

admit_version-Inv :
    (tag msize : ℕ) (version : Bytes) (s : Session)
    → Inv s
    → Inv (admit_version tag msize version s).1
unfolding admit_version
admit_version-Inv tag msize version s h =
    elim (Result-cases (reset_for_version msize version s).0) [
      | inl (n, good) ↦ rw (good, admit_version) (reset_for_version-Inv msize version s h)
      | inr (e, bad) ↦ rw (bad, admit_version) (reset_for_version-Inv msize version s h)
    ]

-- A flush: its target's reservations are released and both requests are gone.
admit_flush-Inv :
    (s : Session) (tag oldtag : ℕ) {key : RequestKey} {t : RequestTable}
    → Inv s
    → begin s.requests tag ≡ ok (key, t)
    → Inv (admit_begun (TMessage.flush tag oldtag) key (record s { requests = t })).1
unfolding admit_begun admit_after_begin finish_with_reply ttag
admit_flush-Inv s tag oldtag {key = key} {t = t} h b = elim (Result-cases (flush t oldtag)) [
  | inr (e, bad) ↦
      subst after (sym (flush_arm key oldtag (record s { requests = t }) (err e) bad))
        (concluded-Inv (record s { requests = t }) key (begin-Holding s tag h b))
  | inl ((unknown, t'), good) ↦
      subst after (sym (flush_arm key oldtag (record s { requests = t }) (ok (unknown, t')) good))
        (unknown-Inv s tag oldtag h b good)
  | inl ((cancelled other, t'), good) ↦
      subst after
        (sym (flush_arm key oldtag (record s { requests = t }) (ok (cancelled other, t')) good))
        (cancelled-Inv s tag oldtag h b good)
]
  where
    after : Result ServerEvent × Session → Type 0
    after p =
        Inv
          (elim p.0 as (λ _. ServerEvent × Session) [
            | ok event ↦ (event, p.1)
            | err e ↦ finish_with_reply key (error_reply tag e) p.1
          ]).1

admit_ordinary-Inv :
    (m : TMessage) (key : RequestKey) (s : Session)
    → IsOrdinary m
    → Holding key s
    → Inv (admit_begun m key s).1
unfolding admit_begun finish_with_reply
admit_ordinary-Inv m key s o h =
    let after : Holding key (admit_after_begin m key s).1 =
      (Keeps-admit_after_begin m key o).after s h in
    elim (Result-cases (admit_after_begin m key s).0) [
      | inl (event, good) ↦ rw (good, admit_begun) after.0
      | inr (e, bad) ↦ rw (bad, admit_begun) (concluded-Inv (admit_after_begin m key s).1 key after)
    ]

admit_begun-Inv :
    (m : TMessage) (s : Session) {key : RequestKey} {t : RequestTable}
    → Inv s
    → begin s.requests (ttag m) ≡ ok (key, t)
    → Inv (admit_begun m key (record s { requests = t })).1
unfolding ttag admit_begun admit_after_begin fail finish_with_reply
admit_begun-Inv (TMessage.version tag msize version) s {key = key} {t = t} h b =
    concluded-Inv (record s { requests = t }) key (begin-Holding s tag h b)
admit_begun-Inv (TMessage.flush tag oldtag) s h b = admit_flush-Inv s tag oldtag h b
admit_begun-Inv m s {key = key} {t = t} h b =
    admit_ordinary-Inv m key (record s { requests = t }) tt (begin-Holding s (ttag m) h b)

if-Inv : (b : Bool) (x y : ServerEvent × Session) → Inv x.1 → Inv y.1 → Inv (if b then x else y).1
if-Inv true x y hx hy = hx
if-Inv false x y hx hy = hy

admit_other-Inv : (m : TMessage) (s : Session) → Inv s → Inv (admit_other m s).1
unfolding admit_other
admit_other-Inv m s h =
    if-Inv s.negotiated _ _
      (elim (Result-cases (begin s.requests (ttag m))) [
        | inr (e, bad) ↦ rw bad h
        | inl ((key, t), good) ↦ rw good (admit_begun-Inv m s h good)
      ])
      h

-- Admitting any request in a well-formed session leaves a well-formed session.
pub admit-Inv : (m : TMessage) (s : Session) → Inv s → Inv (admit m s).1
unfolding admit
admit-Inv (TMessage.version tag msize version) s h = admit_version-Inv tag msize version s h
admit-Inv m s h = admit_other-Inv m s h

finish_live-key :
    (t : RequestTable) (key : RequestKey) → (finish t key).0 ≡ true → IsLive t.live key
unfolding finish
finish_live-key t key e = ground arith

-- Completing a request, live or stale, with any answer of the backend leaves a well-formed session
-- well formed.
pub complete-Inv :
    (request : ServerRequest) (completion : Result ServerCompletion) (s : Session)
    → Inv s
    → Inv (complete request completion s).1
complete-Inv request completion s h = elim (Bool-cases (finish s.requests request.key).0) [
  | inr stale ↦ rw (complete_stale request completion s stale) h
  | inl live ↦ rw (complete_live request completion s live) (
      (Keeps-apply_result Inv Keeps-bind_fid Keeps-insert_new_fid request.key.tag request.kind
          completion).after
        (concluded request.key s)
        (concluded-Inv s request.key (h, finish_live-key s.requests request.key live)))
]

module _ {T : Type 0} (tree : FileTree T) where
  answer_event-Inv :
      (event : ServerEvent) (server : Server T)
      → Inv server.session
      → Inv (answer_event tree event server).1.session
  unfolding answer_event
  answer_event-Inv (reply m) server h = h
  answer_event-Inv (flushed m o) server h = h
  answer_event-Inv (dispatch request) server h =
      complete-Inv request (perform_file_tree_request tree request server.state).0 server.session h

  -- Over any file tree, a request handled in a well-formed session leaves a well-formed session.
  pub handle-Inv :
      (m : TMessage) (server : Server T) → Inv server.session → Inv (handle tree m server).1.session
  unfolding handle
  handle-Inv (TMessage.version tag msize version) server h =
      let after = admit-Inv (TMessage.version tag msize version) server.session h in
      elim (Result-cases (tree.reset server.state).0) [
        | inl (u, good) ↦
            rw (good, handle)
              (answer_event-Inv (admit (TMessage.version tag msize version) server.session).0 _
                after)
        | inr (x, bad) ↦ rw (bad, handle) (invalidate-Inv _ after)
      ]
  handle-Inv m server h =
      answer_event-Inv (admit m server.session).0 _ (admit-Inv m server.session h)
